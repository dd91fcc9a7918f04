-- ===== src/Prelude/Decimal.antt =====
-- `std::to_string` on integers: the decimal text of a number, as ASCII bytes.
use mnemos.Prelude.{ℕ, zero, suc, ◌+◌, ◌*◌, ◌/◌, ◌%◌, ◌^◌, ◌≤◌, ◌<◌}
use mnemos.Prelude.{◌≡◌, refl, ◌∙◌, List, [], ◌∷◌, ◌++◌, length, length-append}
use mnemos.Prelude.{arith, ltb, if◌then◌else◌, dec_lt}
use mnemos.Prelude.Int.{ℤ, pos, negsuc}

-- The first argument is fuel; any number from `n` on is enough.
decimal_loop : ℕ → ℕ → List ℕ
decimal_loop zero n = (b'0' + n) ∷ []
decimal_loop (suc fuel) n =
    let more = decimal_loop fuel (n / 10) ++ (b'0' + n % 10) ∷ [] in
    if ltb n 10 then (b'0' + n) ∷ [] else more

unfoldable pub decimal : ℕ → List ℕ
unfolding decimal_loop
decimal n = decimal_loop n n

unfoldable pub to_string : ℤ → List ℕ
to_string (pos n) = decimal n
to_string (negsuc n) = b'-' ∷ decimal (suc n)

decimal_loop_fuel : (f g n : ℕ) → n ≤ f → n ≤ g → decimal_loop f n ≡ decimal_loop g n
unfolding decimal_loop
decimal_loop_fuel zero zero n p q = refl
decimal_loop_fuel zero (suc g) n p q = ground arith
decimal_loop_fuel (suc f) zero n p q = ground arith
decimal_loop_fuel (suc f) (suc g) n p q =
    ground (arith, decimal_loop_fuel f g (n / 10) (omega arith) (omega arith))

pub decimal_one : (n : ℕ) → n < 10 → decimal n ≡ (b'0' + n) ∷ []
unfolding decimal
decimal_one zero h = refl
decimal_one (suc n) h = ground arith

pub decimal_more : (n : ℕ) → 10 ≤ n → decimal n ≡ decimal (n / 10) ++ (b'0' + n % 10) ∷ []
unfolding decimal
decimal_more zero h = absurd (omega arith)
decimal_more (suc n) h =
    ground (arith, decimal_loop_fuel n (suc n / 10) (suc n / 10) (omega arith) (omega arith))

-- Appending a digit to the text multiplies by ten.
pub decimal_snoc : (a d : ℕ) → 1 ≤ a → d < 10 → decimal (a * 10 + d) ≡ decimal a ++ (b'0' + d) ∷ []
decimal_snoc a d h k =
    let q : (a * 10 + d) / 10 ≡ a = omega arith in
    let r : (a * 10 + d) % 10 ≡ d = omega arith in
    decimal_more (a * 10 + d) (omega arith) ∙ rw (q, r)

-- Strong induction over the digits, last digit first.
pub decimal_ind {ℓ} :
    (P : ℕ → Type ℓ)
    → ((n : ℕ) → n < 10 → P n)
    → ((n : ℕ) → 10 ≤ n → P (n / 10) → P n)
    → (fuel n : ℕ) → n ≤ fuel
    → P n
decimal_ind P one more zero n h = one n (omega arith)
decimal_ind P one more (suc fuel) n h = elim (dec_lt n 10) [
  | yes p ↦ one n p
  | no p ↦ more n (omega arith) (decimal_ind P one more fuel (n / 10) (omega arith))
]

pub length-decimal : (k n : ℕ) → n < 10 ^ suc k → length (decimal n) ≤ suc k
length-decimal zero n h = rw (decimal_one n (omega arith)) (omega arith)
length-decimal (suc k) n h = elim (dec_lt n 10) [
  | yes p ↦ rw (decimal_one n p) (omega arith)
  | no p ↦
      rw (decimal_more n (omega arith), length-append)
        (omega (arith, length-decimal k (n / 10) (omega arith)))
]

-- The text has a first digit, and it is no zero but for 0 itself.
pub decimal_head :
    (n : ℕ) → 1 ≤ n → (c : ℕ) × (s : List ℕ) × (decimal n ≡ c ∷ s) × (b'1' ≤ c) × (c ≤ b'9')
decimal_head n h =
    decimal_ind
      (λ n. 1 ≤ n → (c : ℕ) × (s : List ℕ) × (decimal n ≡ c ∷ s) × (b'1' ≤ c) × (c ≤ b'9'))
      (λ n p q. (b'0' + n, [], decimal_one n p, omega arith, omega arith))
      (λ n p ih q.
        let (c, s, e, lo, hi) = ih (omega arith) in
        (c, s ++ (b'0' + n % 10) ∷ [], decimal_more n p ∙ rw e, lo, hi))
      n n (omega arith) h
