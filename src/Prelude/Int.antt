-- ===== src/Prelude/Int.antt =====
-- Signed integers over the native numbers, under the library's names, and the two readings of a
-- machine word: its bit pattern (a number below 2 ^ w) and the integer that it stands for.
use mnemos.Prelude.{
  ℕ, suc, ◌+◌, ◌-◌, ◌*◌, ◌%◌, ◌^◌, ◌≤◌, ◌<◌, ◌≡◌, ◌↔◌, Bool, true, arith, ltb, leb, ◌==◌,
  if◌then◌else◌,
}

-- `negsuc n` is -(n + 1).
pub data ℤ : Type 0 where
  pos : ℕ → ℤ
  negsuc : ℕ → ℤ

abbrev pub pos_part : ℤ → ℕ
pos_part (pos n) = n
pos_part (negsuc n) = 0

abbrev pub neg_part : ℤ → ℕ
neg_part (pos n) = 0
neg_part (negsuc n) = suc n

infix 50 ◌≤ℤ◌ ◌<ℤ◌
abbrev pub ◌≤ℤ◌ : ℤ → ℤ → Type 0
a ≤ℤ b = pos_part a + neg_part b ≤ pos_part b + neg_part a

abbrev pub ◌<ℤ◌ : ℤ → ℤ → Type 0
a <ℤ b = pos_part a + neg_part b < pos_part b + neg_part a

abbrev pub ltb_ℤ : ℤ → ℤ → Bool
ltb_ℤ a b = ltb (pos_part a + neg_part b) (pos_part b + neg_part a)

abbrev pub leb_ℤ : ℤ → ℤ → Bool
leb_ℤ a b = leb (pos_part a + neg_part b) (pos_part b + neg_part a)

abbrev pub eqb_ℤ : ℤ → ℤ → Bool
eqb_ℤ a b = (pos_part a + neg_part b) == (pos_part b + neg_part a)

-- -n, for a number n.
abbrev pub neg_of : ℕ → ℤ
neg_of n = if n == 0 then pos 0 else negsuc (n - 1)

pub eq_of_parts : (a b : ℤ) → pos_part a + neg_part b ≡ pos_part b + neg_part a → a ≡ b
eq_of_parts a b h = ground arith

pub eqb_ℤ_iff : (a b : ℤ) → (eqb_ℤ a b ≡ true) ↔ (a ≡ b)
eqb_ℤ_iff a b = (λ h. eq_of_parts a b (ground arith), λ e. ground arith)

-- The unsigned word that the bits of `v` make, for -2 ^ (w - 1) ≤ v < 2 ^ w, with m = 2 ^ w.
abbrev pub to_word : ℕ → ℤ → ℕ
to_word m (pos n) = n
to_word m (negsuc n) = m - suc n

-- The signed integer that a word below m = 2 ^ w stands for.
abbrev pub of_word : ℕ → ℕ → ℤ
of_word m u = if ltb (u + u) m then pos u else negsuc (m - u - 1)

-- -2 ^ 63 ≤ v < 2 ^ 63
abbrev pub IsI64 : ℤ → Type 0
IsI64 v = (pos_part v < 2 ^ 63) × (neg_part v ≤ 2 ^ 63)

-- `a + b` and `a * k`, for a number k
abbrev pub plus_ℤ : ℤ → ℤ → ℤ
plus_ℤ a b =
    let up = pos_part a + pos_part b in
    let down = neg_part a + neg_part b in
    if leb down up then pos (up - down) else neg_of (down - up)

abbrev pub times_ℤ : ℤ → ℕ → ℤ
times_ℤ (pos n) k = pos (n * k)
times_ℤ (negsuc n) k = neg_of (suc n * k)

-- The sum of two int64 in 64 bits, as the machine wraps it.
abbrev pub wrap_i64 : ℤ → ℤ
wrap_i64 (pos n) = of_word (2 ^ 64) (n % 2 ^ 64)
wrap_i64 (negsuc n) = of_word (2 ^ 64) ((2 ^ 64 - suc n) % 2 ^ 64)
