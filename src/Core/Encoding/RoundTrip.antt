-- ===== src/Core/Encoding/RoundTrip.antt =====
-- `stringToInt64` against `std::to_string`: each undoes the other.
use mnemos.Prelude.{
  ℕ, zero, suc, ◌-◌, ◌^◌, ◌≤◌, ◌<◌, ◌≡◌, refl, Bool, true, false, some, [], ◌∷◌, arith, length,
  Bool-cases, inl, inr, ◌==◌, Option-cases,
}
use mnemos.Prelude.Int.{ℤ, pos, negsuc, IsI64}
use mnemos.Prelude.Decimal.{decimal, to_string, decimal_one, length-decimal, decimal_head}
use mnemos.Prelude.Bytes.{Bytes}
use mnemos.Core.Encoding.{parse_digits, parse_magnitude, to_signed, string_to_int64}
use mnemos.Core.Encoding.Parse.{parse_digits-decimal, parse_digits_cons}

parse_magnitude-decimal :
    (negative : Bool) (n : ℕ)
    → 1 ≤ n
    → n < 2 ^ 64
    → parse_magnitude negative (decimal n) ≡ to_signed negative n
parse_magnitude-decimal negative n h k =
    let (c, s, e, lo, hi) = decimal_head n h in
    rw e (unfold parse_magnitude in ground (arith, parse_digits-decimal n k, e))

parse-to_string_pos : (n : ℕ) → n < 2 ^ 63 → string_to_int64 (decimal n) ≡ some (pos n)
parse-to_string_pos zero h = unfold string_to_int64 decimal in refl
parse-to_string_pos (suc n) h =
    let (c, s, e, lo, hi) = decimal_head (suc n) (omega arith) in
    let short : length (c ∷ s) ≤ 20 = rw e at (length-decimal 19 (suc n) (omega arith)) in
    rw e (
      unfold string_to_int64 in
      ground (arith, parse_magnitude-decimal false (suc n) (omega arith) (omega arith), e))

-- Every int64 is read back from the text that `std::to_string` makes of it.
pub string_to_int64-to_string : (v : ℤ) → IsI64 v → string_to_int64 (to_string v) ≡ some v
string_to_int64-to_string (pos n) h = unfold to_string in parse-to_string_pos n h.0
string_to_int64-to_string (negsuc n) h =
    let short : length (decimal (suc n)) ≤ 19 = length-decimal 18 (suc n) (omega arith) in
    unfold to_string string_to_int64 to_signed in
    ground (arith, parse_magnitude-decimal true (suc n) (omega arith) (omega arith))

to_string-magnitude_neg :
    (s : Bytes) (v : ℤ) → parse_magnitude true s ≡ some v → (to_string v ≡ b'-' ∷ s) × IsI64 v
unfolding parse_magnitude to_signed to_string
to_string-magnitude_neg [] v e = cc
to_string-magnitude_neg (c ∷ s) v e = elim (Option-cases (parse_digits (c ∷ s) 0)) [
  | inl fails ↦ absurd (ground (arith, fails))
  | inr (r, reads) ↦
      let (text, large) = parse_digits_cons c s r (ground arith) reads in
      let value : v ≡ negsuc (r - 1) = ground (arith, reads) in
      let small : r ≤ 2 ^ 63 = ground (arith, reads) in
      let same : suc (r - 1) ≡ r = omega arith in rw (value, same, text) (refl, omega arith)
]

-- A first digit zero stands alone.
to_string-zero :
    (c : ℕ) (s : Bytes) (v : ℤ)
    → (c == b'0') ≡ true
    → parse_magnitude false (c ∷ s) ≡ some v
    → (to_string v ≡ c ∷ s) × IsI64 v
unfolding parse_magnitude to_string
to_string-zero c (x ∷ s) v h e = absurd (ground arith)
to_string-zero c [] v h e =
    let digit : c ≡ b'0' = ground arith in
    let value : v ≡ pos 0 = ground arith in
    rw (digit, value) (decimal_one 0 (omega arith), omega arith)

to_string-magnitude_pos :
    (s : Bytes) (v : ℤ) → parse_magnitude false s ≡ some v → (to_string v ≡ s) × IsI64 v
unfolding parse_magnitude to_signed to_string
to_string-magnitude_pos [] v e = cc
to_string-magnitude_pos (c ∷ s) v e = elim (Bool-cases (c == b'0')) [
  | inl first ↦ to_string-zero c s v first e
  | inr other ↦ elim (Option-cases (parse_digits (c ∷ s) 0)) [
    | inl fails ↦ absurd (ground (arith, fails))
    | inr (r, reads) ↦
        let (text, large) = parse_digits_cons c s r (ground arith) reads in
        let value : v ≡ pos r = ground (arith, reads) in
        let small : r < 2 ^ 63 = ground (arith, reads) in rw (value, text) (refl, omega arith)
  ]
]

-- What the parse accepts is exactly the text that `std::to_string` makes of its result, which is
-- in range: no leading zero, sign or space is let through.
pub to_string-string_to_int64 :
    (s : Bytes) (v : ℤ) → string_to_int64 s ≡ some v → (to_string v ≡ s) × IsI64 v
unfolding string_to_int64
to_string-string_to_int64 [] v e = cc
to_string-string_to_int64 (c ∷ s) v e = elim (Bool-cases (c == b'-')) [
  | inl minus ↦
      let head : b'-' ≡ c = ground arith in
      rw (← head) (to_string-magnitude_neg s v (ground (arith, minus)))
  | inr other ↦ to_string-magnitude_pos (c ∷ s) v (ground (arith, other))
]
