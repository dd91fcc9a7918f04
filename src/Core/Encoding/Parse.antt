-- ===== src/Core/Encoding/Parse.antt =====
-- The digit loop and the range checks of `stringToInt64`.
use mnemos.Prelude.{
  ℕ, ◌+◌, ◌-◌, ◌*◌, ◌/◌, ◌%◌, ◌^◌, ◌≤◌, ◌<◌, ◌≡◌, sym, ap, ◌∙◌, ◌≢◌, some, [], ◌∷◌, ◌++◌,
  append_assoc, append-nil, arith,
}
use mnemos.Prelude.Decimal.{decimal, decimal_one, decimal_more, decimal_snoc, decimal_ind}
use mnemos.Prelude.Bytes.{Bytes}
use mnemos.Core.Encoding.{parse_digits}

-- One more digit behind a text that parses.
parse_digits_snoc :
    (s : Bytes) (acc a d : ℕ)
    → parse_digits s acc ≡ some a
    → d < 10
    → a * 10 + d < 2 ^ 64
    → parse_digits (s ++ (b'0' + d) ∷ []) acc ≡ some (a * 10 + d)
unfolding parse_digits
parse_digits_snoc [] acc a d e h k = ground arith
parse_digits_snoc (c ∷ s) acc a d e h k =
    ground (arith, parse_digits_snoc s (acc * 10 + (c - b'0')) a d)

parse_digits_one : (n : ℕ) → n < 10 → parse_digits ((b'0' + n) ∷ []) 0 ≡ some n
unfolding parse_digits
parse_digits_one n h = ground arith

pub parse_digits-decimal : (n : ℕ) → n < 2 ^ 64 → parse_digits (decimal n) 0 ≡ some n
parse_digits-decimal n h =
    decimal_ind (λ k. k < 2 ^ 64 → parse_digits (decimal k) 0 ≡ some k)
      (λ k p q. rw (decimal_one k p) (parse_digits_one k p))
      (λ k p ih q. rw (decimal_more k p) (
        parse_digits_snoc (decimal (k / 10)) 0 (k / 10) (k % 10) (ih (omega arith)) (omega arith)
          (omega arith)
        ∙ ap some (omega arith)))
      n n (omega arith) h

-- What the digit loop accepts is the decimal text of its result.
pub decimal-parse_digits :
    (s : Bytes) (acc r : ℕ)
    → 1 ≤ acc
    → parse_digits s acc ≡ some r
    → (decimal r ≡ decimal acc ++ s) × (acc ≤ r)
unfolding parse_digits
decimal-parse_digits [] acc r h e =
    let same : r ≡ acc = ground arith in (rw same (sym (append-nil _)), omega arith)
decimal-parse_digits (c ∷ s) acc r h e =
    let low : b'0' ≤ c = ground arith in
    let high : c ≤ b'9' = ground arith in
    let next : parse_digits s (acc * 10 + (c - b'0')) ≡ some r = ground arith in
    let (ih, le) = decimal-parse_digits s (acc * 10 + (c - b'0')) r (omega arith) next in
    let digit : b'0' + (c - b'0') ≡ c = omega arith in
    (
      ih
          ∙ ap (λ t. t ++ s) (decimal_snoc acc (c - b'0') h (omega arith))
          ∙ append_assoc (decimal acc) ((b'0' + (c - b'0')) ∷ []) s
          ∙ rw digit,
      omega arith,
    )

-- The first digit of a text without a leading zero.
pub parse_digits_cons :
    (c : ℕ) (s : Bytes) (r : ℕ)
    → c ≢ b'0'
    → parse_digits (c ∷ s) 0 ≡ some r
    → (decimal r ≡ c ∷ s) × (1 ≤ r)
unfolding parse_digits
parse_digits_cons c s r h e =
    let low : b'0' ≤ c = ground arith in
    let high : c ≤ b'9' = ground arith in
    let next : parse_digits s (c - b'0') ≡ some r = ground arith in
    let (ih, le) = decimal-parse_digits s (c - b'0') r (omega arith) next in
    let digit : b'0' + (c - b'0') ≡ c = omega arith in
    (ih ∙ rw (decimal_one (c - b'0') (omega arith), digit), omega arith)
