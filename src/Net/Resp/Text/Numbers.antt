-- ===== src/Net/Resp/Text/Numbers.antt =====
-- `parseLong` reads back what `std::to_string` writes, and such a text has no line feed.
use mnemos.Prelude.{
  ℕ, zero, suc, ◌+◌, ◌-◌, ◌*◌, ◌/◌, ◌%◌, ◌^◌, ◌<◌, some, [], ◌∷◌, ◌++◌, ◌≡◌, refl, ap, ◌∙◌, ◌≢◌,
  arith, All, All-append, append_assoc,
}
use mnemos.Prelude.Int.{pos}
use mnemos.Prelude.Decimal.{decimal, decimal_ind, decimal_one, decimal_more, decimal_head}
use mnemos.Prelude.Bytes.{Bytes}
use mnemos.Net.Resp.Text.{find_newline, find_crlf, digits_value, from_chars, parse_long}
use mnemos.Net.Resp.Text.Lines.{find_newline-line, drop_cr-line}

digits_value_snoc :
    (s : Bytes) (acc a d : ℕ)
    → digits_value s acc ≡ some a
    → d < 10
    → digits_value (s ++ (b'0' + d) ∷ []) acc ≡ some (a * 10 + d)
unfolding digits_value
digits_value_snoc [] acc a d e h = ground arith
digits_value_snoc (c ∷ s) acc a d e h =
    ground (arith, digits_value_snoc s (acc * 10 + (c - b'0')) a d)

digits_value_one : (n : ℕ) → n < 10 → digits_value ((b'0' + n) ∷ []) 0 ≡ some n
unfolding digits_value
digits_value_one n h = ground arith

digits_value-decimal : (n : ℕ) → digits_value (decimal n) 0 ≡ some n
digits_value-decimal n =
    decimal_ind (λ k. digits_value (decimal k) 0 ≡ some k)
      (λ k p. rw (decimal_one k p) (digits_value_one k p))
      (λ k p ih. rw (decimal_more k p) (
        digits_value_snoc (decimal (k / 10)) 0 (k / 10) (k % 10) ih (omega arith)
        ∙ ap some (omega arith)))
      n n (omega arith)

pub parse_long-decimal : (n : ℕ) → n < 2 ^ 63 → parse_long (decimal n) ≡ some (pos n)
parse_long-decimal zero h = rw (decimal_one 0 (omega arith)) (unfold parse_long in refl)
parse_long-decimal (suc n) h =
    let (c, s, e, lo, hi) = decimal_head (suc n) (omega arith) in
    let value : digits_value (c ∷ s) 0 ≡ some (suc n) = rw (← e) (digits_value-decimal (suc n)) in
    rw e (unfold parse_long from_chars in ground (arith, value))

decimal_no_newline : (n : ℕ) → All (λ c. c ≢ 10) (decimal n)
decimal_no_newline n =
    decimal_ind (λ k. All (λ c. c ≢ 10) (decimal k)) (λ k p. rw (decimal_one k p) (omega arith))
      (λ k p ih. rw (decimal_more k p) (All-append _ (decimal (k / 10)) _ ih (omega arith))) n n
      (omega arith)

pub find_crlf-line :
    (line rest : Bytes)
    → All (λ c. c ≢ 10) line
    → find_crlf (line ++ 13 ∷ 10 ∷ rest) ≡ some (line, rest)
find_crlf-line line rest h =
    let found : find_newline (line ++ 13 ∷ 10 ∷ rest) ≡ some (line ++ 13 ∷ [], rest) =
      rw (← append_assoc line (13 ∷ []) (10 ∷ rest))
        (find_newline-line (line ++ 13 ∷ []) rest (All-append _ line _ h (omega arith))) in
    unfold find_crlf in rw (found, drop_cr-line line, find_crlf)

-- A header line: one byte and a number.
pub find_crlf-header :
    (c n : ℕ) (rest : Bytes)
    → c ≢ 10
    → find_crlf (c ∷ (decimal n ++ 13 ∷ 10 ∷ rest)) ≡ some (c ∷ decimal n, rest)
find_crlf-header c n rest h = find_crlf-line (c ∷ decimal n) rest (h, decimal_no_newline n)
