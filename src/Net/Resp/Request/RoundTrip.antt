-- ===== src/Net/Resp/Request/RoundTrip.antt =====
-- `RequestParser::parse` reads back what `encodeCommand` writes.
use mnemos.Prelude.{
  ℕ, ◌+◌, ◌≤◌, false, none, some, List, [], ◌∷◌, ◌++◌, length, length-append, drop,
  take-append_length, drop-append_length, ltb, ◌≡◌, refl, ap, ◌∙◌, arith, All, append_assoc,
  append-nil,
}
use mnemos.Prelude.Decimal.{decimal}
use mnemos.Prelude.Bytes.{Bytes}
use mnemos.Net.Resp.Text.Numbers.{parse_long-decimal, find_crlf-header}
use mnemos.Net.Resp.Request.{
  complete, fresh, bulk_length, payload, bulk_header, parse_body, multibulk_header, parse_first,
  parse_from, parse, max_multibulk_length, max_bulk_length, encode_args, encode_command,
}

bulk_length-decimal : (n : ℕ) → n ≤ max_bulk_length → bulk_length (decimal n) ≡ some n
bulk_length-decimal n h = unfold bulk_length in ground (arith, parse_long-decimal n (omega arith))

payload-exact :
    (n : ℕ) (argv : List Bytes) (a rest : Bytes)
    → payload n (parse_body n none) (length a) argv (a ++ 13 ∷ 10 ∷ rest)
      ≡ parse_body n none (argv ++ a ∷ []) rest
payload-exact n argv a rest =
    let enough : ltb (length (a ++ 13 ∷ 10 ∷ rest)) (length a + 2) ≡ false =
      ground (arith, length-append a (13 ∷ 10 ∷ rest)) in
    let left : drop (length a + 2) (a ++ 13 ∷ 10 ∷ rest) ≡ rest =
      rw (← append_assoc a (13 ∷ 10 ∷ []) rest) (
        drop-append_length (length a + 2) (a ++ 13 ∷ 10 ∷ []) rest
          (omega (arith, length-append a (13 ∷ 10 ∷ [])))) in
    unfold payload in rw (enough, take-append_length a (13 ∷ 10 ∷ rest), left)

parse_body-encode_args :
    (args done : List Bytes) (rest : Bytes)
    → All (λ a. length a ≤ max_bulk_length) args
    → parse_body (length args) none done (encode_args args ++ rest) ≡ complete (done ++ args) rest
parse_body-encode_args [] done rest h = rw (append-nil done) (unfold parse_body encode_args in refl)
parse_body-encode_args (a ∷ args) done rest h =
    step
    ∙ parse_body-encode_args args (done ++ a ∷ []) rest h.1
    ∙ ap (λ t. complete t rest) (append_assoc done (a ∷ []) args)
  where
    tail : Bytes
    tail = encode_args args ++ rest

    shape :
        encode_args (a ∷ args) ++ rest
        ≡ b'$' ∷ (decimal (length a) ++ 13 ∷ 10 ∷ (a ++ 13 ∷ 10 ∷ tail))
    shape = unfold encode_args in simp append_assoc

    step :
        parse_body (length (a ∷ args)) none done (encode_args (a ∷ args) ++ rest)
        ≡ parse_body (length args) none (done ++ a ∷ []) tail
    step = rw shape (
        unfold parse_body bulk_header in
        rw
          (
            find_crlf-header b'$' (length a) (a ++ 13 ∷ 10 ∷ tail) (omega arith),
            bulk_length-decimal (length a) h.0,
          )
          (payload-exact (length args) done a tail))

-- The parser reads an encoded command back, and leaves the bytes behind it, whatever these are,
-- for every list of arguments within the limits of the protocol, the empty one included.
pub parse-encode_command :
    (argv : List Bytes) (rest : Bytes)
    → length argv ≤ max_multibulk_length
    → All (λ a. length a ≤ max_bulk_length) argv
    → parse fresh (encode_command argv ++ rest) ≡ complete argv rest
parse-encode_command argv rest few short =
    let tail : Bytes = encode_args argv ++ rest in
    let shape : encode_command argv ++ rest ≡ b'*' ∷ (decimal (length argv) ++ 13 ∷ 10 ∷ tail) =
      unfold encode_command in simp append_assoc in
    let fits : ltb max_multibulk_length (length argv) ≡ false = ground arith in
    rw shape (
      unfold parse parse_from parse_first multibulk_header in
      rw
        (
          find_crlf-header b'*' (length argv) tail (omega arith),
          parse_long-decimal (length argv) (omega arith),
          fits,
          multibulk_header,
        )
        (parse_body-encode_args argv [] rest short))
