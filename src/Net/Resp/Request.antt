-- ===== src/Net/Resp/Request.antt =====
-- `RequestParser` of src/net/resp.h and resp.cpp, and `encodeCommand`, which writes what it reads.
-- The buffer from `pos` on is the argument `buf`; the new `pos` is what is left of it. The status
-- `error` says which message the code reports; the connection is closed after it.
pub mod Stable
pub mod RoundTrip
pub mod Inline
pub mod Limits
use mnemos.Prelude.{
  ℕ, zero, suc, ◌+◌, ◌-◌, ◌*◌, ◌^◌, Bool, true, false, ◌&&◌, ◌||◌, Option, none, some, List, [],
  ◌∷◌, ◌++◌, length, ltb, leb, ◌==◌, if◌then◌else◌, take, drop,
}
use mnemos.Prelude.Int.{ℤ, pos, negsuc}
use mnemos.Prelude.Decimal.{decimal}
use mnemos.Prelude.Bytes.{Bytes}
use mnemos.Net.Resp.Text.{parse_long, find_newline, find_crlf, drop_cr}
use mnemos.Net.Resp.SplitArgs.{split_args}

abbrev pub max_multibulk_length : ℕ
max_multibulk_length = 1024 * 1024

abbrev pub max_bulk_length : ℕ
max_bulk_length = 512 * 1024 * 1024

abbrev pub max_inline_request : ℕ
max_inline_request = 64 * 1024

-- `bulk_len` is `none` for -1. `multibulk_len` is never negative.
pub record RequestParser : Type 0 where
  pub argv : List Bytes
  pub multibulk_len : ℕ
  pub bulk_len : Option ℕ

-- `reset`, which is also the state of a new parser
abbrev pub fresh : RequestParser
fresh = record { argv = []; multibulk_len = 0; bulk_len = none }

pub data Message : Type 0 where
  too_big_inline unbalanced_quotes too_big_count invalid_multibulk too_big_bulk_count : Message
  invalid_bulk : Message
  expected_dollar : ℕ → Message

-- The status with what the call leaves behind. `hangs` is no status: the code does not return.
pub data Outcome : Type 0 where
  incomplete : RequestParser → Bytes → Outcome
  complete : List Bytes → Bytes → Outcome
  error : Message → Outcome
  hangs : Outcome

-- An inline command; `argv_` and the lengths are reset on success. `line_end` drops one carriage
-- return at the end of the line.
pub inline_line : Bytes → Bytes
unfolding drop_cr
inline_line line = elim (drop_cr line) [ none ↦ line | some body ↦ body ]

parse_inline : RequestParser → Bytes → Outcome
unfolding inline_line find_newline split_args
parse_inline p buf = elim (find_newline buf) [
  | none ↦
      if ltb max_inline_request (length buf) then error Message.too_big_inline else incomplete p buf
  | some (line, rest) ↦ elim (split_args (inline_line line)) [
    | none ↦ hangs
    | some none ↦ error Message.unbalanced_quotes
    | some (some argv) ↦ complete argv rest
  ]
]

-- The length of a bulk: not negative and at most `max_bulk_length`.
bulk_length : Bytes → Option ℕ
unfolding parse_long
bulk_length s = elim (parse_long s) [
  | none ↦ none
  | some (negsuc n) ↦ none
  | some (pos n) ↦ if ltb max_bulk_length n then none else some n
]

-- The end of a round of the body loop: the payload and its CRLF, once both are there. `next` goes
-- on with the next argument; `n` arguments follow this one.
payload : ℕ → (List Bytes → Bytes → Outcome) → ℕ → List Bytes → Bytes → Outcome
payload n next len argv buf =
    if ltb (length buf) (len + 2)
    then incomplete (record { argv = argv; multibulk_len = suc n; bulk_len = some len }) buf
    else next (argv ++ take len buf ∷ []) (drop (len + 2) buf)

-- The header of a bulk, `$<len>\r\n`. The argument is what `find_crlf` makes of the buffer.
bulk_header :
    ℕ → (List Bytes → Bytes → Outcome) → List Bytes → Bytes → Option (Bytes × Bytes) → Outcome
unfolding payload bulk_length
bulk_header n next argv buf none =
    if ltb max_inline_request (length buf)
    then error Message.too_big_bulk_count
    else incomplete (record { argv = argv; multibulk_len = suc n; bulk_len = none }) buf
bulk_header n next argv buf (some ([], rest)) = error (Message.expected_dollar 13)
bulk_header n next argv buf (some (c ∷ digits, rest)) =
    if c == b'$'
    then elim (bulk_length digits) [
      | none ↦ error Message.invalid_bulk
      | some len ↦ payload n next len argv rest
    ]
    else error (Message.expected_dollar c)

-- The loop `while (multibulk_len_ > 0)`.
parse_body : ℕ → Option ℕ → List Bytes → Bytes → Outcome
unfolding bulk_header find_crlf
parse_body zero bulk argv buf = complete argv buf
parse_body (suc n) none argv buf = bulk_header n (parse_body n none) argv buf (find_crlf buf)
parse_body (suc n) (some len) argv buf = payload n (parse_body n none) len argv buf

-- What `*<count>\r\n` announces. Counts from 0 down are well-formed commands without arguments.
multibulk_header : RequestParser → Bytes → Option (Bytes × Bytes) → Outcome
unfolding parse_body parse_long
multibulk_header p buf none =
    if ltb max_inline_request (length buf) then error Message.too_big_count else incomplete p buf
multibulk_header p buf (some ([], rest)) = error Message.invalid_multibulk
multibulk_header p buf (some (star ∷ digits, rest)) = elim (parse_long digits) [
  | none ↦ error Message.invalid_multibulk
  | some (negsuc n) ↦ complete [] rest
  | some (pos n) ↦
      if ltb max_multibulk_length n
      then error Message.invalid_multibulk
      else parse_body n none [] rest
]

-- A call between two commands: the first byte chooses the form.
parse_first : RequestParser → Bytes → Outcome
unfolding parse_inline multibulk_header find_crlf
parse_first p [] = incomplete p []
parse_first p (c ∷ buf) =
    if c == b'*'
    then multibulk_header p (c ∷ buf) (find_crlf (c ∷ buf))
    else parse_inline p (c ∷ buf)

parse_from : ℕ → RequestParser → Bytes → Outcome
unfolding parse_first parse_body
parse_from zero p buf = parse_first p buf
parse_from (suc n) p buf = parse_body (suc n) p.bulk_len p.argv buf

unfoldable pub parse : RequestParser → Bytes → Outcome
unfolding parse_from
parse p buf = parse_from p.multibulk_len p buf

abbrev crlf : Bytes
crlf = 13 ∷ 10 ∷ []

encode_args : List Bytes → Bytes
encode_args [] = []
encode_args (a ∷ argv) = b'$' ∷ (decimal (length a) ++ (crlf ++ (a ++ (crlf ++ encode_args argv))))

unfoldable pub encode_command : List Bytes → Bytes
unfolding encode_args
encode_command argv = b'*' ∷ (decimal (length argv) ++ (crlf ++ encode_args argv))
