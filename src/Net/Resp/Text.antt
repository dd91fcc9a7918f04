-- ===== src/Net/Resp/Text.antt =====
-- The text helpers of src/net/resp.cpp. A buffer and a position in it are modelled by the bytes
-- from that position on: no code looks at what stands before it.
pub mod Lines
pub mod Numbers
use mnemos.Prelude.{
  ℕ, zero, suc, ◌+◌, ◌-◌, ◌*◌, ◌^◌, ◌≤◌, ◌<◌, Bool, true, false, ◌&&◌, ◌||◌, Option, none, some,
  List, [], ◌∷◌, ltb, leb, ◌==◌, if◌then◌else◌,
}
use mnemos.Prelude.Int.{ℤ, pos, neg_of}
use mnemos.Prelude.Bytes.{Bytes}

-- The number that a text of digits writes; leading zeros are let through.
unfoldable pub digits_value : Bytes → ℕ → Option ℕ
digits_value [] acc = some acc
digits_value (c ∷ s) acc =
    let rest = digits_value s (acc * 10 + (c - b'0')) in
    if leb b'0' c && leb c b'9' then rest else none

-- `std::from_chars` into an int64 that has to use up at least one digit.
unfoldable pub from_chars : Bool → Bytes → Option ℤ
unfolding digits_value
from_chars negative [] = none
from_chars negative (c ∷ s) = elim (digits_value (c ∷ s) 0) [
  | none ↦ none
  | some v ↦
      if negative
      then (if leb v (2 ^ 63) then some (neg_of v) else none)
      else (if ltb v (2 ^ 63) then some (pos v) else none)
]

unfoldable pub parse_long : Bytes → Option ℤ
unfolding from_chars
parse_long [] = none
parse_long (c ∷ s) = if c == b'-' then from_chars true s else from_chars false (c ∷ s)

-- `buf.find('\n', pos)`: the bytes before the first line feed, and those behind it.
unfoldable pub find_newline : Bytes → Option (Bytes × Bytes)
find_newline [] = none
find_newline (c ∷ s) =
    if c == 10
    then some ([], s)
    else elim (find_newline s) [ none ↦ none | some (line, rest) ↦ some (c ∷ line, rest) ]

-- The line without a carriage return at its end; `none` where there is none to drop.
unfoldable pub drop_cr : Bytes → Option Bytes
drop_cr [] = none
drop_cr (c ∷ []) = if c == 13 then some [] else none
drop_cr (c ∷ d ∷ s) = elim (drop_cr (d ∷ s)) [ none ↦ none | some line ↦ some (c ∷ line) ]

-- `none` stands for npos. Otherwise the line before the CRLF, and the bytes behind it.
unfoldable pub find_crlf : Bytes → Option (Bytes × Bytes)
unfolding find_newline drop_cr
find_crlf s = elim (find_newline s) [
  | none ↦ none
  | some (line, rest) ↦ elim (drop_cr line) [ none ↦ none | some body ↦ some (body, rest) ]
]

-- -1 is `none`.
unfoldable pub hex_digit_to_int : ℕ → Option ℕ
hex_digit_to_int c =
    if leb b'0' c && leb c b'9'
    then some (c - b'0')
    else if leb b'a' c && leb c b'f'
    then some (c - b'a' + 10)
    else if leb b'A' c && leb c b'F'
    then some (c - b'A' + 10)
    else none

-- `std::isspace` in the C locale.
abbrev pub is_space : ℕ → Bool
is_space c = c == 32 || (leb 9 c && leb c 13)
