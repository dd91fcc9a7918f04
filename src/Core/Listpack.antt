-- ===== src/Core/Listpack.antt =====
-- src/core/listpack.cpp, the encodings of one entry: payload and backlen, written and read. The
-- masks and shifts of a byte are written as divisions and remainders, and the `|` of disjoint bits
-- as a sum.
pub mod Buffer
pub mod Entry
pub mod Reads
pub mod Edits
pub mod Writes
pub mod Erase
pub mod Places
pub mod Local
pub mod Accepts
pub mod Strings
pub mod Search
pub mod Layout
pub mod Backlen
use mnemos.Prelude.{
  ℕ, zero, suc, ◌+◌, ◌-◌, ◌*◌, ◌/◌, ◌%◌, ◌^◌, Bool, true, false, Option, none, some, List, [], ◌∷◌,
  ◌++◌, length, take, drop, ltb, leb, ◌==◌, if◌then◌else◌,
}
use mnemos.Prelude.Bytes.{Bytes}
use mnemos.Prelude.Decimal.{to_string}
use mnemos.Prelude.Int.{ℤ, pos, negsuc, to_word, of_word}
use mnemos.Core.Encoding.{string_to_int64}
use mnemos.Core.IntSet.{append_le, from_le, fits}

-- `Listpack::Element`: `is_integer` says which of the two fields counts.
pub data Element : Type 0 where
  integer : ℤ → Element
  string : Bytes → Element

-- `Element::toString`
unfoldable pub element_to_string : Element → Bytes
element_to_string (integer v) = to_string v
element_to_string (string s) = s

-- `encodeInteger`: the smallest encoding that fits.
unfoldable pub encode_integer : ℤ → Bytes
encode_integer v =
    let word = to_word (2 ^ 64) v in
    if fits 0 127 v
    then word % 2 ^ 8 ∷ []
    else if fits 4096 4095 v
    then (0xC0 + word % 2 ^ 13 / 2 ^ 8) ∷ word % 2 ^ 13 % 2 ^ 8 ∷ []
    else if fits 32768 32767 v
    then 0xF1 ∷ append_le 2 (word % 2 ^ 16)
    else if fits 8388608 8388607 v
    then 0xF2 ∷ append_le 3 (word % 2 ^ 32)
    else if fits 2147483648 2147483647 v
    then 0xF3 ∷ append_le 4 (word % 2 ^ 32)
    else 0xF4 ∷ append_le 8 word

-- What `encodeString` writes before the bytes of the string.
unfoldable pub string_header : ℕ → Bytes
string_header len =
    if ltb len 64
    then (0x80 + len) ∷ []
    else if ltb len 4096
    then (0xE0 + len / 2 ^ 8) ∷ len % 2 ^ 8 ∷ []
    else 0xF0 ∷ append_le 4 (len % 2 ^ 32)

unfoldable pub encode_string : Bytes → Bytes
encode_string s = string_header (length s) ++ s

-- `encodeBacklen`: the bytes written; their number is what the function returns.
unfoldable pub encode_backlen : ℕ → Bytes
encode_backlen value =
    if leb value 127
    then value ∷ []
    else if ltb value 16384
    then value / 2 ^ 7 ∷ (value % 2 ^ 7 + 2 ^ 7) ∷ []
    else if ltb value 2097152
    then value / 2 ^ 14 ∷ (value / 2 ^ 7 % 2 ^ 7 + 2 ^ 7) ∷ (value % 2 ^ 7 + 2 ^ 7) ∷ []
    else if ltb value 268435456
    then value / 2 ^ 21
      ∷ (value / 2 ^ 14 % 2 ^ 7 + 2 ^ 7)
      ∷ (value / 2 ^ 7 % 2 ^ 7 + 2 ^ 7)
      ∷ (value % 2 ^ 7 + 2 ^ 7)
      ∷ []
    else value / 2 ^ 28 % 2 ^ 8
      ∷ (value / 2 ^ 21 % 2 ^ 7 + 2 ^ 7)
      ∷ (value / 2 ^ 14 % 2 ^ 7 + 2 ^ 7)
      ∷ (value / 2 ^ 7 % 2 ^ 7 + 2 ^ 7)
      ∷ (value % 2 ^ 7 + 2 ^ 7)
      ∷ []

-- The rounds of `decodeBacklenBackwards`. The list holds the byte at `last` and the bytes before
-- it, nearest first; `none` is a read in front of the memory. A sixth byte gives (0, 0).
unfoldable pub backlen_rounds : Bytes → ℕ → ℕ → ℕ → Option (ℕ × ℕ)
backlen_rounds [] value shift bytes_read = none
backlen_rounds (b ∷ before) value shift bytes_read =
    let value' = value + b % 2 ^ 7 * 2 ^ shift in
    let rest = backlen_rounds before value' (shift + 7) (bytes_read + 1) in
    if ltb b 128
    then some (value', bytes_read + 1)
    else if ltb 28 (shift + 7)
    then some (0, 0)
    else rest

-- The value and `bytes_read`.
unfoldable pub decode_backlen_backwards : Bytes → Option (ℕ × ℕ)
unfolding backlen_rounds
decode_backlen_backwards before = backlen_rounds before 0 0 0

-- `buildIntegerEntry`, and the end of `buildEntry`.
unfoldable pub with_backlen : Bytes → Bytes
with_backlen payload = payload ++ encode_backlen (length payload)

unfoldable pub build_integer_entry : ℤ → Bytes
build_integer_entry v = with_backlen (encode_integer v)

unfoldable pub payload_of : Bytes → Option ℤ → Bytes
payload_of s none = encode_string s
payload_of s (some v) = encode_integer v

unfoldable pub build_entry : Bytes → Bytes
build_entry s = with_backlen (payload_of s (string_to_int64 s))

-- The string branches of `decodeAt`: `header` bytes come before the string, and `p` is what
-- follows the first of them.
unfoldable pub decode_string : ℕ → ℕ → Bytes → Option (Element × ℕ)
decode_string header len p =
    if ltb (suc (length p)) (header + len)
    then none
    else some (string (take len (drop (header - 1) p)), header + len)

-- `p[1]`, and the bits of the encoding byte above it.
unfoldable pub decode_int13 : ℕ → Bytes → Option (Element × ℕ)
decode_int13 high [] = none
decode_int13 high (b ∷ p) = some (integer (of_word (2 ^ 13) (high * 2 ^ 8 + b)), 2)

unfoldable pub decode_string12 : ℕ → Bytes → Option (Element × ℕ)
decode_string12 high [] = none
decode_string12 high (b ∷ p) = decode_string 2 (high * 2 ^ 8 + b) (b ∷ p)

unfoldable pub decode_string32 : Bytes → Option (Element × ℕ)
decode_string32 p = if ltb (suc (length p)) 5 then none else decode_string 5 (from_le (take 4 p)) p

-- The integers of `k` bytes, the lowest first, with m = 2 ^ (8 * k).
unfoldable pub decode_signed : ℕ → ℕ → Bytes → Option (Element × ℕ)
decode_signed k m p =
    if ltb (suc (length p)) (suc k)
    then none
    else some (integer (of_word m (from_le (take k p))), suc k)

-- The branches of `decodeAt`: the element and `payload_size`.
unfoldable pub decode_payload : Bytes → Option (Element × ℕ)
decode_payload [] = none
decode_payload (encoding ∷ p) =
    if ltb encoding 0x80
    then some (integer (pos (encoding % 2 ^ 7)), 1)
    else if encoding / 2 ^ 6 == 2
    then decode_string 1 (encoding % 2 ^ 6) p
    else if encoding / 2 ^ 5 == 6
    then decode_int13 (encoding % 2 ^ 5) p
    else if encoding / 2 ^ 4 == 14
    then decode_string12 (encoding % 2 ^ 4) p
    else if encoding == 0xF0
    then decode_string32 p
    else if encoding == 0xF1
    then decode_signed 2 (2 ^ 16) p
    else if encoding == 0xF2
    then decode_signed 3 (2 ^ 24) p
    else if encoding == 0xF3
    then decode_signed 4 (2 ^ 32) p
    else if encoding == 0xF4
    then decode_signed 8 (2 ^ 64) p
    else none

-- The last test of `decodeAt`: the backlen has to fit into what remains.
unfoldable pub sized_entry : ℕ → Option (Element × ℕ) → Option (Element × ℕ)
sized_entry remaining none = none
sized_entry remaining (some (e, payload_size)) =
    let size = payload_size + length (encode_backlen payload_size) in
    if ltb remaining size then none else some (e, size)

-- `decodeAt`, on the bytes from the offset on. A size of 0 is `none`.
unfoldable pub decode_entry : Bytes → Option (Element × ℕ)
decode_entry p = sized_entry (length p) (decode_payload p)
