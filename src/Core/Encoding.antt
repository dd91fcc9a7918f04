-- ===== src/Core/Encoding.antt =====
-- src/core/encoding.h and encoding.cpp: the object types, the encodings, and the strict integer
-- parse that decides between them.
pub mod Parse
pub mod RoundTrip
use mnemos.Prelude.{ℕ, zero, suc, ◌+◌, ◌-◌, ◌*◌, ◌/◌, ◌%◌, ◌^◌, ◌≤◌, ◌<◌}
use mnemos.Prelude.{◌≡◌, refl, sym, ap, ◌∙◌, Bool, true, false, ◌&&◌, ◌||◌}
use mnemos.Prelude.{Option, none, some, List, [], ◌∷◌, ◌++◌, length}
use mnemos.Prelude.{arith, ltb, leb, ◌==◌, if◌then◌else◌}
use mnemos.Prelude.Bytes.{Bytes}
use mnemos.Prelude.Int.{ℤ, pos, negsuc, neg_of}

pub data ObjType : Type 0 where
  string list set hash zset : ObjType

pub data ObjEncoding : Type 0 where
  int emb_str raw list_pack quick_list int_set hash_table skip_list : ObjEncoding

abbrev pub emb_str_size_limit : ℕ
emb_str_size_limit = 44

abbrev uint64_max : ℕ
uint64_max = 0xffff_ffff_ffff_ffff

abbrev int64_max : ℕ
int64_max = 0x7fff_ffff_ffff_ffff

-- The loop over the digits: `none` on a byte that is no digit and on overflow.
unfoldable pub parse_digits : Bytes → ℕ → Option ℕ
parse_digits [] acc = some acc
parse_digits (c ∷ s) acc =
    let rest = parse_digits s (acc * 10 + (c - b'0')) in
    if ltb c b'0' || ltb b'9' c
    then none
    else if ltb ((uint64_max - (c - b'0')) / 10) acc
    then none
    else rest

-- The range check at the end of `stringToInt64`.
unfoldable pub to_signed : Bool → ℕ → Option ℤ
to_signed true acc = if ltb (int64_max + 1) acc then none else some (neg_of acc)
to_signed false acc = if ltb int64_max acc then none else some (pos acc)

-- What follows the sign: `s.size() - i` is the length here.
unfoldable pub parse_magnitude : Bool → Bytes → Option ℤ
unfolding parse_digits to_signed
parse_magnitude negative [] = none
parse_magnitude negative (c ∷ s) =
    if c == b'0'
    then (if length s == 0 then (if negative then none else some (pos 0)) else none)
    else elim (parse_digits (c ∷ s) 0) [ none ↦ none | some acc ↦ to_signed negative acc ]

-- `out` is left alone where the result is `none`.
unfoldable pub string_to_int64 : Bytes → Option ℤ
unfolding parse_magnitude
string_to_int64 [] = none
string_to_int64 (c ∷ s) =
    if leb 21 (length (c ∷ s))
    then none
    else if c == b'-'
    then parse_magnitude true s
    else parse_magnitude false (c ∷ s)

unfoldable pub type_name : ObjType → Bytes
type_name ObjType.string = b's' ∷ b't' ∷ b'r' ∷ b'i' ∷ b'n' ∷ b'g' ∷ []
type_name ObjType.list = b'l' ∷ b'i' ∷ b's' ∷ b't' ∷ []
type_name ObjType.set = b's' ∷ b'e' ∷ b't' ∷ []
type_name ObjType.hash = b'h' ∷ b'a' ∷ b's' ∷ b'h' ∷ []
type_name ObjType.zset = b'z' ∷ b's' ∷ b'e' ∷ b't' ∷ []

unfoldable pub encoding_name : ObjEncoding → Bytes
encoding_name ObjEncoding.int = b'i' ∷ b'n' ∷ b't' ∷ []
encoding_name ObjEncoding.emb_str = b'e' ∷ b'm' ∷ b'b' ∷ b's' ∷ b't' ∷ b'r' ∷ []
encoding_name ObjEncoding.raw = b'r' ∷ b'a' ∷ b'w' ∷ []
encoding_name ObjEncoding.list_pack = b'l' ∷ b'i' ∷ b's' ∷ b't' ∷ b'p' ∷ b'a' ∷ b'c' ∷ b'k' ∷ []
encoding_name ObjEncoding.quick_list =
    b'q' ∷ b'u' ∷ b'i' ∷ b'c' ∷ b'k' ∷ b'l' ∷ b'i' ∷ b's' ∷ b't' ∷ []
encoding_name ObjEncoding.int_set = b'i' ∷ b'n' ∷ b't' ∷ b's' ∷ b'e' ∷ b't' ∷ []
encoding_name ObjEncoding.hash_table =
    b'h' ∷ b'a' ∷ b's' ∷ b'h' ∷ b't' ∷ b'a' ∷ b'b' ∷ b'l' ∷ b'e' ∷ []
encoding_name ObjEncoding.skip_list = b's' ∷ b'k' ∷ b'i' ∷ b'p' ∷ b'l' ∷ b'i' ∷ b's' ∷ b't' ∷ []
