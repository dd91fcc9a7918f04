-- ===== src/Kafka/Wire.antt =====
-- src/kafka/wire.h and wire.cpp: the big-endian reader and writer. The buffer of a reader from its
-- position on is `rest`; where a reader that failed stands does not matter, as it reads no more. A
-- writer is the bytes that it holds, and a write returns the longer ones.
pub mod RoundTrip
use mnemos.Prelude.{
  ℕ, zero, suc, ◌+◌, ◌-◌, ◌*◌, ◌/◌, ◌%◌, ◌^◌, Bool, true, false, ◌&&◌, ◌||◌, not, Option, none,
  some, List, [], ◌∷◌, ◌++◌, length, take, drop, ltb, leb, ◌==◌, if◌then◌else◌,
}
use mnemos.Prelude.Bytes.{Bytes}
use mnemos.Prelude.Int.{ℤ, pos, negsuc, to_word, of_word, pos_part, neg_part}

pub record Reader : Type 0 where
  pub rest : Bytes
  pub is_ok : Bool

-- `need`
unfoldable pub need : ℕ → Reader → Bool × Reader
need n r =
    if not r.is_ok
    then (false, r)
    else if ltb (length r.rest) n
    then (false, record r { is_ok = false })
    else (true, r)

-- `remaining`
unfoldable pub remaining : Reader → ℕ
remaining r = if r.is_ok then length r.rest else 0

-- The unsigned number that bytes in this order make, the highest first.
unfoldable pub be_from : ℕ → Bytes → ℕ
be_from value [] = value
be_from value (b ∷ s) = be_from (value * 256 + b) s

-- A word of `n` bytes, 0 where they are not there.
word_if : Bool → ℕ → Reader → ℕ × Reader
word_if false n r = (0, r)
word_if true n r = (be_from 0 (take n r.rest), record r { rest = drop n r.rest })

unfoldable pub read_word : ℕ → Reader → ℕ × Reader
unfolding need be_from word_if
read_word n r = let (there, r') = need n r in word_if there n r'

unfoldable pub read_int8 : Reader → ℤ × Reader
unfolding read_word
read_int8 r = let (u, r') = read_word 1 r in (of_word (2 ^ 8) u, r')

unfoldable pub read_int16 : Reader → ℤ × Reader
unfolding read_word
read_int16 r = let (u, r') = read_word 2 r in (of_word (2 ^ 16) u, r')

unfoldable pub read_uint32 : Reader → ℕ × Reader
unfolding read_word
read_uint32 r = read_word 4 r

unfoldable pub read_int32 : Reader → ℤ × Reader
unfolding read_uint32
read_int32 r = let (u, r') = read_uint32 r in (of_word (2 ^ 32) u, r')

unfoldable pub read_int64 : Reader → ℤ × Reader
unfolding read_word
read_int64 r = let (u, r') = read_word 8 r in (of_word (2 ^ 64) u, r')

-- The groups of seven bits, the lowest first, with what is left of the buffer. `groups` more are
-- allowed; a group that is missing or one too many is a failure. The code adds each group at its
-- place, and here the later groups are worth 128 times as much.
unfoldable pub read_groups : ℕ → Bytes → Option (ℕ × Bytes)
read_groups zero s = none
read_groups (suc groups) [] = none
read_groups (suc groups) (b ∷ s) =
    let more = read_groups groups s in
    if leb 128 b
    then elim more [ none ↦ none | some r ↦ some (b % 128 + 128 * r.0, r.1) ]
    else some (b, s)

-- `(raw >> 1) ^ -(raw & 1)`
abbrev pub unzigzag : ℕ → ℤ
unzigzag raw = if raw % 2 == 0 then pos (raw / 2) else negsuc (raw / 2)

varlong_of : Option (ℕ × Bytes) → Reader → ℤ × Reader
varlong_of none r = (pos 0, record r { is_ok = false })
varlong_of (some (raw, s)) r = (unzigzag (raw % 2 ^ 64), record r { rest = s })

-- A reader that failed already stays as it is.
unfoldable pub read_varlong : Reader → ℤ × Reader
unfolding read_groups varlong_of
read_varlong r = if r.is_ok then varlong_of (read_groups 10 r.rest) r else (pos 0, r)

unfoldable pub read_varint : Reader → ℤ × Reader
unfolding read_varlong
read_varint r =
    let (v, r') = read_varlong r in
    if ltb (2 ^ 31 - 1) (pos_part v) || ltb (2 ^ 31) (neg_part v)
    then (pos 0, record r' { is_ok = false })
    else (v, r')

taken : Bool → ℕ → Reader → Option Bytes × Reader
taken false n r = (none, r)
taken true n r = (some (take n r.rest), record r { rest = drop n r.rest })

-- `takeView`
unfoldable pub take_view : ℕ → Reader → Option Bytes × Reader
unfolding need taken
take_view n r = let (there, r') = need n r in taken there n r'

-- The bytes behind a length that was read; a negative one is null.
unfoldable pub counted : ℤ → Reader → Option Bytes × Reader
unfolding take_view
counted (negsuc n) r = (none, r)
counted (pos n) r = if r.is_ok then take_view n r else (none, r)

-- `none` is null, or a failure.
unfoldable pub read_nullable_string : Reader → Option Bytes × Reader
read_nullable_string r = let (len, r') = read_int16 r in counted len r'

unfoldable pub read_nullable_bytes : Reader → Option Bytes × Reader
unfolding read_int32 counted
read_nullable_bytes r = let (len, r') = read_int32 r in counted len r'

-- `string`, where null is the empty string
unfoldable pub or_empty : Option Bytes → Bytes
or_empty none = []
or_empty (some s) = s

unfoldable pub read_string : Reader → Bytes × Reader
unfolding read_nullable_string or_empty
read_string r = let (s, r') = read_nullable_string r in (or_empty s, r')

array_of : ℤ → Reader → ℕ × Bool × Reader
unfolding remaining
array_of (negsuc n) r = (0, true, r)
array_of (pos n) r =
    if ltb (remaining r) n then (0, false, record r { is_ok = false }) else (n, false, r)

-- The count, and whether the array was null.
unfoldable pub read_array_len : Reader → ℕ × Bool × Reader
unfolding read_int32 array_of
read_array_len r = let (n, r') = read_int32 r in array_of n r'

unfoldable pub skip : ℕ → Reader → Reader
unfolding need
skip n r = let (there, r') = need n r in if there then record r' { rest = drop n r'.rest } else r'

varint_bytes_of : ℤ → Reader → Option (Option Bytes) × Reader
unfolding take_view
varint_bytes_of (negsuc n) r = if r.is_ok then (some none, r) else (none, r)
varint_bytes_of (pos n) r =
    if r.is_ok
    then (let (s, r') = take_view n r in (elim s [ none ↦ none | some b ↦ some (some b) ], r'))
    else (none, r)

-- `none` is a failure, `some none` null.
unfoldable pub read_varint_bytes : Reader → Option (Option Bytes) × Reader
unfolding read_varint varint_bytes_of
read_varint_bytes r = let (len, r') = read_varint r in varint_bytes_of len r'

-- The lowest `k` bytes of a word, the highest of them first.
unfoldable pub be_bytes : ℕ → ℕ → Bytes
be_bytes zero u = []
be_bytes (suc k) u = u / 256 ^ k % 256 ∷ be_bytes k u

unfoldable pub write_int8 : Bytes → ℤ → Bytes
unfolding be_bytes
write_int8 buf v = buf ++ be_bytes 1 (to_word (2 ^ 8) v)

unfoldable pub write_int16 : Bytes → ℤ → Bytes
unfolding be_bytes
write_int16 buf v = buf ++ be_bytes 2 (to_word (2 ^ 16) v)

unfoldable pub write_uint32 : Bytes → ℕ → Bytes
unfolding be_bytes
write_uint32 buf u = buf ++ be_bytes 4 u

unfoldable pub write_int32 : Bytes → ℤ → Bytes
unfolding write_uint32
write_int32 buf v = write_uint32 buf (to_word (2 ^ 32) v)

unfoldable pub write_int64 : Bytes → ℤ → Bytes
unfolding be_bytes
write_int64 buf v = buf ++ be_bytes 8 (to_word (2 ^ 64) v)

-- `(v << 1) ^ (v >> 63)` on 64 bits
abbrev pub zigzag : ℤ → ℕ
zigzag (pos n) = 2 * n % 2 ^ 64
zigzag (negsuc n) = (2 * n + 1) % 2 ^ 64

-- The loop of `varlong`, on fuel: a word of 64 bits has at most ten groups.
unfoldable pub groups_of : ℕ → ℕ → Bytes
groups_of zero raw = raw ∷ []
groups_of (suc fuel) raw =
    let more = (raw % 128 + 128) ∷ groups_of fuel (raw / 128) in
    if leb 128 raw then more else raw ∷ []

unfoldable pub write_varlong : Bytes → ℤ → Bytes
unfolding groups_of
write_varlong buf v = buf ++ groups_of 9 (zigzag v)

unfoldable pub write_varint : Bytes → ℤ → Bytes
unfolding write_varlong
write_varint buf v = write_varlong buf v

-- The length is cut to the low bits of the field.
unfoldable pub write_string : Bytes → Bytes → Bytes
write_string buf s = (buf ++ be_bytes 2 (length s % 2 ^ 16)) ++ s

unfoldable pub write_null_string : Bytes → Bytes
write_null_string buf = write_int16 buf (negsuc 0)

unfoldable pub write_nullable_string : Bytes → Option Bytes → Bytes
unfolding write_null_string write_string
write_nullable_string buf none = write_null_string buf
write_nullable_string buf (some s) = write_string buf s

unfoldable pub write_bytes : Bytes → Bytes → Bytes
write_bytes buf s = (buf ++ be_bytes 4 (length s % 2 ^ 32)) ++ s

unfoldable pub write_null_bytes : Bytes → Bytes
write_null_bytes buf = write_int32 buf (negsuc 0)

unfoldable pub reserve_int32 : Bytes → ℕ × Bytes
reserve_int32 buf = (length buf, write_int32 buf (pos 0))

unfoldable pub patch_uint32 : Bytes → ℕ → ℕ → Bytes
patch_uint32 buf at u = take at buf ++ (be_bytes 4 u ++ drop (at + 4) buf)

unfoldable pub patch_int32 : Bytes → ℕ → ℤ → Bytes
patch_int32 buf at v = patch_uint32 buf at (to_word (2 ^ 32) v)

pub record RequestHeader : Type 0 where
  pub api_key : ℤ
  pub api_version : ℤ
  pub correlation_id : ℤ
  pub client_id : Bytes

-- The result says whether every read succeeded.
unfoldable pub parse_request_header : Reader → RequestHeader × Reader
parse_request_header r =
    let (key, r1) = read_int16 r in
    let (version, r2) = read_int16 r1 in
    let (correlation, r3) = read_int32 r2 in
    let (client, r4) = read_nullable_string r3 in
    (
      record {
        api_key = key;
        api_version = version;
        correlation_id = correlation;
        client_id = or_empty client;
      },
      r4,
    )
