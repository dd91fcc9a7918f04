-- ===== src/Core/Listpack/Buffer.antt =====
-- src/core/listpack.h and listpack.cpp, the class: a six byte header (total bytes, number of
-- elements), the entries and a terminator, in one buffer.
use mnemos.Prelude.{
  ℕ, zero, suc, ◌+◌, ◌-◌, ◌%◌, ◌^◌, min, Bool, true, false, ◌&&◌, Option, none, some, List, [], ◌∷◌,
  ◌++◌, map, length, take, drop, ltb, leb, ◌==◌, if◌then◌else◌,
}
use mnemos.Prelude.Bytes.{Bytes, eqb}
use mnemos.Prelude.Int.{ℤ, eqb_ℤ}
use mnemos.Core.Encoding.{string_to_int64}
use mnemos.Core.IntSet.{append_le, from_le}
use mnemos.Core.Listpack.{Element, integer, string, element_to_string, decode_entry}

abbrev pub listpack_header_size : ℕ
listpack_header_size = 6

abbrev pub listpack_eof : ℕ
listpack_eof = 0xFF

abbrev pub listpack_max_inline_count : ℕ
listpack_max_inline_count = 65535

pub record Listpack : Type 0 where
  pub buffer : Bytes

-- `setTotalBytes`, on a buffer that has its header; the cast to 32 bits is the remainder.
unfoldable pub set_total_bytes : ℕ → Bytes → Bytes
set_total_bytes value buffer = append_le 4 (value % 2 ^ 32) ++ drop 4 buffer

unfoldable pub set_num_elements : ℕ → Bytes → Bytes
set_num_elements value buffer =
    take 4 buffer ++ (append_le 2 (min value listpack_max_inline_count) ++ drop 6 buffer)

unfoldable pub stored_count : Bytes → ℕ
stored_count buffer = from_le (take 2 (drop 4 buffer))

-- The constructor, and `clear`: a header, and the terminator.
unfoldable pub clear : Listpack
clear = record {
  buffer = set_num_elements 0 (set_total_bytes 7 (0 ∷ 0 ∷ 0 ∷ 0 ∷ 0 ∷ 0 ∷ listpack_eof ∷ []));
}

-- The loops run while this is false: `offset < size && buffer[offset] != EOF`.
unfoldable pub at_end : Bytes → Bool
at_end [] = true
at_end (b ∷ p) = b == listpack_eof

unfoldable pub decode_at : Bytes → ℕ → Option (Element × ℕ)
decode_at buffer offset = decode_entry (drop offset buffer)

-- A round of `forEach`, with the rest of the loop from an offset on; an entry that cannot be
-- decoded ends it.
unfoldable pub for_each_found : ℕ → (ℕ → List Element) → Option (Element × ℕ) → List Element
for_each_found offset next none = []
for_each_found offset next (some (e, size)) = e ∷ next (offset + size)

-- `forEach`: the elements that the callback sees, in order. Every round of a loop moves the offset
-- on, so the size of the buffer is enough fuel.
unfoldable pub for_each_from : ℕ → Bytes → ℕ → List Element
for_each_from zero buffer offset = []
for_each_from (suc fuel) buffer offset =
    if at_end (drop offset buffer)
    then []
    else for_each_found offset (for_each_from fuel buffer) (decode_at buffer offset)

unfoldable pub for_each : Listpack → List Element
for_each lp = for_each_from (length lp.buffer) lp.buffer listpack_header_size

unfoldable pub to_strings : Listpack → List Bytes
to_strings lp = map element_to_string (for_each lp)

unfoldable pub num_elements : Listpack → ℕ
num_elements lp =
    if ltb (stored_count lp.buffer) listpack_max_inline_count
    then stored_count lp.buffer
    else length (for_each lp)

unfoldable pub offset_found : ℕ → (ℕ → Option ℕ) → Option (Element × ℕ) → Option ℕ
offset_found offset next none = none
offset_found offset next (some (e, size)) = next (offset + size)

-- `offsetOf`: `none` is npos, and `index` counts down as `current` counts up.
unfoldable pub offset_from : ℕ → Bytes → ℕ → ℕ → Option ℕ
offset_from zero buffer index offset = none
offset_from (suc fuel) buffer index offset =
    if at_end (drop offset buffer)
    then none
    else if index == 0
    then some offset
    else offset_found offset (offset_from fuel buffer (index - 1)) (decode_at buffer offset)

unfoldable pub offset_of : Listpack → ℕ → Option ℕ
offset_of lp index = offset_from (length lp.buffer) lp.buffer index listpack_header_size

unfoldable pub element_found : Option (Element × ℕ) → Option Element
element_found none = none
element_found (some (e, size)) = some e

unfoldable pub element_at : Bytes → Option ℕ → Option Element
element_at buffer none = none
element_at buffer (some offset) = element_found (decode_at buffer offset)

-- `get`: `none` is the result false.
unfoldable pub get : Listpack → ℕ → Option Element
get lp index = element_at lp.buffer (offset_of lp index)

-- The comparison in `find`.
unfoldable pub matches : Option ℤ → Bytes → Element → Bool
matches (some needle) value (integer v) = eqb_ℤ v needle
matches none value (integer v) = false
matches (some needle) value (string s) = false
matches none value (string s) = eqb s value

-- `index >= start && (index - start) % step == 0`; the caller gives a step that is not 0.
unfoldable pub is_candidate : ℕ → ℕ → ℕ → Bool
is_candidate start step index = leb start index && ((index - start) % step == 0)

module _ (value : Bytes) (start step : ℕ) where
  unfoldable pub find_found : ℕ → (ℕ → Option ℕ) → ℕ → Option (Element × ℕ) → Option ℕ
  find_found index next offset none = none
  find_found index next offset (some (e, size)) =
      if is_candidate start step index && matches (string_to_int64 value) value e
      then some index
      else next (offset + size)

  unfoldable pub find_from : ℕ → Bytes → ℕ → ℕ → Option ℕ
  find_from zero buffer index offset = none
  find_from (suc fuel) buffer index offset =
      if at_end (drop offset buffer)
      then none
      else find_found index (find_from fuel buffer (index + 1)) offset (decode_at buffer offset)

unfoldable pub find : Listpack → Bytes → ℕ → ℕ → Option ℕ
find lp value start step =
    find_from value start step (length lp.buffer) lp.buffer 0 listpack_header_size
