-- ===== src/Core/Listpack/Edits.antt =====
-- src/core/listpack.cpp: the operations that change the buffer, and `fromBytes`. A result that is
-- false leaves the listpack alone.
use mnemos.Prelude.{
  ℕ, zero, suc, ◌+◌, ◌-◌, Bool, true, false, ◌&&◌, not, Option, none, some, ◌++◌, length, take,
  drop, ltb, leb, ◌==◌, if◌then◌else◌,
}
use mnemos.Prelude.Bytes.{Bytes}
use mnemos.Prelude.Int.{ℤ}
use mnemos.Core.IntSet.{read_le32}
use mnemos.Core.Listpack.{Element, build_entry, build_integer_entry}
use mnemos.Core.Listpack.Buffer.{
  Listpack, listpack_header_size, listpack_max_inline_count, set_total_bytes, set_num_elements,
  stored_count, num_elements, at_end, decode_at, offset_of,
}

-- `buffer_.insert` and `buffer_.erase`
unfoldable pub insert_bytes : ℕ → Bytes → Bytes → Bytes
insert_bytes offset entry buffer = take offset buffer ++ (entry ++ drop offset buffer)

unfoldable pub erase_bytes : ℕ → ℕ → Bytes → Bytes
erase_bytes first last buffer = take first buffer ++ drop last buffer

-- `setTotalBytes(buffer_.size())`
unfoldable pub update_size : Bytes → Bytes
update_size buffer = set_total_bytes (length buffer) buffer

unfoldable pub count_up : Bytes → Bytes
count_up buffer =
    let stored = stored_count buffer in
    if ltb stored listpack_max_inline_count then set_num_elements (stored + 1) buffer else buffer

-- The end of `append`, `appendInteger` and `insertAt`.
unfoldable pub splice : ℕ → Bytes → Listpack → Listpack
splice offset entry lp = record {
  buffer = count_up (update_size (insert_bytes offset entry lp.buffer));
}

unfoldable pub append : Listpack → Bytes → Listpack
append lp value = splice (length lp.buffer - 1) (build_entry value) lp

unfoldable pub append_integer : Listpack → ℤ → Listpack
append_integer lp value = splice (length lp.buffer - 1) (build_integer_entry value) lp

unfoldable pub end_found : ℕ → (ℕ → Option ℕ) → Option (Element × ℕ) → Option ℕ
end_found offset next none = none
end_found offset next (some (e, size)) = next (offset + size)

-- The loop of `eraseRange`: `end_offset` after `count` entries.
unfoldable pub end_offset : ℕ → Bytes → ℕ → Option ℕ
end_offset zero buffer offset = some offset
end_offset (suc count) buffer offset =
    if at_end (drop offset buffer)
    then none
    else end_found offset (end_offset count buffer) (decode_at buffer offset)

-- The count after the erasure; a saturated one is found again by walking.
unfoldable pub count_down : ℕ → Listpack → Listpack
count_down count lp =
    let stored = stored_count lp.buffer in
    let left = if leb count stored then stored - count else 0 in
    if ltb stored listpack_max_inline_count
    then record { buffer = set_num_elements left lp.buffer }
    else record { buffer = set_num_elements (num_elements lp) lp.buffer }

unfoldable pub erase_to : Listpack → ℕ → ℕ → Option ℕ → Bool × Listpack
erase_to lp count start none = (false, lp)
erase_to lp count start (some last) =
    (true, count_down count (record { buffer = update_size (erase_bytes start last lp.buffer) }))

unfoldable pub erase_from : Listpack → ℕ → Option ℕ → Bool × Listpack
erase_from lp count none = (false, lp)
erase_from lp count (some start) = erase_to lp count start (end_offset count lp.buffer start)

unfoldable pub erase_range : Listpack → ℕ → ℕ → Bool × Listpack
erase_range lp index count =
    if count == 0 then (true, lp) else erase_from lp count (offset_of lp index)

unfoldable pub erase_at : Listpack → ℕ → Bool × Listpack
erase_at lp index = erase_range lp index 1

unfoldable pub replace_found : Listpack → Bytes → ℕ → Option (Element × ℕ) → Bool × Listpack
replace_found lp value offset none = (false, lp)
replace_found lp value offset (some (e, old_size)) =
    let erased = erase_bytes offset (offset + old_size) lp.buffer in
    (true, record { buffer = update_size (insert_bytes offset (build_entry value) erased) })

unfoldable pub replace_from : Listpack → Bytes → Option ℕ → Bool × Listpack
replace_from lp value none = (false, lp)
replace_from lp value (some offset) = replace_found lp value offset (decode_at lp.buffer offset)

unfoldable pub replace_at : Listpack → ℕ → Bytes → Bool × Listpack
replace_at lp index value = replace_from lp value (offset_of lp index)

unfoldable pub insert_from : Listpack → Bytes → Option ℕ → Bool × Listpack
insert_from lp value none = (false, lp)
insert_from lp value (some offset) = (true, splice offset (build_entry value) lp)

-- The index behind the last element stands for the place in front of the terminator.
unfoldable pub insert_at : Listpack → ℕ → Bytes → Bool × Listpack
insert_at lp index value =
    insert_from lp value
      (if index == num_elements lp then some (length lp.buffer - 1) else offset_of lp index)

unfoldable pub check_found : ℕ → (ℕ → Option (ℕ × ℕ)) → Option (Element × ℕ) → Option (ℕ × ℕ)
check_found offset next none = none
check_found offset next (some (e, size)) = next (offset + size)

-- The walk of `fromBytes`: where it ends, and the entries it counted; `none` on a malformed one.
unfoldable pub check_from : ℕ → Bytes → ℕ → ℕ → Option (ℕ × ℕ)
check_from zero buffer counted offset = none
check_from (suc fuel) buffer counted offset =
    if at_end (drop offset buffer)
    then some (offset, counted)
    else check_found offset (check_from fuel buffer (counted + 1)) (decode_at buffer offset)

unfoldable pub accept : Bytes → Option (ℕ × ℕ) → Option Listpack
accept bytes none = none
accept bytes (some (offset, counted)) =
    let stored = stored_count bytes in
    if not (offset == length bytes - 1)
    then none
    else if ltb stored listpack_max_inline_count && not (stored == counted)
    then none
    else some (record { buffer = bytes })

-- `lp.buffer_.back() != EOF` is asked of the last byte.
unfoldable pub from_bytes : Bytes → Option Listpack
from_bytes bytes =
    let walk = accept bytes (check_from (length bytes) bytes 0 listpack_header_size) in
    if ltb (length bytes) (listpack_header_size + 1)
    then none
    else if not (read_le32 bytes == length bytes)
    then none
    else if not (at_end (drop (length bytes - 1) bytes))
    then none
    else walk
