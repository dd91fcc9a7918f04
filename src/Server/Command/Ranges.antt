-- ===== src/Server/Command/Ranges.antt =====
-- src/server/commands/string_commands.cpp: APPEND, STRLEN, SETRANGE, GETRANGE. The result `none` is
-- an exception that nothing in the server catches.
use mnemos.Prelude.{
  ℕ, ◌+◌, ◌-◌, ◌*◌, ◌^◌, ◌||◌, Option, none, some, [], ◌++◌, length, take, drop, replicate, ltb,
  leb, ◌==◌, if◌then◌else◌,
}
use mnemos.Prelude.Bytes.{Bytes, codes}
use mnemos.Prelude.Int.{ℤ, pos, negsuc, ltb_ℤ, wrap_i64}
use mnemos.Core.Encoding.{string_to_int64}
use mnemos.Core.Object.{
  Value, Arm, text, integer, collection, make_raw_string, make_mutable, append_string, string_value,
  string_length,
}
use mnemos.Server.Command
use mnemos.Server.Command.{
  Context, arg, is_string, mark_dirty, notify_keyspace_event, notify_key_miss, k_string, error,
  bulk, wrong_type, not_an_integer, lookup_read, lookup_write, set_key, store,
}

abbrev pub max_string_size : ℕ
max_string_size = 512 * 1024 * 1024

-- `resize` throws where the size is 2 ^ 63 or more, whatever library it is.
abbrev pub max_size : ℕ
max_size = 2 ^ 63 - 1

-- The patch over the bytes from `offset` on, after the gap is filled with zeros.
unfoldable pub patched : ℕ → Bytes → Bytes → Bytes
patched offset patch old =
    let size = offset + length patch in
    let filled = old ++ replicate (size - length old) 0 in
    take offset filled ++ (patch ++ drop size filled)

-- `if (start < 0) start = length + start; if (start < 0) start = 0;`
unfoldable pub from_end : ℕ → ℤ → ℕ
from_end n (pos i) = i
from_end n (negsuc i) = n - (i + 1)

-- The part of the string between the two indices.
unfoldable pub slice : Bytes → ℤ → ℤ → Bytes
slice old start stop =
    let n = length old in
    let first = from_end n start in
    let last = if leb n (from_end n stop) then n - 1 else from_end n stop in
    if n == 0 || ltb last first || leb n first then [] else take (last - first + 1) (drop first old)

module _ {C : Type 0} where
  unfoldable pub append_new : Context C → Context C
  append_new c = Command.integer (pos (length (arg c 2))) (
      notify_keyspace_event k_string (codes "append") (arg c 1)
        (mark_dirty 1 (set_key (arg c 1) (make_raw_string (arg c 2)) c)))

  unfoldable pub append_stored : Option (Value C) → Context C → Option (Context C)
  append_stored none c = none
  append_stored (some v) c = some (
      Command.integer (pos (string_length v)) (
        notify_keyspace_event k_string (codes "append") (arg c 1)
          (mark_dirty 1 (store (arg c 1) v c))))

  unfoldable pub append_found : Option (Value C) → Context C → Option (Context C)
  append_found none c = some (append_new c)
  append_found (some v) c =
      let appended = append_stored (append_string v (arg c 2)) c in
      if is_string v
      then (if ltb max_string_size (string_length v + length (arg c 2))
          then some (error (codes "ERR string exceeds maximum allowed size (proto-max-bulk-len)") c)
          else appended)
      else some (wrong_type c)

  unfoldable pub append : Context C → Option (Context C)
  append c = let (v, d) = lookup_write (arg c 1) c in append_found v d

  unfoldable pub strlen_found : Option (Value C) → Context C → Context C
  strlen_found none c = Command.integer (pos 0) (notify_key_miss (arg c 1) c)
  strlen_found (some v) c =
      if is_string v then Command.integer (pos (string_length v)) c else wrong_type c

  unfoldable pub strlen : Context C → Context C
  strlen c = let (v, d) = lookup_read (arg c 1) c in strlen_found v d

  -- `mutableString`, `resize`, and `std::copy` into the value that the lookup found.
  unfoldable pub setrange_data : ℕ → Value C → Arm C → Context C → Option (Context C)
  setrange_data offset v (text old) c =
      let after = patched offset (arg c 3) old in
      if ltb max_size (offset + length (arg c 3))
      then none
      else some (
          Command.integer (pos (length after)) (
            notify_keyspace_event k_string (codes "setrange") (arg c 1)
              (mark_dirty 1 (store (arg c 1) (record v { arm = text after }) c))))
  setrange_data offset v (integer n) c = none
  setrange_data offset v (collection k) c = none

  -- A lookup that finds nothing after `setKey` would be a null pointer, which is `none` as well.
  unfoldable pub setrange_value : ℕ → Option (Value C) × Context C → Option (Context C)
  setrange_value offset (none, c) = none
  setrange_value offset (some v, c) = setrange_data offset (make_mutable v) ((make_mutable v).arm) c

  unfoldable pub setrange_target : Option (Value C) → Context C → Option (Value C) × Context C
  setrange_target (some v) c = (some v, c)
  setrange_target none c = lookup_write (arg c 1) (set_key (arg c 1) (make_raw_string []) c)

  -- The sum of the offset and the size is an int64, and wraps.
  unfoldable pub setrange_write : ℕ → Option (Value C) → ℕ → Context C → Option (Context C)
  setrange_write offset v old_length c =
      let written = setrange_value offset (setrange_target v c) in
      if length (arg c 3) == 0
      then some (Command.integer (pos old_length) c)
      else if ltb_ℤ (pos max_string_size) (wrap_i64 (pos (offset + length (arg c 3))))
      then some (error (codes "ERR string exceeds maximum allowed size (proto-max-bulk-len)") c)
      else written

  unfoldable pub setrange_found : ℕ → Option (Value C) → Context C → Option (Context C)
  setrange_found offset none c = setrange_write offset none 0 c
  setrange_found offset (some v) c =
      let written = setrange_write offset (some v) (string_length v) c in
      if is_string v then written else some (wrong_type c)

  unfoldable pub setrange_parsed : Option ℤ → Context C → Option (Context C)
  setrange_parsed none c = some (not_an_integer c)
  setrange_parsed (some (negsuc n)) c = some (error (codes "ERR offset is out of range") c)
  setrange_parsed (some (pos offset)) c =
      let (v, d) = lookup_write (arg c 1) c in setrange_found offset v d

  unfoldable pub setrange : Context C → Option (Context C)
  setrange c = setrange_parsed (string_to_int64 (arg c 2)) c

  unfoldable pub getrange_found : ℤ → ℤ → Option (Value C) → Context C → Context C
  getrange_found start stop none c = bulk [] (notify_key_miss (arg c 1) c)
  getrange_found start stop (some v) c =
      if is_string v then bulk (slice (string_value v) start stop) c else wrong_type c

  unfoldable pub getrange_parsed : Option ℤ → Option ℤ → Context C → Context C
  getrange_parsed (some start) (some stop) c =
      let (v, d) = lookup_read (arg c 1) c in getrange_found start stop v d
  getrange_parsed _ _ c = not_an_integer c

  unfoldable pub getrange : Context C → Context C
  getrange c = getrange_parsed (string_to_int64 (arg c 2)) (string_to_int64 (arg c 3)) c
