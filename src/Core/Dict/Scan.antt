-- ===== src/Core/Dict/Scan.antt =====
-- `scan` of src/core/dict.h: one step of the cursor that counts in reverse binary order. The entries
-- are those that `fn` sees, in its order.
use Prim.Native.Nat.{bit_and, bit_or, bit_xor}
use mnemos.Prelude.{
  ℕ, zero, suc, ◌+◌, ◌-◌, ◌*◌, ◌/◌, ◌%◌, ◌^◌, List, [], ◌++◌, length, leb, ◌==◌, if◌then◌else◌,
}
use mnemos.Prelude.Bytes.{Bytes}
use mnemos.Core.Dict.Buckets.{Table, bucket}
use mnemos.Core.Dict.{Dict, is_rehashing, size}

-- One line of `reverseBits`: neighbouring groups of bits, `step` = 2 ^ bits apart, change places.
swap_groups : ℕ → ℕ → ℕ → ℕ
swap_groups step m v = bit_or (bit_and (v / step) m) (bit_and v m * step % 2 ^ 64)

unfoldable pub reverse_bits : ℕ → ℕ
unfolding swap_groups
reverse_bits v =
    let a = swap_groups 2 0x5555555555555555 v in
    let b = swap_groups 4 0x3333333333333333 a in
    let c = swap_groups 16 0x0f0f0f0f0f0f0f0f b in
    let d = swap_groups (2 ^ 8) 0x00ff00ff00ff00ff c in
    let e = swap_groups (2 ^ 16) 0x0000ffff0000ffff d in bit_or (e / 2 ^ 32) (e * 2 ^ 32 % 2 ^ 64)

-- The bits above the mask are set, and the reversed cursor counts on.
unfoldable pub next_cursor : ℕ → ℕ → ℕ
unfolding reverse_bits
next_cursor m cursor = reverse_bits ((reverse_bits (bit_or cursor (2 ^ 64 - 1 - m)) + 1) % 2 ^ 64)

abbrev mask : ℕ → ℕ
mask n = n - 1

module _ {ℓ} {V : Type ℓ} where
  -- The loop over the buckets of the large table, on fuel: one round for each bucket is enough.
  emit_large : ℕ → Table V → ℕ → ℕ → ℕ → List (Bytes × V) × ℕ
  unfolding next_cursor
  emit_large zero large ms ml cursor = ([], cursor)
  emit_large (suc fuel) large ms ml cursor =
      let here = bucket large (bit_and cursor ml) in
      let next = next_cursor ml cursor in
      let (rest, last) = emit_large fuel large ms ml next in
      if bit_and next (bit_xor ms ml) == 0 then (here, next) else (here ++ rest, last)

  -- Both tables during a rehash, the small one first.
  scan_both : Table V → Table V → ℕ → List (Bytes × V) × ℕ
  unfolding emit_large
  scan_both small large cursor =
      let ms = mask (length small) in
      let ml = mask (length large) in
      let (rest, next) = emit_large (length large) large ms ml cursor in
      (bucket small (bit_and cursor ms) ++ rest, next)

  unfoldable pub scan : Dict V → ℕ → List (Bytes × V) × ℕ
  unfolding next_cursor scan_both
  scan d cursor =
      if size d == 0
      then ([], 0)
      else if is_rehashing d
      then (if leb (length d.table0) (length d.table1)
          then scan_both d.table0 d.table1 cursor
          else scan_both d.table1 d.table0 cursor)
      else (let m0 = mask (length d.table0) in
          (bucket d.table0 (bit_and cursor m0), next_cursor m0 cursor))
