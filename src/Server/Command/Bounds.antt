-- ===== src/Server/Command/Bounds.antt =====
-- The numeric guards of the string commands: what they let through stays in 64 bits, and the slice
-- and the patch are what the documentation of the commands says.
use mnemos.Prelude.{
  ℕ, ◌+◌, ◌-◌, ◌≤◌, ◌<◌, ◌≡◌, refl, sym, ◌∙◌, ◌↔◌, ◌⊎◌, inl, inr, true, false, ◌||◌, none, some, [],
  ◌++◌, length, take, drop, get_elem?, replicate, length-append, length-take, length-drop,
  length-replicate, arith, ltb, leb, ◌==◌, if◌then◌else◌, Bool-cases, max, get_elem?-append_left,
  get_elem?-append_right, get_elem?-take, get_elem?-drop, get_elem?-out, get_elem?-replicate,
}
use mnemos.Prelude.Bytes.{Bytes}
use mnemos.Prelude.Int.{ℤ, pos, negsuc, IsI64, ◌<ℤ◌, plus_ℤ}
use mnemos.Server.Command.Numbers.{would_overflow, negate, int64_max, int64_min}
use mnemos.Server.Command.Ranges.{patched, from_end, slice}

-- The test of INCR and its kin is true exactly where the sum of two int64 is none, and the
-- difference that it takes, for a positive or a negative delta, is an int64 itself: the test does not
-- overflow.
pub would_overflow-IsI64 :
    (current delta : ℤ)
    → IsI64 current
    → IsI64 delta
    → ((would_overflow current delta ≡ false) ↔ IsI64 (plus_ℤ current delta))
      × (pos 0 <ℤ delta → IsI64 (plus_ℤ int64_max (negate delta)))
      × (delta <ℤ pos 0 → IsI64 (plus_ℤ int64_min (negate delta)))
unfolding would_overflow
would_overflow-IsI64 (pos m) (pos n) h k = (ground arith, ground arith, ground arith)
would_overflow-IsI64 (pos m) (negsuc n) h k = (ground arith, ground arith, ground arith)
would_overflow-IsI64 (negsuc m) (pos n) h k = (ground arith, ground arith, ground arith)
would_overflow-IsI64 (negsuc m) (negsuc n) h k = (ground arith, ground arith, ground arith)

part_at :
    (s : Bytes) (first last i : ℕ)
    → first ≤ last
    → get_elem? (take (last - first + 1) (drop first s)) i
      ≡ (if leb (first + i) last then get_elem? s (first + i) else none)
part_at s first last i h = elim (Bool-cases (leb (first + i) last)) [
  | inl inside ↦
      let short : i < last - first + 1 = ground (arith, inside) in
      rw inside (
        get_elem?-take (last - first + 1) (drop first s) i short
        ∙ get_elem?-drop first s i (first + i) refl)
  | inr outside ↦
      let long : last - first + 1 ≤ i = ground (arith, outside) in
      rw outside (
        get_elem?-out (take (last - first + 1) (drop first s)) i
          (omega (arith, length-take (last - first + 1) (drop first s))))
]

-- Behind the end of the string there is nothing, whatever the index.
clamp :
    (s : Bytes) (stop at : ℕ)
    → (if leb at (if leb (length s) stop then length s - 1 else stop) then get_elem? s at else none)
      ≡ (if leb at stop then get_elem? s at else none)
clamp s stop at = elim (Bool-cases (leb (length s) at)) [
  | inl out ↦ ground (arith, out, get_elem?-out s at (ground (arith, out)))
  | inr inside ↦ ground (arith, inside)
]

-- An index in front of the first, or behind the end.
nothing_at :
    (s : Bytes) (first last i : ℕ)
    → (length s == 0 || ltb last first || leb (length s) first) ≡ true
    → (if leb (first + i) last then get_elem? s (first + i) else none) ≡ none
nothing_at s first last i h = elim (Bool-cases (leb (length s) (first + i))) [
  | inl out ↦ ground (arith, out, get_elem?-out s (first + i) (ground (arith, out)))
  | inr inside ↦ ground (arith, inside)
]

-- The same with the two indices from the start.
slice_at :
    (s : Bytes) (first last i : ℕ)
    → get_elem?
        (if length s == 0 || ltb last first || leb (length s) first
          then []
          else take (last - first + 1) (drop first s))
        i
      ≡ (if leb (first + i) last then get_elem? s (first + i) else none)
slice_at s first last i =
    elim (Bool-cases (length s == 0 || ltb last first || leb (length s) first)) [
      | inl empty ↦ rw empty (sym (nothing_at s first last i empty))
      | inr part ↦ rw part (part_at s first last i (ground (arith, part)))
    ]

-- GETRANGE: the slice has the bytes from the index `start` to the index `stop`, both included, where
-- a negative index counts from the end and is at least 0; what lies outside the string is left out.
pub get_elem?-slice :
    (s : Bytes) (start stop : ℤ) (i : ℕ)
    → get_elem? (slice s start stop) i ≡ (
        if leb (from_end (length s) start + i) (from_end (length s) stop)
        then get_elem? s (from_end (length s) start + i)
        else none)
unfolding slice
get_elem?-slice s start stop i =
    let first = from_end (length s) start in
    let end = from_end (length s) stop in
    slice_at s first (if leb (length s) end then length s - 1 else end) i ∙ clamp s end (first + i)

old_at :
    (offset : ℕ) (patch old : Bytes) (i : ℕ)
    → (i < offset) ⊎ (offset + length patch ≤ i)
    → i < length old
    → get_elem? (patched offset patch old) i ≡ get_elem? old i
unfolding patched
old_at offset patch old i place k =
    let size = offset + length patch in
    let zeros : Bytes = replicate (size - length old) 0 in
    let filled = old ++ zeros in
    let n : length filled ≡ length old + length zeros = length-append old zeros in
    let z : length zeros ≡ size - length old = length-replicate (size - length old) 0 in
    let before : length (take offset filled) ≡ offset = omega (arith, length-take offset filled) in
    elim place [
      | inl left ↦
          get_elem?-append_left (take offset filled) (patch ++ drop size filled) i (omega arith)
          ∙ get_elem?-take offset filled i left
          ∙ get_elem?-append_left old zeros i k
      | inr right ↦
          get_elem?-append_right (take offset filled) (patch ++ drop size filled) i (i - offset)
            (omega arith)
          ∙ get_elem?-append_right patch (drop size filled) (i - offset) (i - size) (omega arith)
          ∙ get_elem?-drop size filled (i - size) i (omega arith)
          ∙ get_elem?-append_left old zeros i k
    ]

-- SETRANGE: the patched string has the patch from the offset on, the old bytes elsewhere, and zeros
-- in a gap between them.
pub get_elem?-patched :
    (offset : ℕ) (patch old : Bytes) (i : ℕ)
    → 1 ≤ length patch
    → (length (patched offset patch old) ≡ max (length old) (offset + length patch))
      × ((j : ℕ)
          → i ≡ offset + j
          → j < length patch
          → get_elem? (patched offset patch old) i ≡ get_elem? patch j)
      × (i < offset ⊎ offset + length patch ≤ i
          → i < length old
          → get_elem? (patched offset patch old) i ≡ get_elem? old i)
      × (length old ≤ i → i < offset → get_elem? (patched offset patch old) i ≡ some 0)
unfolding patched
get_elem?-patched offset patch old i h =
    let size = offset + length patch in
    let zeros : Bytes = replicate (size - length old) 0 in
    let filled = old ++ zeros in
    let z : length zeros ≡ size - length old = length-replicate (size - length old) 0 in
    let n : length filled ≡ max (length old) size = omega (arith, length-append old zeros) in
    let before : length (take offset filled) ≡ offset = omega (arith, length-take offset filled) in
    let after = length-drop size filled in
    (
      omega (
        arith,
        length-append (take offset filled) (patch ++ drop size filled),
        length-append patch (drop size filled),
      ),
      λ j e k.
          get_elem?-append_right (take offset filled) (patch ++ drop size filled) i j
            (omega (arith, before))
          ∙ get_elem?-append_left patch (drop size filled) j k,
      λ place k. old_at offset patch old i place k,
      λ k l.
          get_elem?-append_left (take offset filled) (patch ++ drop size filled) i (omega arith)
          ∙ get_elem?-take offset filled i l
          ∙ get_elem?-append_right old zeros i (i - length old) (omega arith)
          ∙ get_elem?-replicate (size - length old) 0 (i - length old) (omega arith),
    )
