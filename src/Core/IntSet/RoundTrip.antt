-- ===== src/Core/IntSet/RoundTrip.antt =====
-- `toBytes` and `fromBytes`.
use mnemos.Prelude.{
  ℕ, zero, suc, ◌*◌, ◌%◌, ◌^◌, ◌<◌, ◌≡◌, refl, sym, true, false, Option, none, some, List, [], ◌∷◌,
  ◌++◌, length, length-append, length-take, length-drop, subst, take, drop, take-append_length,
  drop-append_length, append_assoc, ltb, ◌==◌, arith, All, Bool-cases, inl, inr,
}
use native.Mathlib.Nat.{pow-suc}
use mnemos.Prelude.Bytes.{Bytes, IsByte}
use mnemos.Prelude.Int.{ℤ, to_word}
use mnemos.Core.IntSet.{
  IntSet, Width, to_ℕ, append_le, from_le, read_le32, read_signed, slots, read_slots, ascending,
  width_of, from_slots, to_bytes, from_bytes,
}
use mnemos.Core.IntSet.Words.{Fits, length-append_le, read_signed-append_le, read_le32-append_le}
use mnemos.Core.IntSet.Order.{IsSorted, IsSorted→ascending, ascending→IsSorted}
use mnemos.Core.IntSet.Methods.{IsValid}

take-append : (n : ℕ) (xs ys : Bytes) → length xs ≡ n → take n (xs ++ ys) ≡ xs
take-append n xs ys h = rw (← h) (take-append_length xs ys)

read_slots-slots :
    (w : Width) (vs : List ℤ) → All (Fits w) vs → read_slots w (length vs) (slots w vs) ≡ vs
unfolding read_slots slots
read_slots-slots w [] h = refl
read_slots-slots w (v ∷ vs) h =
    let slot = append_le (to_ℕ w) (to_word (2 ^ 64) v) in
    let size = length-append_le (to_ℕ w) (to_word (2 ^ 64) v) in
    rw (
      take-append (to_ℕ w) slot (slots w vs) size,
      drop-append_length (to_ℕ w) slot (slots w vs) (sym size),
      read_signed-append_le w v h.0,
      read_slots-slots w vs h.1,
    )

length-slots : (w : Width) (vs : List ℤ) → length (slots w vs) ≡ length vs * to_ℕ w
unfolding slots
length-slots w [] = omega arith
length-slots w (v ∷ vs) = omega (
  arith,
  length-append (append_le (to_ℕ w) (to_word (2 ^ 64) v)) (slots w vs),
  length-append_le (to_ℕ w) (to_word (2 ^ 64) v),
  length-slots w vs,
)

width_of-to_ℕ : (w : Width) → width_of (to_ℕ w % 2 ^ 32) ≡ some w
unfolding width_of to_ℕ
width_of-to_ℕ Width.int16 = refl
width_of-to_ℕ Width.int32 = refl
width_of-to_ℕ Width.int64 = refl

from_slots-slots :
    (w : Width) (vs : List ℤ)
    → IsSorted vs
    → All (Fits w) vs
    → from_slots (some w) (length vs) (slots w vs) ≡ some (record { values = vs; width = w })
from_slots-slots w vs s h =
    let sized : (length (slots w vs) == length vs * to_ℕ w) ≡ true =
      ground (arith, length-slots w vs) in
    unfold from_slots in rw (sized, read_slots-slots w vs h, IsSorted→ascending vs s)

-- `fromBytes` reads back every valid set of fewer than 2 ^ 32 values that `toBytes` wrote.
pub from_bytes-to_bytes :
    (s : IntSet) → IsValid s → length s.values < 2 ^ 32 → from_bytes (to_bytes s) ≡ some s
from_bytes-to_bytes s v few =
    let body = slots s.width s.values in
    let count = append_le 4 (length s.values % 2 ^ 32) in
    let first = append_le 4 (to_ℕ s.width) in
    let count_size = length-append_le 4 (length s.values % 2 ^ 32) in
    let first_size = length-append_le 4 (to_ℕ s.width) in
    let long : ltb (length (first ++ (count ++ body))) 8 ≡ false = ground (
      arith,
      length-append first (count ++ body),
      length-append count body,
      first_size,
      count_size,
    ) in
    let skip4 : drop 4 (first ++ (count ++ body)) ≡ count ++ body =
      drop-append_length 4 first (count ++ body) (sym first_size) in
    let skip8 : drop 8 (first ++ (count ++ body)) ≡ body = rw (← append_assoc first count body) (
      drop-append_length 8 (first ++ count) body
        (omega (arith, length-append first count, first_size, count_size))) in
    let number : length s.values % 2 ^ 32 % 2 ^ 32 ≡ length s.values = omega arith in
    unfold to_bytes from_bytes in
    rw
      (
        long,
        skip4,
        skip8,
        read_le32-append_le (to_ℕ s.width) (count ++ body),
        read_le32-append_le (length s.values % 2 ^ 32) body,
        number,
        width_of-to_ℕ s.width,
      )
      (from_slots-slots s.width s.values v.sorted v.fit)

from_le-lt : (s : Bytes) → All IsByte s → from_le s < 256 ^ length s
from_le-lt [] h = unfold from_le in omega arith
from_le-lt (b ∷ s) h = more (from_le-lt s h.1)
  where
    more : from_le s < 256 ^ length s → from_le (b ∷ s) < 256 ^ length (b ∷ s)
    more ih = unfold from_le in rw pow-suc (omega (arith, h.0))

take-All : (n : ℕ) (s : Bytes) → All IsByte s → All IsByte (take n s)
take-All zero s h = tt
take-All (suc n) [] h = tt
take-All (suc n) (b ∷ s) h = (h.0, take-All n s h.1)

drop-All : (n : ℕ) (s : Bytes) → All IsByte s → All IsByte (drop n s)
drop-All zero s h = h
drop-All (suc n) [] h = tt
drop-All (suc n) (b ∷ s) h = drop-All n s h.1

read_signed-Fits : (w : Width) (s : Bytes) → from_le s < 256 ^ to_ℕ w → Fits w (read_signed w s)
unfolding to_ℕ
read_signed-Fits Width.int16 s h = unfold read_signed in ground (arith, h)
read_signed-Fits Width.int32 s h = unfold read_signed in ground (arith, h)
read_signed-Fits Width.int64 s h = unfold read_signed in ground (arith, h)

read_slots-Fits :
    (w : Width) (n : ℕ) (s : Bytes)
    → All IsByte s
    → length s ≡ n * to_ℕ w
    → All (Fits w) (read_slots w n s)
unfolding read_slots
read_slots-Fits w zero s h e = tt
read_slots-Fits w (suc n) s h e =
    let size : length (take (to_ℕ w) s) ≡ to_ℕ w = omega (arith, length-take (to_ℕ w) s) in
    let small : from_le (take (to_ℕ w) s) < 256 ^ to_ℕ w =
      subst (λ k. from_le (take (to_ℕ w) s) < 256 ^ k) size
        (from_le-lt (take (to_ℕ w) s) (take-All (to_ℕ w) s h)) in
    (
      read_signed-Fits w (take (to_ℕ w) s) small,
      read_slots-Fits w n (drop (to_ℕ w) s) (drop-All (to_ℕ w) s h)
          (omega (arith, length-drop (to_ℕ w) s)),
    )

from_slots-IsValid :
    (o : Option Width) (count : ℕ) (body : Bytes) (s : IntSet)
    → All IsByte body
    → from_slots o count body ≡ some s
    → IsValid s
unfolding from_slots
from_slots-IsValid none count body s h e = cc
from_slots-IsValid (some w) count body s h e = elim (Bool-cases (length body == count * to_ℕ w)) [
  | inr wrong ↦ absurd (ground (arith, wrong))
  | inl sized ↦ elim (Bool-cases (ascending (read_slots w count body))) [
    | inr unsorted ↦ absurd (ground (arith, sized, unsorted))
    | inl sorted ↦
        let read : IntSet = record { values = read_slots w count body; width = w } in
        let same : read ≡ s = ground (arith, sized, sorted) in
        subst IsValid same (record {
          sorted = ascending→IsSorted (read_slots w count body) sorted;
          fit = read_slots-Fits w count body h (ground (arith, sized));
        })
  ]
]

-- Whatever bytes `fromBytes` accepts make a valid set: sorted, without duplicates, and within the
-- width. Bytes from disk cannot break what the other operations rely on.
pub from_bytes-IsValid :
    (bytes : Bytes) (s : IntSet) → All IsByte bytes → from_bytes bytes ≡ some s → IsValid s
from_bytes-IsValid bytes s h e = elim (Bool-cases (ltb (length bytes) 8)) [
  | inl short ↦ absurd (unfold from_bytes in ground (arith, short, e))
  | inr long ↦
      from_slots-IsValid (width_of (read_le32 bytes)) (read_le32 (drop 4 bytes)) (drop 8 bytes) s
        (drop-All 8 bytes h) (unfold from_bytes in rw long at e)
]
