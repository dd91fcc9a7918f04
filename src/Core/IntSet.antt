-- ===== src/Core/IntSet.antt =====
-- src/core/intset.h and intset.cpp: a set of integers as a sorted array whose width only grows.
pub mod Words
pub mod Order
pub mod Methods
pub mod RoundTrip
use mnemos.Prelude.{
  ℕ, zero, suc, ◌+◌, ◌-◌, ◌*◌, ◌/◌, ◌%◌, ◌^◌, Bool, true, false, ◌&&◌, ◌||◌, not, Option, none,
  some, List, [], ◌∷◌, ◌++◌, length, take, drop, get_elem?, ltb, leb, ◌==◌, if◌then◌else◌,
}
use mnemos.Prelude.Bytes.{Bytes}
use mnemos.Prelude.Int.{ℤ, pos, negsuc, to_word, of_word, ltb_ℤ, leb_ℤ, eqb_ℤ}

-- `readLE32`, on the bytes at the front.
unfoldable pub read_le32 : Bytes → ℕ
read_le32 (a ∷ b ∷ c ∷ d ∷ s) = a + b * 2 ^ 8 + c * 2 ^ 16 + d * 2 ^ 24
read_le32 _ = 0

-- `appendLE`: `width` bytes, the lowest first. Round i writes `(value >> (8 * i)) & 0xFF`; here the
-- value is shifted by one byte in each round.
unfoldable pub append_le : ℕ → ℕ → Bytes
append_le zero value = []
append_le (suc width) value = value % 256 ∷ append_le width (value / 256)

-- The unsigned number that bytes in this order make: the loop of `readSigned`.
unfoldable pub from_le : Bytes → ℕ
from_le [] = 0
from_le (b ∷ s) = b + 256 * from_le s

pub data Width : Type 0 where
  int16 int32 int64 : Width

-- The value of the enumerator.
unfoldable pub to_ℕ : Width → ℕ
to_ℕ Width.int16 = 2
to_ℕ Width.int32 = 4
to_ℕ Width.int64 = 8

-- `readSigned` of the bytes of one slot.
unfoldable pub read_signed : Width → Bytes → ℤ
unfolding from_le
read_signed Width.int16 s = of_word (2 ^ 16) (from_le s)
read_signed Width.int32 s = of_word (2 ^ 32) (from_le s)
read_signed Width.int64 s = of_word (2 ^ 64) (from_le s)

-- `value` in the limits -lo ≤ value ≤ hi
abbrev pub fits : ℕ → ℕ → ℤ → Bool
fits lo hi (pos n) = leb n hi
fits lo hi (negsuc n) = leb (suc n) lo

unfoldable pub width_for : ℤ → Width
width_for v =
    if fits (2 ^ 15) (2 ^ 15 - 1) v
    then Width.int16
    else if fits (2 ^ 31) (2 ^ 31 - 1) v
    then Width.int32
    else Width.int64

pub record IntSet : Type 0 where
  pub values : List ℤ
  pub width : Width

abbrev pub empty : IntSet
empty = record { values = []; width = Width.int16 }

unfoldable pub upgrade_to : Width → IntSet → IntSet
unfolding to_ℕ
upgrade_to w s = if ltb (to_ℕ s.width) (to_ℕ w) then record s { width = w } else s

-- `std::lower_bound` on a sorted array: the index of the first value that is not below `v`.
unfoldable pub lower_bound : List ℤ → ℤ → ℕ
lower_bound [] v = 0
lower_bound (x ∷ xs) v = if ltb_ℤ x v then suc (lower_bound xs v) else 0

-- `it != end() && *it == value` for the iterator of an index.
pub holds_at : List ℤ → ℕ → ℤ → Bool
holds_at xs i v = elim (get_elem? xs i) [ none ↦ false | some x ↦ eqb_ℤ x v ]

-- `std::binary_search`
unfoldable pub contains : IntSet → ℤ → Bool
unfolding lower_bound holds_at
contains s v = holds_at s.values (lower_bound s.values v) v

abbrev pub insert_at : List ℤ → ℕ → ℤ → List ℤ
insert_at xs i v = take i xs ++ v ∷ drop i xs

abbrev pub erase_at : List ℤ → ℕ → List ℤ
erase_at xs i = take i xs ++ drop (suc i) xs

unfoldable pub add : IntSet → ℤ → Bool × IntSet
unfolding lower_bound holds_at width_for upgrade_to
add s v =
    let i = lower_bound s.values v in
    if holds_at s.values i v
    then (false, s)
    else (true, record (upgrade_to (width_for v) s) { values = insert_at s.values i v })

unfoldable pub remove : IntSet → ℤ → Bool × IntSet
unfolding lower_bound holds_at
remove s v =
    let i = lower_bound s.values v in
    if holds_at s.values i v then (true, record s { values = erase_at s.values i }) else (false, s)

unfoldable pub clear : IntSet → IntSet
clear s = empty

-- The slots, one after the other.
pub slots : Width → List ℤ → Bytes
slots w [] = []
slots w (v ∷ vs) = append_le (to_ℕ w) (to_word (2 ^ 64) v) ++ slots w vs

unfoldable pub to_bytes : IntSet → Bytes
to_bytes s =
    append_le 4 (to_ℕ s.width) ++ (append_le 4 (length s.values % 2 ^ 32) ++ slots s.width s.values)

byte_size : IntSet → ℕ
unfolding to_ℕ
byte_size s = 8 + length s.values * to_ℕ s.width

pub width_of : ℕ → Option Width
width_of n =
    if n == 2
    then some Width.int16
    else if n == 4
    then some Width.int32
    else if n == 8
    then some Width.int64
    else none

-- The loop over `count` slots.
pub read_slots : Width → ℕ → Bytes → List ℤ
read_slots w zero s = []
read_slots w (suc n) s = read_signed w (take (to_ℕ w) s) ∷ read_slots w n (drop (to_ℕ w) s)

-- The check that the values ascend.
pub ascending : List ℤ → Bool
ascending [] = true
ascending (x ∷ []) = true
ascending (x ∷ y ∷ s) = not (leb_ℤ y x) && ascending (y ∷ s)

-- The end of `fromBytes`, once the header is read.
pub from_slots : Option Width → ℕ → Bytes → Option IntSet
from_slots none count body = none
from_slots (some w) count body =
    if length body == count * to_ℕ w
    then (let vs = read_slots w count body in
        if ascending vs then some (record { values = vs; width = w }) else none)
    else none

unfoldable pub from_bytes : Bytes → Option IntSet
unfolding from_slots width_of read_le32 read_slots ascending read_signed
from_bytes s =
    if ltb (length s) 8
    then none
    else from_slots (width_of (read_le32 s)) (read_le32 (drop 4 s)) (drop 8 s)
