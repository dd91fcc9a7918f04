-- ===== src/Core/IntSet/Words.antt =====
-- Little-endian slots: reading back what was written, and writing back what was read.
use mnemos.Prelude.{
  ℕ, zero, suc, ◌+◌, ◌-◌, ◌*◌, ◌/◌, ◌%◌, ◌^◌, ◌≤◌, ◌<◌, ◌≡◌, refl, ap, ◌++◌, length, arith,
}
use mnemos.Prelude.Bytes.{Bytes}
use mnemos.Prelude.Int.{ℤ, pos, negsuc, to_word, IsI64, pos_part, neg_part}
use mnemos.Core.IntSet.{Width, to_ℕ, append_le, from_le, read_le32, read_signed}

-- The value is in the range of the width.
abbrev pub Fits : Width → ℤ → Type 0
Fits Width.int16 v = (pos_part v < 2 ^ 15) × (neg_part v ≤ 2 ^ 15)
Fits Width.int32 v = (pos_part v < 2 ^ 31) × (neg_part v ≤ 2 ^ 31)
Fits Width.int64 v = IsI64 v

pub length-append_le : (k u : ℕ) → length (append_le k u) ≡ k
unfolding append_le
length-append_le zero u = refl
length-append_le (suc k) u = ap suc (length-append_le k (u / 256))

-- A number of two, four and eight bytes.
pub from_le_two : (u : ℕ) → from_le (append_le 2 u) ≡ u % 2 ^ 16
unfolding from_le append_le
from_le_two u = omega arith

from_le_more :
    (k m u : ℕ)
    → ((x : ℕ) → from_le (append_le k x) ≡ x % m)
    → from_le (append_le (suc k) u) ≡ u % 256 + 256 * (u / 256 % m)
from_le_more k m u h = unfold from_le append_le in ap (λ t. u % 256 + 256 * t) (h (u / 256))

pub from_le_three : (u : ℕ) → from_le (append_le 3 u) ≡ u % 2 ^ 24
from_le_three u = omega (arith, from_le_more 2 (2 ^ 16) u from_le_two)

pub from_le_four : (u : ℕ) → from_le (append_le 4 u) ≡ u % 2 ^ 32
from_le_four u = omega (arith, from_le_more 3 (2 ^ 24) u from_le_three)

pub from_le_eight : (u : ℕ) → from_le (append_le 8 u) ≡ u % 2 ^ 64
from_le_eight u = omega (arith, from_le_more 7 (2 ^ 56) u seven)
  where
    five : (x : ℕ) → from_le (append_le 5 x) ≡ x % 2 ^ 40
    five x = omega (arith, from_le_more 4 (2 ^ 32) x from_le_four)

    six : (x : ℕ) → from_le (append_le 6 x) ≡ x % 2 ^ 48
    six x = omega (arith, from_le_more 5 (2 ^ 40) x five)

    seven : (x : ℕ) → from_le (append_le 7 x) ≡ x % 2 ^ 56
    seven x = omega (arith, from_le_more 6 (2 ^ 48) x six)

-- A slot reads back as the value that was written, if that fits.
pub read_signed-append_le :
    (w : Width) (v : ℤ) → Fits w v → read_signed w (append_le (to_ℕ w) (to_word (2 ^ 64) v)) ≡ v
read_signed-append_le Width.int16 (pos n) h =
    unfold to_ℕ read_signed in rw (from_le_two n) (ground arith)
read_signed-append_le Width.int16 (negsuc n) h =
    unfold to_ℕ read_signed in rw (from_le_two (2 ^ 64 - suc n)) (ground arith)
read_signed-append_le Width.int32 (pos n) h =
    unfold to_ℕ read_signed in rw (from_le_four n) (ground arith)
read_signed-append_le Width.int32 (negsuc n) h =
    unfold to_ℕ read_signed in rw (from_le_four (2 ^ 64 - suc n)) (ground arith)
read_signed-append_le Width.int64 (pos n) h =
    unfold to_ℕ read_signed in rw (from_le_eight n) (ground arith)
read_signed-append_le Width.int64 (negsuc n) h =
    unfold to_ℕ read_signed in rw (from_le_eight (2 ^ 64 - suc n)) (ground arith)

pub read_le32-append_le : (u : ℕ) (s : Bytes) → read_le32 (append_le 4 u ++ s) ≡ u % 2 ^ 32
unfolding read_le32 append_le
read_le32-append_le u s = omega arith
