-- ===== src/Tests/Integers.antt =====
-- Runs of the integer set.
use mnemos.Prelude.{◌≡◌, refl, true, some, [], ◌∷◌, arith}
use mnemos.Prelude.Bytes.{Bytes}
use mnemos.Prelude.Int.{pos, negsuc}
use mnemos.Core.IntSet.{IntSet, Width, to_ℕ, add, remove, to_bytes, from_bytes}
use mnemos.Core.IntSet.Methods.{IsValid, Removes, remove-Removes}
use mnemos.Core.IntSet.RoundTrip.{from_bytes-to_bytes, from_bytes-IsValid}

abbrev pair : IntSet
pair = record { values = negsuc 4 ∷ pos 7 ∷ []; width = Width.int16 }

pair-IsValid : IsValid pair
pair-IsValid = record { sorted = omega arith; fit = omega arith }

upgraded :
    add pair (pos 70000)
    ≡ (true, record { values = negsuc 4 ∷ pos 7 ∷ pos 70000 ∷ []; width = Width.int32 })
unfolding add
upgraded = refl

remove-Removes_example : Removes pair (pos 7) (remove pair (pos 7))
remove-Removes_example = remove-Removes pair (pos 7) pair-IsValid

from_bytes-to_bytes_example : from_bytes (to_bytes pair) ≡ some pair
from_bytes-to_bytes_example = from_bytes-to_bytes pair pair-IsValid (omega arith)

-- Two 16-bit slots, -5 and 7.
abbrev on_disk : Bytes
on_disk = 2 ∷ 0 ∷ 0 ∷ 0 ∷ 2 ∷ 0 ∷ 0 ∷ 0 ∷ 251 ∷ 255 ∷ 7 ∷ 0 ∷ []

loaded : from_bytes on_disk ≡ some pair
unfolding from_bytes to_ℕ
loaded = refl

from_bytes-IsValid_example : IsValid pair
from_bytes-IsValid_example = from_bytes-IsValid on_disk pair (omega arith) loaded
