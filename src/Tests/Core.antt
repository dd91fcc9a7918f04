-- ===== src/Tests/Core.antt =====
-- Runs of the encodings, the dictionary.
use mnemos.Prelude.{ℕ, ◌+◌, ◌-◌, ◌≡◌, refl, not, none, some, [], ◌∷◌, arith}
use mnemos.Prelude.Bytes.{Bytes, eqb}
use mnemos.Core.Dict.Buckets.{slot, hash}
use mnemos.Prelude.Int.{negsuc, IsI64}
use mnemos.Prelude.Decimal.{to_string}
use mnemos.Core.Encoding.{string_to_int64}
use mnemos.Core.Encoding.RoundTrip.{string_to_int64-to_string, to_string-string_to_int64}
use mnemos.Core.Dict.{Dict, new, insert, erase, find, rehash_steps, size}
use mnemos.Core.Dict.Valid.{IsValid, view, Keeps}
use mnemos.Core.Dict.Resize.{new-IsValid}
use mnemos.Core.Dict.Rehash.{rehash_steps-Keeps}
use mnemos.Core.Dict.Writes.{Updates}
use mnemos.Core.Dict.Methods.{is_new, one_if, insert-Updates, erase-Updates}

string_to_int64-to_string_example : string_to_int64 (to_string (negsuc 41)) ≡ some (negsuc 41)
string_to_int64-to_string_example = string_to_int64-to_string (negsuc 41) (omega arith)

minus_seven : string_to_int64 (b'-' ∷ b'7' ∷ []) ≡ some (negsuc 6)
unfolding string_to_int64
minus_seven = refl

leading_zero : string_to_int64 (b'0' ∷ b'7' ∷ []) ≡ none
unfolding string_to_int64
leading_zero = refl

to_string-string_to_int64_example : (to_string (negsuc 6) ≡ b'-' ∷ b'7' ∷ []) × IsI64 (negsuc 6)
to_string-string_to_int64_example =
    to_string-string_to_int64 (b'-' ∷ b'7' ∷ []) (negsuc 6) minus_seven

abbrev cat : Bytes
cat = b'c' ∷ b'a' ∷ b't' ∷ []

abbrev dog : Bytes
dog = b'd' ∷ b'o' ∷ b'g' ∷ []

insert-Updates_example :
    ((insert {V = ℕ} new cat 9).0 ≡ is_new (view {V = ℕ} new cat))
    × Updates {V = ℕ} new cat
        (some 9)
        (size {V = ℕ} new + one_if (is_new (view {V = ℕ} new cat)))
        (insert new cat 9).1
insert-Updates_example = insert-Updates new cat 9 new-IsValid

with_cat : Dict ℕ
with_cat = (insert new cat 9).1

with_cat-IsValid : IsValid with_cat
unfolding with_cat
with_cat-IsValid = (insert-Updates new cat 9 new-IsValid).1.valid

erase-Updates_example :
    ((erase with_cat cat).0 ≡ not (is_new (view with_cat cat)))
    × Updates with_cat cat none
        (size with_cat - one_if (not (is_new (view with_cat cat))))
        (erase with_cat cat).1
erase-Updates_example = erase-Updates with_cat cat with_cat-IsValid

rehash_steps-Keeps_example : Keeps with_cat (rehash_steps 3 with_cat)
rehash_steps-Keeps_example = rehash_steps-Keeps 3 with_cat with_cat-IsValid

found_cat : (find with_cat cat).0 ≡ some 9
unfolding with_cat insert find new slot hash eqb
found_cat = refl

found_no_dog : (find with_cat dog).0 ≡ none
unfolding with_cat insert find new slot hash
found_no_dog = refl
