-- ===== src/Tests/Server.antt =====
-- Runs of the strings, the keyspace and the subscriptions.
use mnemos.Prelude.{ℕ, ◌-◌, ◌≡◌, refl, true, false, [], ◌∷◌, arith}
use mnemos.Prelude.Bytes.{Bytes, eqb}
use mnemos.Prelude.Int.{pos, negsuc}
use mnemos.Core.Object.{Value, make_string, make_int, string_length}
use mnemos.Core.Object.Strings.{IsString, make_string-Holds}
use mnemos.Core.Dict
use mnemos.Core.Dict.{Dict}
use mnemos.Core.Dict.Buckets.{slot, hash}
use mnemos.Core.Dict.Resize.{new-IsValid}
use mnemos.Core.Dict.Random.{random_entry}
use mnemos.Server.Db.{Database, lookup_read, set_key, set_expire_at, ttl_ms}
use mnemos.Server.Db.Changes.{IsSound, value, deadline}
use mnemos.Server.Db.Lookup.{is_dead, unless, Reads, lookup_read-Reads}
use mnemos.Server.Db.Methods.{set_key-Becomes, deadlines-Becomes, ttl_of, ttl_ms-ttl_of}
use mnemos.Server.Db.Expiry.{active_expire_cycle}
use mnemos.Server.Db.Expiry.Cycle.{Cleans, active_expire_cycle-Cleans}

abbrev forty_two : Value ℕ
forty_two = make_string (b'4' ∷ b'2' ∷ [])

forty_two-IsString : IsString forty_two
forty_two-IsString = (make_string-Holds (b'4' ∷ b'2' ∷ [])).string

-- The smallest int64 has nineteen digits and a sign.
smallest_length : string_length {C = ℕ} (make_int (negsuc (9223372036854775808 - 1))) ≡ 20
unfolding string_length make_int
smallest_length = refl

abbrev cat : Bytes
cat = b'c' ∷ b'a' ∷ b't' ∷ []

abbrev dog : Bytes
dog = b'd' ∷ b'o' ∷ b'g' ∷ []

abbrev blank : Database ℕ
blank = record { dict = Dict.new; expires = Dict.new; expiration_enabled = true; events = [] }

blank-IsSound : IsSound blank
blank-IsSound = record { dict = new-IsValid; expires = new-IsValid }

-- One key, with a deadline at 100 ms.
abbrev with_cat : Database ℕ
with_cat = set_expire_at (set_key blank cat forty_two) cat (pos 100)

with_cat-IsSound : IsSound with_cat
with_cat-IsSound =
    ((deadlines-Becomes (set_key blank cat forty_two) cat
        (set_key-Becomes blank cat forty_two blank-IsSound).sound).0
      (pos 100)).sound

lookup_read-Reads_example : Reads with_cat cat (pos 99) (lookup_read with_cat cat (pos 99))
lookup_read-Reads_example = lookup_read-Reads with_cat cat (pos 99) with_cat-IsSound

ttl_ms-ttl_of_example :
    (ttl_ms with_cat cat (pos 40)).0
    ≡ ttl_of
        (unless (is_dead with_cat cat (pos 40)) (value with_cat cat))
        (deadline with_cat cat)
        (pos 40)
ttl_ms-ttl_of_example = ttl_ms-ttl_of with_cat cat (pos 40) with_cat-IsSound (omega arith)

active_expire_cycle-Cleans_example :
    Cleans with_cat (pos 100) 0 (active_expire_cycle (λ n. n) with_cat (pos 100) 0)
    × (with_cat.expiration_enabled ≡ false
        → active_expire_cycle (λ n. n) with_cat (pos 100) 0 ≡ (0, with_cat))
active_expire_cycle-Cleans_example =
    active_expire_cycle-Cleans (λ n. n) with_cat (pos 100) 0 with_cat-IsSound

abbrev one_pair : Dict ℕ
one_pair = (Dict.insert Dict.new cat 9).1

left_at_forty : (ttl_ms with_cat cat (pos 40)).0 ≡ pos 60
unfolding ttl_ms set_key set_expire_at Dict.new make_string slot hash eqb Dict.insert Dict.find
    Dict.erase Dict.assign
left_at_forty = refl

-- Two keys are dead, and the generator draws the same one twice: the cycle counts three deletions
-- and calls the callback three times, for two keys.
abbrev two_dead : Database ℕ
two_dead = set_expire_at (set_key with_cat dog forty_two) dog (pos 100)

counted_twice : (active_expire_cycle (λ n. 0) two_dead (pos 100) 0).0 ≡ 3
unfolding active_expire_cycle random_entry set_key set_expire_at Dict.new make_string slot hash eqb
    Dict.insert Dict.find Dict.erase
counted_twice = refl
