-- ===== src/Tests/Commands.antt =====
-- Runs of the string commands.
use mnemos.Prelude.{
  ℕ, suc, ◌+◌, ◌-◌, ◌*◌, ◌^◌, ◌≤◌, ◌<◌, ◌≡◌, ◌↔◌, refl, Bool, true, false, Option, none, some, List,
  [], ◌∷◌, ◌++◌, length, arith, leb, get_elem?, if◌then◌else◌, ◌⊎◌, max,
}
use mnemos.Prelude.Bytes.{Bytes, codes}
use mnemos.Prelude.Decimal.{to_string}
use mnemos.Prelude.Int.{negsuc, ℤ, pos, IsI64, ◌<ℤ◌, ◌≤ℤ◌, plus_ℤ}
use mnemos.Core.Dict
use mnemos.Core.Dict.Resize.{new-IsValid}
use mnemos.Core.Object.{Value, make_string, string_value, touch}
use mnemos.Core.Object.Strings.{IsString, make_string-Holds}
use mnemos.Net.Resp.Reply
use mnemos.Server.Db
use mnemos.Server.Db.{Database}
use mnemos.Server.Db.Changes.{IsSound, Becomes-own}
use mnemos.Server.Db.Lookup.{is_dead}
use mnemos.Server.Db.Methods.{set_key-Becomes}
use mnemos.Server.Command
use mnemos.Server.Command.{Context}
use mnemos.Server.Command.Bounds.{get_elem?-patched}
use mnemos.Server.Command.Deadlines.{
  IsConsistent, set_options-IsConsistent, unit_of, deadline_of-relative,
}
use mnemos.Server.Command.Extend.{Changes, append-Changes, setrange-Changes}
use mnemos.Server.Command.Counters.{Adds, Subtracts, incr-Adds}
use mnemos.Server.Command.Keys.{IsLive}
use mnemos.Server.Command.Numbers.{int64_min, incr, decr, incrby, decrby}
use mnemos.Server.Command.Options.{
  SetOptions, Failure, Parsed, failed, parsed, ExpireToken, plain_set, set_options, deadline_of,
}
use mnemos.Server.Command.Ranges.{append, setrange, patched, max_string_size}
use mnemos.Server.Command.Strings.{set, get}
use mnemos.Server.Command.Writing.{get-set}
use mnemos.Server.Command.Expiring.{
  Flags, Options, flags, no_flags, read_flags, are_compatible, unit_multiplier, when_of,
  expire_generic,
}
use mnemos.Server.Command.Expirations.{Does, expire_generic-Does}
use mnemos.Server.Command.Lifetimes.{Allows, exact, when_of-IsI64}
use mnemos.Server.Command.Keyspace.{rename}
use mnemos.Server.Command.Renames.{Moves, rename-Moves}
use mnemos.Server.Db.Changes.{deadline}

abbrev cat : Bytes
cat = codes "cat"

abbrev forty_two : Value ℕ
forty_two = make_string (codes "42")

abbrev blank : Database ℕ
blank = record { dict = Dict.new; expires = Dict.new; expiration_enabled = true; events = [] }

blank-IsSound : IsSound blank
blank-IsSound = record { dict = new-IsValid; expires = new-IsValid }

abbrev with_cat : Database ℕ
with_cat = Db.set_key blank cat forty_two

-- A call with the key "cat" at 100 ms.
abbrev call : List Bytes → Context ℕ
call args = record {
  db = with_cat;
  argv = [] ∷ cat ∷ args;
  now_ms = pos 100;
  protover = 2;
  reply = [];
  dirty = 0;
  notices = [];
  keyspace_hits = 0;
  keyspace_misses = 0;
}

forty_two-IsString : IsString forty_two
forty_two-IsString = (make_string-Holds (codes "42")).string

forty_two-text : string_value forty_two ≡ codes "42"
forty_two-text = (make_string-Holds (codes "42")).reads

call-IsLive : (args : List Bytes) → IsLive (call args) cat forty_two
unfolding is_dead
call-IsLive args =
    let b = set_key-Becomes blank cat forty_two blank-IsSound in
    let (own, time) = Becomes-own b in record { sound = b.sound; held = own; live = rw time refl }

append-Changes_example :
    (c' : Context ℕ) × (append (call (codes "7" ∷ [])) ≡ some c')
    × Changes (call (codes "7" ∷ [])) (string_value forty_two ++ codes "7") c'
append-Changes_example =
    append-Changes (call (codes "7" ∷ [])) forty_two (call-IsLive (codes "7" ∷ []))
      forty_two-IsString (rw forty_two-text (omega arith))

-- The last offset, as text.
abbrev last_offset : Bytes
last_offset = to_string (pos (2 ^ 63 - 1))

setrange-Changes_example :
    ((2 ^ 63 - 1) + 1 ≤ max_string_size
      → (c' : Context ℕ) × (setrange (call (last_offset ∷ codes "7" ∷ [])) ≡ some c')
        × Changes
            (call (last_offset ∷ codes "7" ∷ []))
            (patched (2 ^ 63 - 1) (codes "7") (string_value forty_two))
            c')
    × (2 ^ 63 ≤ (2 ^ 63 - 1) + 1 → setrange (call (last_offset ∷ codes "7" ∷ [])) ≡ none)
setrange-Changes_example =
    setrange-Changes (call (last_offset ∷ codes "7" ∷ [])) forty_two (2 ^ 63 - 1)
      (call-IsLive (last_offset ∷ codes "7" ∷ [])) forty_two-IsString refl (omega arith)
      (omega arith) (omega arith)

-- DECRBY by the smallest int64 and INCRBY by it.
abbrev smallest : List Bytes
smallest = to_string int64_min ∷ []

incr-Adds_example :
    Adds (call smallest) forty_two (plus_ℤ (pos 42) (pos 1)) (incr (call smallest))
    × Adds (call smallest) forty_two (plus_ℤ (pos 42) (negsuc 0)) (decr (call smallest))
    × ((m : ℤ)
        → IsI64 m
        → to_string int64_min ≡ to_string m
        → Adds (call smallest) forty_two (plus_ℤ (pos 42) m) (incrby (call smallest))
          × Subtracts (call smallest) forty_two (pos 42) m (decrby (call smallest)))
unfolding to_string mnemos.Prelude.Decimal.decimal
incr-Adds_example =
    incr-Adds (call smallest) (pos 42) forty_two (call-IsLive smallest) forty_two-IsString
      forty_two-text (omega arith)

get-set_example :
    (get (record (call []) { db = (set (call (codes "x" ∷ []))).db })).reply
    ≡ Reply.bulk [] (codes "x")
get-set_example =
    get-set (call (codes "x" ∷ [])) (record (call []) { db = (set (call (codes "x" ∷ []))).db })
      (call-IsLive []).sound refl refl refl

get_elem?-patched_example :
    (length (patched 5 cat cat) ≡ max 3 8)
    × ((j : ℕ) → 6 ≡ 5 + j → j < 3 → get_elem? (patched 5 cat cat) 6 ≡ get_elem? cat j)
    × (6 < 5 ⊎ 8 ≤ 6 → 6 < 3 → get_elem? (patched 5 cat cat) 6 ≡ get_elem? cat 6)
    × (3 ≤ 6 → 6 < 5 → get_elem? (patched 5 cat cat) 6 ≡ some 0)
get_elem?-patched_example = get_elem?-patched 5 cat cat 6 (omega arith)

abbrev xx_get : List Bytes
xx_get = codes "XX" ∷ codes "get" ∷ []

abbrev xx_get_options : SetOptions
xx_get_options = record plain_set { xx = true; get = true }

xx_get-parsed : set_options (pos 100) xx_get plain_set ≡ parsed xx_get_options
unfolding set_options mnemos.Server.Command.Options.set_option
    mnemos.Server.Command.Options.set_token Command.equals_ignore_case mnemos.Core.Glob.fold
xx_get-parsed = refl

set_options-IsConsistent_example : IsConsistent xx_get_options
set_options-IsConsistent_example =
    set_options-IsConsistent (pos 100) xx_get plain_set xx_get_options
      (record { condition = refl; deadline = refl }) xx_get-parsed

deadline_of-relative_example :
    (1 ≤ 9223372036854775
      → 1700000000000 + 9223372036854775 * unit_of ExpireToken.ex < 2 ^ 63
      → deadline_of ExpireToken.ex (pos 9223372036854775) (pos 1700000000000)
        ≡ parsed (pos (1700000000000 + 9223372036854775 * unit_of ExpireToken.ex)))
    × (1 ≤ 9223372036854775
        → 2 ^ 63 ≤ 1700000000000 + 9223372036854775 * unit_of ExpireToken.ex
        → (at_ms : ℤ) × (deadline_of ExpireToken.ex (pos 9223372036854775) (pos 1700000000000)
            ≡ parsed at_ms)
          × (at_ms <ℤ pos 0))
    × ((m : ℤ)
        → m ≤ℤ pos 0
        → deadline_of ExpireToken.ex m (pos 1700000000000) ≡ failed Failure.invalid_expire)
deadline_of-relative_example =
    deadline_of-relative ExpireToken.ex 9223372036854775 1700000000000
      (unfold mnemos.Server.Command.Options.is_relative in refl) (omega arith)
      (unfold unit_of mnemos.Server.Command.Options.is_seconds in omega arith)

rename-Moves_example :
    Moves (call (codes "dog" ∷ [])) (touch (pos 100) forty_two) (rename (call (codes "dog" ∷ [])))
    × ((rename (call (codes "dog" ∷ []))).reply ≡ Reply.simple_string [] (codes "OK"))
unfolding mnemos.Prelude.Bytes.eqb
rename-Moves_example =
    rename-Moves (call (codes "dog" ∷ [])) forty_two (call-IsLive (codes "dog" ∷ [])) refl
      (omega arith)

-- EXPIRE cat 10 lt
abbrev ten : List Bytes
ten = codes "10" ∷ codes "lt" ∷ []

abbrev on_less : Flags
on_less = record no_flags { lt = true }

ten-number : mnemos.Core.Encoding.string_to_int64 (codes "10") ≡ some (pos 10)
unfolding mnemos.Core.Encoding.string_to_int64
ten-number = refl

ten-flags : read_flags (codes "lt" ∷ []) no_flags ≡ flags on_less
unfolding read_flags mnemos.Server.Command.Expiring.next_flags
    mnemos.Server.Command.Expiring.put_flag Command.equals_ignore_case mnemos.Core.Glob.fold
ten-flags = refl

ten-compatible : are_compatible on_less ≡ true
unfolding are_compatible
ten-compatible = refl

ten-when : when_of true false (pos 10) (pos 100) ≡ some (pos 10100)
unfolding when_of
ten-when = refl

expire_generic-Does_example :
    (¬ Allows on_less (deadline with_cat cat) (pos 10100)
      → Does
          (call ten)
          (some (touch (pos 100) forty_two))
          (deadline with_cat cat)
          0
          []
          (expire_generic true false (codes "expire") (call ten)))
    × (Allows on_less (deadline with_cat cat) (pos 10100)
        → pos 10100 ≤ℤ pos 100
        → Does
            (call ten)
            none
            none
            1
            (codes "del" ∷ [])
            (expire_generic true false (codes "expire") (call ten)))
    × (Allows on_less (deadline with_cat cat) (pos 10100)
        → pos 100 <ℤ pos 10100
        → Does
            (call ten)
            (some (touch (pos 100) forty_two))
            (some (pos 10100))
            1
            (codes "expire" ∷ [])
            (expire_generic true false (codes "expire") (call ten)))
expire_generic-Does_example =
    expire_generic-Does (call ten) forty_two true false (codes "expire") (pos 10) (pos 10100)
      on_less (call-IsLive ten) (omega arith) ten-number ten-flags ten-compatible ten-when

when_of-IsI64_example :
    ((w : ℤ)
      → when_of true false (pos 10) (pos 100) ≡ some w
      → (w ≡ exact true false (pos 10) (pos 100)) × IsI64 w)
    × (IsI64 (pos 10000)
        → IsI64 (exact true false (pos 10) (pos 100))
        → when_of true false (pos 10) (pos 100) ≡ some (exact true false (pos 10) (pos 100)))
when_of-IsI64_example = when_of-IsI64 true false (pos 10) 100 (omega arith) (omega arith)
