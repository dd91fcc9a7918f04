-- ===== src/Server/Notify.antt =====
-- The classes of keyspace events, `notify` of src/server/notify.h and notify.cpp: a set of classes
-- is a bit mask.
use Prim.Native.Nat.{bit_and, bit_or}
use mnemos.Prelude.{ℕ, ◌+◌, ◌^◌, Option, none, some, List, [], ◌∷◌, ◌++◌, ◌==◌, if◌then◌else◌}
use mnemos.Prelude.Bytes.{Bytes}

-- The classes in the order of their bits.
abbrev classes : List ℕ
classes =
    b'K' ∷ b'E' ∷ b'g' ∷ b'$' ∷ b'l' ∷ b's' ∷ b'h' ∷ b'z' ∷ b'x' ∷ b'e' ∷ b't' ∷ b'd' ∷ b'n' ∷ b'm'
    ∷ b'a' ∷ b'o' ∷ b'c' ∷ b'S' ∷ b'T' ∷ b'I' ∷ b'V' ∷ []

-- The bit of a class from number `bit` on, 0 for another character.
class_bit : List ℕ → ℕ → ℕ → ℕ
class_bit [] bit c = 0
class_bit (d ∷ cs) bit c = let later = class_bit cs (bit + bit) c in if c == d then bit else later

-- `kAll`: every class but K, E, n, m, S, T, I and V.
abbrev all_bits : ℕ
all_bits =
    2 ^ 2
    + 2 ^ 3
    + 2 ^ 4
    + 2 ^ 5
    + 2 ^ 6
    + 2 ^ 7
    + 2 ^ 8
    + 2 ^ 9
    + 2 ^ 10
    + 2 ^ 11
    + 2 ^ 14
    + 2 ^ 15
    + 2 ^ 16

bit_for : ℕ → ℕ
unfolding class_bit
bit_for c = if c == b'A' then all_bits else class_bit classes 1 c

-- The loop of `parseFlags`; `none` leaves `out` alone.
parse_loop : ℕ → Bytes → Option ℕ
unfolding bit_for
parse_loop flags [] = some flags
parse_loop flags (c ∷ spec) =
    let rest = parse_loop (bit_or flags (bit_for c)) spec in if bit_for c == 0 then none else rest

unfoldable pub parse_flags : Bytes → Option ℕ
unfolding parse_loop
parse_flags spec = parse_loop 0 spec

-- The letters of a table whose bits are set.
spell : List ℕ → ℕ → Bytes
unfolding bit_for
spell [] flags = []
spell (c ∷ cs) flags =
    let rest = spell cs flags in if bit_and flags (bit_for c) == 0 then rest else c ∷ rest

abbrev in_alias : List ℕ
in_alias =
    b'g' ∷ b'$' ∷ b'l' ∷ b's' ∷ b'h' ∷ b'z' ∷ b'x' ∷ b'e' ∷ b't' ∷ b'd' ∷ b'n' ∷ b'a' ∷ b'o' ∷ b'c'
    ∷ []

abbrev outside_alias : List ℕ
outside_alias = b'S' ∷ b'T' ∷ b'I' ∷ b'V' ∷ b'K' ∷ b'E' ∷ b'm' ∷ []

-- The alias wins whole.
unfoldable pub format_flags : ℕ → Bytes
unfolding spell
format_flags flags =
    (if bit_and flags all_bits == all_bits then b'A' ∷ [] else spell in_alias flags)
    ++ spell outside_alias flags
