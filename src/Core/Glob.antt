-- ===== src/Core/Glob.antt =====
-- src/core/strings.cpp: `globMatch`. The indices `p` and `t` are the parts of the pattern and of the
-- target that are left. A char is signed, as the compilers for x86-64 and Apple's machines have it,
-- and `std::tolower` is that of the C locale.
pub mod Language
pub mod Units
pub mod Pieces
pub mod Classes
pub mod OneByte
pub mod Matching
pub mod Loop
pub mod Plain
use mnemos.Prelude.{
  ℕ, zero, suc, ◌+◌, ◌*◌, ◌%◌, Bool, true, false, not, ◌&&◌, ◌||◌, Option, none, some, List, [],
  ◌∷◌, length, ltb, leb, ◌==◌, if◌then◌else◌,
}
use mnemos.Prelude.Bytes.{Bytes}

-- `fold`
unfoldable pub fold : Bool → ℕ → ℕ
fold case_insensitive c = if case_insensitive && leb b'A' c && leb c b'Z' then c + 32 else c

-- Signed chars are compared as these numbers.
abbrev pub rank : ℕ → ℕ
rank c = (c + 128) % 256

-- What stands at the cursor in a class: nothing, the `]`, an escaped byte, a range, or a byte; and
-- what follows it.
pub data Piece : Type 0 where
  unterminated : Piece
  closed : Bytes → Piece
  escaped : ℕ → Bytes → Piece
  range : ℕ → ℕ → Bytes → Piece
  plain : ℕ → Bytes → Piece

-- The conditions of the class loop, in its order.
unfoldable pub piece : Bytes → Piece
piece [] = unterminated
piece (x ∷ []) = if x == b']' then closed [] else plain x []
piece (x ∷ y ∷ []) =
    if x == b']' then closed (y ∷ []) else if x == b'\\' then escaped y [] else plain x (y ∷ [])
piece (x ∷ y ∷ z ∷ p) =
    if x == b']'
    then closed (y ∷ z ∷ p)
    else if x == b'\\'
    then escaped y (z ∷ p)
    else if y == b'-' && not (z == b']')
    then range x z p
    else plain x (y ∷ z ∷ p)

-- The target byte `c` is in the range, whose ends are swapped where they are in the wrong order.
unfoldable pub in_range : Bool → ℕ → ℕ → ℕ → Bool
in_range ci lo hi c =
    let l = rank (fold ci lo) in
    let h = rank (fold ci hi) in
    let v = rank (fold ci c) in if ltb h l then leb h v && leb v l else leb l v && leb v h

unfoldable pub same_char : Bool → ℕ → ℕ → Bool
same_char ci x c = fold ci x == fold ci c

-- A round of the class loop: `matched`, and what follows the `]`, if there is one.
unfoldable pub class_round :
    (Bool → Bytes → Bool × Option Bytes) → Bool → ℕ → Bool → Piece → Bool × Option Bytes
class_round next ci c matched unterminated = (matched, none)
class_round next ci c matched (closed p) = (matched, some p)
class_round next ci c matched (escaped x p) = next (same_char ci x c || matched) p
class_round next ci c matched (range lo hi p) = next (in_range ci lo hi c || matched) p
class_round next ci c matched (plain x p) = next (same_char ci x c || matched) p

-- Every round takes a byte of the pattern, so its length is enough fuel.
unfoldable pub class_loop : ℕ → Bool → ℕ → Bool → Bytes → Bool × Option Bytes
class_loop zero ci c matched p = (matched, none)
class_loop (suc fuel) ci c matched p = class_round (class_loop fuel ci c) ci c matched (piece p)

-- The end of the `[` branch: the class has to be closed, and to match.
unfoldable pub class_result : Bool → Bool × Option Bytes → Option Bytes
class_result negate (matched, none) = none
class_result true (matched, some p) = if matched then none else some p
class_result false (matched, some p) = if matched then some p else none

-- `negate` and the loop, on what follows the `[`.
unfoldable pub class_step : Bool → ℕ → Bytes → Option Bytes
class_step ci c [] = class_result false (class_loop 1 ci c false [])
class_step ci c (x ∷ p) =
    if x == b'^'
    then class_result true (class_loop (suc (length p)) ci c false p)
    else class_result false (class_loop (suc (length (x ∷ p))) ci c false (x ∷ p))

unfoldable pub literal_step : Bool → ℕ → ℕ → Bytes → Option Bytes
literal_step ci c x [] = if same_char ci x c then some [] else none
literal_step ci c x (y ∷ p) =
    if x == b'\\'
    then (if same_char ci y c then some p else none)
    else if same_char ci x c
    then some (y ∷ p)
    else none

-- The branches for `?`, `[` and a literal on the target byte `c`: what is left of the pattern, or
-- `none` where the code goes on to the mismatch.
unfoldable pub unit_step : Bool → ℕ → ℕ → Bytes → Option Bytes
unit_step ci c x p =
    if x == b'?' then some p else if x == b'[' then class_step ci c p else literal_step ci c x p

-- The inner loop over a run of stars, and the loop after the main one.
unfoldable pub skip_stars : Bytes → Bytes
skip_stars [] = []
skip_stars (x ∷ p) = let rest = skip_stars p in if x == b'*' then rest else x ∷ p

-- What the front of the pattern does to a target byte.
pub data Front : Type 0 where
  at_end : Front
  at_star : Bytes → Front
  at_unit : Option Bytes → Front

unfoldable pub front : Bool → ℕ → Bytes → Front
front ci c [] = at_end
front ci c (x ∷ p) = if x == b'*' then at_star (skip_stars p) else at_unit (unit_step ci c x p)

-- `star_p` (what follows the star) and `star_t`.
abbrev pub Saved : Type 0
Saved = Option (Bytes × Bytes)

abbrev pub Round : Type 0
Round = Bytes → Bytes → Saved → Option Bool

unfoldable pub tail : Bytes → Bytes
tail [] = []
tail (c ∷ t) = t

-- The mismatch: the open star swallows one more byte.
unfoldable pub retry : Round → Saved → Option Bool
retry next none = some false
retry next (some (p, t)) = next p (tail t) (some (p, tail t))

unfoldable pub round : Round → ℕ → Bytes → Saved → Front → Option Bool
round next c t saved at_end = retry next saved
round next c t saved (at_star p) = next p (c ∷ t) (some (p, c ∷ t))
round next c t saved (at_unit none) = retry next saved
round next c t saved (at_unit (some p)) = next p t saved

unfoldable pub is_empty : Bytes → Bool
is_empty [] = true
is_empty (x ∷ p) = false

-- The main loop; `none` is the end of the fuel.
unfoldable pub glob_loop : ℕ → Bool → Round
glob_loop zero ci p t saved = none
glob_loop (suc fuel) ci p [] saved = some (is_empty (skip_stars p))
glob_loop (suc fuel) ci p (c ∷ t) saved = round (glob_loop fuel ci) c t saved (front ci c p)

-- Between two bytes that the open star swallows, the pattern gets shorter in every round.
unfoldable pub glob_match : Bytes → Bytes → Bool → Option Bool
glob_match pattern target case_insensitive =
    glob_loop ((length target + 1) * (length pattern + 1)) case_insensitive pattern target none
