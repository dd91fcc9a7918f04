-- ===== src/Net/Resp/SplitArgs.antt =====
-- `splitArgs` of src/net/resp.cpp as a state machine: one `step` for each round of its loops.
pub mod Termination
pub mod Nul
use mnemos.Prelude.{
  ℕ, zero, suc, ◌+◌, ◌-◌, ◌*◌, Bool, true, false, ◌&&◌, ◌||◌, Option, none, some, List, [], ◌∷◌,
  ◌++◌, length, ltb, leb, ◌==◌, if◌then◌else◌,
}
use mnemos.Prelude.Bytes.{Bytes}
use mnemos.Net.Resp.Text.{hex_digit_to_int, is_space}

-- Where the code is: between two arguments, or in one, outside quotes or inside of them.
pub data Mode : Type 0 where
  outer plain in_double in_single : Mode

-- `rest` is `line.substr(i)`.
pub record State : Type 0 where
  pub mode : Mode
  pub rest : Bytes
  pub current : Bytes
  pub out : List Bytes

-- `none` inside `return` is `std::nullopt`.
pub data Next : Type 0 where
  goes_on : State → Next
  returns : Option (List Bytes) → Next

-- The letters of the escapes in double quotes.
unescape : ℕ → ℕ
unescape c =
    if c == b'n'
    then 10
    else if c == b'r'
    then 13
    else if c == b't'
    then 9
    else if c == b'b'
    then 8
    else if c == b'a'
    then 7
    else c

-- `\xHH` at the front: the byte, and what follows.
hex_escape : Bytes → Option (ℕ × Bytes)
unfolding hex_digit_to_int
hex_escape (c ∷ x ∷ h ∷ l ∷ s) =
    if c == 92 && x == b'x'
    then elim (hex_digit_to_int h) [
      | none ↦ none
      | some a ↦ elim (hex_digit_to_int l) [ none ↦ none | some b ↦ some (a * 16 + b, s) ]
    ]
    else none
hex_escape _ = none

-- A closing quote has to be followed by white space or by the end of the line.
close_quote : Bytes → Bytes → List Bytes → Next
close_quote [] current out =
    goes_on (record { mode = Mode.outer; rest = []; current = []; out = out ++ current ∷ [] })
close_quote (c ∷ s) current out =
    if is_space c
    then goes_on
        (record { mode = Mode.outer; rest = c ∷ s; current = []; out = out ++ current ∷ [] })
    else returns none

-- A backslash with a byte behind it, or a byte of its own.
plain_escape : Bytes → Bytes → List Bytes → Next
unfolding unescape close_quote
plain_escape [] current out = returns none
plain_escape (c ∷ []) current out =
    if c == b'"'
    then close_quote [] current out
    else goes_on
        (record { mode = Mode.in_double; rest = []; current = current ++ c ∷ []; out = out })
plain_escape (c ∷ d ∷ s) current out =
    if c == 92
    then goes_on (record {
      mode = Mode.in_double;
      rest = s;
      current = current ++ unescape d ∷ [];
      out = out;
    })
    else if c == b'"'
    then close_quote (d ∷ s) current out
    else goes_on
        (record { mode = Mode.in_double; rest = d ∷ s; current = current ++ c ∷ []; out = out })

step_double : Bytes → Bytes → List Bytes → Next
unfolding hex_escape plain_escape
step_double rest current out = elim (hex_escape rest) [
  | some (v, s) ↦
      goes_on (record { mode = Mode.in_double; rest = s; current = current ++ v ∷ []; out = out })
  | none ↦ plain_escape rest current out
]

step_single : Bytes → Bytes → List Bytes → Next
unfolding close_quote
step_single [] current out = returns none
step_single (c ∷ []) current out =
    if c == 39
    then close_quote [] current out
    else goes_on
        (record { mode = Mode.in_single; rest = []; current = current ++ c ∷ []; out = out })
step_single (c ∷ d ∷ s) current out =
    if c == 92 && d == 39
    then goes_on
        (record { mode = Mode.in_single; rest = s; current = current ++ 39 ∷ []; out = out })
    else if c == 39
    then close_quote (d ∷ s) current out
    else goes_on
        (record { mode = Mode.in_single; rest = d ∷ s; current = current ++ c ∷ []; out = out })

-- The bytes that end an argument outside quotes.
abbrev ends_argument : ℕ → Bool
ends_argument c = c == 32 || c == 10 || c == 13 || c == 9 || c == 0

step_plain : Bytes → Bytes → List Bytes → Next
step_plain [] current out =
    goes_on (record { mode = Mode.outer; rest = []; current = []; out = out ++ current ∷ [] })
step_plain (c ∷ s) current out =
    if ends_argument c
    then goes_on
        (record { mode = Mode.outer; rest = c ∷ s; current = []; out = out ++ current ∷ [] })
    else if c == b'"'
    then goes_on (record { mode = Mode.in_double; rest = s; current = current; out = out })
    else if c == 39
    then goes_on (record { mode = Mode.in_single; rest = s; current = current; out = out })
    else goes_on (record { mode = Mode.plain; rest = s; current = current ++ c ∷ []; out = out })

-- White space is skipped; then the next argument starts.
step_outer : Bytes → List Bytes → Next
step_outer [] out = returns (some out)
step_outer (c ∷ s) out =
    if is_space c
    then goes_on (record { mode = Mode.outer; rest = s; current = []; out = out })
    else goes_on (record { mode = Mode.plain; rest = c ∷ s; current = []; out = out })

dispatch : Mode → Bytes → Bytes → List Bytes → Next
unfolding step_outer step_plain step_double step_single
dispatch Mode.outer rest current out = step_outer rest out
dispatch Mode.plain rest current out = step_plain rest current out
dispatch Mode.in_double rest current out = step_double rest current out
dispatch Mode.in_single rest current out = step_single rest current out

unfoldable pub step : State → Next
unfolding dispatch
step s = dispatch s.mode s.rest s.current s.out

-- The loops. `none` means that the fuel ran out, `some none` is `std::nullopt`.
unfoldable pub run : ℕ → State → Option (Option (List Bytes))
unfolding step
run zero s = none
run (suc fuel) s = elim (step s) [ goes_on t ↦ run fuel t | returns r ↦ some r ]

abbrev pub start : Bytes → State
start line = record { mode = Mode.outer; rest = line; current = []; out = [] }

-- Fuel for every line on which the code returns at all.
abbrev pub enough : Bytes → ℕ
enough line = 3 * length line + 3

-- `none` where the code never returns.
unfoldable pub split_args : Bytes → Option (Option (List Bytes))
unfolding run
split_args line = run (enough line) (start line)
