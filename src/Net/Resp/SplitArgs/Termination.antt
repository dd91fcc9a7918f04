-- ===== src/Net/Resp/SplitArgs/Termination.antt =====
-- Where `splitArgs` returns, and where it loops for ever.
use mnemos.Prelude.{
  ℕ, zero, suc, ◌+◌, ◌*◌, ◌<◌, Option, none, some, List, [], ◌∷◌, ◌++◌, length, if◌then◌else◌, ◌≡◌,
  refl, sym, ◌∙◌, arith, ◌⊎◌, inl, inr,
}
use mnemos.Prelude.Bytes.{Bytes}
use mnemos.Net.Resp.SplitArgs.{
  Mode, State, Next, goes_on, returns, step, run, hex_escape, plain_escape, close_quote,
  step_double, step_single, step_plain, step_outer, dispatch, ends_argument,
}

-- Outside quotes, at a NUL.
abbrev pub AtNul : Mode → Bytes → Type 0
AtNul Mode.outer (c ∷ s) = c ≡ 0
AtNul Mode.plain (c ∷ s) = c ≡ 0
AtNul _ _ = ⊥

unfoldable pub weight : Mode → Bytes → ℕ
weight Mode.outer rest = 1
weight Mode.plain [] = 2
weight Mode.plain (c ∷ s) = if ends_argument c then 2 else 0
weight Mode.in_double rest = 0
weight Mode.in_single rest = 0

unfoldable pub measure : State → ℕ
unfolding weight
measure s = 3 * length s.rest + weight s.mode s.rest

-- At a NUL between arguments the code pushes an empty argument and stays where it is.
loops_at_nul :
    (fuel : ℕ) (s : Bytes) (current : Bytes) (out : List Bytes)
    → (run fuel (record { mode = Mode.outer; rest = 0 ∷ s; current = current; out = out }) ≡ none)
      × (run fuel (record { mode = Mode.plain; rest = 0 ∷ s; current = current; out = out }) ≡ none)
unfolding run
loops_at_nul zero s current out = (refl, refl)
loops_at_nul (suc fuel) s current out =
    ((loops_at_nul fuel s [] out).1, (loops_at_nul fuel s [] (out ++ current ∷ [])).0)

close_quote-measure :
    (rest current : Bytes) (out : List Bytes) (t : State)
    → close_quote rest current out ≡ goes_on t
    → measure t < 3 * length rest + 3
unfolding close_quote measure
close_quote-measure [] current out t e = ground arith
close_quote-measure (c ∷ s) current out t e = ground arith

hex_escape-length :
    (rest : Bytes) (v : ℕ) (s : Bytes) → hex_escape rest ≡ some (v, s) → length s < length rest
unfolding hex_escape
hex_escape-length (c ∷ x ∷ h ∷ l ∷ r) v s e = ground arith
hex_escape-length [] v s e = cc
hex_escape-length (c ∷ []) v s e = cc
hex_escape-length (c ∷ x ∷ []) v s e = cc
hex_escape-length (c ∷ x ∷ h ∷ []) v s e = cc

plain_escape-measure :
    (rest current : Bytes) (out : List Bytes) (t : State)
    → plain_escape rest current out ≡ goes_on t
    → measure t < 3 * length rest
unfolding plain_escape measure
plain_escape-measure [] current out t e = cc
plain_escape-measure (c ∷ []) current out t e = ground (arith, close_quote-measure [] current out t)
plain_escape-measure (c ∷ d ∷ s) current out t e =
    ground (arith, close_quote-measure (d ∷ s) current out t)

step_double-measure :
    (rest current : Bytes) (out : List Bytes) (t : State)
    → step_double rest current out ≡ goes_on t
    → measure t < 3 * length rest
unfolding step_double measure
step_double-measure rest current out t e =
    ground (arith, hex_escape-length rest, plain_escape-measure rest current out t)

step_single-measure :
    (rest current : Bytes) (out : List Bytes) (t : State)
    → step_single rest current out ≡ goes_on t
    → measure t < 3 * length rest
unfolding step_single measure
step_single-measure [] current out t e = cc
step_single-measure (c ∷ []) current out t e = ground (arith, close_quote-measure [] current out t)
step_single-measure (c ∷ d ∷ s) current out t e =
    ground (arith, close_quote-measure (d ∷ s) current out t)

step_plain-measure :
    (rest current : Bytes) (out : List Bytes) (t : State)
    → ¬ AtNul Mode.plain rest
    → step_plain rest current out ≡ goes_on t
    → measure t < 3 * length rest + weight Mode.plain rest
unfolding step_plain measure
step_plain-measure [] current out t h e = ground arith
step_plain-measure (c ∷ []) current out t h e = ground arith
step_plain-measure (c ∷ d ∷ s) current out t h e = ground arith

step_outer-measure :
    (rest : Bytes) (out : List Bytes) (t : State)
    → ¬ AtNul Mode.outer rest
    → step_outer rest out ≡ goes_on t
    → measure t < 3 * length rest + 1
unfolding step_outer measure
step_outer-measure [] out t h e = cc
step_outer-measure (c ∷ s) out t h e = ground arith

dispatch-measure :
    (mode : Mode) (rest current : Bytes) (out : List Bytes) (t : State)
    → ¬ AtNul mode rest
    → dispatch mode rest current out ≡ goes_on t
    → measure t < 3 * length rest + weight mode rest
unfolding dispatch
dispatch-measure Mode.outer rest current out t h e =
    unfold weight in step_outer-measure rest out t h e
dispatch-measure Mode.plain rest current out t h e = step_plain-measure rest current out t h e
dispatch-measure Mode.in_double rest current out t h e =
    omega (arith, step_double-measure rest current out t e)
dispatch-measure Mode.in_single rest current out t h e =
    omega (arith, step_single-measure rest current out t e)

pub step-measure :
    (s t : State) → ¬ AtNul s.mode s.rest → step s ≡ goes_on t → measure t < measure s
unfolding step measure
step-measure s t h e = dispatch-measure s.mode s.rest s.current s.out t h e

AtNul-cases : (m : Mode) (rest : Bytes) → (AtNul m rest) ⊎ (¬ AtNul m rest)
AtNul-cases Mode.outer [] = inr (λ h. h)
AtNul-cases Mode.plain [] = inr (λ h. h)
AtNul-cases Mode.outer (c ∷ s) = ground arith
AtNul-cases Mode.plain (c ∷ s) = ground arith
AtNul-cases Mode.in_double rest = inr (λ h. h)
AtNul-cases Mode.in_single rest = inr (λ h. h)

pub loops_AtNul :
    (fuel : ℕ) (m : Mode) (rest current : Bytes) (out : List Bytes)
    → AtNul m rest
    → run fuel (record { mode = m; rest = rest; current = current; out = out }) ≡ none
loops_AtNul fuel Mode.outer [] current out h = absurd h
loops_AtNul fuel Mode.plain [] current out h = absurd h
loops_AtNul fuel Mode.in_double rest current out h = absurd h
loops_AtNul fuel Mode.in_single rest current out h = absurd h
loops_AtNul fuel Mode.outer (c ∷ s) current out h = rw h (loops_at_nul fuel s current out).0
loops_AtNul fuel Mode.plain (c ∷ s) current out h = rw h (loops_at_nul fuel s current out).1

pub Next-cases :
    (n : Next) → ((t : State) × (n ≡ goes_on t)) ⊎ ((r : Option (List Bytes)) × (n ≡ returns r))
Next-cases (goes_on t) = inl (t, refl)
Next-cases (returns r) = inr (r, refl)

pub run_goes_on : (f : ℕ) (s t : State) → step s ≡ goes_on t → run (suc f) s ≡ run f t
unfolding run
run_goes_on f s t e = ground (arith, e)

-- Fuel above the measure that runs out shows a loop that no fuel ends.
pub run_enough : (f : ℕ) (s : State) → measure s < f → run f s ≡ none → (g : ℕ) → run g s ≡ none
run_enough zero s h e g = absurd (omega arith)
run_enough (suc f) s h e zero = unfold run in refl
run_enough (suc f) s h e (suc g) = elim (AtNul-cases s.mode s.rest) [
  | inl nul ↦ loops_AtNul (suc g) s.mode s.rest s.current s.out nul
  | inr free ↦ elim (Next-cases (step s)) [
    | inl (t, eq) ↦
        run_goes_on g s t eq
        ∙ run_enough f t (omega (arith, step-measure s t free eq)) (sym (run_goes_on f s t eq) ∙ e)
            g
    | inr (r, eq) ↦ absurd (unfold run in ground (arith, eq))
  ]
]
