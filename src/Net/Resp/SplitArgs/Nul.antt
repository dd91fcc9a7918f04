-- ===== src/Net/Resp/SplitArgs/Nul.antt =====
-- `splitArgs` returns on every line without a NUL, and loops for ever on a NUL outside quotes.
use mnemos.Prelude.{
  ℕ, zero, suc, ◌≤◌, ◌<◌, ◌&&◌, none, some, List, [], ◌∷◌, ◌++◌, ◌==◌, ◌≡◌, refl, sym, ◌∙◌, ◌≢◌,
  arith, inl, inr, Bool-cases, Option-cases, All,
}
use mnemos.Prelude.Bytes.{Bytes}
use mnemos.Net.Resp.Text.{is_space}
use mnemos.Net.Resp.SplitArgs.{
  Mode, State, goes_on, step, run, start, enough, split_args, hex_escape, plain_escape, close_quote,
  step_double, step_single, step_plain, step_outer, dispatch, ends_argument,
}
use mnemos.Net.Resp.SplitArgs.Termination.{
  AtNul, measure, weight, loops_AtNul, step-measure, run_enough, Next-cases, run_goes_on,
}

-- Where the model answers that the code does not return, no number of rounds makes it return.
split_args-diverges :
    (line : Bytes) → split_args line ≡ none → (rounds : ℕ) → run rounds (start line) ≡ none
unfolding split_args
split_args-diverges line e rounds =
    run_enough (enough line) (start line) (unfold measure weight in omega arith) e rounds

abbrev pub NoNul : Bytes → Type 0
NoNul = All (λ c. c ≢ 0)

hex_escape-NoNul :
    (rest : Bytes) (v : ℕ) (s : Bytes) → hex_escape rest ≡ some (v, s) → NoNul rest → NoNul s
unfolding hex_escape
hex_escape-NoNul (c ∷ x ∷ h ∷ l ∷ r) v s e n = let same : s ≡ r = ground arith in rw same n.1.1.1.1
hex_escape-NoNul [] v s e n = cc
hex_escape-NoNul (c ∷ []) v s e n = cc
hex_escape-NoNul (c ∷ x ∷ []) v s e n = cc
hex_escape-NoNul (c ∷ x ∷ h ∷ []) v s e n = cc

close_quote-NoNul :
    (rest current : Bytes) (out : List Bytes) (t : State)
    → close_quote rest current out ≡ goes_on t
    → NoNul rest
    → NoNul t.rest
unfolding close_quote
close_quote-NoNul [] current out t e n = let same : t.rest ≡ [] = ground arith in rw same tt
close_quote-NoNul (c ∷ s) current out t e n = let same : t.rest ≡ c ∷ s = ground arith in rw same n

plain_escape-NoNul :
    (rest current : Bytes) (out : List Bytes) (t : State)
    → plain_escape rest current out ≡ goes_on t
    → NoNul rest
    → NoNul t.rest
unfolding plain_escape
plain_escape-NoNul [] current out t e n = cc
plain_escape-NoNul (c ∷ []) current out t e n = elim (Bool-cases (c == b'"')) [
  | inl q ↦ close_quote-NoNul [] current out t (ground (arith, q)) tt
  | inr q ↦ let same : t.rest ≡ [] = ground (arith, q) in rw same tt
]
plain_escape-NoNul (c ∷ d ∷ s) current out t e n = elim (Bool-cases (c == 92)) [
  | inl q ↦ let same : t.rest ≡ s = ground (arith, q) in rw same n.1.1
  | inr b ↦ elim (Bool-cases (c == b'"')) [
    | inl q ↦ close_quote-NoNul (d ∷ s) current out t (ground (arith, q, b)) n.1
    | inr q ↦ let same : t.rest ≡ d ∷ s = ground (arith, q, b) in rw same n.1
  ]
]

step_double-NoNul :
    (rest current : Bytes) (out : List Bytes) (t : State)
    → step_double rest current out ≡ goes_on t
    → NoNul rest
    → NoNul t.rest
unfolding step_double
step_double-NoNul rest current out t e n = elim (Option-cases (hex_escape rest)) [
  | inl no_hex ↦ plain_escape-NoNul rest current out t (ground (arith, no_hex)) n
  | inr ((v, s), hex) ↦
      let same : t.rest ≡ s = ground (arith, hex) in rw same (hex_escape-NoNul rest v s hex n)
]

step_single-NoNul :
    (rest current : Bytes) (out : List Bytes) (t : State)
    → step_single rest current out ≡ goes_on t
    → NoNul rest
    → NoNul t.rest
unfolding step_single
step_single-NoNul [] current out t e n = cc
step_single-NoNul (c ∷ []) current out t e n = elim (Bool-cases (c == 39)) [
  | inl q ↦ close_quote-NoNul [] current out t (ground (arith, q)) tt
  | inr q ↦ let same : t.rest ≡ [] = ground (arith, q) in rw same tt
]
step_single-NoNul (c ∷ d ∷ s) current out t e n = elim (Bool-cases (c == 92 && d == 39)) [
  | inl q ↦ let same : t.rest ≡ s = ground (arith, q) in rw same n.1.1
  | inr b ↦ elim (Bool-cases (c == 39)) [
    | inl q ↦ close_quote-NoNul (d ∷ s) current out t (ground (arith, q, b)) n.1
    | inr q ↦ let same : t.rest ≡ d ∷ s = ground (arith, q, b) in rw same n.1
  ]
]

step_plain-NoNul :
    (rest current : Bytes) (out : List Bytes) (t : State)
    → step_plain rest current out ≡ goes_on t
    → NoNul rest
    → NoNul t.rest
unfolding step_plain
step_plain-NoNul [] current out t e n = let same : t.rest ≡ [] = ground arith in rw same tt
step_plain-NoNul (c ∷ s) current out t e n = elim (Bool-cases (ends_argument c)) [
  | inl q ↦ let same : t.rest ≡ c ∷ s = ground (arith, q) in rw same n
  | inr q ↦ let same : t.rest ≡ s = ground (arith, q) in rw same n.1
]

step_outer-NoNul :
    (rest : Bytes) (out : List Bytes) (t : State)
    → step_outer rest out ≡ goes_on t
    → NoNul rest
    → NoNul t.rest
unfolding step_outer
step_outer-NoNul [] out t e n = cc
step_outer-NoNul (c ∷ s) out t e n = elim (Bool-cases (is_space c)) [
  | inl q ↦ let same : t.rest ≡ s = ground (arith, q) in rw same n.1
  | inr q ↦ let same : t.rest ≡ c ∷ s = ground (arith, q) in rw same n
]

dispatch-NoNul :
    (mode : Mode) (rest current : Bytes) (out : List Bytes) (t : State)
    → dispatch mode rest current out ≡ goes_on t
    → NoNul rest
    → NoNul t.rest
unfolding dispatch
dispatch-NoNul Mode.outer rest current out t e n = step_outer-NoNul rest out t e n
dispatch-NoNul Mode.plain rest current out t e n = step_plain-NoNul rest current out t e n
dispatch-NoNul Mode.in_double rest current out t e n = step_double-NoNul rest current out t e n
dispatch-NoNul Mode.in_single rest current out t e n = step_single-NoNul rest current out t e n

not-AtNul : (m : Mode) (rest : Bytes) → NoNul rest → ¬ AtNul m rest
not-AtNul Mode.outer [] n h = h
not-AtNul Mode.plain [] n h = h
not-AtNul Mode.outer (c ∷ s) n h = n.0 h
not-AtNul Mode.plain (c ∷ s) n h = n.0 h
not-AtNul Mode.in_double rest n h = h
not-AtNul Mode.in_single rest n h = h

run_total : (fuel : ℕ) (s : State) → measure s < fuel → NoNul s.rest → run fuel s ≢ none
run_total zero s h n e = absurd (omega arith)
run_total (suc fuel) s h n e = elim (Next-cases (step s)) [
  | inl (t, eq) ↦
      run_total fuel t (omega (arith, step-measure s t (not-AtNul s.mode s.rest n) eq))
        (dispatch-NoNul s.mode s.rest s.current s.out t (unfold step in eq) n)
        (sym (run_goes_on fuel s t eq) ∙ e)
  | inr (r, eq) ↦ unfold run in ground (arith, eq)
]

-- `splitArgs` returns on every line without a NUL byte.
pub split_args-total : (line : Bytes) → NoNul line → split_args line ≢ none
unfolding split_args
split_args-total line n =
    run_total (enough line) (start line) (unfold measure weight in omega arith) n

-- A byte of an argument outside quotes.
abbrev pub IsOrdinary : ℕ → Type 0
IsOrdinary c = (33 ≤ c) × (c ≢ b'"') × (c ≢ 39)

run_ordinary :
    (w s current : Bytes) (out : List Bytes) (rounds : ℕ)
    → All IsOrdinary w
    → run rounds (record { mode = Mode.plain; rest = w ++ 0 ∷ s; current = current; out = out })
      ≡ none
unfolding run dispatch step_plain
run_ordinary [] s current out rounds h = loops_AtNul rounds Mode.plain (0 ∷ s) current out refl
run_ordinary (c ∷ w) s current out zero h = refl
run_ordinary (c ∷ w) s current out (suc rounds) h =
    ground (arith, run_ordinary w s (current ++ c ∷ []) out rounds)

-- On an argument of ordinary bytes, possibly empty, with a NUL byte behind it, `splitArgs` never
-- returns, whatever follows.
pub split_args_nul :
    (w s : Bytes) → All IsOrdinary w → (rounds : ℕ) → run rounds (start (w ++ 0 ∷ s)) ≡ none
split_args_nul [] s h rounds = loops_AtNul rounds Mode.outer (0 ∷ s) [] [] refl
split_args_nul (c ∷ w) s h zero = unfold run in refl
split_args_nul (c ∷ w) s h (suc rounds) =
    unfold run dispatch step_outer in ground (arith, run_ordinary (c ∷ w) s [] [] rounds h)
