-- ===== src/Server/Command/Deadlines.antt =====
-- The options of SET: which combinations get through, and the deadline that EX and PX ask for.
use mnemos.Prelude.{
  ℕ, ◌+◌, ◌*◌, ◌^◌, ◌≤◌, ◌<◌, ◌≡◌, inl, inr, true, false, ◌&&◌, ◌||◌, none, some, List, [], ◌∷◌,
  if◌then◌else◌, arith, Bool-cases,
}
use mnemos.Prelude.Bytes.{Bytes}
use mnemos.Prelude.Int.{ℤ, pos, ◌<ℤ◌, ◌≤ℤ◌, wrap_i64}
use mnemos.Server.Command.Options.{
  Failure, Parsed, failed, parsed, ExpireToken, is_relative, is_seconds, deadline_of,
  parse_expire_token, SetOptions, SetToken, Ahead, with_deadline, put_deadline, set_token,
  set_deadline, set_option, set_options,
}

-- NX and XX exclude each other, and so do a deadline and KEEPTTL.
pub record IsConsistent (o : SetOptions) : Type 0 where
  pub condition : (o.nx && o.xx) ≡ false
  pub deadline : (o.opts.set && o.opts.keep_ttl) ≡ false

-- The rest of a loop keeps the options consistent.
abbrev Keeps : (SetOptions → Parsed SetOptions) → Type 0
Keeps next = (o p : SetOptions) → IsConsistent o → next o ≡ parsed p → IsConsistent p

abbrev KeepsAhead : Ahead SetOptions → Type 0
KeepsAhead none = Unit {0}
KeepsAhead (some (value, after)) = Keeps after

with_deadline-IsConsistent :
    (o p : SetOptions) (after : SetOptions → Parsed SetOptions) (at : Parsed ℤ)
    → Keeps after
    → IsConsistent o
    → (o.opts.set || o.opts.keep_ttl) ≡ false
    → with_deadline (λ at_ms. record o { opts = put_deadline o.opts at_ms }) after at ≡ parsed p
    → IsConsistent p
unfolding with_deadline put_deadline
with_deadline-IsConsistent o p after (failed f) k h free e = absurd (ground arith)
with_deadline-IsConsistent o p after (parsed at_ms) k h free e =
    k (record o { opts = put_deadline o.opts at_ms }) p
      (record { condition = h.condition; deadline = ground (arith, free) }) e

set_option-IsConsistent :
    (now_ms : ℤ) (o p : SetOptions) (next : SetOptions → Parsed SetOptions)
    (ahead : Ahead SetOptions) (t : SetToken)
    → Keeps next
    → KeepsAhead ahead
    → IsConsistent o
    → set_option now_ms o next ahead t ≡ parsed p
    → IsConsistent p
unfolding set_option set_deadline
set_option-IsConsistent now_ms o p next ahead SetToken.nx_token k a h e = elim (Bool-cases (o.xx)) [
  | inl clash ↦ absurd (ground (arith, clash))
  | inr free ↦
      k (record o { nx = true }) p (record { condition = free; deadline = h.deadline })
        (ground (arith, free))
]
set_option-IsConsistent now_ms o p next ahead SetToken.xx_token k a h e = elim (Bool-cases (o.nx)) [
  | inl clash ↦ absurd (ground (arith, clash))
  | inr free ↦
      k (record o { xx = true }) p
        (record { condition = ground (arith, free); deadline = h.deadline }) (ground (arith, free))
]
set_option-IsConsistent now_ms o p next ahead SetToken.get_token k a h e =
    k (record o { get = true }) p (record { condition = h.condition; deadline = h.deadline }) e
set_option-IsConsistent now_ms o p next ahead SetToken.keep_ttl_token k a h e =
    elim (Bool-cases (o.opts.set)) [
      | inl clash ↦ absurd (ground (arith, clash))
      | inr free ↦
          k (record o { opts = record (o.opts) { keep_ttl = true } }) p
            (record { condition = h.condition; deadline = ground (arith, free) })
            (ground (arith, free))
    ]
set_option-IsConsistent now_ms o p next none (SetToken.deadline_token t) k a h e =
    absurd (ground arith)
set_option-IsConsistent now_ms o p next (some (value, after)) (SetToken.deadline_token t) k a h e =
    elim (Bool-cases (o.opts.set || o.opts.keep_ttl)) [
      | inl clash ↦ absurd (ground (arith, clash))
      | inr free ↦
          with_deadline-IsConsistent o p after (parse_expire_token t value now_ms) a h free
            (ground (arith, free))
    ]
set_option-IsConsistent now_ms o p next ahead SetToken.other_token k a h e = absurd (ground arith)

-- Whatever arguments SET is given, in any order and any number of repetitions: options that are
-- accepted, from consistent ones on, are consistent. NX and XX are never both set, nor are a deadline
-- and KEEPTTL.
pub set_options-IsConsistent :
    (now_ms : ℤ) (args : List Bytes) (o p : SetOptions)
    → IsConsistent o
    → set_options now_ms args o ≡ parsed p
    → IsConsistent p
unfolding set_options
set_options-IsConsistent now_ms [] o p h e = let same : o ≡ p = ground arith in rw (← same) h
set_options-IsConsistent now_ms (t ∷ []) o p h e =
    set_option-IsConsistent now_ms o p (set_options now_ms []) none (set_token t)
      (set_options-IsConsistent now_ms []) tt h e
set_options-IsConsistent now_ms (t ∷ value ∷ rest) o p h e =
    set_option-IsConsistent now_ms o p (set_options now_ms (value ∷ rest))
      (some (value, set_options now_ms rest)) (set_token t)
      (set_options-IsConsistent now_ms (value ∷ rest)) (set_options-IsConsistent now_ms rest) h e

-- Milliseconds in the unit of a token.
unfoldable pub unit_of : ExpireToken → ℕ
unit_of t = if is_seconds t then 1000 else 1

-- EX and PX with a positive number: a time to live whose milliseconds are an int64 gives the clock
-- plus the milliseconds while that is an int64; otherwise the sum wraps and the deadline is negative,
-- so the key is over at once, with no error. A number that is not positive is an error.
pub deadline_of-relative :
    (t : ExpireToken) (n now : ℕ)
    → is_relative t ≡ true
    → now < 2 ^ 63
    → n * unit_of t < 2 ^ 63
    → (1 ≤ n
        → now + n * unit_of t < 2 ^ 63
        → deadline_of t (pos n) (pos now) ≡ parsed (pos (now + n * unit_of t)))
      × (1 ≤ n
          → 2 ^ 63 ≤ now + n * unit_of t
          → (at_ms : ℤ) × (deadline_of t (pos n) (pos now) ≡ parsed at_ms) × (at_ms <ℤ pos 0))
      × ((m : ℤ) → m ≤ℤ pos 0 → deadline_of t m (pos now) ≡ failed Failure.invalid_expire)
unfolding deadline_of unit_of is_relative is_seconds
deadline_of-relative ExpireToken.ex n now r h k = (
  λ l f. ground arith,
  λ l f. (wrap_i64 (pos (now + n * 1000)), ground arith, ground arith),
  λ m l. ground arith,
)
deadline_of-relative ExpireToken.px n now r h k = (
  λ l f. ground arith,
  λ l f. (wrap_i64 (pos (now + n * 1)), ground arith, ground arith),
  λ m l. ground arith,
)
deadline_of-relative ExpireToken.exat n now r h k = absurd (ground arith)
deadline_of-relative ExpireToken.pxat n now r h k = absurd (ground arith)
