-- ===== src/Server/Command/Lifetimes.antt =====
-- EXPIRE, PEXPIRE, EXPIREAT, PEXPIREAT: the deadline that they ask for, and the conditions on it.
use mnemos.Prelude.{ℕ, ◌^◌, ◌<◌, ◌≡◌, ◌↔◌, refl, Bool, true, false, Option, none, some, arith}
use mnemos.Prelude.Int.{ℤ, pos, negsuc, ◌<ℤ◌, plus_ℤ, times_ℤ, IsI64}
use mnemos.Server.Db.{or_minus_one}
use mnemos.Server.Command.Renames.{IsFuture}
use mnemos.Server.Command.Expiring.{Flags, unit_multiplier, when_of, is_refused}

-- The deadline in exact arithmetic.
unfoldable pub exact : Bool → Bool → ℤ → ℤ → ℤ
exact seconds true raw now_ms = times_ℤ raw (unit_multiplier seconds)
exact seconds false raw now_ms = plus_ℤ (times_ℤ raw (unit_multiplier seconds)) now_ms

-- An int64 of seconds or milliseconds, absolute or from now on, with a clock that is not negative:
-- the deadline that is taken is the exact one and an int64, and every one is taken that is an int64
-- whose milliseconds, before the clock is added, are one too.
pub when_of-IsI64 :
    (seconds absolute : Bool) (raw : ℤ) (now : ℕ)
    → IsI64 raw
    → now < 2 ^ 63
    → ((w : ℤ)
        → when_of seconds absolute raw (pos now) ≡ some w
        → (w ≡ exact seconds absolute raw (pos now)) × IsI64 w)
      × (IsI64 (times_ℤ raw (unit_multiplier seconds))
          → IsI64 (exact seconds absolute raw (pos now))
          → when_of seconds absolute raw (pos now) ≡ some (exact seconds absolute raw (pos now)))
unfolding when_of exact
when_of-IsI64 true true (pos n) now h k = (λ w e. (ground arith, ground arith), λ a b. ground arith)
when_of-IsI64 true true (negsuc n) now h k =
    (λ w e. (ground arith, ground arith), λ a b. ground arith)
when_of-IsI64 true false (pos n) now h k =
    (λ w e. (ground arith, ground arith), λ a b. ground arith)
when_of-IsI64 true false (negsuc n) now h k =
    (λ w e. (ground arith, ground arith), λ a b. ground arith)
when_of-IsI64 false true (pos n) now h k =
    (λ w e. (ground arith, ground arith), λ a b. ground arith)
when_of-IsI64 false true (negsuc n) now h k =
    (λ w e. (ground arith, ground arith), λ a b. ground arith)
when_of-IsI64 false false (pos n) now h k =
    (λ w e. (ground arith, ground arith), λ a b. ground arith)
when_of-IsI64 false false (negsuc n) now h k =
    (λ w e. (ground arith, ground arith), λ a b. ground arith)

-- A deadline against the one of the key, where a key without one lives for ever.
abbrev pub IsLater : ℤ → Option ℤ → Type 0
IsLater when none = ⊥
IsLater when (some at_ms) = at_ms <ℤ when

abbrev pub IsSooner : ℤ → Option ℤ → Type 0
IsSooner when none = Unit {0}
IsSooner when (some at_ms) = when <ℤ at_ms

-- What the flags ask of the deadline that is there and of the new one.
pub record Allows (f : Flags) (t : Option ℤ) (when : ℤ) : Type 0 where
  pub on_nx : f.nx ≡ true → t ≡ none
  pub on_xx : f.xx ≡ true → ¬ (t ≡ none)
  pub on_gt : f.gt ≡ true → IsLater when t
  pub on_lt : f.lt ≡ true → IsSooner when t

pub is_refused-Allows :
    (f : Flags) (t : Option ℤ) (when : ℤ)
    → IsFuture t
    → (is_refused f (or_minus_one t) when ≡ false) ↔ Allows f t when
unfolding is_refused or_minus_one
is_refused-Allows f none when h = (
  λ e. record {
    on_nx = λ x. refl;
    on_xx = λ x. absurd (ground (arith, e, x));
    on_gt = λ x. absurd (ground (arith, e, x));
    on_lt = λ x. tt;
  },
  λ a.
      let xx : f.xx ≡ true → ⊥ = λ x. a.on_xx x refl in
      let gt : f.gt ≡ true → ⊥ = a.on_gt in ground (arith, xx, gt),
)
is_refused-Allows f (some at_ms) when h = (
  λ e. record {
    on_nx = λ x. absurd (ground (arith, e, x, h));
    on_xx = λ x same. absurd (ground (arith, same));
    on_gt = λ x. ground (arith, e, x, h);
    on_lt = λ x. ground (arith, e, x, h);
  },
  λ a.
      let nx : f.nx ≡ true → ⊥ = λ x. absurd (ground (arith, a.on_nx x)) in
      let gt : f.gt ≡ true → at_ms <ℤ when = a.on_gt in
      let lt : f.lt ≡ true → when <ℤ at_ms = a.on_lt in ground (arith, nx, gt, lt, h),
)
