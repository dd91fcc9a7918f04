-- ===== src/Core/Glob/Matching.antt =====
-- What it means that a pattern of src/core/strings.cpp matches a target, with no order of search: an
-- inductive relation, and its inversions.
use mnemos.Prelude.{
  ℕ, ◌≡◌, refl, subst, ◌↔◌, inl, inr, Bool, true, false, none, some, [], ◌∷◌, arith, ◌==◌,
  Bool-cases,
}
use mnemos.Prelude.Bytes.{Bytes}
use mnemos.Core.Glob.{unit_step, skip_stars, is_empty}
use mnemos.Core.Glob.Language.{TakesOne}
use mnemos.Core.Glob.OneByte.{TakesOne-unit_step}
use mnemos.Core.Glob.Units.{unit_step_rest}

module _ (ci : Bool) where
  -- A star stands for any bytes; every other unit takes one byte that it matches.
  pub data Matches : Bytes → Bytes → Type 0 where
    empty : Matches [] []
    leave : {x : ℕ} {p t : Bytes} → (x == b'*') ≡ true → Matches p t → Matches (x ∷ p) t
    take :
        {x c : ℕ} {p t : Bytes} → (x == b'*') ≡ true → Matches (x ∷ p) t → Matches (x ∷ p) (c ∷ t)
    unit :
        {x c : ℕ} {p q t : Bytes}
        → (x == b'*') ≡ false
        → TakesOne ci c (x ∷ p) q
        → Matches q t
        → Matches (x ∷ p) (c ∷ t)

  -- A star in front of what may match.
  abbrev pub Starred : Bytes → Bytes → Type 0
  Starred p t = Matches (b'*' ∷ p) t

  pub star_at_end : {p : Bytes} → Starred p [] → Matches p []
  star_at_end (leave h d) = d

  pub must_take :
      {p : Bytes} {c : ℕ} {t : Bytes} → Starred p (c ∷ t) → ¬ Matches p (c ∷ t) → Starred p t
  must_take (leave h d) n = absurd (n d)
  must_take (take h d) n = d
  must_take (unit h e d) n = absurd (ground arith)

  pub two_stars :
      {x : ℕ} {p : Bytes} (t : Bytes) → (x == b'*') ≡ true → Starred (x ∷ p) t → Starred p t
  two_stars {x} {p} t s (leave h d) =
      let star : x ≡ b'*' = ground arith in subst (λ y. Matches (y ∷ p) t) star d
  two_stars (c ∷ t) s (take h d) = take h (two_stars t s d)
  two_stars (c ∷ t) s (unit h e d) = absurd (ground arith)

  -- A run of stars is one star.
  pub skip_stars-Starred : (p t : Bytes) → Starred p t ↔ Starred (skip_stars p) t
  unfolding skip_stars
  skip_stars-Starred [] t = (λ d. d, λ d. d)
  skip_stars-Starred (x ∷ p) t = elim (Bool-cases (x == b'*')) [
    | inl star ↦
        let (to, from) = skip_stars-Starred p t in
        rw star (λ d. to (two_stars t star d), λ d. add_star x t star (from d))
    | inr other ↦ rw other (λ d. d, λ d. d)
  ]
    where
      add_star :
          {p : Bytes} (x : ℕ) (t : Bytes) → (x == b'*') ≡ true → Starred p t → Starred (x ∷ p) t
      add_star {p} x t star d =
          let same : b'*' ≡ x = ground arith in leave refl (subst (λ y. Matches (y ∷ p) t) same d)

  pub is_empty-Matches : (p : Bytes) → (is_empty (skip_stars p) ≡ true) ↔ Matches p []
  unfolding is_empty skip_stars
  is_empty-Matches [] = (λ e. empty, λ d. refl)
  is_empty-Matches (x ∷ p) = elim (Bool-cases (x == b'*')) [
    | inl star ↦
        let (to, from) = is_empty-Matches p in
        rw star (λ e. leave star (to e), λ d. from (under_star d))
    | inr other ↦ rw other (λ e. absurd (ground arith), λ d. absurd (no_unit other d))
  ]
    where
      under_star : {x : ℕ} {p : Bytes} → Matches (x ∷ p) [] → Matches p []
      under_star (leave h d) = d

      no_unit : {x : ℕ} {p : Bytes} → (x == b'*') ≡ false → Matches (x ∷ p) [] → ⊥
      no_unit other (leave h d) = ground (arith, other)

  -- Where a unit matches, what follows it begins behind the first byte: the star loses nothing.
  pub drop_unit :
      {x : ℕ} {p q : Bytes} (b c : ℕ) (t : Bytes)
      → (x == b'*') ≡ false
      → unit_step ci c x p ≡ some q
      → Starred (x ∷ p) (b ∷ t)
      → Starred q t
  drop_unit {x} {p} {q} b c t other e (leave h (leave g d)) = absurd (ground arith)
  drop_unit {x} {p} {q} b c t other e (leave h (take g d)) = absurd (ground arith)
  drop_unit {x} {p} {q} b c t other e (leave h (unit {q = r} g f d)) =
      let tried = TakesOne-unit_step ci b x p r f in
      leave refl (subst (λ s. Matches s t) (unit_step_rest ci b c x p r q tried e) d)
  drop_unit b c [] other e (take h (leave g (leave k d))) = absurd (ground arith)
  drop_unit b c (a ∷ t) other e (take h d) = take refl (drop_unit a c t other e d)
  drop_unit b c t other e (unit h f d) = absurd (ground arith)

  pub unit_inv :
      {x c : ℕ} {p q t : Bytes}
      → (x == b'*') ≡ false
      → unit_step ci c x p ≡ some q
      → Matches (x ∷ p) (c ∷ t)
      → Matches q t
  unit_inv other e (leave h d) = absurd (ground arith)
  unit_inv other e (take h d) = absurd (ground arith)
  unit_inv {x} {c} {p} {q} {t} other e (unit {q = r} h f d) =
      let tried = TakesOne-unit_step ci c x p r f in
      subst (λ s. Matches s t) (unit_step_rest ci c c x p r q tried e) d

  pub unit_fails :
      {x c : ℕ} {p t : Bytes}
      → (x == b'*') ≡ false
      → unit_step ci c x p ≡ none
      → ¬ Matches (x ∷ p) (c ∷ t)
  unit_fails other e (leave h d) = ground arith
  unit_fails other e (take h d) = ground arith
  unit_fails {x} {c} {p} other e (unit {q = q} h f d) =
      let tried = TakesOne-unit_step ci c x p q f in ground (arith, e, tried)
