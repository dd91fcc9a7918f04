-- ===== src/Core/Glob/OneByte.antt =====
-- The branches of `globMatch` for one byte of the target decide whether the pattern begins with a
-- unit that matches it.
use mnemos.Prelude.{
  ℕ, suc, ◌≡◌, refl, sym, subst, inl, inr, Bool, true, false, some, List, [], ◌∷◌, length, arith,
  ◌==◌, Bool-cases,
}
use mnemos.Prelude.Bytes.{Bytes}
use mnemos.Core.Glob.{class_step, literal_step, unit_step}
use mnemos.Core.Glob.Classes.{same_char-IsSame, class-members, members-class, no_hit, some_hit}
use mnemos.Core.Glob.Language.{
  IsSame, Item, Contains, Items, is_special, begins_with, TakesOne, any, literal, quoted, backslash,
  in_class, outside_class,
}

module _ (ci : Bool) (c : ℕ) where
  class_step-TakesOne : (p q : Bytes) → class_step ci c p ≡ some q → TakesOne ci c (b'[' ∷ p) q
  unfolding class_step begins_with
  class_step-TakesOne [] q e =
      let (is, d, verdict) = class-members ci c false 1 [] q (omega arith) e in elim d [ ]
  class_step-TakesOne (x ∷ p) q e = elim (Bool-cases (x == b'^')) [
    | inl caret ↦
        let (is, d, verdict) =
          class-members ci c true (suc (length p)) p q (omega arith) (ground (arith, e, caret)) in
        let same : b'^' ≡ x = ground arith in
        subst (λ y. TakesOne ci c (b'[' ∷ y ∷ p) q) same
          (outside_class d ((no_hit ci c is).0 verdict))
    | inr other ↦
        let (is, d, verdict) =
          class-members ci c false (suc (length (x ∷ p))) (x ∷ p) q (omega arith)
            (ground (arith, e, other)) in
        in_class other d ((some_hit ci c is).0 verdict)
  ]

  in_class-step :
      (p q : Bytes) (is : List Item)
      → begins_with b'^' p ≡ false
      → Items p is q
      → Contains ci c is
      → class_step ci c p ≡ some q
  unfolding class_step begins_with
  in_class-step [] q is b d h = elim d [ ]
  in_class-step (x ∷ p) q is b d h = rw b (
      members-class ci c false (suc (length (x ∷ p))) (x ∷ p) q is (omega arith) d
        ((some_hit ci c is).1 h))

  literal_step-TakesOne :
      (x : ℕ) (p q : Bytes)
      → (x == b'*') ≡ false
      → (x == b'?') ≡ false
      → (x == b'[') ≡ false
      → literal_step ci c x p ≡ some q
      → TakesOne ci c (x ∷ p) q
  unfolding literal_step is_special
  literal_step-TakesOne x [] q star mark bracket e = elim (Bool-cases (x == b'\\')) [
    | inl slash ↦
        let same : b'\\' ≡ x = ground arith in
        let rest : [] ≡ q = ground (arith, e) in
        let is_c : IsSame ci x c = (same_char-IsSame ci x c).0 (ground (arith, e)) in
        let is_slash : IsSame ci b'\\' c = subst (λ y. IsSame ci y c) (sym same) is_c in
        subst (λ r. TakesOne ci c (x ∷ []) r) rest
          (subst (λ y. TakesOne ci c (y ∷ []) []) same (backslash is_slash))
    | inr other ↦
        let rest : [] ≡ q = ground (arith, e) in
        let is_c : IsSame ci x c = (same_char-IsSame ci x c).0 (ground (arith, e)) in
        subst (λ r. TakesOne ci c (x ∷ []) r) rest
          (literal (ground (arith, star, mark, bracket, other)) is_c)
  ]
  literal_step-TakesOne x (y ∷ p) q star mark bracket e = elim (Bool-cases (x == b'\\')) [
    | inl slash ↦
        let same : b'\\' ≡ x = ground arith in
        let rest : p ≡ q = ground (arith, e, slash) in
        let is_c : IsSame ci y c = (same_char-IsSame ci y c).0 (ground (arith, e, slash)) in
        subst (λ r. TakesOne ci c (x ∷ y ∷ p) r) rest
          (subst (λ z. TakesOne ci c (z ∷ y ∷ p) p) same (quoted is_c))
    | inr other ↦
        let rest : (y ∷ p) ≡ q = ground (arith, e, other) in
        let is_c : IsSame ci x c = (same_char-IsSame ci x c).0 (ground (arith, e, other)) in
        subst (λ r. TakesOne ci c (x ∷ y ∷ p) r) rest
          (literal (ground (arith, star, mark, bracket, other)) is_c)
  ]

  -- A unit in front of the pattern, and what the code does with it.
  pub unit_step-TakesOne :
      (x : ℕ) (p q : Bytes)
      → (x == b'*') ≡ false
      → unit_step ci c x p ≡ some q
      → TakesOne ci c (x ∷ p) q
  unfolding unit_step
  unit_step-TakesOne x p q star e = elim (Bool-cases (x == b'?')) [
    | inl mark ↦
        let same : b'?' ≡ x = ground arith in
        let rest : p ≡ q = ground (arith, e, mark) in
        subst (λ r. TakesOne ci c (x ∷ p) r) rest (subst (λ y. TakesOne ci c (y ∷ p) p) same any)
    | inr other ↦ elim (Bool-cases (x == b'[')) [
      | inl bracket ↦
          let same : b'[' ≡ x = ground arith in
          subst (λ y. TakesOne ci c (y ∷ p) q) same
            (class_step-TakesOne p q (ground (arith, e, other, bracket)))
      | inr lit ↦ literal_step-TakesOne x p q star other lit (ground (arith, e, other, lit))
    ]
  ]

  pub TakesOne-unit_step :
      (x : ℕ) (p q : Bytes) → TakesOne ci c (x ∷ p) q → unit_step ci c x p ≡ some q
  unfolding unit_step literal_step is_special
  TakesOne-unit_step _ p _ any = refl
  TakesOne-unit_step x [] _ (literal plain h) =
      let same = (same_char-IsSame ci x c).1 h in ground (arith, plain, same)
  TakesOne-unit_step x (y ∷ p) _ (literal plain h) =
      let same = (same_char-IsSame ci x c).1 h in ground (arith, plain, same)
  TakesOne-unit_step _ _ q (quoted {y = y} h) = rw ((same_char-IsSame ci y c).1 h) refl
  TakesOne-unit_step _ _ _ (backslash h) = rw ((same_char-IsSame ci b'\\' c).1 h) refl
  TakesOne-unit_step _ p q (in_class {is = is} b d h) = in_class-step p q is b d h
  TakesOne-unit_step _ _ q (outside_class {p = p} {is = is} d n) =
      unfold class_step in
      members-class ci c true (suc (length p)) p q is (omega arith) d ((no_hit ci c is).1 n)
