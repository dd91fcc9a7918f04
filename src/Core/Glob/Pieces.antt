-- ===== src/Core/Glob/Pieces.antt =====
-- The piece at the cursor of the class loop, against the members that a class begins with.
use mnemos.Prelude.{
  ℕ, ◌≡◌, refl, subst, ◌⊎◌, inl, inr, false, not, ◌&&◌, [], ◌∷◌, arith, ◌==◌, Bool-cases,
}
use mnemos.Prelude.Bytes.{Bytes}
use mnemos.Core.Glob.{Piece, unterminated, closed, escaped, range, plain, piece}
use mnemos.Core.Glob.Language.{goes_on_as_range}

-- The pieces at the cursor.
pub data Cuts : Bytes → Piece → Type 0 where
  nothing : Cuts [] unterminated
  closes : {p : Bytes} → Cuts (b']' ∷ p) (closed p)
  escapes : {y : ℕ} {p : Bytes} → Cuts (b'\\' ∷ y ∷ p) (escaped y p)
  ranges :
      {x z : ℕ} {p : Bytes}
      → (x == b']') ≡ false
      → (x == b'\\') ≡ false
      → (z == b']') ≡ false
      → Cuts (x ∷ b'-' ∷ z ∷ p) (range x z p)
  stands :
      {x : ℕ} {p : Bytes}
      → (x == b']') ≡ false
      → ((x == b'\\') ≡ false) ⊎ (p ≡ [])
      → goes_on_as_range p ≡ false
      → Cuts (x ∷ p) (plain x p)

pub piece-Cuts : (p : Bytes) → Cuts p (piece p)
unfolding piece goes_on_as_range
piece-Cuts [] = nothing
piece-Cuts (x ∷ []) = elim (Bool-cases (x == b']')) [
  | inl shut ↦
      let same : b']' ≡ x = ground arith in
      rw shut (subst (λ y. Cuts (y ∷ []) (closed [])) same closes)
  | inr other ↦ rw other (stands other (inr refl) refl)
]
piece-Cuts (x ∷ y ∷ []) = elim (Bool-cases (x == b']')) [
  | inl shut ↦
      let same : b']' ≡ x = ground arith in
      rw shut (subst (λ w. Cuts (w ∷ y ∷ []) (closed (y ∷ []))) same closes)
  | inr other ↦ elim (Bool-cases (x == b'\\')) [
    | inl slash ↦
        let same : b'\\' ≡ x = ground arith in
        rw (other, slash) (subst (λ w. Cuts (w ∷ y ∷ []) (escaped y [])) same escapes)
    | inr free ↦ rw (other, free) (stands other (inl free) refl)
  ]
]
piece-Cuts (x ∷ y ∷ z ∷ p) = elim (Bool-cases (x == b']')) [
  | inl shut ↦
      let same : b']' ≡ x = ground arith in
      rw shut (subst (λ w. Cuts (w ∷ y ∷ z ∷ p) (closed (y ∷ z ∷ p))) same closes)
  | inr other ↦ elim (Bool-cases (x == b'\\')) [
    | inl slash ↦
        let same : b'\\' ≡ x = ground arith in
        rw (other, slash) (subst (λ w. Cuts (w ∷ y ∷ z ∷ p) (escaped y (z ∷ p))) same escapes)
    | inr free ↦ elim (Bool-cases (y == b'-' && not (z == b']'))) [
      | inl on ↦
          let dash : b'-' ≡ y = ground (arith, on) in
          let inner : (z == b']') ≡ false = ground (arith, on) in
          rw (other, free, on)
            (subst (λ w. Cuts (x ∷ w ∷ z ∷ p) (range x z p)) dash (ranges other free inner))
      | inr off ↦ rw (other, free, off) (stands other (inl free) off)
    ]
  ]
]

-- The piece that each member begins with.
pub piece-ends : (p : Bytes) → piece (b']' ∷ p) ≡ closed p
unfolding piece
piece-ends [] = refl
piece-ends (y ∷ []) = refl
piece-ends (y ∷ z ∷ p) = refl

pub piece-quotes : (y : ℕ) (p : Bytes) → piece (b'\\' ∷ y ∷ p) ≡ escaped y p
unfolding piece
piece-quotes y [] = refl
piece-quotes y (z ∷ p) = refl

pub piece-spans :
    (x z : ℕ) (p : Bytes)
    → (x == b']') ≡ false
    → (x == b'\\') ≡ false
    → (z == b']') ≡ false
    → piece (x ∷ b'-' ∷ z ∷ p) ≡ range x z p
unfolding piece
piece-spans x z p e f g = rw (e, f, g) refl

pub piece-lists :
    (x : ℕ) (p : Bytes)
    → (x == b']') ≡ false
    → (x == b'\\') ≡ false
    → goes_on_as_range p ≡ false
    → piece (x ∷ p) ≡ plain x p
unfolding piece goes_on_as_range
piece-lists x [] e f g = rw e refl
piece-lists x (y ∷ []) e f g = rw (e, f) refl
piece-lists x (y ∷ z ∷ p) e f g = rw (e, f, g) refl
