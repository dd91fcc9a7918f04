-- ===== src/Core/Glob/Units.antt =====
-- What follows a unit of the pattern does not depend on the byte it is tried on, and is shorter.
use mnemos.Prelude.{
  ℕ, zero, suc, ◌≤◌, ◌≡◌, refl, inl, inr, Bool, true, false, ◌||◌, Option, none, some, [], ◌∷◌,
  length, arith, ◌==◌, Bool-cases,
}
use mnemos.Prelude.Bytes.{Bytes}
use mnemos.Core.Glob.{
  Piece, unterminated, closed, escaped, range, plain, piece, in_range, same_char, class_round,
  class_loop, class_result, class_step, literal_step, unit_step, skip_stars,
}

-- What is left after the piece at the cursor.
abbrev left_of : Piece → Bytes
left_of unterminated = []
left_of (closed p) = p
left_of (escaped x p) = p
left_of (range lo hi p) = p
left_of (plain x p) = p

left_of-piece : (p : Bytes) → length (left_of (piece p)) ≤ length p
unfolding piece
left_of-piece [] = omega arith
left_of-piece (x ∷ []) = ground arith
left_of-piece (x ∷ y ∷ []) = ground arith
left_of-piece (x ∷ y ∷ z ∷ p) = ground arith

module _ (ci : Bool) (c d : ℕ) where
  class_round_rest :
      (f g : Bool → Bytes → Bool × Option Bytes) (m n : Bool) (q : Piece)
      → ((m n : Bool) (p : Bytes) → (f m p).1 ≡ (g n p).1)
      → (class_round f ci c m q).1 ≡ (class_round g ci d n q).1
  unfolding class_round
  class_round_rest f g m n unterminated ih = refl
  class_round_rest f g m n (closed p) ih = refl
  class_round_rest f g m n (escaped x p) ih = ih (same_char ci x c || m) (same_char ci x d || n) p
  class_round_rest f g m n (range lo hi p) ih =
      ih (in_range ci lo hi c || m) (in_range ci lo hi d || n) p
  class_round_rest f g m n (plain x p) ih = ih (same_char ci x c || m) (same_char ci x d || n) p

  class_loop_rest :
      (fuel : ℕ) (m n : Bool) (p : Bytes)
      → (class_loop fuel ci c m p).1 ≡ (class_loop fuel ci d n p).1
  unfolding class_loop
  class_loop_rest zero m n p = refl
  class_loop_rest (suc fuel) m n p =
      class_round_rest (class_loop fuel ci c) (class_loop fuel ci d) m n (piece p)
        (class_loop_rest fuel)

  class_result_rest :
      (negate : Bool) (r s : Bool × Option Bytes) (p q : Bytes)
      → r.1 ≡ s.1
      → class_result negate r ≡ some p
      → class_result negate s ≡ some q
      → p ≡ q
  unfolding class_result
  class_result_rest true (m, none) (n, b) p q e f g = absurd (ground arith)
  class_result_rest false (m, none) (n, b) p q e f g = absurd (ground arith)
  class_result_rest true (m, some a) (n, none) p q e f g = absurd (ground arith)
  class_result_rest false (m, some a) (n, none) p q e f g = absurd (ground arith)
  class_result_rest true (m, some a) (n, some b) p q e f g = ground arith
  class_result_rest false (m, some a) (n, some b) p q e f g = ground arith

  class_step_rest :
      (r p q : Bytes) → class_step ci c r ≡ some p → class_step ci d r ≡ some q → p ≡ q
  unfolding class_step
  class_step_rest [] p q =
      class_result_rest false (class_loop 1 ci c false []) (class_loop 1 ci d false []) p q
        (class_loop_rest 1 false false [])
  class_step_rest (x ∷ r) p q = elim (Bool-cases (x == b'^')) [
    | inl caret ↦ rw caret (
        class_result_rest true (class_loop (suc (length r)) ci c false r)
          (class_loop (suc (length r)) ci d false r) p q
          (class_loop_rest (suc (length r)) false false r))
    | inr other ↦
        let n = suc (length (x ∷ r)) in
        rw other (
          class_result_rest false (class_loop n ci c false (x ∷ r))
            (class_loop n ci d false (x ∷ r)) p q (class_loop_rest n false false (x ∷ r)))
  ]

  literal_step_rest :
      (x : ℕ) (r p q : Bytes)
      → literal_step ci c x r ≡ some p
      → literal_step ci d x r ≡ some q
      → p ≡ q
  unfolding literal_step
  literal_step_rest x [] p q e f = ground arith
  literal_step_rest x (y ∷ r) p q e f = ground arith

  -- Two bytes that a unit matches leave the same pattern.
  pub unit_step_rest :
      (x : ℕ) (r p q : Bytes) → unit_step ci c x r ≡ some p → unit_step ci d x r ≡ some q → p ≡ q
  unfolding unit_step
  unit_step_rest x r p q e f = elim (Bool-cases (x == b'?')) [
    | inl any ↦ ground (arith, any)
    | inr other ↦ elim (Bool-cases (x == b'[')) [
      | inl bracket ↦
          class_step_rest r p q (ground (arith, other, bracket)) (ground (arith, other, bracket))
      | inr lit ↦
          literal_step_rest x r p q (ground (arith, other, lit)) (ground (arith, other, lit))
    ]
  ]

module _ (ci : Bool) (c : ℕ) where
  length-class_round :
      (f : Bool → Bytes → Bool × Option Bytes) (m : Bool) (r : Piece) (q : Bytes)
      → ((m : Bool) (p q : Bytes) → (f m p).1 ≡ some q → length q ≤ length p)
      → (class_round f ci c m r).1 ≡ some q
      → length q ≤ length (left_of r)
  unfolding class_round
  length-class_round f m unterminated q ih e = absurd (ground arith)
  length-class_round f m (closed p) q ih e = ground arith
  length-class_round f m (escaped x p) q ih e = ih (same_char ci x c || m) p q e
  length-class_round f m (range lo hi p) q ih e = ih (in_range ci lo hi c || m) p q e
  length-class_round f m (plain x p) q ih e = ih (same_char ci x c || m) p q e

  -- The class loop leaves a part of what it was given.
  length-class_loop :
      (fuel : ℕ) (m : Bool) (p q : Bytes)
      → (class_loop fuel ci c m p).1 ≡ some q
      → length q ≤ length p
  unfolding class_loop
  length-class_loop zero m p q e = absurd (ground arith)
  length-class_loop (suc fuel) m p q e =
      let shorter = left_of-piece p in
      omega
        (arith, length-class_round (class_loop fuel ci c) m (piece p) q (length-class_loop fuel) e)

  class_result_length :
      (negate : Bool) (r : Bool × Option Bytes) (q : Bytes)
      → class_result negate r ≡ some q
      → r.1 ≡ some q
  unfolding class_result
  class_result_length negate (m, none) q e = absurd (ground arith)
  class_result_length true (m, some a) q e = ground arith
  class_result_length false (m, some a) q e = ground arith

  class_step-length : (r q : Bytes) → class_step ci c r ≡ some q → length q ≤ length r
  unfolding class_step
  class_step-length [] q e =
      length-class_loop 1 false [] q (class_result_length false (class_loop 1 ci c false []) q e)
  class_step-length (x ∷ r) q e = elim (Bool-cases (x == b'^')) [
    | inl caret ↦
        let n = suc (length r) in
        let found =
          class_result_length true (class_loop n ci c false r) q (ground (arith, caret)) in
        omega (arith, length-class_loop n false r q found)
    | inr other ↦
        let n = suc (length (x ∷ r)) in
        length-class_loop n false (x ∷ r) q
          (class_result_length false (class_loop n ci c false (x ∷ r)) q (ground (arith, other)))
  ]

  literal_step-length : (x : ℕ) (r q : Bytes) → literal_step ci c x r ≡ some q → length q ≤ length r
  unfolding literal_step
  literal_step-length x [] q e = ground arith
  literal_step-length x (y ∷ r) q e = ground arith

  -- A unit takes at least one byte of the pattern.
  pub unit_step-length : (x : ℕ) (r q : Bytes) → unit_step ci c x r ≡ some q → length q ≤ length r
  unfolding unit_step
  unit_step-length x r q e = elim (Bool-cases (x == b'?')) [
    | inl any ↦ ground (arith, any)
    | inr other ↦ elim (Bool-cases (x == b'[')) [
      | inl bracket ↦ class_step-length r q (ground (arith, other, bracket))
      | inr lit ↦ literal_step-length x r q (ground (arith, other, lit))
    ]
  ]

pub length-skip_stars : (p : Bytes) → length (skip_stars p) ≤ length p
unfolding skip_stars
length-skip_stars [] = omega arith
length-skip_stars (x ∷ p) = ground (arith, length-skip_stars p)
