-- ===== src/Core/IntSet/Order.antt =====
-- Sorted arrays of integers: what `lower_bound` finds, and what a write at its index does.
use mnemos.Prelude.{
  ℕ, zero, suc, ◌≡◌, refl, ◌∙◌, Bool, true, false, ◌||◌, not, ◌&&◌, List, [], ◌∷◌, arith, All,
  Bool-cases, inl, inr,
}
use mnemos.Prelude.Int.{ℤ, ◌<ℤ◌, ltb_ℤ, eqb_ℤ, eqb_ℤ_iff}
use mnemos.Core.IntSet.{lower_bound, holds_at, insert_at, erase_at, ascending}

-- Strictly ascending: every value is above all that stand before it.
abbrev pub IsSorted : List ℤ → Type 0
IsSorted [] = Unit {0}
IsSorted (x ∷ xs) = All (λ y. x <ℤ y) xs × IsSorted xs

-- Membership as a test.
unfoldable pub mem : ℤ → List ℤ → Bool
mem v [] = false
mem v (x ∷ xs) = eqb_ℤ x v || mem v xs

All-weaken : (a b : ℤ) (xs : List ℤ) → a <ℤ b → All (λ y. b <ℤ y) xs → All (λ y. a <ℤ y) xs
All-weaken a b [] h k = tt
All-weaken a b (x ∷ xs) h k = (omega arith, All-weaken a b xs h k.1)

-- A value below all is in none of them.
mem_below : (v : ℤ) (xs : List ℤ) → All (λ y. v <ℤ y) xs → mem v xs ≡ false
unfolding mem
mem_below v [] h = refl
mem_below v (x ∷ xs) h = ground (arith, mem_below v xs h.1)

-- The value at the lower bound decides membership.
pub holds_at-mem : (xs : List ℤ) (v : ℤ) → IsSorted xs → holds_at xs (lower_bound xs v) v ≡ mem v xs
unfolding holds_at lower_bound mem
holds_at-mem [] v s = refl
holds_at-mem (x ∷ xs) v s = elim (Bool-cases (ltb_ℤ x v)) [
  | inl below ↦ rw below (holds_at-mem xs v s.1 ∙ ground (arith, below))
  | inr above ↦ elim (Bool-cases (eqb_ℤ x v)) [
    | inl same ↦ rw (above, same)
    | inr other ↦
        let gone : mem v xs ≡ false =
          mem_below v xs (All-weaken v x xs (ground (arith, above, other)) s.0) in
        rw (above, other, gone)
  ]
]

All-insert_at :
    (a v : ℤ) (xs : List ℤ) (i : ℕ)
    → a <ℤ v
    → All (λ y. a <ℤ y) xs
    → All (λ y. a <ℤ y) (insert_at xs i v)
All-insert_at a v xs zero h k = (h, k)
All-insert_at a v [] (suc i) h k = (h, tt)
All-insert_at a v (x ∷ xs) (suc i) h k = (k.0, All-insert_at a v xs i h k.1)

pub insert_at-IsSorted :
    (xs : List ℤ) (v : ℤ)
    → IsSorted xs
    → mem v xs ≡ false
    → IsSorted (insert_at xs (lower_bound xs v) v)
unfolding lower_bound mem
insert_at-IsSorted [] v s n = (tt, tt)
insert_at-IsSorted (x ∷ xs) v s n = elim (Bool-cases (ltb_ℤ x v)) [
  | inl below ↦ rw below (
    All-insert_at x v xs (lower_bound xs v) (ground (arith, below)) s.0,
    insert_at-IsSorted xs v s.1 (ground (arith, n)),
  )
  | inr above ↦
      let lt : v <ℤ x = ground (arith, above, n) in rw above ((lt, All-weaken v x xs lt s.0), s)
]

pub mem-insert_at :
    (xs : List ℤ) (i : ℕ) (v q : ℤ) → mem q (insert_at xs i v) ≡ eqb_ℤ v q || mem q xs
unfolding mem
mem-insert_at xs zero v q = refl
mem-insert_at [] (suc i) v q = refl
mem-insert_at (x ∷ xs) (suc i) v q = ground (arith, mem-insert_at xs i v q)

pub All-erase_at {ℓ} : (P : ℤ → Type ℓ) (xs : List ℤ) (i : ℕ) → All P xs → All P (erase_at xs i)
All-erase_at P [] zero h = tt
All-erase_at P [] (suc i) h = tt
All-erase_at P (x ∷ xs) zero h = h.1
All-erase_at P (x ∷ xs) (suc i) h = (h.0, All-erase_at P xs i h.1)

pub erase_at-IsSorted : (xs : List ℤ) (i : ℕ) → IsSorted xs → IsSorted (erase_at xs i)
erase_at-IsSorted [] zero s = tt
erase_at-IsSorted [] (suc i) s = tt
erase_at-IsSorted (x ∷ xs) zero s = s.1
erase_at-IsSorted (x ∷ xs) (suc i) s =
    (All-erase_at (λ y. x <ℤ y) xs i s.0, erase_at-IsSorted xs i s.1)

pub mem-erase_at :
    (xs : List ℤ) (v q : ℤ)
    → IsSorted xs
    → mem v xs ≡ true
    → mem q (erase_at xs (lower_bound xs v)) ≡ not (eqb_ℤ v q) && mem q xs
unfolding mem lower_bound
mem-erase_at [] v q s h = cc
mem-erase_at (x ∷ xs) v q s h = elim (Bool-cases (ltb_ℤ x v)) [
  | inl below ↦
      let later : mem v xs ≡ true = ground (arith, below, h) in
      let ih = mem-erase_at xs v q s.1 later in rw below (ground (arith, ih, below))
  | inr above ↦ elim (Bool-cases (eqb_ℤ x v)) [
    | inl same ↦
        let e : x ≡ v = (eqb_ℤ_iff x v).0 same in
        let alone = mem_below x xs s.0 in
        rw (above, ← e)
          (elim (Bool-cases (eqb_ℤ x q)) [
            | inl here ↦ let f : x ≡ q = (eqb_ℤ_iff x q).0 here in rw (here, ← f, alone)
            | inr there ↦ rw there
          ])
    | inr other ↦
        let gone : mem v xs ≡ false =
          mem_below v xs (All-weaken v x xs (ground (arith, above, other)) s.0) in
        absurd (ground (arith, h, gone, other))
  ]
]

All-ascending : (x : ℤ) (xs : List ℤ) → ascending (x ∷ xs) ≡ true → All (λ y. x <ℤ y) xs
unfolding ascending
All-ascending x [] h = tt
All-ascending x (y ∷ xs) h =
    let lt : x <ℤ y = ground (arith, h) in
    (lt, All-weaken x y xs lt (All-ascending y xs (ground (arith, h))))

-- The check of `fromBytes` is exact.
pub ascending→IsSorted : (xs : List ℤ) → ascending xs ≡ true → IsSorted xs
ascending→IsSorted [] h = tt
ascending→IsSorted (x ∷ []) h = (tt, tt)
ascending→IsSorted (x ∷ y ∷ xs) h = (
  All-ascending x (y ∷ xs) h,
  ascending→IsSorted (y ∷ xs) (unfold ascending in ground (arith, h)),
)

pub IsSorted→ascending : (xs : List ℤ) → IsSorted xs → ascending xs ≡ true
unfolding ascending
IsSorted→ascending [] s = refl
IsSorted→ascending (x ∷ []) s = refl
IsSorted→ascending (x ∷ y ∷ xs) s = ground (arith, IsSorted→ascending (y ∷ xs) s.1, s.0.0)
