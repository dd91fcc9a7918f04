-- ===== src/Core/IntSet/Methods.antt =====
-- `contains`, `add` and `remove` against membership; the width never narrows.
use mnemos.Prelude.{
  ◌≡◌, refl, ◌∙◌, Bool, true, false, ◌||◌, not, ◌&&◌, if◌then◌else◌, All, Bool-cases, inl, inr, max,
}
use mnemos.Prelude.Int.{ℤ, eqb_ℤ, eqb_ℤ_iff}
use mnemos.Core.IntSet.{IntSet, to_ℕ, lower_bound, erase_at, width_for, contains, remove}
use mnemos.Core.IntSet.Words.{Fits}
use mnemos.Core.IntSet.Order.{
  IsSorted, mem, holds_at-mem, erase_at-IsSorted, mem-erase_at, All-erase_at,
}

-- Sorted without duplicates, and every value fits the width.
pub record IsValid (s : IntSet) : Type 0 where
  pub sorted : IsSorted s.values
  pub fit : All (Fits s.width) s.values

pub contains-mem : (s : IntSet) (v : ℤ) → IsValid s → contains s v ≡ mem v s.values
contains-mem s v h = unfold contains in holds_at-mem s.values v h.sorted

-- The values are `xs` with `v` in front, as a set; the width is the larger one.
pub record Adds (s : IntSet) (v : ℤ) (r : Bool × IntSet) : Type 0 where
  pub told : r.0 ≡ not (contains s v)
  pub valid : IsValid r.1
  pub members : (q : ℤ) → contains r.1 q ≡ eqb_ℤ v q || contains s q
  pub wide :
      to_ℕ r.1.width
      ≡ (if contains s v then to_ℕ s.width else max (to_ℕ s.width) (to_ℕ (width_for v)))

pub record Removes (s : IntSet) (v : ℤ) (r : Bool × IntSet) : Type 0 where
  pub told : r.0 ≡ contains s v
  pub valid : IsValid r.1
  pub members : (q : ℤ) → contains r.1 q ≡ not (eqb_ℤ v q) && contains s q
  pub wide : r.1.width ≡ s.width

-- `remove` tells whether the value was there, and afterwards the set holds what it held but that
-- value. It stays valid, and the width stays as it is.
pub remove-Removes : (s : IntSet) (v : ℤ) → IsValid s → Removes s v (remove s v)
remove-Removes s v h = elim (Bool-cases (mem v s.values)) [
  | inr gone ↦
      let there = holds_at-mem s.values v h.sorted ∙ gone in
      unfold remove in
      rw (there, remove)
        (record {
          told = rw (contains-mem s v h, gone);
          valid = h;
          members = λ q. rw (contains-mem s q h) (absent q gone);
          wide = refl;
        })
  | inl old ↦
      let there = holds_at-mem s.values v h.sorted ∙ old in
      let i = lower_bound s.values v in
      let t : IntSet = record s { values = erase_at s.values i } in
      let valid : IsValid t = record {
        sorted = erase_at-IsSorted s.values i h.sorted;
        fit = All-erase_at (Fits s.width) s.values i h.fit;
      } in
      let done : Removes s v (true, t) = record {
        told = rw (contains-mem s v h, old);
        valid = valid;
        members = λ q.
            contains-mem t q valid
            ∙ mem-erase_at s.values v q h.sorted old
            ∙ rw (contains-mem s q h);
        wide = refl;
      } in
      unfold remove in rw (there, remove) done
]
  where
    absent : (q : ℤ) → mem v s.values ≡ false → mem q s.values ≡ not (eqb_ℤ v q) && mem q s.values
    absent q gone = elim (Bool-cases (eqb_ℤ v q)) [
      | inl same ↦ let e : v ≡ q = (eqb_ℤ_iff v q).0 same in rw (same, ← e) gone
      | inr other ↦ rw other
    ]
