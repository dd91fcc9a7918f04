-- ===== src/Core/Dict/Links.antt =====
-- One chain of a table: the loops over `next` pointers in `find`, `insert` and `erase`.
use mnemos.Prelude.{
  ℕ, suc, ◌+◌, ◌≤◌, ◌≡◌, refl, Option, none, some, List, [], ◌∷◌, length, if◌then◌else◌, arith,
}
use mnemos.Prelude.Bytes.{Bytes, eqb, eqb_iff}

abbrev pub Chain {ℓ} : Type ℓ → Type ℓ
Chain V = List (Bytes × V)

module _ {ℓ} {V : Type ℓ} where
  abbrev pub or_else : Option V → Option V → Option V
  or_else none o = o
  or_else (some v) o = some v

  -- `&e->value`, or null
  unfoldable pub find_link : Bytes → Chain V → Option V
  find_link k [] = none
  find_link k ((j, v) ∷ c) = if eqb j k then some v else find_link k c

  -- A write through the pointer that `find` returned.
  unfoldable pub assign_link : Bytes → V → Chain V → Chain V
  assign_link k v [] = []
  assign_link k v ((j, w) ∷ c) = if eqb j k then (j, v) ∷ c else (j, w) ∷ assign_link k v c

  -- The first link with the key is unlinked.
  unfoldable pub erase_link : Bytes → Chain V → Chain V
  erase_link k [] = []
  erase_link k ((j, w) ∷ c) = if eqb j k then c else (j, w) ∷ erase_link k c

  -- How often a key occurs.
  unfoldable pub count : Bytes → Chain V → ℕ
  count q [] = 0
  count q ((j, v) ∷ c) = if eqb j q then suc (count q c) else count q c

  pub find_link-eq-none : (q : Bytes) (c : Chain V) → count q c ≡ 0 → find_link q c ≡ none
  unfolding count find_link
  find_link-eq-none q [] h = refl
  find_link-eq-none q ((j, v) ∷ c) h = ground (arith, find_link-eq-none q c)

  pub count-eq-zero : (q : Bytes) (c : Chain V) → find_link q c ≡ none → count q c ≡ 0
  unfolding count find_link
  count-eq-zero q [] h = refl
  count-eq-zero q ((j, v) ∷ c) h = ground (arith, count-eq-zero q c)

  pub count_pos : (q : Bytes) (c : Chain V) (v : V) → find_link q c ≡ some v → 1 ≤ count q c
  unfolding count find_link
  count_pos q [] v h = cc
  count_pos q ((j, w) ∷ c) v h = ground (arith, count_pos q c v)

  pub find_link-assign_link :
      (k q : Bytes) (v old : V) (c : Chain V)
      → find_link k c ≡ some old
      → find_link q (assign_link k v c) ≡ (if eqb k q then some v else find_link q c)
  unfolding find_link assign_link
  find_link-assign_link k q v old [] h = cc
  find_link-assign_link k q v old ((j, w) ∷ c) h =
      ground (arith, eqb_iff j k, eqb_iff j q, eqb_iff k q, find_link-assign_link k q v old c)

  pub count-assign_link :
      (k q : Bytes) (v : V) (c : Chain V) → count q (assign_link k v c) ≡ count q c
  unfolding count assign_link
  count-assign_link k q v [] = refl
  count-assign_link k q v ((j, w) ∷ c) = ground (arith, count-assign_link k q v c)

  pub length-assign_link : (k : Bytes) (v : V) (c : Chain V) → length (assign_link k v c) ≡ length c
  unfolding assign_link
  length-assign_link k v [] = refl
  length-assign_link k v ((j, w) ∷ c) = ground (arith, length-assign_link k v c)

  pub find_link-erase_link :
      (k q : Bytes) (c : Chain V)
      → count q c ≤ 1
      → find_link q (erase_link k c) ≡ (if eqb k q then none else find_link q c)
  unfolding count find_link erase_link
  find_link-erase_link k q [] h = ground arith
  find_link-erase_link k q ((j, w) ∷ c) h = ground (
    arith,
    eqb_iff j k,
    eqb_iff j q,
    eqb_iff k q,
    find_link-eq-none q c,
    find_link-erase_link k q c,
  )

  pub count-erase_link : (k q : Bytes) (c : Chain V) → count q (erase_link k c) ≤ count q c
  unfolding count erase_link
  count-erase_link k q [] = omega arith
  count-erase_link k q ((j, w) ∷ c) = ground (arith, count-erase_link k q c)

  pub length-erase_link :
      (k : Bytes) (c : Chain V) (v : V)
      → find_link k c ≡ some v
      → length (erase_link k c) + 1 ≡ length c
  unfolding find_link erase_link
  length-erase_link k [] v h = cc
  length-erase_link k ((j, w) ∷ c) v h = ground (arith, length-erase_link k c v)

  -- A chain without entries.
  pub count_length : (q : Bytes) (c : Chain V) → count q c ≤ length c
  unfolding count
  count_length q [] = omega arith
  count_length q ((j, v) ∷ c) = ground (arith, count_length q c)
