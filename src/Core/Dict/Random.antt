-- ===== src/Core/Dict/Random.antt =====
-- `randomEntry` of src/core/dict.h. What the generator returns is a parameter: `draws n` is its
-- n-th number, and `at` the number of the next one.
use mnemos.Prelude.{
  ℕ, zero, suc, ◌+◌, ◌%◌, ◌≤◌, ◌<◌, ◌≡◌, refl, ap, ◌∙◌, false, Option, none, some, [], ◌∷◌, length,
  get_elem?, if◌then◌else◌, ◌==◌, arith, ℕ_discrete, Bool-cases, Option-cases, inl, inr,
}
use mnemos.Prelude.Bytes.{Bytes, eqb, eqb_refl}
use mnemos.Core.Dict.Links.{Chain, or_else, find_link, count, find_link-eq-none}
use mnemos.Core.Dict.Buckets.{Table, slot, bucket, home}
use mnemos.Core.Dict.Buckets.Laws.{total, IsPlaced}
use mnemos.Core.Dict.{Dict, is_rehashing, size}
use mnemos.Core.Dict.Valid.{IsValid, view}

module _ {ℓ} {V : Type ℓ} where
  -- The fallback: the first link of the first bucket that has one.
  pub first_link : Table V → Option (Bytes × V)
  first_link [] = none
  first_link ([] ∷ t) = first_link t
  first_link ((e ∷ c) ∷ t) = some e

  -- The link number `draw % chain_len` of a chain, null for an empty one.
  pick_link : Chain V → ℕ → Option (Bytes × V)
  pick_link [] draw = none
  pick_link (e ∷ c) draw = get_elem? (e ∷ c) (draw % length (e ∷ c))

  -- An attempt in a table of which `used` is the number of entries; `next` is the rest of the
  -- attempts. The bucket comes from one draw, and the link, if there is one, from a second.
  attempt_in : (ℕ → ℕ) → (ℕ → Option (Bytes × V) × ℕ) → Table V → ℕ → ℕ → Option (Bytes × V) × ℕ
  unfolding pick_link
  attempt_in draws next [] used at = next at
  attempt_in draws next (b ∷ t) used at =
      if used == 0
      then next at
      else elim (pick_link (bucket (b ∷ t) (draws at % length (b ∷ t))) (draws (at + 1))) [
        | none ↦ next (at + 1)
        | some e ↦ (some e, at + 2)
      ]

  -- The choice of the table, which draws only during a rehash.
  attempt : (ℕ → ℕ) → (ℕ → Option (Bytes × V) × ℕ) → Dict V → ℕ → Option (Bytes × V) × ℕ
  unfolding attempt_in
  attempt draws next d at =
      if is_rehashing d
      then (if draws at % 2 == 1
          then attempt_in draws next d.table1 d.used1 (at + 1)
          else attempt_in draws next d.table0 d.used0 (at + 1))
      else attempt_in draws next d.table0 d.used0 at

  attempts : (ℕ → ℕ) → ℕ → Dict V → ℕ → Option (Bytes × V) × ℕ
  unfolding attempt first_link
  attempts draws zero d at = (or_else (first_link d.table0) (first_link d.table1), at)
  attempts draws (suc n) d at = attempt draws (attempts draws n d) d at

  -- The entry, and the number of the next draw.
  unfoldable pub random_entry : (ℕ → ℕ) → Dict V → ℕ → Option (Bytes × V) × ℕ
  unfolding attempts
  random_entry draws d at = if size d == 0 then (none, at) else attempts draws 100 d at

  entry_count :
      (c : Chain V) (n : ℕ) (k : Bytes) (v : V) → get_elem? c n ≡ some (k, v) → 1 ≤ count k c
  unfolding count
  entry_count [] n k v h = cc
  entry_count ((j, w) ∷ c) zero k v h = let same : j ≡ k = cc in rw (same, eqb_refl k) (omega arith)
  entry_count ((j, w) ∷ c) (suc n) k v h = ground (arith, entry_count c n k v h)

  entry-find_link :
      (c : Chain V) (n : ℕ) (k : Bytes) (v : V)
      → get_elem? c n ≡ some (k, v)
      → count k c ≤ 1
      → find_link k c ≡ some v
  unfolding count find_link
  entry-find_link [] n k v h u = cc
  entry-find_link ((j, w) ∷ c) zero k v h u =
      let same : j ≡ k = cc in let value : w ≡ v = cc in rw (same, eqb_refl k, value)
  entry-find_link ((j, w) ∷ c) (suc n) k v h u = elim (Bool-cases (eqb j k)) [
    | inl same ↦ absurd (omega (arith, entry_count c n k v h, rw same at u))
    | inr other ↦ rw other (entry-find_link c n k v h (rw other at u))
  ]

  -- The entry of any bucket is what the search of its own bucket finds.
  entry_home :
      (t : Table V) (i n : ℕ) (k : Bytes) (v : V)
      → IsPlaced t
      → get_elem? (bucket t i) n ≡ some (k, v)
      → count k (home t k) ≤ 1
      → (find_link k (home t k) ≡ some v) × (1 ≤ count k (home t k))
  entry_home t i n k v placed h u = elim (ℕ_discrete (slot k (length t)) i) [
    | yes e ↦
        let here : get_elem? (home t k) n ≡ some (k, v) =
          ap (λ x. get_elem? (bucket t x) n) e ∙ h in
        (entry-find_link (home t k) n k v here u, entry_count (home t k) n k v here)
    | no ne ↦ absurd (omega (arith, placed k i ne, entry_count (bucket t i) n k v h))
  ]

  -- Every link of the table is an entry of the map.
  abbrev HoldsAll : Dict V → Table V → Type ℓ
  HoldsAll d t =
      (i n : ℕ) (e : Bytes × V) → get_elem? (bucket t i) n ≡ some e → view d e.0 ≡ some e.1

  table0-HoldsAll : (d : Dict V) → IsValid d → HoldsAll d d.table0
  table0-HoldsAll d w i n (k, v) h =
      let (found, _) = entry_home d.table0 i n k v w.placed0 h (omega (arith, w.unique k)) in
      unfold view in rw found

  table1-HoldsAll : (d : Dict V) → IsValid d → HoldsAll d d.table1
  table1-HoldsAll d w i n (k, v) h =
      let (found, once) = entry_home d.table1 i n k v w.placed1 h (omega (arith, w.unique k)) in
      let gone = find_link-eq-none k (home d.table0 k) (omega (arith, w.unique k)) in
      unfold view in rw (gone, found)

  -- The result is an entry of the map.
  abbrev pub Picks : Dict V → Option (Bytes × V) → Type ℓ
  Picks d o = (e : Bytes × V) × (o ≡ some e) × (view d e.0 ≡ some e.1)

  first_link-bucket :
      (t : Table V) (e : Bytes × V)
      → first_link t ≡ some e
      → (i : ℕ) × (get_elem? (bucket t i) 0 ≡ some e)
  unfolding first_link
  first_link-bucket [] e h = cc
  first_link-bucket ([] ∷ t) e h = let (i, g) = first_link-bucket t e h in (suc i, g)
  first_link-bucket ((f ∷ c) ∷ t) e h = (0, h)

  first_link-total : (t : Table V) → first_link t ≡ none → total t ≡ 0
  unfolding first_link total
  first_link-total [] h = refl
  first_link-total ([] ∷ t) h = omega (arith, first_link-total t h)
  first_link-total ((f ∷ c) ∷ t) h = cc

  fallback-Picks :
      (d : Dict V)
      → IsValid d
      → 0 < size d
      → Picks d (or_else (first_link d.table0) (first_link d.table1))
  fallback-Picks d w h = elim (Option-cases (first_link d.table0)) [
    | inr (e, f) ↦
        let (i, g) = first_link-bucket d.table0 e f in (e, rw f, table0-HoldsAll d w i 0 e g)
    | inl none0 ↦ elim (Option-cases (first_link d.table1)) [
      | inr (e, f) ↦
          let (i, g) = first_link-bucket d.table1 e f in
          (e, rw (none0, f), table1-HoldsAll d w i 0 e g)
      | inl none1 ↦ absurd (
          omega (
            arith,
            first_link-total d.table0 none0,
            first_link-total d.table1 none1,
            w.counted0,
            w.counted1,
          ))
    ]
  ]

  pick_link-get :
      (c : Chain V) (draw : ℕ) (e : Bytes × V)
      → pick_link c draw ≡ some e
      → get_elem? c (draw % length c) ≡ some e
  unfolding pick_link
  pick_link-get [] draw e h = cc
  pick_link-get (f ∷ c) draw e h = h

  attempt_in-Picks :
      (d : Dict V) (draws : ℕ → ℕ) (next : ℕ → Option (Bytes × V) × ℕ) (t : Table V) (used at : ℕ)
      → HoldsAll d t
      → ((p : ℕ) → Picks d (next p).0)
      → Picks d (attempt_in draws next t used at).0
  unfolding attempt_in
  attempt_in-Picks d draws next [] used at all later = later at
  attempt_in-Picks d draws next (b ∷ t) used at all later = elim (Bool-cases (used == 0)) [
    | inl nothing ↦ rw nothing (later at)
    | inr something ↦
        elim (Option-cases
          (pick_link (bucket (b ∷ t) (draws at % length (b ∷ t))) (draws (at + 1)))) [
            | inl empty ↦ rw (something, empty) (later (at + 1))
            | inr (e, found) ↦
                rw (something, found)
                  (
                    e,
                    refl,
                    all (draws at % length (b ∷ t))
                        (draws (at + 1) % length (bucket (b ∷ t) (draws at % length (b ∷ t)))) e
                        (pick_link-get (bucket (b ∷ t) (draws at % length (b ∷ t))) (draws (at + 1))
                          e found),
                  )
          ]
  ]

  attempt-Picks :
      (d : Dict V) (draws : ℕ → ℕ) (next : ℕ → Option (Bytes × V) × ℕ) (at : ℕ)
      → IsValid d
      → ((p : ℕ) → Picks d (next p).0)
      → Picks d (attempt draws next d at).0
  unfolding attempt
  attempt-Picks d draws next at w later =
      let in0 =
        λ (p : ℕ). attempt_in-Picks d draws next d.table0 d.used0 p (table0-HoldsAll d w) later in
      let in1 =
        λ (p : ℕ). attempt_in-Picks d draws next d.table1 d.used1 p (table1-HoldsAll d w) later in
      elim (Bool-cases (is_rehashing d)) [
        | inr idle ↦ rw idle (in0 at)
        | inl moving ↦ elim (Bool-cases (draws at % 2 == 1)) [
          | inl second ↦ rw (moving, second) (in1 (at + 1))
          | inr first ↦ rw (moving, first) (in0 (at + 1))
        ]
      ]

  attempts-Picks :
      (d : Dict V) (draws : ℕ → ℕ) (n at : ℕ)
      → IsValid d
      → 0 < size d
      → Picks d (attempts draws n d at).0
  unfolding attempts
  attempts-Picks d draws zero at w h = fallback-Picks d w h
  attempts-Picks d draws (suc n) at w h =
      attempt-Picks d draws (attempts draws n d) at w (λ p. attempts-Picks d draws n p w h)

  -- Whatever the generator draws, `randomEntry` returns an entry of a dictionary that is not empty,
  -- with the value that the key has.
  pub random_entry-Picks :
      (draws : ℕ → ℕ) (d : Dict V) (at : ℕ)
      → IsValid d
      → 0 < size d
      → Picks d (random_entry draws d at).0
  random_entry-Picks draws d at w h =
      let some_left : (size d == 0) ≡ false = ground arith in
      unfold random_entry in rw some_left (attempts-Picks d draws 100 at w h)
