-- ===== src/Core/Dict/Resize.antt =====
-- The start of a rehash, to a larger or a smaller table, keeps the contents.
use mnemos.Prelude.{
  ℕ, ◌+◌, ◌*◌, ◌<◌, ◌≡◌, refl, false, Option, none, some, [], ◌∷◌, length, length-replicate,
  replicate, max, arith, ltb, leb, Bool-cases, inl, inr,
}
use mnemos.Prelude.Bytes.{Bytes}
use mnemos.Core.Dict.Links.{Chain, find_link, count}
use mnemos.Core.Dict.Buckets.{Table, home}
use mnemos.Core.Dict.Buckets.Laws.{total, bucket-replicate, total-replicate, replicate-IsPlaced}
use mnemos.Core.Dict.{
  Dict, is_rehashing, initial_size, new, resize_to, expand_if_needed, next_power_of_two,
  shrink_if_needed,
}
use mnemos.Core.Dict.Valid.{IsValid, view, Keeps, Keeps-refl, find_link-no_buckets}

module _ {ℓ} (V : Type ℓ) where
  count-replicate : (n : ℕ) (q : Bytes) → count {V = V} q (home (replicate n []) q) ≡ 0
  count-replicate n q = rw bucket-replicate (unfold count in refl)

module _ {ℓ} {V : Type ℓ} where
  total-no_buckets : (t : Table V) → length t ≡ 0 → total t ≡ 0
  unfolding total
  total-no_buckets [] h = refl
  total-no_buckets (c ∷ t) h = absurd (omega arith)

  find_link-replicate : (n : ℕ) (q : Bytes) → find_link {V = V} q (home (replicate n []) q) ≡ none
  find_link-replicate n q = rw bucket-replicate (unfold find_link in refl)

  pub resize_to-Keeps :
      (n : ℕ) {d : Dict V} → IsValid d → d.rehash_index ≡ none → 0 < n → Keeps d (resize_to n d)
  unfolding resize_to view
  resize_to-Keeps n {d} v idle h =
      let narrow : length d.table1 ≡ 0 = rw idle at v.phase in
      record {
        valid = record {
          roomy = v.roomy;
          phase = rw (length-replicate {A = Chain V} n []) h;
          placed0 = v.placed0;
          placed1 = replicate-IsPlaced V n;
          unique = λ q. omega (arith, v.unique q, count-replicate V n q);
          counted0 = v.counted0;
          counted1 = total-replicate V n;
        };
        same = λ q. rw (find_link-replicate n q, find_link-no_buckets d.table1 q narrow);
        as_many = omega (arith, v.counted1, total-no_buckets d.table1 narrow);
      }

  idle_index : (d : Dict V) → is_rehashing d ≡ false → d.rehash_index ≡ none
  idle_index d h = go d.rehash_index refl
    where
      go : (r : Option ℕ) → d.rehash_index ≡ r → d.rehash_index ≡ none
      go none e = e
      go (some i) e = ground (arith, h, e)

  pub expand_if_needed-Keeps : (d : Dict V) → IsValid d → Keeps d (expand_if_needed d)
  expand_if_needed-Keeps d v = elim (Bool-cases (is_rehashing d)) [
    | inl moving ↦ unfold expand_if_needed in rw moving (Keeps-refl v)
    | inr idle ↦ elim (Bool-cases (ltb d.used0 (length d.table0))) [
      | inl room ↦ unfold expand_if_needed in rw (idle, room) (Keeps-refl v)
      | inr full ↦
          let k =
            resize_to-Keeps (length d.table0 * 2) v (idle_index d idle) (omega (arith, v.roomy)) in
          unfold expand_if_needed in rw (idle, full) k
    ]
  ]

  pub shrink_if_needed-Keeps : (d : Dict V) → IsValid d → Keeps d (shrink_if_needed d)
  shrink_if_needed-Keeps d v = elim (Bool-cases (is_rehashing d)) [
    | inl moving ↦ unfold shrink_if_needed in rw moving (Keeps-refl v)
    | inr idle ↦ elim (Bool-cases (leb (length d.table0) initial_size)) [
      | inl small ↦ unfold shrink_if_needed in rw (idle, small) (Keeps-refl v)
      | inr large ↦ elim (Bool-cases (ltb (length d.table0) (d.used0 * 10))) [
        | inl dense ↦ unfold shrink_if_needed in rw (idle, large, dense) (Keeps-refl v)
        | inr sparse ↦
            let n = max initial_size (next_power_of_two (d.used0 + 1)) in
            let k = resize_to-Keeps n v (idle_index d idle) (omega arith) in
            unfold shrink_if_needed in rw (idle, large, sparse) k
      ]
    ]
  ]

  -- A new dictionary, or one that was cleared, is valid and empty.
  pub new-IsValid : IsValid {V = V} new
  unfolding new
  new-IsValid = record {
    roomy = omega arith;
    phase = refl;
    placed0 = replicate-IsPlaced V 4;
    placed1 = λ q i _. unfold count in refl;
    unique = λ q. unfold count in omega (arith, count-replicate V 4 q);
    counted0 = total-replicate V 4;
    counted1 = unfold total in refl;
  }
