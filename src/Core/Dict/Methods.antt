-- ===== src/Core/Dict/Methods.antt =====
-- `find`, `insert` and `erase` against the map: results, contents and size, on every branch.
use mnemos.Prelude.{
  ℕ, ◌+◌, ◌-◌, ◌<◌, ◌≡◌, refl, ap, sym, ◌∙◌, Bool, true, false, not, subst, Option, none, some,
  length, arith, if◌then◌else◌, ◌==◌, Bool-cases, inl, inr,
}
use mnemos.Prelude.Bytes.{Bytes, eqb, eqb_iff}
use mnemos.Core.Dict.Links.{or_else, find_link, count, count-eq-zero}
use mnemos.Core.Dict.Buckets.{home, push_entry}
use mnemos.Core.Dict.Buckets.Laws.{push_entry-Pushes}
use mnemos.Core.Dict.{
  Dict, is_rehashing, size, rehash_step, lookup, find, add_entry, insert_found, insert, unlink,
  erase_found, erase,
}
use mnemos.Core.Dict.Valid.{IsValid, view, Keeps, Keeps-refl, Keeps-trans, lookup-view, view_empty}
use mnemos.Core.Dict.Rehash.{rehash_step-Keeps}
use mnemos.Core.Dict.Resize.{expand_if_needed-Keeps, shrink_if_needed-Keeps}
use mnemos.Core.Dict.Writes.{Updates, Updates-after, Updates-then, assign-Updates, unlink-Updates}

abbrev pub one_if : Bool → ℕ
one_if true = 1
one_if false = 0

module _ {ℓ} {V : Type ℓ} where
  -- `find` returns what the map holds, and at most moves entries between the tables: the state
  -- stays valid, with the same contents and size.
  pub find-view :
      (d : Dict V) (k : Bytes) → IsValid d → ((find d k).0 ≡ view d k) × Keeps d (find d k).1
  find-view d k v = elim (Bool-cases (size d == 0)) [
    | inl nothing ↦
        unfold find in rw nothing (sym (view_empty v (ground (arith, nothing)) k), Keeps-refl v)
    | inr something ↦
        let s = rehash_step-Keeps d v in
        let l : lookup (rehash_step d) k ≡ view d k = lookup-view s.valid k ∙ s.same k in
        unfold find in rw something (l, s)
  ]

  or_else-eq-none : (o p : Option V) → or_else o p ≡ none → (o ≡ none) × (p ≡ none)
  or_else-eq-none none p h = (refl, h)
  or_else-eq-none (some v) p h = cc

  absent_counts :
      (d : Dict V) (k : Bytes)
      → view d k ≡ none
      → (count k (home d.table0 k) ≡ 0) × (count k (home d.table1 k) ≡ 0)
  absent_counts d k h =
      let (e0, e1) =
        or_else-eq-none (find_link k (home d.table0 k)) (find_link k (home d.table1 k))
          (unfold view in h) in
      (count-eq-zero k (home d.table0 k) e0, count-eq-zero k (home d.table1 k) e1)

  add0 :
      {d : Dict V} (v : IsValid d) (k : Bytes) (x : V)
      → view d k ≡ none
      → Updates d k
          (some x)
          (size d + 1)
          (record d { table0 = push_entry k x d.table0; used0 = d.used0 + 1 })
  add0 {d} v k x absent =
      let p = push_entry-Pushes k x d.table0 v.roomy v.placed0 in
      let (none0, none1) = absent_counts d k absent in
      record {
        valid = record {
          roomy = rw p.width v.roomy;
          phase = v.phase;
          placed0 = p.placed;
          placed1 = v.placed1;
          unique = λ q. rw (p.counts q) (elim (Bool-cases (eqb k q)) [
            | inl same ↦
                let e : k ≡ q = (eqb_iff k q).0 same in rw (same, ← e, none0, none1) (omega arith)
            | inr other ↦ rw other (v.unique q)
          ]);
          counted0 = omega (arith, p.more, v.counted0);
          counted1 = v.counted1;
        };
        reads = λ q.
            unfold view in
            rw (p.finds q)
              (elim (Bool-cases (eqb k q)) [ inl same ↦ rw same | inr other ↦ rw other ]);
        entries = omega arith;
      }

  add1 :
      {d : Dict V} (v : IsValid d) (k : Bytes) (x : V)
      → 0 < length d.table1
      → view d k ≡ none
      → Updates d k
          (some x)
          (size d + 1)
          (record d { table1 = push_entry k x d.table1; used1 = d.used1 + 1 })
  add1 {d} v k x ready absent =
      let p = push_entry-Pushes k x d.table1 ready v.placed1 in
      let (none0, none1) = absent_counts d k absent in
      let (e0, e1) =
        or_else-eq-none (find_link k (home d.table0 k)) (find_link k (home d.table1 k))
          (unfold view in absent) in
      record {
        valid = record {
          roomy = v.roomy;
          phase = rw p.width v.phase;
          placed0 = v.placed0;
          placed1 = p.placed;
          unique = λ q. rw (p.counts q) (elim (Bool-cases (eqb k q)) [
            | inl same ↦
                let e : k ≡ q = (eqb_iff k q).0 same in rw (same, ← e, none0, none1) (omega arith)
            | inr other ↦ rw other (v.unique q)
          ]);
          counted0 = v.counted0;
          counted1 = omega (arith, p.more, v.counted1);
        };
        reads = λ q.
            unfold view in
            rw (p.finds q) (elim (Bool-cases (eqb k q)) [
              | inl same ↦ let e : k ≡ q = (eqb_iff k q).0 same in rw (same, ← e, e0)
              | inr other ↦ rw other
            ]);
        entries = omega arith;
      }

  moving_ready : (d : Dict V) → IsValid d → is_rehashing d ≡ true → 0 < length d.table1
  moving_ready d v h = go d.rehash_index refl
    where
      go : (r : Option ℕ) → d.rehash_index ≡ r → 0 < length d.table1
      go none e = absurd (ground (arith, h, e))
      go (some i) e = rw e at v.phase

  add_entry-Updates :
      {d : Dict V} (v : IsValid d) (k : Bytes) (x : V)
      → view d k ≡ none
      → Updates d k (some x) (size d + 1) (add_entry d k x)
  add_entry-Updates {d} v k x absent = elim (Bool-cases (is_rehashing d)) [
    | inl moving ↦ unfold add_entry in rw moving (add1 v k x (moving_ready d v moving) absent)
    | inr idle ↦ unfold add_entry in rw idle (add0 v k x absent)
  ]

  -- Whether a key is new to the map.
  abbrev pub is_new : Option V → Bool
  is_new none = true
  is_new (some w) = false

  insert_found-Updates :
      {d : Dict V} (v : IsValid d) (k : Bytes) (x : V) (o : Option V)
      → view d k ≡ o
      → ((insert_found o d k x).0 ≡ is_new o)
        × Updates d k (some x) (size d + one_if (is_new o)) (insert_found o d k x).1
  unfolding insert_found
  insert_found-Updates {d} v k x none h =
      let s = expand_if_needed-Keeps d v in
      let u = add_entry-Updates s.valid k x (s.same k ∙ h) in
      (
        refl,
        record {
          valid = u.valid;
          reads = (Updates-after s u).reads;
          entries = omega (arith, u.entries, s.as_many);
        },
      )
  insert_found-Updates {d} v k x (some w) h =
      let u = assign-Updates v k x w h in
      (refl, record { valid = u.valid; reads = u.reads; entries = omega (arith, u.entries) })

  -- `insert` puts the value under the key, whether it was there or not, and leaves every other key
  -- alone; its result says whether the key is new, and only then is the size one larger. The state
  -- stays valid, also where a rehash starts, goes on or ends.
  pub insert-Updates :
      (d : Dict V) (k : Bytes) (x : V)
      → IsValid d
      → ((insert d k x).0 ≡ is_new (view d k))
        × Updates d k (some x) (size d + one_if (is_new (view d k))) (insert d k x).1
  insert-Updates d k x v =
      let s = rehash_step-Keeps d v in
      let (returned, t) = find-view (rehash_step d) k s.valid in
      let kept = Keeps-trans s t in
      let same = returned ∙ s.same k in
      let (told, u) = insert_found-Updates kept.valid k x (view d k) (kept.same k) in
      let w = Updates-after kept u in
      let all : (p : Bool × Dict V) → Type ℓ = λ p.
        (p.0 ≡ is_new (view d k))
        × Updates d k (some x) (size d + one_if (is_new (view d k))) p.1 in
      unfold insert in
      subst (λ o. all (insert_found o (find (rehash_step d) k).1 k x)) (sym same)
        (
          told,
          record {
            valid = w.valid;
            reads = w.reads;
            entries = w.entries ∙ ap (λ n. n + one_if (is_new (view d k))) kept.as_many;
          },
        )

  erase_found-Updates :
      {d : Dict V} (v : IsValid d) (k : Bytes) (o : Option V)
      → view d k ≡ o
      → ((erase_found o d k).0 ≡ not (is_new o))
        × Updates d k none (size d - one_if (not (is_new o))) (erase_found o d k).1
  unfolding erase_found
  erase_found-Updates {d} v k none h =
      (refl, record { valid = v; reads = λ q. missing q; entries = omega arith })
    where
      missing : (q : Bytes) → view d q ≡ (if eqb k q then none else view d q)
      missing q = elim (Bool-cases (eqb k q)) [
        | inl same ↦ let e : k ≡ q = (eqb_iff k q).0 same in rw (same, ← e) h
        | inr other ↦ rw other
      ]
  erase_found-Updates {d} v k (some w) h =
      let u = unlink-Updates v k w h in
      let s = shrink_if_needed-Keeps (unlink d k) u.valid in (refl, Updates-then u s)

  -- `erase` removes the key and leaves every other key alone; its result says whether the key was
  -- there, and only then is the size one smaller. The state stays valid.
  pub erase-Updates :
      (d : Dict V) (k : Bytes)
      → IsValid d
      → ((erase d k).0 ≡ not (is_new (view d k)))
        × Updates d k none (size d - one_if (not (is_new (view d k)))) (erase d k).1
  erase-Updates d k v = elim (Bool-cases (size d == 0)) [
    | inl nothing ↦
        let gone = view_empty v (ground (arith, nothing)) in
        unfold erase in
        rw (nothing, gone k)
          (refl, record { valid = v; reads = λ q. rw gone (ground arith); entries = omega arith })
    | inr something ↦
        let s = rehash_step-Keeps d v in
        let l : lookup (rehash_step d) k ≡ view d k = lookup-view s.valid k ∙ s.same k in
        let (told, u) = erase_found-Updates s.valid k (view d k) (s.same k) in
        let w = Updates-after s u in
        unfold erase in
        rw (something, l)
          (
            told,
            record {
              valid = w.valid;
              reads = w.reads;
              entries = w.entries ∙ ap (λ n. n - one_if (not (is_new (view d k)))) s.as_many;
            },
          )
  ]
