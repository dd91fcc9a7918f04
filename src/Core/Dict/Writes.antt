-- ===== src/Core/Dict/Writes.antt =====
-- The writes to one of the two tables, seen through both: a value is replaced, a link removed or
-- added.
use mnemos.Prelude.{
  ℕ, ◌+◌, ◌-◌, ◌≤◌, ◌<◌, ◌≡◌, refl, ap, ◌∙◌, ◌≢◌, subst, Option, none, some, [], ◌∷◌, length, arith,
  if◌then◌else◌, ◌==◌, Bool-cases, Option-cases, inl, inr, set,
}
use mnemos.Prelude.Bytes.{Bytes, eqb, eqb_iff}
use mnemos.Core.Dict.Links.{
  find_link, assign_link, erase_link, count, find_link-eq-none, count_pos, find_link-assign_link,
  count-assign_link, length-assign_link, find_link-erase_link, count-erase_link, length-erase_link,
}
use mnemos.Core.Dict.Buckets.{Table, slot, bucket, home}
use mnemos.Core.Dict.Buckets.Laws.{total, slot-lt, total-set, Changes, set-Changes}
use mnemos.Core.Dict.{Dict, size, assign, unlink}
use mnemos.Core.Dict.Valid.{IsValid, view, Keeps, find_in-home, or_else-none}

module _ {ℓ} {V : Type ℓ} where
  -- The map with `o` at the key `k`, and `n` entries.
  pub record Updates (d : Dict V) (k : Bytes) (o : Option V) (n : ℕ) (e : Dict V) : Type ℓ where
    pub valid : IsValid e
    pub reads : (q : Bytes) → view e q ≡ (if eqb k q then o else view d q)
    pub entries : size e ≡ n

  pub Updates-after :
      {d e f : Dict V} {k : Bytes} {o : Option V} {n : ℕ}
      → Keeps d e
      → Updates e k o n f
      → Updates d k o n f
  Updates-after {d} {e} {f} {k} {o} a u = record {
    valid = u.valid;
    reads = λ q. u.reads q ∙ ap (λ t. if eqb k q then o else t) (a.same q);
    entries = u.entries;
  }

  pub Updates-then :
      {d e f : Dict V} {k : Bytes} {o : Option V} {n : ℕ}
      → Updates d k o n e
      → Keeps e f
      → Updates d k o n f
  Updates-then u a = record {
    valid = a.valid;
    reads = λ q. a.same q ∙ u.reads q;
    entries = a.as_many ∙ u.entries;
  }

  -- Writes to one table, seen through both.
  write0 :
      {d : Dict V} (v : IsValid d) (k : Bytes) (o : Option V) (t : Table V) (n : ℕ)
      → Changes k o d.table0 t
      → find_link k (home d.table1 k) ≡ none
      → total t ≡ n
      → Updates d k o (n + d.used1) (record d { table0 = t; used0 = n })
  unfolding view
  write0 {d} v k o t n c absent counted = record {
    valid = record {
      roomy = rw c.width v.roomy;
      phase = v.phase;
      placed0 = c.placed;
      placed1 = v.placed1;
      unique = λ q. omega (arith, c.counts q, v.unique q);
      counted0 = counted;
      counted1 = v.counted1;
    };
    reads = λ q. rw (c.finds q) (elim (Bool-cases (eqb k q)) [
      | inl same ↦ let e : k ≡ q = (eqb_iff k q).0 same in rw (same, ← e, absent) (or_else-none o)
      | inr other ↦ rw other
    ]);
    entries = refl;
  }

  write1 :
      {d : Dict V} (v : IsValid d) (k : Bytes) (o : Option V) (t : Table V) (n : ℕ)
      → Changes k o d.table1 t
      → find_link k (home d.table0 k) ≡ none
      → total t ≡ n
      → Updates d k o (d.used0 + n) (record d { table1 = t; used1 = n })
  unfolding view
  write1 {d} v k o t n c absent counted = record {
    valid = record {
      roomy = v.roomy;
      phase = rw c.width v.phase;
      placed0 = v.placed0;
      placed1 = c.placed;
      unique = λ q. omega (arith, c.counts q, v.unique q);
      counted0 = v.counted0;
      counted1 = counted;
    };
    reads = λ q. rw (c.finds q) (elim (Bool-cases (eqb k q)) [
      | inl same ↦ let e : k ≡ q = (eqb_iff k q).0 same in rw (same, ← e, absent)
      | inr other ↦ rw other
    ]);
    entries = refl;
  }

  -- A key that one table holds is not in the other.
  only0 :
      {d : Dict V} (v : IsValid d) (k : Bytes) (w : V)
      → find_link k (home d.table0 k) ≡ some w
      → find_link k (home d.table1 k) ≡ none
  only0 {d} v k w e =
      find_link-eq-none k (home d.table1 k)
        (omega (arith, v.unique k, count_pos k (home d.table0 k) w e))

  -- In the bucket of `k` every key stands once at most.
  once :
      (t : Table V) (k q : Bytes)
      → ((i : ℕ) → slot q (length t) ≢ i → count q (bucket t i) ≡ 0)
      → count q (home t q) ≤ 1
      → count q (home t k) ≤ 1
  once t k q placed few = elim (Bool-cases (slot q (length t) == slot k (length t))) [
    | inl same ↦
        let e : slot q (length t) ≡ slot k (length t) = ground (arith, same) in
        subst (λ i. count q (bucket t i) ≤ 1) e few
    | inr other ↦ omega (arith, placed (slot k (length t)) (ground (arith, other)))
  ]

  has_buckets : (t : Table V) (k : Bytes) (w : V) → find_link k (home t k) ≡ some w → 0 < length t
  has_buckets [] k w e = absurd (unfold find_link in ground (arith, e))
  has_buckets (c ∷ t) k w e = omega arith

  assign-Changes :
      (t : Table V) (k : Bytes) (x w : V)
      → find_link k (home t k) ≡ some w
      → ((q : Bytes) (i : ℕ) → slot q (length t) ≢ i → count q (bucket t i) ≡ 0)
      → Changes k (some x) t (set t (slot k (length t)) (assign_link k x (home t k)))
        × (total (set t (slot k (length t)) (assign_link k x (home t k))) ≡ total t)
  assign-Changes t k x w e placed =
      let h = has_buckets t k w e in
      (
        set-Changes k (some x) t (assign_link k x (home t k)) h placed
            (λ q. omega (arith, count-assign_link k q x (home t k)))
            (λ q. find_link-assign_link k q x w (home t k) e),
        omega (
          arith,
          total-set t (slot k (length t)) (assign_link k x (home t k)) (slot-lt k (length t) h),
          length-assign_link k x (home t k),
        ),
      )

  erase-Changes :
      (t : Table V) (k : Bytes) (w : V)
      → find_link k (home t k) ≡ some w
      → ((q : Bytes) (i : ℕ) → slot q (length t) ≢ i → count q (bucket t i) ≡ 0)
      → ((q : Bytes) → count q (home t q) ≤ 1)
      → Changes k none t (set t (slot k (length t)) (erase_link k (home t k)))
        × (total (set t (slot k (length t)) (erase_link k (home t k))) + 1 ≡ total t)
  erase-Changes t k w e placed few =
      let h = has_buckets t k w e in
      (
        set-Changes k none t (erase_link k (home t k)) h placed
            (λ q. count-erase_link k q (home t k))
            (λ q. find_link-erase_link k q (home t k) (once t k q (placed q) (few q))),
        omega (
          arith,
          total-set t (slot k (length t)) (erase_link k (home t k)) (slot-lt k (length t) h),
          length-erase_link k (home t k) w e,
        ),
      )

  view_second :
      (d : Dict V) (k : Bytes) (w : V)
      → find_link k (home d.table0 k) ≡ none
      → view d k ≡ some w
      → find_link k (home d.table1 k) ≡ some w
  view_second d k w e h = unfold view in rw e at h

  pub assign-Updates :
      {d : Dict V} (v : IsValid d) (k : Bytes) (x w : V)
      → view d k ≡ some w
      → Updates d k (some x) (size d) (assign d k x)
  assign-Updates {d} v k x w h = elim (Option-cases (find_link k (home d.table0 k))) [
    | inr (u, e) ↦
        let (c, n) = assign-Changes d.table0 k x u e v.placed0 in
        let done = write0 v k (some x) _ d.used0 c (only0 v k u e) (n ∙ v.counted0) in
        unfold assign in rw (find_in-home d.table0 k, e, assign) done
    | inl e ↦
        let e1 = view_second d k w e h in
        let (c, n) = assign-Changes d.table1 k x w e1 v.placed1 in
        let done = write1 v k (some x) _ d.used1 c e (n ∙ v.counted1) in
        unfold assign in rw (find_in-home d.table0 k, e, assign) done
  ]

  pub unlink-Updates :
      {d : Dict V} (v : IsValid d) (k : Bytes) (w : V)
      → view d k ≡ some w
      → Updates d k none (size d - 1) (unlink d k)
  unlink-Updates {d} v k w h = elim (Option-cases (find_link k (home d.table0 k))) [
    | inr (u, e) ↦
        let (c, n) = erase-Changes d.table0 k u e v.placed0 (λ q. omega (arith, v.unique q)) in
        let done = write0 v k none _ (d.used0 - 1) c (only0 v k u e) (omega (arith, v.counted0)) in
        unfold unlink in
        rw (find_in-home d.table0 k, e, unlink)
          (record { valid = done.valid; reads = done.reads; entries = omega (arith, v.counted0) })
    | inl e ↦
        let e1 = view_second d k w e h in
        let (c, n) = erase-Changes d.table1 k w e1 v.placed1 (λ q. omega (arith, v.unique q)) in
        let done = write1 v k none _ (d.used1 - 1) c e (omega (arith, v.counted1)) in
        unfold unlink in
        rw (find_in-home d.table0 k, e, unlink)
          (record { valid = done.valid; reads = done.reads; entries = omega (arith, v.counted1) })
  ]
