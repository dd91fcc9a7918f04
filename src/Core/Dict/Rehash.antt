-- ===== src/Core/Dict/Rehash.antt =====
-- `rehashSteps` keeps the contents, whatever number of buckets it is asked for.
use mnemos.Prelude.{
  ℕ, zero, suc, ◌+◌, ◌-◌, ◌*◌, ◌≤◌, ◌<◌, ◌≡◌, refl, Option, none, some, [], ◌∷◌, length, length-set,
  length-drop, drop, set, arith, ◌==◌, Bool-cases, inl, inr,
}
use mnemos.Prelude.Bytes.{Bytes}
use mnemos.Core.Dict.Links.{Chain, or_else, find_link, count, find_link-eq-none}
use mnemos.Core.Dict.Buckets.{Table, slot, bucket, home, move_chain}
use mnemos.Core.Dict.Buckets.Laws.{
  total, count-home, home-set, total-set, set-IsPlaced, Moves, move_chain-Moves,
}
use mnemos.Core.Dict.{
  Dict, Skip, found, ended, exhausted, skip_empty, move_bucket, finish, rehash_loop, rehash_from,
  rehash_steps, rehash_step,
}
use mnemos.Core.Dict.Valid.{IsValid, view, Keeps, Keeps-refl, Keeps-trans, or_else-none}

module _ {ℓ} {V : Type ℓ} where
  skip_empty-lt :
      (t : Table V) (i visits j left : ℕ)
      → skip_empty t i visits ≡ found j left
      → (i ≤ j) × (j < i + length t)
  unfolding skip_empty
  skip_empty-lt [] i visits j left e = cc
  skip_empty-lt ([] ∷ t) i visits j left e = elim (Bool-cases (visits - 1 == 0)) [
    | inl last ↦ absurd (ground (arith, last))
    | inr more ↦ omega (arith, skip_empty-lt t (i + 1) (visits - 1) j left (ground (arith, more)))
  ]
  skip_empty-lt ((x ∷ c) ∷ t) i visits j left e = ground arith

  module _ {d : Dict V} (v : IsValid d) (j i : ℕ) (lt : j < length d.table0)
      (moving : d.rehash_index ≡ some i) where
    abbrev c : Chain V
    c = bucket d.table0 j

    ready : 0 < length d.table1
    ready = rw moving at v.phase

    moves : Moves c d.table1 (move_chain c d.table1)
    moves = move_chain-Moves c d.table1 ready v.placed1

    -- Where the keys of the bucket stand, before and after.
    counts :
        (q : Bytes) → count q (home (set d.table0 j []) q) + count q c ≡ count q (home d.table0 q)
    counts q = elim (Bool-cases (j == slot q (length d.table0))) [
      | inl same ↦
          let e : j ≡ slot q (length d.table0) = ground (arith, same) in
          rw (home-set d.table0 j [] q lt, same, ← e) (unfold count in omega arith)
      | inr other ↦
          rw (home-set d.table0 j [] q lt, other, v.placed0 q j (ground (arith, other)))
            (omega arith)
    ]

    finds :
        (q : Bytes)
        → or_else
            (find_link q (home (set d.table0 j []) q))
            (or_else (find_link q c) (find_link q (home d.table1 q)))
          ≡ view d q
    unfolding view
    finds q = elim (Bool-cases (j == slot q (length d.table0))) [
      | inl same ↦
          let e : j ≡ slot q (length d.table0) = ground (arith, same) in
          rw (home-set d.table0 j [] q lt, same, e) (unfold find_link in refl)
      | inr other ↦ rw (
        home-set d.table0 j [] q lt,
        other,
        find_link-eq-none q c (v.placed0 q j (ground (arith, other))),
      )
    ]

    size_moved : length c ≤ d.used0
    size_moved = omega (arith, total-set d.table0 j [] lt, v.counted0)

    move_bucket-Keeps : Keeps d (move_bucket d j)
    unfolding move_bucket view
    move_bucket-Keeps = record {
      valid = record {
        roomy = rw (length-set d.table0 j []) v.roomy;
        phase = rw moves.width ready;
        placed0 = set-IsPlaced d.table0 j [] lt v.placed0 (λ q _. unfold count in refl);
        placed1 = moves.placed;
        unique = λ q. omega (arith, counts q, moves.counts q, v.unique q);
        counted0 = omega (arith, total-set d.table0 j [] lt, v.counted0);
        counted1 = omega (arith, moves.more, v.counted1);
      };
      same = λ q. rw (moves.finds q (omega (arith, counts q, v.unique q))) (finds q);
      as_many = omega (arith, size_moved);
    }

  finish-Keeps : {d : Dict V} → IsValid d → (i : ℕ) → d.rehash_index ≡ some i → Keeps d (finish d)
  unfolding finish view
  finish-Keeps {d} v i moving = elim (Bool-cases (d.used0 == 0)) [
    | inr more ↦ rw more (Keeps-refl v)
    | inl done ↦
        let gone : (q : Bytes) → count q (home d.table0 q) ≡ 0 =
          λ q. ground (arith, done, count-home d.table0 q, v.counted0) in
        rw done (record {
          valid = record {
            roomy = rw moving at v.phase;
            phase = refl;
            placed0 = v.placed1;
            placed1 = λ q k _. unfold count in refl;
            unique = λ q. unfold count in omega (arith, v.unique q);
            counted0 = v.counted1;
            counted1 = unfold total in refl;
          };
          same = λ q.
              rw (find_link-eq-none q (home d.table0 q) (gone q))
                (unfold find_link in or_else-none _);
          as_many = ground (arith, done);
        })
  ]

  at_index :
      {d : Dict V}
      → IsValid d
      → (i j : ℕ) → d.rehash_index ≡ some i
      → Keeps d (record d { rehash_index = some j })
  unfolding view
  at_index {d} v i j moving = record {
    valid = record {
      roomy = v.roomy;
      phase = rw moving at v.phase;
      placed0 = v.placed0;
      placed1 = v.placed1;
      unique = v.unique;
      counted0 = v.counted0;
      counted1 = v.counted1;
    };
    same = λ q. refl;
    as_many = refl;
  }

  rehash_loop-Keeps :
      (n visits i : ℕ) {d : Dict V}
      → IsValid d
      → d.rehash_index ≡ some i
      → Keeps d (rehash_loop n visits d i)
  unfolding rehash_loop
  rehash_loop-Keeps zero visits i v moving = finish-Keeps v i moving
  rehash_loop-Keeps (suc n) visits i {d} v moving = elim (Bool-cases (d.used0 == 0)) [
    | inl done ↦ rw done (finish-Keeps v i moving)
    | inr more ↦ rw more (
        go (λ left j w. rehash_loop-Keeps n left (j + 1) w (unfold move_bucket in refl))
          (skip_empty (drop i d.table0) i visits) refl)
  ]
    where
      go :
          ((left j : ℕ)
            → IsValid (move_bucket d j)
            → Keeps (move_bucket d j) (rehash_loop n left (move_bucket d j) (j + 1)))
          → (s : Skip) → skip_empty (drop i d.table0) i visits ≡ s
          → Keeps d (elim s [
            | found j left ↦ rehash_loop n left (move_bucket d j) (j + 1)
            | ended j ↦ finish (record d { rehash_index = some j })
            | exhausted j ↦ record d { rehash_index = some j }
          ])
      go rest (found j left) e =
          let lt : j < length d.table0 =
            omega
              (arith, skip_empty-lt (drop i d.table0) i visits j left e, length-drop i d.table0) in
          let k = move_bucket-Keeps v j i lt moving in Keeps-trans k (rest left j k.valid)
      go rest (ended j) e =
          let k = at_index v i j moving in Keeps-trans k (finish-Keeps k.valid j refl)
      go rest (exhausted j) e = at_index v i j moving

  rehash_from-Keeps :
      (n : ℕ) {d : Dict V}
      → IsValid d
      → (r : Option ℕ) → d.rehash_index ≡ r
      → Keeps d (rehash_from r n d)
  unfolding rehash_from
  rehash_from-Keeps n v none e = Keeps-refl v
  rehash_from-Keeps n v (some i) e = rehash_loop-Keeps n (n * 10) i v e

  -- Migrating any number of buckets keeps the invariant, every lookup and the size.
  pub rehash_steps-Keeps : (n : ℕ) (d : Dict V) → IsValid d → Keeps d (rehash_steps n d)
  rehash_steps-Keeps n d v = unfold rehash_steps in rehash_from-Keeps n v d.rehash_index refl

  pub rehash_step-Keeps : (d : Dict V) → IsValid d → Keeps d (rehash_step d)
  rehash_step-Keeps d v = unfold rehash_step in rehash_steps-Keeps 1 d v
