-- ===== src/Core/Dict/Valid.antt =====
-- The invariant of `Dict`, and the map from keys to values that it stands for.
use mnemos.Prelude.{
  ℕ, ◌+◌, ◌≤◌, ◌<◌, ◌≡◌, refl, ap, ◌∙◌, Option, none, some, [], ◌∷◌, length, arith, if◌then◌else◌,
}
use mnemos.Prelude.Bytes.{Bytes}
use mnemos.Core.Dict.Links.{or_else, find_link, count, find_link-eq-none}
use mnemos.Core.Dict.Buckets.{Table, home}
use mnemos.Core.Dict.Buckets.Laws.{total, IsPlaced, count-home}
use mnemos.Core.Dict.{Dict, is_rehashing, size, find_in, lookup}

-- Table 1 has buckets exactly during a rehash.
abbrev pub Phase : Option ℕ → ℕ → Type 0
Phase none n = n ≡ 0
Phase (some i) n = 0 < n

module _ {ℓ} {V : Type ℓ} where
  pub record IsValid (d : Dict V) : Type 0 where
    pub roomy : 0 < length d.table0
    pub phase : Phase d.rehash_index (length d.table1)
    pub placed0 : IsPlaced d.table0
    pub placed1 : IsPlaced d.table1
    pub unique : (q : Bytes) → count q (home d.table0 q) + count q (home d.table1 q) ≤ 1
    pub counted0 : total d.table0 ≡ d.used0
    pub counted1 : total d.table1 ≡ d.used1

  -- The map that the two tables hold.
  unfoldable pub view : Dict V → Bytes → Option V
  view d q = or_else (find_link q (home d.table0 q)) (find_link q (home d.table1 q))

  -- A valid state with the same contents as `d`.
  pub record Keeps (d e : Dict V) : Type ℓ where
    pub valid : IsValid e
    pub same : (q : Bytes) → view e q ≡ view d q
    pub as_many : size e ≡ size d

  pub Keeps-refl : {d : Dict V} → IsValid d → Keeps d d
  Keeps-refl v = record { valid = v; same = λ q. refl; as_many = refl }

  pub Keeps-trans : {d e f : Dict V} → Keeps d e → Keeps e f → Keeps d f
  Keeps-trans a b = record {
    valid = b.valid;
    same = λ q. b.same q ∙ a.same q;
    as_many = b.as_many ∙ a.as_many;
  }

  pub find_in-home : (t : Table V) (q : Bytes) → find_in t q ≡ find_link q (home t q)
  unfolding find_in find_link
  find_in-home [] q = refl
  find_in-home (c ∷ t) q = refl

  -- A table without buckets finds nothing.
  pub find_link-no_buckets :
      (t : Table V) (q : Bytes) → length t ≡ 0 → find_link q (home t q) ≡ none
  unfolding find_link
  find_link-no_buckets [] q h = refl
  find_link-no_buckets (c ∷ t) q h = absurd (omega arith)

  pub or_else-none : (o : Option V) → or_else o none ≡ o
  or_else-none none = refl
  or_else-none (some v) = refl

  -- The search of `find` and `erase` reads the map.
  pub lookup-view : {d : Dict V} → IsValid d → (q : Bytes) → lookup d q ≡ view d q
  unfolding view
  lookup-view {d} v q =
      unfold lookup in
      rw (find_in-home d.table0 q, find_in-home d.table1 q)
        (ap (or_else (find_link q (home d.table0 q))) (second d.rehash_index refl))
    where
      second :
          (r : Option ℕ)
          → d.rehash_index ≡ r
          → (if is_rehashing d then find_link q (home d.table1 q) else none)
            ≡ find_link q (home d.table1 q)
      second none e = rw (e, find_link-no_buckets d.table1 q (rw e at v.phase))
      second (some i) e = rw e

  pub view_empty : {d : Dict V} → IsValid d → size d ≡ 0 → (q : Bytes) → view d q ≡ none
  unfolding view
  view_empty {d} v h q =
      let none0 =
        find_link-eq-none q (home d.table0 q) (omega (arith, count-home d.table0 q, v.counted0)) in
      let none1 =
        find_link-eq-none q (home d.table1 q) (omega (arith, count-home d.table1 q, v.counted1)) in
      rw (none0, none1)
