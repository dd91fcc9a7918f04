-- ===== src/Core/Dict/Buckets/Laws.antt =====
-- A table as a map: where keys stand, how often, and what a write to one bucket changes.
use mnemos.Prelude.{
  ℕ, zero, suc, ◌+◌, ◌-◌, ◌≤◌, ◌<◌, ◌≡◌, refl, ap, ◌∙◌, ◌≢◌, false, Option, some, [], ◌∷◌, length,
  length-set, set, replicate, if◌then◌else◌, ◌==◌, arith, Bool-cases, inl, inr,
}
use mnemos.Prelude.Bytes.{Bytes, eqb, eqb_iff, bit_and-le}
use mnemos.Core.Dict.Links.{Chain, or_else, find_link, count, find_link-eq-none, count_length}
use mnemos.Core.Dict.Buckets.{Table, slot, bucket, home, push_entry, move_chain}

pub slot-lt : (key : Bytes) (n : ℕ) → 0 < n → slot key n < n
unfolding slot
slot-lt key n h = omega (arith, bit_and-le _ (n - 1))

module _ {ℓ} {V : Type ℓ} where
  -- The number of entries.
  unfoldable pub total : Table V → ℕ
  total [] = 0
  total (c ∷ t) = length c + total t

  -- Every key stands in its own bucket.
  abbrev pub IsPlaced : Table V → Type 0
  IsPlaced t = (q : Bytes) (i : ℕ) → slot q (length t) ≢ i → count q (bucket t i) ≡ 0

  pub bucket-set :
      (t : Table V) (i j : ℕ) (c : Chain V)
      → i < length t
      → bucket (set t i c) j ≡ (if i == j then c else bucket t j)
  bucket-set [] i j c h = absurd (omega arith)
  bucket-set (b ∷ t) zero zero c h = refl
  bucket-set (b ∷ t) zero (suc j) c h = ground arith
  bucket-set (b ∷ t) (suc i) zero c h = ground arith
  bucket-set (b ∷ t) (suc i) (suc j) c h = bucket-set t i j c (omega arith) ∙ ground arith

  pub total-set :
      (t : Table V) (i : ℕ) (c : Chain V)
      → i < length t
      → total (set t i c) + length (bucket t i) ≡ total t + length c
  unfolding total
  total-set [] i c h = absurd (omega arith)
  total-set (b ∷ t) zero c h = omega arith
  total-set (b ∷ t) (suc i) c h = omega (arith, total-set t i c (omega arith))

  pub bucket-replicate : (n i : ℕ) → bucket (replicate {A = Chain V} n []) i ≡ []
  bucket-replicate zero i = refl
  bucket-replicate (suc n) zero = refl
  bucket-replicate (suc n) (suc i) = bucket-replicate n i

  -- A write at `i` of a chain whose keys belong there.
  pub set-IsPlaced :
      (t : Table V) (i : ℕ) (c : Chain V)
      → i < length t
      → IsPlaced t
      → ((q : Bytes) → slot q (length t) ≢ i → count q c ≡ 0)
      → IsPlaced (set t i c)
  set-IsPlaced t i c h placed own q j other = rw (bucket-set t i j c h) (
      ground (
        arith,
        placed q j (λ e. other (ap (slot q) (length-set t i c) ∙ e)),
        own q,
        ap (slot q) (length-set t i c),
      ))

  pub home-set :
      (t : Table V) (i : ℕ) (c : Chain V) (q : Bytes)
      → i < length t
      → home (set t i c) q ≡ (if i == slot q (length t) then c else home t q)
  home-set t i c q h = rw (length-set t i c) (bucket-set t i (slot q (length t)) c h)

  bucket-length : (t : Table V) (i : ℕ) → length (bucket t i) ≤ total t
  unfolding total
  bucket-length [] i = omega arith
  bucket-length (c ∷ t) zero = omega arith
  bucket-length (c ∷ t) (suc i) = omega (arith, bucket-length t i)

  pub count-home : (t : Table V) (q : Bytes) → count q (home t q) ≤ total t
  count-home t q = omega (arith, count_length q (home t q), bucket-length t (slot q (length t)))

module _ {ℓ} (V : Type ℓ) where
  pub total-replicate : (n : ℕ) → total (replicate {A = Chain V} n []) ≡ 0
  unfolding total
  total-replicate zero = refl
  total-replicate (suc n) = omega (arith, total-replicate n)

  pub replicate-IsPlaced : (n : ℕ) → IsPlaced (replicate {A = Chain V} n [])
  replicate-IsPlaced n q i h = rw bucket-replicate (unfold count in refl)

-- Keys in different buckets differ.
apart : (k q : Bytes) (n : ℕ) → (slot k n == slot q n) ≡ false → eqb k q ≡ false
apart k q n h = ground (arith, eqb_iff k q)

module _ {ℓ} {V : Type ℓ} where
  -- What one more link at the front of its bucket does to a table.
  pub record Pushes (k : Bytes) (v : V) (t u : Table V) : Type ℓ where
    pub width : length u ≡ length t
    pub placed : IsPlaced u
    pub more : total u ≡ total t + 1
    pub counts :
        (q : Bytes)
        → count q (home u q) ≡ (if eqb k q then suc (count q (home t q)) else count q (home t q))
    pub finds :
        (q : Bytes) → find_link q (home u q) ≡ (if eqb k q then some v else find_link q (home t q))

  pub push_entry-Pushes :
      (k : Bytes) (v : V) (t : Table V)
      → 0 < length t
      → IsPlaced t
      → Pushes k v t (push_entry k v t)
  unfolding push_entry
  push_entry-Pushes k v t h placed =
      let i = slot k (length t) in
      let lt : i < length t = slot-lt k (length t) h in
      let c : Chain V = (k, v) ∷ home t k in
      record {
        width = length-set t i c;
        placed =
            set-IsPlaced t i c lt placed
              (λ q other. unfold count in ground (arith, eqb_iff k q, placed q i other));
        more = omega (arith, total-set t i c lt);
        counts = λ q. rw (home-set t i c q lt) (unfold count in ground (arith, eqb_iff k q));
        finds = λ q. rw (home-set t i c q lt) (elim (Bool-cases (i == slot q (length t))) [
          | inl same ↦
              let e : slot k (length t) ≡ slot q (length t) = ground (arith, same) in
              rw same (
                unfold find_link in
                ap (λ j. if eqb k q then some v else find_link q (bucket t j)) e)
          | inr other ↦ rw (other, apart k q (length t) other)
        ]);
      }

  -- What the links of a whole chain do to a table, where no key occurs twice.
  pub record Moves (c : Chain V) (t u : Table V) : Type ℓ where
    pub width : length u ≡ length t
    pub placed : IsPlaced u
    pub more : total u ≡ total t + length c
    pub counts : (q : Bytes) → count q (home u q) ≡ count q c + count q (home t q)
    pub finds :
        (q : Bytes)
        → count q c ≤ 1
        → find_link q (home u q) ≡ or_else (find_link q c) (find_link q (home t q))

  pub move_chain-Moves :
      (c : Chain V) (t : Table V) → 0 < length t → IsPlaced t → Moves c t (move_chain c t)
  unfolding move_chain count find_link
  move_chain-Moves [] t h placed = record {
    width = refl;
    placed = placed;
    more = omega arith;
    counts = λ q. omega arith;
    finds = λ q one. refl;
  }
  move_chain-Moves ((k, v) ∷ c) t h placed =
      let p = push_entry-Pushes k v t h placed in
      let m = move_chain-Moves c (push_entry k v t) (omega (arith, p.width)) p.placed in
      record {
        width = m.width ∙ p.width;
        placed = m.placed;
        more = omega (arith, m.more, p.more);
        counts = λ q. ground (arith, m.counts q, p.counts q);
        finds = λ q one. elim (Bool-cases (eqb k q)) [
          | inl same ↦
              let none_left : count q c ≡ 0 = ground (arith, same) in
              rw (m.finds q (omega arith), find_link-eq-none q c none_left, p.finds q, same)
          | inr other ↦
              let few : count q c ≤ 1 = ground (arith, other) in
              rw (m.finds q few, p.finds q, other)
        ];
      }

  -- A write to the bucket of `k` that changes the value of `k` alone, and adds no link.
  pub record Changes (k : Bytes) (o : Option V) (t u : Table V) : Type ℓ where
    pub width : length u ≡ length t
    pub placed : IsPlaced u
    pub counts : (q : Bytes) → count q (home u q) ≤ count q (home t q)
    pub finds :
        (q : Bytes) → find_link q (home u q) ≡ (if eqb k q then o else find_link q (home t q))

  pub set-Changes :
      (k : Bytes) (o : Option V) (t : Table V) (c : Chain V)
      → 0 < length t
      → IsPlaced t
      → ((q : Bytes) → count q c ≤ count q (home t k))
      → ((q : Bytes) → find_link q c ≡ (if eqb k q then o else find_link q (home t k)))
      → Changes k o t (set t (slot k (length t)) c)
  set-Changes k o t c h placed few reads =
      let i = slot k (length t) in
      let lt : i < length t = slot-lt k (length t) h in
      record {
        width = length-set t i c;
        placed = set-IsPlaced t i c lt placed (λ q other. omega (arith, few q, placed q i other));
        counts = λ q. rw (home-set t i c q lt) (elim (Bool-cases (i == slot q (length t))) [
          | inl same ↦
              let e : i ≡ slot q (length t) = ground (arith, same) in rw (same, ← e) (few q)
          | inr other ↦ rw other (omega arith)
        ]);
        finds = λ q. rw (home-set t i c q lt) (elim (Bool-cases (i == slot q (length t))) [
          | inl same ↦
              let e : i ≡ slot q (length t) = ground (arith, same) in rw (same, ← e) (reads q)
          | inr other ↦ rw (other, apart k q (length t) other)
        ]);
      }
