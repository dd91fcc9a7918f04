-- ===== src/Server/Db/Changes.antt =====
-- What an operation makes of one key of the keyspace and of its deadline, every other key left
-- alone, and the two dictionaries of a database as such changes see them.
use mnemos.Prelude.{
  ℕ, ◌≡◌, refl, false, ap, sym, ◌∙◌, Option, List, [], ◌++◌, append-nil, append_assoc,
  if◌then◌else◌, Bool-cases, inl, inr,
}
use mnemos.Prelude.Bytes.{Bytes, eqb, eqb_iff, eqb_refl}
use mnemos.Prelude.Int.{ℤ}
use mnemos.Core.Object.{Value}
use mnemos.Core.Dict.{Dict}
use mnemos.Core.Dict.Valid.{IsValid, view, Keeps}
use mnemos.Core.Dict.Writes.{Updates}
use mnemos.Server.Db.{Database, Event}

module _ {V : Type 0} where
  -- One dictionary as a change of one key.
  pub record Writes (d : Dict V) (k : Bytes) (o : Option V) (e : Dict V) : Type 0 where
    pub valid : IsValid e
    pub reads : (q : Bytes) → view e q ≡ (if eqb k q then o else view d q)

  pub Updates→Writes :
      {d e : Dict V} {k : Bytes} {o : Option V} {n : ℕ} → Updates d k o n e → Writes d k o e
  Updates→Writes u = record { valid = u.valid; reads = u.reads }

  unchanged : (d : Dict V) (k q : Bytes) → view d q ≡ (if eqb k q then view d k else view d q)
  unchanged d k q = elim (Bool-cases (eqb k q)) [
    | inl same ↦ rw same (sym (ap (view d) ((eqb_iff k q).0 same)))
    | inr other ↦ rw other
  ]

  pub Writes-refl : (d : Dict V) (k : Bytes) → IsValid d → Writes d k (view d k) d
  Writes-refl d k v = record { valid = v; reads = unchanged d k }

  pub Keeps→Writes : {d e : Dict V} (k : Bytes) → Keeps d e → Writes d k (view d k) e
  Keeps→Writes {d} k s = record { valid = s.valid; reads = λ q. s.same q ∙ unchanged d k q }

  pub Writes-trans :
      {d e f : Dict V} {k : Bytes} {o p : Option V}
      → Writes d k o e
      → Writes e k p f
      → Writes d k p f
  Writes-trans {d} {e} {f} {k} {o} {p} a b = record {
    valid = b.valid;
    reads = λ q. b.reads q ∙ elim (Bool-cases (eqb k q)) [
      | inl same ↦ rw same
      | inr other ↦ rw other (a.reads q ∙ rw other)
    ];
  }

  -- The value of the key itself.
  pub Writes-own : {d e : Dict V} {k : Bytes} {o : Option V} → Writes d k o e → view e k ≡ o
  Writes-own {k = k} w = w.reads k ∙ rw (eqb_refl k)

module _ {C : Type 0} where
  -- Both dictionaries are well formed.
  pub record IsSound (d : Database C) : Type 0 where
    pub dict : IsValid d.dict
    pub expires : IsValid d.expires

  -- The value of a key and its deadline.
  abbrev pub value : Database C → Bytes → Option (Value C)
  value d q = view d.dict q

  abbrev pub deadline : Database C → Bytes → Option ℤ
  deadline d q = view d.expires q

  -- The key has the value `v` and the deadline `t` now, every other key has what it had, and the
  -- callbacks were told `es`.
  pub record Becomes (d : Database C) (k : Bytes) (v : Option (Value C)) (t : Option ℤ)
      (es : List Event) (e : Database C) : Type 0 where
    pub sound : IsSound e
    pub values : (q : Bytes) → value e q ≡ (if eqb k q then v else value d q)
    pub deadlines : (q : Bytes) → deadline e q ≡ (if eqb k q then t else deadline d q)
    pub events : e.events ≡ d.events ++ es
    pub enabled : e.expiration_enabled ≡ d.expiration_enabled

  -- A change of both dictionaries.
  pub both :
      {d : Database C} {k : Bytes} {v : Option (Value C)} {t : Option ℤ} (es : List Event)
      {x : Dict (Value C)} {y : Dict ℤ}
      → Writes d.dict k v x
      → Writes d.expires k t y
      → Becomes d k v t es (record d { dict = x; expires = y; events = d.events ++ es })
  both es a b = record {
    sound = record { dict = a.valid; expires = b.valid };
    values = a.reads;
    deadlines = b.reads;
    events = refl;
    enabled = refl;
  }

  -- A change of both dictionaries that the callbacks hear nothing of.
  pub both_quiet :
      {d : Database C} {k : Bytes} {v : Option (Value C)} {t : Option ℤ} {x : Dict (Value C)}
      {y : Dict ℤ}
      → Writes d.dict k v x
      → Writes d.expires k t y
      → Becomes d k v t [] (record d { dict = x; expires = y })
  both_quiet {d} a b = record {
    sound = record { dict = a.valid; expires = b.valid };
    values = a.reads;
    deadlines = b.reads;
    events = sym (append-nil d.events);
    enabled = refl;
  }

  pub Becomes-trans :
      {d e f : Database C} {k : Bytes} {v w : Option (Value C)} {t u : Option ℤ}
      {es fs : List Event}
      → Becomes d k v t es e
      → Becomes e k w u fs f
      → Becomes d k w u (es ++ fs) f
  Becomes-trans {d} {e} {f} {k} {v} {w} {t} {u} {es} {fs} a b = record {
    sound = b.sound;
    values = λ q. b.values q ∙ elim (Bool-cases (eqb k q)) [
      | inl same ↦ rw same
      | inr other ↦ rw other (a.values q ∙ rw other)
    ];
    deadlines = λ q. b.deadlines q ∙ elim (Bool-cases (eqb k q)) [
      | inl same ↦ rw same
      | inr other ↦ rw other (a.deadlines q ∙ rw other)
    ];
    events = b.events ∙ ap (λ l. l ++ fs) a.events ∙ append_assoc d.events es fs;
    enabled = b.enabled ∙ a.enabled;
  }

  -- What the key itself has afterwards.
  pub Becomes-own :
      {d e : Database C} {k : Bytes} {v : Option (Value C)} {t : Option ℤ} {es : List Event}
      → Becomes d k v t es e
      → (value e k ≡ v) × (deadline e k ≡ t)
  Becomes-own {k = k} b = (b.values k ∙ rw (eqb_refl k), b.deadlines k ∙ rw (eqb_refl k))

  -- A change of one key, another key looked at.
  pub elsewhere :
      {d e : Database C} {k : Bytes} {v : Option (Value C)} {t : Option ℤ} {es : List Event}
      (q : Bytes)
      → Becomes d k v t es e
      → eqb k q ≡ false
      → (value e q ≡ value d q) × (deadline e q ≡ deadline d q)
  elsewhere q b other = (b.values q ∙ rw other refl, b.deadlines q ∙ rw other refl)
