-- ===== src/Server/Db/Expiry/Cycle.antt =====
-- What one active cycle deletes.
use mnemos.Prelude.{
  ℕ, zero, suc, ◌+◌, ◌*◌, ◌/◌, ◌<◌, ◌≡◌, refl, ap, sym, ◌∙◌, Bool, true, false, ◌||◌, not, Option,
  none, some, List, [], ◌∷◌, ◌++◌, append-nil, append_assoc, arith, length, length-append, map, min,
  leb, ◌==◌, All, All-append, Bool-cases, inl, inr,
}
use mnemos.Prelude.Bytes.{Bytes, eqb}
use mnemos.Prelude.Int.{ℤ, leb_ℤ}
use mnemos.Core.Dict.{size}
use mnemos.Core.Dict.Random.{random_entry, Picks, random_entry-Picks}
use mnemos.Server.Db.{
  Database, expired, expire, active_expire_sample_size, active_expire_threshold_percent,
  active_expire_max_iterations,
}
use mnemos.Server.Db.Changes.{IsSound, value, deadline}
use mnemos.Server.Db.Lookup.{dead_at, is_dead, unless, expire-Becomes}
use mnemos.Server.Db.Expiry.{
  Sample, sample_entry, sample_found, collect, delete_all, iterations, active_expire_cycle,
}

unless-unless :
    {A : Type 0} (a b : Bool) (o p : Option A) → p ≡ unless a o → unless b p ≡ unless (a || b) o
unless-unless true true o p h = refl
unless-unless true false o p h = h
unless-unless false true o p h = refl
unless-unless false false o p h = h

-- Whether the key is in the list.
abbrev pub among : List Bytes → Bytes → Bool
among [] q = false
among (k ∷ ks) q = eqb k q || among ks q

among_append : (ks js : List Bytes) (q : Bytes) → among (ks ++ js) q ≡ among ks q || among js q
among_append [] js q = refl
among_append (k ∷ ks) js q = ground (arith, among_append ks js q)

map_append : (ks js : List Bytes) → map expired (ks ++ js) ≡ map expired ks ++ map expired js
map_append [] js = refl
map_append (k ∷ ks) js = ap (λ l. expired k ∷ l) (map_append ks js)

or_false : (b : Bool) → (b || false) ≡ b
or_false true = refl
or_false false = refl

module _ {C : Type 0} where
  -- The keys `ks` are gone, every other key has what it had, and the callback heard of each of `ks`.
  pub record Loses (d : Database C) (ks : List Bytes) (e : Database C) : Type 0 where
    pub sound : IsSound e
    pub values : (q : Bytes) → value e q ≡ unless (among ks q) (value d q)
    pub deadlines : (q : Bytes) → deadline e q ≡ unless (among ks q) (deadline d q)
    pub events : e.events ≡ d.events ++ map expired ks
    pub enabled : e.expiration_enabled ≡ d.expiration_enabled

  Loses-none : {d : Database C} → IsSound d → Loses d [] d
  Loses-none {d} h = record {
    sound = h;
    values = λ q. refl;
    deadlines = λ q. refl;
    events = sym (append-nil d.events);
    enabled = refl;
  }

  Loses-trans :
      {d e f : Database C} {ks js : List Bytes} → Loses d ks e → Loses e js f → Loses d (ks ++ js) f
  Loses-trans {d} {e} {f} {ks} {js} a b = record {
    sound = b.sound;
    values = λ q.
        b.values q
        ∙ unless-unless (among ks q) (among js q) (value d q) (value e q) (a.values q)
        ∙ ap (λ t. unless t (value d q)) (sym (among_append ks js q));
    deadlines = λ q.
        b.deadlines q
        ∙ unless-unless (among ks q) (among js q) (deadline d q) (deadline e q) (a.deadlines q)
        ∙ ap (λ t. unless t (deadline d q)) (sym (among_append ks js q));
    events =
        b.events
        ∙ ap (λ l. l ++ map expired js) a.events
        ∙ append_assoc d.events (map expired ks) (map expired js)
        ∙ ap (λ l. d.events ++ l) (sym (map_append ks js));
    enabled = b.enabled ∙ a.enabled;
  }

  delete_all-Loses : (ks : List Bytes) (d : Database C) → IsSound d → Loses d ks (delete_all ks d)
  unfolding delete_all
  delete_all-Loses [] d h = Loses-none h
  delete_all-Loses (k ∷ ks) d h =
      let b = expire-Becomes h k in
      let one : Loses d (k ∷ []) (expire d k) = record {
        sound = b.sound;
        values = λ q. b.values q ∙ ap (λ t. unless t (value d q)) (sym (or_false (eqb k q)));
        deadlines =
            λ q. b.deadlines q ∙ ap (λ t. unless t (deadline d q)) (sym (or_false (eqb k q)));
        events = b.events;
        enabled = b.enabled;
      } in
      Loses-trans one (delete_all-Loses ks (expire d k) b.sound)

  -- The deadlines of the keys are over.
  abbrev pub AllDead : Database C → ℤ → List Bytes → Type 0
  AllDead d now_ms ks = All (λ k. is_dead d k now_ms ≡ true) ks

  sample_found-AllDead :
      (d : Database C) (now_ms : ℤ) (after : ℕ) (rest : Sample) (o : Option (Bytes × ℤ))
      → Picks d.expires o
      → AllDead d now_ms rest.doomed
      → AllDead d now_ms (sample_found o now_ms after rest).doomed
  unfolding sample_found sample_entry
  sample_found-AllDead d now_ms after rest none p h = cc
  sample_found-AllDead d now_ms after rest (some (k, at_ms)) (e, same, held) h =
      let key : k ≡ e.0 = cc in
      let time : at_ms ≡ e.1 = cc in
      elim (Bool-cases (leb_ℤ at_ms now_ms)) [
        | inr later ↦ rw later h
        | inl over ↦
            let dead : is_dead d k now_ms ≡ true =
              unfold is_dead in rw (key, held) (ground (arith, over, time)) in
            rw over (dead, h)
      ]

  collect-AllDead :
      (draws : ℕ → ℕ) (n : ℕ) (d : Database C) (now_ms : ℤ) (at : ℕ)
      → IsSound d
      → 0 < size d.expires
      → AllDead d now_ms (collect draws n d.expires now_ms at).doomed
  unfolding collect
  collect-AllDead draws zero d now_ms at h many = tt
  collect-AllDead draws (suc n) d now_ms at h many =
      let after = (random_entry draws d.expires at).1 in
      let picks = random_entry-Picks draws d.expires at h.expires many in
      sample_found-AllDead d now_ms after (collect draws n d.expires now_ms after)
        (random_entry draws d.expires at).0 picks (collect-AllDead draws n d now_ms after h many)

  -- A key whose deadline is over after others are gone had that deadline before.
  dead_before :
      {d e : Database C} {ks : List Bytes} (now_ms : ℤ)
      → Loses d ks e
      → (js : List Bytes) → AllDead e now_ms js
      → AllDead d now_ms js
  dead_before now_ms l [] h = tt
  dead_before {d} {e} {ks} now_ms l (j ∷ js) h =
      (was (among ks j) refl, dead_before now_ms l js h.1)
    where
      over : dead_at (deadline e j) now_ms ≡ true
      over = unfold is_dead in h.0

      was : (b : Bool) → among ks j ≡ b → is_dead d j now_ms ≡ true
      was true gone = let never : false ≡ true = rw (l.deadlines j, gone) at over in cc
      was false there =
          let still : dead_at (deadline d j) now_ms ≡ true = rw (l.deadlines j, there) at over in
          unfold is_dead in still

  -- The keys that a cycle deletes: each of them was dead, and `n` counts them.
  pub record Cleans (d : Database C) (now_ms : ℤ) (n : ℕ) (r : ℕ × Database C) : Type 0 where
    pub keys : List Bytes
    pub counted : r.0 ≡ n + length keys
    pub dead : AllDead d now_ms keys
    pub loses : Loses d keys r.1

  Cleans-none : {d : Database C} (now_ms : ℤ) (n : ℕ) → IsSound d → Cleans d now_ms n (n, d)
  Cleans-none now_ms n h = record {
    keys = [];
    counted = omega arith;
    dead = tt;
    loses = Loses-none h;
  }

  iterations-Cleans :
      (draws : ℕ → ℕ) (n : ℕ) (d : Database C) (now_ms : ℤ) (total at : ℕ)
      → IsSound d
      → Cleans d now_ms total (iterations draws n d now_ms total at)
  unfolding iterations
  iterations-Cleans draws zero d now_ms total at h = Cleans-none now_ms total h
  iterations-Cleans draws (suc n) d now_ms total at h = elim (Bool-cases (size d.expires == 0)) [
    | inl nothing ↦ rw nothing (Cleans-none now_ms total h)
    | inr something ↦
        let s =
          collect draws (min (size d.expires) active_expire_sample_size) d.expires now_ms at in
        let dead =
          collect-AllDead draws (min (size d.expires) active_expire_sample_size) d now_ms at h
            (ground (arith, something)) in
        let l = delete_all-Loses s.doomed d h in
        let here : Cleans d now_ms total (total + length s.doomed, delete_all s.doomed d) = record {
          keys = s.doomed;
          counted = refl;
          dead = dead;
          loses = l;
        } in
        let rest =
          iterations-Cleans draws n (delete_all s.doomed d) now_ms (total + length s.doomed) s.at
            l.sound in
        let more : Cleans d now_ms total
            (iterations draws n (delete_all s.doomed d) now_ms (total + length s.doomed) s.at) =
          record {
            keys = s.doomed ++ rest.keys;
            counted = omega (arith, rest.counted, length-append s.doomed rest.keys);
            dead =
                All-append (λ k. is_dead d k now_ms ≡ true) s.doomed rest.keys dead
                  (dead_before now_ms l rest.keys rest.dead);
            loses = Loses-trans l rest.loses;
          } in
        elim (Bool-cases (s.sampled == 0)) [
          | inl none_left ↦ rw (something, none_left) here
          | inr sampled ↦
              elim (Bool-cases
                (leb (length s.doomed * 100 / s.sampled) active_expire_threshold_percent)) [
                  | inl few ↦ rw (something, sampled, few) here
                  | inr many ↦ rw (something, sampled, many) more
                ]
        ]
  ]

  -- Whatever the generator draws, `activeExpireCycle` deletes only keys whose deadline is over, with
  -- their deadlines, and leaves every other key as it is; the callback hears of each deletion, in
  -- order, and the result counts these calls. A replica deletes nothing.
  pub active_expire_cycle-Cleans :
      (draws : ℕ → ℕ) (d : Database C) (now_ms : ℤ) (at : ℕ)
      → IsSound d
      → Cleans d now_ms 0 (active_expire_cycle draws d now_ms at)
        × (d.expiration_enabled ≡ false → active_expire_cycle draws d now_ms at ≡ (0, d))
  active_expire_cycle-Cleans draws d now_ms at h = (
    elim (Bool-cases (not d.expiration_enabled || size d.expires == 0)) [
      | inl idle ↦ unfold active_expire_cycle in rw idle (Cleans-none now_ms 0 h)
      | inr busy ↦
          unfold active_expire_cycle in
          rw busy (iterations-Cleans draws active_expire_max_iterations d now_ms 0 at h)
    ],
    λ replica. replica_idle (not d.expiration_enabled || size d.expires == 0) refl replica,
  )
    where
      replica_idle :
          (b : Bool)
          → (not d.expiration_enabled || size d.expires == 0) ≡ b
          → d.expiration_enabled ≡ false
          → active_expire_cycle draws d now_ms at ≡ (0, d)
      replica_idle true e f = unfold active_expire_cycle in rw e
      replica_idle false e f = absurd (ground (arith, e, f))
