-- ===== src/Server/Db/Methods.antt =====
-- Every operation on one key, as a change of that key.
use mnemos.Prelude.{
  ◌≡◌, refl, ap, ◌∙◌, subst, Bool, true, false, not, Option, none, some, [], ◌∷◌, ◌++◌, append-nil,
  arith, Bool-cases, inl, inr,
}
use mnemos.Prelude.Bytes.{Bytes}
use mnemos.Prelude.Int.{ℤ, ◌≤ℤ◌, pos, negsuc, ltb_ℤ}
use mnemos.Core.Object.{Value}
use mnemos.Core.Dict
use mnemos.Core.Dict.{Dict, size}
use mnemos.Core.Dict.Valid.{view_empty}
use mnemos.Core.Dict.Resize.{new-IsValid}
use mnemos.Core.Dict.Methods.{is_new, find-view, insert-Updates, erase-Updates}
use mnemos.Server.Db.{
  Database, Event, new_key, minus_ℤ, lookup_read, set_key, overwrite_value, erase, set_expire_at,
  persist, or_minus_one, expire_at_ms, remaining_ms, ttl_found, ttl_ms, flush, told, told_if,
}
use mnemos.Server.Db.Changes.{
  IsSound, value, deadline, Becomes, Updates→Writes, Writes-refl, both_quiet, Becomes-own,
  Keeps→Writes,
}
use mnemos.Server.Db.Lookup.{dead_at, unless, notice, is_dead, lapses, touched, lookup_read-Reads}

module _ {C : Type 0} where
  told_if-Becomes :
      {d e : Database C} {k : Bytes} {v : Option (Value C)} {t : Option ℤ} (b : Bool) (n : Event)
      → Becomes d k v t [] e
      → Becomes d k v t (notice b n) (told_if b n e)
  unfolding told_if told
  told_if-Becomes {d} {e} true n c = record {
    sound = record { dict = c.sound.dict; expires = c.sound.expires };
    values = c.values;
    deadlines = c.deadlines;
    events = ap (λ l. l ++ n ∷ []) (c.events ∙ append-nil d.events);
    enabled = c.enabled;
  }
  told_if-Becomes false n c = c

  -- `setKey` stores the value and cancels the deadline; the callback hears of the key exactly if it
  -- was not there.
  pub set_key-Becomes :
      (d : Database C) (k : Bytes) (v : Value C)
      → IsSound d
      → Becomes d k (some v) none (notice (is_new (value d k)) (new_key k)) (set_key d k v)
  set_key-Becomes d k v h =
      let (added, u) = insert-Updates d.dict k v h.dict in
      unfold set_key in
      subst (λ b. Becomes d k (some v) none (notice b (new_key k)) (set_key d k v)) added
        (unfold set_key in
          told_if-Becomes (Dict.insert d.dict k v).0 (new_key k) (
            both_quiet (Updates→Writes u) (Updates→Writes (erase-Updates d.expires k h.expires).1)))

  -- `overwriteValue` stores the value and leaves the deadline as it is.
  pub overwrite_value-Becomes :
      (d : Database C) (k : Bytes) (v : Value C)
      → IsSound d
      → Becomes d k
          (some v)
          (deadline d k)
          (notice (is_new (value d k)) (new_key k))
          (overwrite_value d k v)
  overwrite_value-Becomes d k v h =
      let (added, u) = insert-Updates d.dict k v h.dict in
      subst
        (λ b. Becomes d k (some v) (deadline d k) (notice b (new_key k)) (overwrite_value d k v))
        added
        (unfold overwrite_value in
          told_if-Becomes (Dict.insert d.dict k v).0 (new_key k)
            (both_quiet (Updates→Writes u) (Writes-refl d.expires k h.expires)))

  -- `erase` removes the key and its deadline, so a key that comes back has none, and says whether
  -- the key was there. It tells no callback.
  pub erase-Becomes :
      (d : Database C) (k : Bytes)
      → IsSound d
      → ((erase d k).0 ≡ not (is_new (value d k))) × Becomes d k none none [] (erase d k).1
  erase-Becomes d k h =
      let (told, u) = erase-Updates d.dict k h.dict in
      unfold erase in
      (told, both_quiet (Updates→Writes u) (Updates→Writes (erase-Updates d.expires k h.expires).1))

  -- `setExpireAt` and `persist` change the deadline of the key and nothing else; `persist` says
  -- whether there was one.
  pub deadlines-Becomes :
      (d : Database C) (k : Bytes)
      → IsSound d
      → ((at_ms : ℤ) → Becomes d k (value d k) (some at_ms) [] (set_expire_at d k at_ms))
        × ((persist d k).0 ≡ not (is_new (deadline d k)))
        × Becomes d k (value d k) none [] (persist d k).1
  deadlines-Becomes d k h =
      let (told, u) = erase-Updates d.expires k h.expires in
      (
        λ at_ms.
            unfold set_expire_at in
            both_quiet (Writes-refl d.dict k h.dict)
              (Updates→Writes (insert-Updates d.expires k at_ms h.expires).1),
        unfold persist in told,
        unfold persist in both_quiet (Writes-refl d.dict k h.dict) (Updates→Writes u),
      )

  expire_at_ms-deadline :
      (d : Database C) (k : Bytes) → IsSound d → (expire_at_ms d k).0 ≡ or_minus_one (deadline d k)
  expire_at_ms-deadline d k h =
      unfold expire_at_ms in ap or_minus_one (find-view d.expires k h.expires).0

  -- The search for a deadline changes nothing that can be read.
  pub expire_at_ms-same :
      (d : Database C) (k : Bytes)
      → IsSound d
      → ((expire_at_ms d k).0 ≡ or_minus_one (deadline d k))
        × IsSound (expire_at_ms d k).1
        × ((q : Bytes) → value (expire_at_ms d k).1 q ≡ value d q)
        × ((q : Bytes) → deadline (expire_at_ms d k).1 q ≡ deadline d q)
  expire_at_ms-same d k h =
      let (found, s) = find-view d.expires k h.expires in
      unfold expire_at_ms in
      (ap or_minus_one found, record { dict = h.dict; expires = s.valid }, λ q. refl, λ q. s.same q)

  pub expire_at_ms-Becomes :
      (d : Database C) (k : Bytes)
      → IsSound d
      → Becomes d k (value d k) (deadline d k) [] (expire_at_ms d k).1
  expire_at_ms-Becomes d k h =
      unfold expire_at_ms in
      both_quiet (Writes-refl d.dict k h.dict) (Keeps→Writes k (find-view d.expires k h.expires).1)

  -- The time to live: -2 without a key, -1 without a deadline, and else what is left.
  abbrev pub ttl_of : Option (Value C) → Option ℤ → ℤ → ℤ
  ttl_of none t now_ms = negsuc 1
  ttl_of (some v) none now_ms = negsuc 0
  ttl_of (some v) (some at_ms) now_ms = minus_ℤ at_ms now_ms

  remaining_ms-live :
      (t : Option ℤ) (now_ms : ℤ) (v : Value C)
      → pos 0 ≤ℤ now_ms
      → dead_at t now_ms ≡ false
      → remaining_ms (or_minus_one t) now_ms ≡ ttl_of (some v) t now_ms
  unfolding remaining_ms or_minus_one
  remaining_ms-live none now_ms v clock live = refl
  remaining_ms-live (some at_ms) now_ms v clock live =
      let future : ltb_ℤ now_ms at_ms ≡ true = ground (arith, live) in ground (arith, clock, future)

  ttl_found-live :
      (d e : Database C) (k : Bytes) (now_ms : ℤ) (o p : Option (Value C))
      → pos 0 ≤ℤ now_ms
      → IsSound e
      → p ≡ touched now_ms o
      → deadline e k ≡ deadline d k
      → is_dead d k now_ms ≡ false
      → (ttl_found p e k now_ms).0 ≡ ttl_of o (deadline d k) now_ms
  ttl_found-live d e k now_ms none p clock h c t live = rw c (unfold ttl_found in refl)
  ttl_found-live d e k now_ms (some v) p clock h c t live = rw c (
      unfold ttl_found in
      ap (λ a. remaining_ms a now_ms) (expire_at_ms-deadline e k h ∙ ap or_minus_one t)
      ∙ remaining_ms-live (deadline d k) now_ms v clock (unfold is_dead in live))

  -- `ttlMs` is -2 for a key that is not there or whose deadline is over, -1 for one without a
  -- deadline, and else the milliseconds from `now_ms` to the deadline, where the clock is not
  -- negative; a positive number of them.
  pub ttl_ms-ttl_of :
      (d : Database C) (k : Bytes) (now_ms : ℤ)
      → IsSound d
      → pos 0 ≤ℤ now_ms
      → (ttl_ms d k now_ms).0
        ≡ ttl_of (unless (is_dead d k now_ms) (value d k)) (deadline d k) now_ms
  ttl_ms-ttl_of d k now_ms h clock =
      let r = lookup_read-Reads d k now_ms h in
      elim (Bool-cases (is_dead d k now_ms)) [
        | inl dead ↦
            let nothing : (lookup_read d k now_ms).0 ≡ none = r.result ∙ rw dead in
            unfold ttl_ms in rw (nothing, dead) (unfold ttl_found in refl)
        | inr live ↦
            let stays : lapses d k now_ms ≡ false = unfold lapses in rw live refl in
            let own : deadline (lookup_read d k now_ms).1 k ≡ deadline d k =
              (Becomes-own r.change).1 ∙ rw stays in
            unfold ttl_ms in
            rw live (
              ttl_found-live d (lookup_read d k now_ms).1 k now_ms (value d k)
                (lookup_read d k now_ms).0 clock r.change.sound (r.result ∙ rw live) own live)
      ]

  -- `flush` leaves no key and no deadline.
  pub flush-empties :
      (d : Database C) (q : Bytes)
      → IsSound (flush d) × (value (flush d) q ≡ none) × (deadline (flush d) q ≡ none)
  flush-empties d q =
      unfold flush Dict.clear in
      (
        record { dict = new-IsValid; expires = new-IsValid },
        view_empty new-IsValid (unfold Dict.new in refl) q,
        view_empty new-IsValid (unfold Dict.new in refl) q,
      )
