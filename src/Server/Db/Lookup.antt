-- ===== src/Server/Db/Lookup.antt =====
-- Lazy expiry, and the reads that it guards.
use mnemos.Prelude.{
  ◌≡◌, refl, sym, ◌∙◌, subst, Bool, true, false, ◌&&◌, not, Option, none, some, List, [], ◌∷◌,
  if◌then◌else◌, Bool-cases, inl, inr,
}
use mnemos.Prelude.Bytes.{Bytes}
use mnemos.Prelude.Int.{ℤ, ltb_ℤ}
use mnemos.Core.Object.{Value, touch}
use mnemos.Core.Dict
use mnemos.Core.Dict.{Dict, size}
use mnemos.Core.Dict.Writes.{assign-Updates}
use mnemos.Core.Dict.Methods.{find-view, erase-Updates}
use mnemos.Server.Db.{
  Database, Event, expired, expire, expire_over, expire_found, expire_if_needed, read_found,
  read_live, lookup_read, told,
}
use mnemos.Server.Db.Changes.{
  IsSound, value, deadline, Becomes, Writes, Updates→Writes, Writes-refl, Keeps→Writes, both,
  both_quiet, Becomes-trans, Becomes-own,
}

-- A deadline is over from its own millisecond on.
abbrev pub dead_at : Option ℤ → ℤ → Bool
dead_at none now_ms = false
dead_at (some at_ms) now_ms = not (ltb_ℤ now_ms at_ms)

abbrev pub unless : {A : Type 0} → Bool → Option A → Option A
unless b o = if b then none else o

abbrev pub notice : Bool → Event → List Event
notice b e = if b then e ∷ [] else []

module _ {C : Type 0} where
  -- The deadline of the key is over.
  unfoldable pub is_dead : Database C → Bytes → ℤ → Bool
  is_dead d k now_ms = dead_at (deadline d k) now_ms

  -- The key goes now: its deadline is over, and this server may delete it.
  unfoldable pub lapses : Database C → Bytes → ℤ → Bool
  lapses d k now_ms = is_dead d k now_ms && d.expiration_enabled

  -- What `expireIfNeeded` must do.
  pub record Lapses (d : Database C) (k : Bytes) (now_ms : ℤ) (r : Bool × Database C) : Type 0 where
    pub gone : r.0 ≡ is_dead d k now_ms
    pub change :
        Becomes d k
          (unless (lapses d k now_ms) (value d k))
          (unless (lapses d k now_ms) (deadline d k))
          (notice (lapses d k now_ms) (expired k))
          r.1

  pub expire-Becomes :
      {d : Database C}
      → IsSound d
      → (k : Bytes) → Becomes d k none none (expired k ∷ []) (expire d k)
  expire-Becomes {d} h k =
      unfold expire told in
      both (expired k ∷ []) (Updates→Writes (erase-Updates d.dict k h.dict).1)
        (Updates→Writes (erase-Updates d.expires k h.expires).1)

  expire_over-Lapses :
      {d e : Database C} (k : Bytes) (now_ms : ℤ) (enabled : Bool)
      → Becomes d k (value d k) (deadline d k) [] e
      → d.expiration_enabled ≡ enabled
      → is_dead d k now_ms ≡ true
      → Lapses d k now_ms (expire_over enabled e k)
  unfolding expire_over
  expire_over-Lapses {d} {e} k now_ms false b replica dead =
      let stays : lapses d k now_ms ≡ false = unfold lapses in rw dead replica in
      record { gone = sym dead; change = rw stays b }
  expire_over-Lapses {d} {e} k now_ms true b master dead =
      let goes : lapses d k now_ms ≡ true = unfold lapses in rw dead master in
      record { gone = sym dead; change = rw goes (Becomes-trans b (expire-Becomes b.sound k)) }

  expire_found-Lapses :
      {d e : Database C} (k : Bytes) (now_ms : ℤ) (o : Option ℤ)
      → Becomes d k (value d k) (deadline d k) [] e
      → deadline d k ≡ o
      → Lapses d k now_ms (expire_found o e k now_ms)
  unfolding expire_found
  expire_found-Lapses {d} {e} k now_ms none b h =
      let dead : is_dead d k now_ms ≡ false = unfold is_dead in rw h in
      let stays : lapses d k now_ms ≡ false = unfold lapses in rw dead in
      record { gone = sym dead; change = rw stays b }
  expire_found-Lapses {d} {e} k now_ms (some at_ms) b h = elim (Bool-cases (ltb_ℤ now_ms at_ms)) [
    | inl later ↦
        let dead : is_dead d k now_ms ≡ false = unfold is_dead in rw (h, later) in
        let stays : lapses d k now_ms ≡ false = unfold lapses in rw dead in
        rw later (record { gone = sym dead; change = rw stays b })
    | inr over ↦
        let dead : is_dead d k now_ms ≡ true = unfold is_dead in rw (h, over) in
        rw over (expire_over-Lapses k now_ms e.expiration_enabled b (sym b.enabled) dead)
  ]

  -- `expireIfNeeded` says whether the deadline is over. It deletes the key, with its deadline and
  -- with a call of the callback, if the deadline is over on a server that expires keys; on a
  -- replica, and before the deadline, nothing changes.
  expire_if_needed-Lapses :
      (d : Database C) (k : Bytes) (now_ms : ℤ)
      → IsSound d
      → Lapses d k now_ms (expire_if_needed d k now_ms)
  expire_if_needed-Lapses d k now_ms h =
      let (found, s) = find-view d.expires k h.expires in
      unfold expire_if_needed in
      expire_found-Lapses k now_ms (Dict.find d.expires k).0
        (both_quiet (Writes-refl d.dict k h.dict) (Keeps→Writes k s)) (sym found)

  abbrev pub touched : ℤ → Option (Value C) → Option (Value C)
  touched now_ms none = none
  touched now_ms (some v) = some (touch now_ms v)

  -- What `lookupRead` must do.
  pub record Reads (d : Database C) (k : Bytes) (now_ms : ℤ) (r : Option (Value C) × Database C)
      : Type 0 where
    pub result : r.0 ≡ touched now_ms (unless (is_dead d k now_ms) (value d k))
    pub change :
        Becomes d k
          (if is_dead d k now_ms
            then unless (lapses d k now_ms) (value d k)
            else touched now_ms (value d k))
          (unless (lapses d k now_ms) (deadline d k))
          (notice (lapses d k now_ms) (expired k))
          r.1

  read_found-Becomes :
      {d : Database C} (k : Bytes) (now_ms : ℤ) (o : Option (Value C))
      → IsSound d
      → value d k ≡ o
      → ((read_found o d k now_ms).0 ≡ touched now_ms o)
        × Becomes d k (touched now_ms o) (deadline d k) [] (read_found o d k now_ms).1
  unfolding read_found
  read_found-Becomes {d} k now_ms none h e = (
    refl,
    both_quiet (subst (λ o. Writes d.dict k o d.dict) e (Writes-refl d.dict k h.dict))
        (Writes-refl d.expires k h.expires),
  )
  read_found-Becomes {d} k now_ms (some v) h e = (
    refl,
    both_quiet (Updates→Writes (assign-Updates h.dict k (touch now_ms v) v e))
        (Writes-refl d.expires k h.expires),
  )

  read_live-Becomes :
      {d : Database C} (k : Bytes) (now_ms : ℤ)
      → IsSound d
      → ((read_live false d k now_ms).0 ≡ touched now_ms (value d k))
        × Becomes d k (touched now_ms (value d k)) (deadline d k) [] (read_live false d k now_ms).1
  unfolding read_live
  read_live-Becomes {d} k now_ms h =
      let (found, s) = find-view d.dict k h.dict in
      let moved : Becomes d k (value d k) (deadline d k) []
          (record d { dict = (Dict.find d.dict k).1 }) =
        both_quiet (Keeps→Writes k s) (Writes-refl d.expires k h.expires) in
      let (result, change) = read_found-Becomes k now_ms (value d k) moved.sound (s.same k) in
      subst
        (λ o.
          ((read_found o (record d { dict = (Dict.find d.dict k).1 }) k now_ms).0
            ≡ touched now_ms (value d k))
          × Becomes d k (touched now_ms (value d k)) (deadline d k) []
              (read_found o (record d { dict = (Dict.find d.dict k).1 }) k now_ms).1)
        (sym found) (result, Becomes-trans moved change)

  read_live-Reads :
      {d e : Database C} (k : Bytes) (now_ms : ℤ) (gone : Bool)
      → gone ≡ is_dead d k now_ms
      → Becomes d k
          (unless (lapses d k now_ms) (value d k))
          (unless (lapses d k now_ms) (deadline d k))
          (notice (lapses d k now_ms) (expired k))
          e
      → Reads d k now_ms (read_live gone e k now_ms)
  read_live-Reads {d} {e} k now_ms true h b =
      unfold read_live in record { result = rw (← h) refl; change = rw (← h) b }
  read_live-Reads {d} {e} k now_ms false h b =
      let stays : lapses d k now_ms ≡ false = unfold lapses in rw (← h) refl in
      let same : Becomes d k (value d k) (deadline d k) [] e = rw stays at b in
      let (v, t) = Becomes-own same in
      let (result, change) = read_live-Becomes k now_ms b.sound in
      record {
        result = result ∙ rw (← h, v) refl;
        change = rw (← h, stays, ← v, ← t) (Becomes-trans same change);
      }

  -- `lookupRead` returns what the key holds, touched at `now_ms`, and null once its deadline is
  -- over, on a master and on a replica alike. It deletes a key whose deadline is over only where
  -- this server expires keys; no other key changes.
  pub lookup_read-Reads :
      (d : Database C) (k : Bytes) (now_ms : ℤ)
      → IsSound d
      → Reads d k now_ms (lookup_read d k now_ms)
  lookup_read-Reads d k now_ms h =
      let l = expire_if_needed-Lapses d k now_ms h in
      unfold lookup_read in read_live-Reads k now_ms (expire_if_needed d k now_ms).0 l.gone l.change
