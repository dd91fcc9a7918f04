-- ===== src/Server/Command/Renames.antt =====
-- RENAME on a live key: the value and the deadline move.
use mnemos.Prelude.{
  ◌+◌, ◌≡◌, refl, sym, ap, ◌∙◌, subst, Bool, true, false, Option, none, some, List, [], ◌∷◌, ◌++◌,
  append-nil, if◌then◌else◌, arith, if_cases,
}
use mnemos.Prelude.Bytes.{Bytes, eqb, codes}
use mnemos.Prelude.Int.{ℤ, pos, ◌≤ℤ◌, leb_ℤ, ltb_ℤ}
use mnemos.Core.Dict.Methods.{is_new}
use mnemos.Core.Object.{Value, touch}
use mnemos.Net.Resp.Reply
use mnemos.Server.Db
use mnemos.Server.Db.{Database, Event, new_key, or_minus_one}
use mnemos.Server.Db.Changes.{IsSound, value, deadline, Becomes, Becomes-trans, Becomes-own}
use mnemos.Server.Db.Lookup.{is_dead, dead_at, notice}
use mnemos.Server.Db.Methods.{set_key-Becomes, erase-Becomes, deadlines-Becomes, expire_at_ms-same}
use mnemos.Server.Command.{
  Context, arg, lookup_read, lookup_write, set_key, erase, set_expire_at, mark_dirty,
  notify_keyspace_event, k_generic, ok,
}
use mnemos.Server.Command.Keys.{IsLive, lookup_read-live}
use mnemos.Server.Command.Keyspace.{
  rename, rename_generic, rename_found, rename_checked, rename_move, rename_done,
}

if_twice :
    {A : Type 0} (b : Bool) (x y z : A)
    → (if b then x else (if b then y else z)) ≡ (if b then x else z)
if_twice true x y z = refl
if_twice false x y z = refl

-- No deadline, or one that is not negative.
abbrev pub IsFuture : Option ℤ → Type 0
IsFuture none = Unit {0}
IsFuture (some at_ms) = pos 0 ≤ℤ at_ms

pub live-IsFuture :
    (t : Option ℤ) (now_ms : ℤ) → pos 0 ≤ℤ now_ms → dead_at t now_ms ≡ false → IsFuture t
live-IsFuture none now_ms h live = tt
live-IsFuture (some at_ms) now_ms h live =
    let future : ltb_ℤ now_ms at_ms ≡ true = ground (arith, live) in ground (arith, h, future)

module _ {C : Type 0} where
  -- The deadline is set again where there was one.
  carried-Becomes :
      {d e : Database C} {k : Bytes} {v : Value C} {es : List Event} (t : Option ℤ)
      → IsFuture t
      → Becomes d k (some v) none es e
      → (leb_ℤ (pos 0) (or_minus_one t) ≡ true
          → Becomes d k (some v) t es (Db.set_expire_at e k (or_minus_one t)))
        × (leb_ℤ (pos 0) (or_minus_one t) ≡ false → Becomes d k (some v) t es e)
  unfolding or_minus_one
  carried-Becomes none f b = (λ h. absurd (ground (arith, h)), λ h. b)
  carried-Becomes {d} {e} {k} {v} {es} (some at_ms) f b = (
    λ h.
        let next = (deadlines-Becomes e k b.sound).0 at_ms in
        let own = (Becomes-own b).0 in
        subst (λ w. Becomes d k w (some at_ms) es (Db.set_expire_at e k at_ms)) own
          (subst (λ l. Becomes d k (value e k) (some at_ms) l (Db.set_expire_at e k at_ms))
            (append-nil es) (Becomes-trans b next)),
    λ h. absurd (ground (arith, h, f)),
  )

  -- What RENAME does: the value stands under the new name with the deadline, the old name is free,
  -- every other key is as it was, one change is counted, and both names are told, the old one first.
  pub record Moves (c : Context C) (v : Value C) (c' : Context C) : Type 0 where
    pub sound : IsSound c'.db
    pub values :
        (q : Bytes)
        → value c'.db q
          ≡ (if eqb (arg c 2) q then some v else if eqb (arg c 1) q then none else value c.db q)
    pub deadlines :
        (q : Bytes)
        → deadline c'.db q ≡ (
            if eqb (arg c 2) q
            then deadline c.db (arg c 1)
            else if eqb (arg c 1) q
            then none
            else deadline c.db q)
    pub counted : c'.dirty ≡ c.dirty + 1
    pub told :
        c'.notices
        ≡ (c.notices
            ++ (record { event_class = k_generic; event = codes "rename_from"; key = arg c 1 }
                ∷ []))
          ++ (record { event_class = k_generic; event = codes "rename_to"; key = arg c 2 } ∷ [])

  -- The notices, the count and the answer, once the dictionaries are right.
  record IsMoved (c : Context C) (v : Value C) (e : Database C) (es : List Event) (c2 : Context C)
      : Type 0 where
    change : Becomes e (arg c 2) (some v) (deadline c.db (arg c 1)) es c2.db
    same_count : c2.dirty ≡ c.dirty
    same_notices : c2.notices ≡ c.notices
    same_reply : c2.reply ≡ c.reply

  rename_move-Moves :
      (c : Context C) (v : Value C)
      → IsSound c.db
      → IsFuture (deadline c.db (arg c 1))
      → Moves c v (rename_move false v c)
        × ((rename_move false v c).reply ≡ Reply.simple_string c.reply (codes "OK"))
  unfolding rename_move rename_done set_key erase set_expire_at mark_dirty notify_keyspace_event ok
  rename_move-Moves c v h f =
      let src = arg c 1 in
      let dst = arg c 2 in
      let t = deadline c.db src in
      let (found, sound, values, deadlines) = expire_at_ms-same c.db src h in
      let d = (Db.expire_at_ms c.db src).1 in
      let e = (Db.erase d src).1 in
      let gone = (erase-Becomes d src sound).1 in
      let x = Db.set_key e dst v in
      let first = set_key-Becomes e dst v gone.sound in
      let es = notice (is_new (value e dst)) (new_key dst) in
      let c1 : Context C = record c { db = x } in
      let at_ms = (Db.expire_at_ms c.db src).0 in
      let c2 : Context C =
        if leb_ℤ (pos 0) at_ms then record c { db = Db.set_expire_at x dst at_ms } else c1 in
      let m : IsMoved c v e es c2 = rw found (
        if_cases (IsMoved c v e es) (leb_ℤ (pos 0) (or_minus_one t)) _ _
          (λ is_set. record {
            change = (carried-Becomes t f first).0 is_set;
            same_count = refl;
            same_notices = refl;
            same_reply = refl;
          })
          (λ free. record {
            change = (carried-Becomes t f first).1 free;
            same_count = refl;
            same_notices = refl;
            same_reply = refl;
          })) in
      (
        record {
          sound = m.change.sound;
          values = λ q.
              m.change.values q
              ∙ ap (λ o. if eqb dst q then some v else o)
                  (gone.values q ∙ ap (λ o. if eqb src q then none else o) (values q));
          deadlines = λ q.
              m.change.deadlines q
              ∙ ap (λ o. if eqb dst q then t else o)
                  (gone.deadlines q ∙ ap (λ o. if eqb src q then none else o) (deadlines q));
          counted = ap (λ n. n + 1) m.same_count;
          told =
              ap
                (λ l.
                  (l
                    ++ (record { event_class = k_generic; event = codes "rename_from"; key = src }
                        ∷ []))
                  ++ (record { event_class = k_generic; event = codes "rename_to"; key = dst }
                      ∷ []))
                m.same_notices;
        },
        ap (λ r. Reply.simple_string r (codes "OK")) m.same_reply,
      )

  -- RENAME of a live key to another name, whatever stands under that name, with a clock that is not
  -- negative: the value moves with its deadline, or without one, and the answer is OK.
  pub rename-Moves :
      (c : Context C) (v : Value C)
      → IsLive c (arg c 1) v
      → eqb (arg c 1) (arg c 2) ≡ false
      → pos 0 ≤ℤ c.now_ms
      → Moves c (touch c.now_ms v) (rename c)
        × ((rename c).reply ≡ Reply.simple_string c.reply (codes "OK"))
  unfolding rename rename_generic rename_found rename_checked lookup_write lookup_read
  rename-Moves c v l apart clock =
      let (found, b) = lookup_read-live c (arg c 1) v l in
      let w = touch c.now_ms v in
      let is_found : (Db.lookup_read c.db (arg c 1) c.now_ms).0 ≡ some w = found in
      let d = (Db.lookup_read c.db (arg c 1) c.now_ms).1 in
      let c1 : Context C = record c { db = d } in
      let time = (Becomes-own b).1 in
      let live : dead_at (deadline c.db (arg c 1)) c.now_ms ≡ false = unfold is_dead in l.live in
      let future = live-IsFuture (deadline c.db (arg c 1)) c.now_ms clock live in
      let (m, reply) = rename_move-Moves c1 w b.sound (subst IsFuture (sym time) future) in
      let src = arg c 1 in
      let dst = arg c 2 in
      rw (is_found, apart)
        (
          record {
            sound = m.sound;
            values = λ q.
                m.values q
                ∙ ap (λ o. if eqb dst q then some w else if eqb src q then none else o) (b.values q)
                ∙ ap (λ o. if eqb dst q then some w else o)
                    (if_twice (eqb src q) none (some w) (value c.db q));
            deadlines = λ q.
                m.deadlines q
                ∙ ap (λ o. if eqb dst q then o else if eqb src q then none else deadline d q) time
                ∙ ap (λ o. if eqb dst q then deadline c.db src else if eqb src q then none else o)
                    (b.deadlines q)
                ∙ ap (λ o. if eqb dst q then deadline c.db src else o)
                    (if_twice (eqb src q) none (deadline c.db src) (deadline c.db q));
            counted = m.counted;
            told = m.told;
          },
          reply,
        )
