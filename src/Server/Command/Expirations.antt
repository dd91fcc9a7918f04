-- ===== src/Server/Command/Expirations.antt =====
-- EXPIRE and its kin on a live key: when the deadline is stored, when the key goes at once, and when
-- nothing happens.
use mnemos.Prelude.{
  ℕ, ◌+◌, ◌≡◌, refl, sym, ap, ◌∙◌, subst, inl, inr, Bool, true, false, Option, none, some, List, [],
  ◌∷◌, ◌++◌, append-nil, arith, Bool-cases, drop,
}
use mnemos.Prelude.Bytes.{Bytes, codes}
use mnemos.Prelude.Int.{ℤ, pos, ◌≤ℤ◌, ◌<ℤ◌, leb_ℤ}
use mnemos.Core.Encoding.{string_to_int64}
use mnemos.Core.Object.{Value, touch}
use mnemos.Net.Resp.Reply
use mnemos.Server.Db
use mnemos.Server.Db.{Database, or_minus_one}
use mnemos.Server.Db.Changes.{value, deadline, Becomes, Becomes-trans, Becomes-own}
use mnemos.Server.Db.Lookup.{is_dead, dead_at}
use mnemos.Server.Db.Methods.{
  erase-Becomes, deadlines-Becomes, expire_at_ms-same, expire_at_ms-Becomes,
}
use mnemos.Server.Command.{
  Context, Notice, arg, lookup_read, lookup_write, erase, set_expire_at, mark_dirty,
  notify_keyspace_event, k_generic, integer,
}
use mnemos.Server.Command.Keys.{IsLive, lookup_read-live}
use mnemos.Server.Command.Renames.{IsFuture, live-IsFuture}
use mnemos.Server.Command.Lifetimes.{Allows, is_refused-Allows}
use mnemos.Server.Command.Expiring.{
  Flags, flags, no_flags, read_flags, are_compatible, when_of, is_refused, expire_put, expire_when,
  expire_found, expire_options, expire_parsed, expire_generic,
}

-- The notices of these events on the key.
unfoldable pub notices_of : Bytes → List Bytes → List Notice
notices_of key [] = []
notices_of key (name ∷ names) =
    record { event_class = k_generic; event = name; key = key } ∷ notices_of key names

module _ {C : Type 0} where
  -- What a handler has made of its key, what it answered, counted and told.
  pub record Does (c : Context C) (v : Option (Value C)) (t : Option ℤ) (n : ℕ) (names : List Bytes)
      (c' : Context C) : Type 0 where
    pub change : Becomes c.db (arg c 1) v t [] c'.db
    pub answered : c'.reply ≡ Reply.integer c.reply (pos n)
    pub counted : c'.dirty ≡ c.dirty + n
    pub told : c'.notices ≡ c.notices ++ notices_of (arg c 1) names

  module _ (c : Context C) (d : Database C) (w : Value C) (when : ℤ) where
    expire_put-Does :
        (t : Option ℤ)
        → Becomes c.db (arg c 1) (some w) t [] d
        → (when ≤ℤ c.now_ms
            → Does c none none 1 (codes "del" ∷ []) (expire_put when (record c { db = d })))
          × (c.now_ms <ℤ when
              → Does c
                  (some w)
                  (some when)
                  1
                  (codes "expire" ∷ [])
                  (expire_put when (record c { db = d })))
    unfolding expire_put erase set_expire_at mark_dirty notify_keyspace_event integer notices_of
    expire_put-Does t b =
        let k = arg c 1 in
        (
          λ over.
              let past : leb_ℤ when c.now_ms ≡ true = ground (arith, over) in
              rw past (record {
                change = Becomes-trans b ((erase-Becomes d k b.sound).1);
                answered = refl;
                counted = refl;
                told = refl;
              }),
          λ later.
              let future : leb_ℤ when c.now_ms ≡ false = ground (arith, later) in
              let own = (Becomes-own b).0 in
              rw future (record {
                change =
                    subst (λ o. Becomes c.db k o (some when) [] (Db.set_expire_at d k when)) own
                      (Becomes-trans b ((deadlines-Becomes d k b.sound).0 when));
                answered = refl;
                counted = refl;
                told = refl;
              }),
        )

    module _ (f : Flags) (command : Bytes) where
      expire_when-Does :
          IsFuture (deadline c.db (arg c 1))
          → Becomes c.db (arg c 1) (some w) (deadline c.db (arg c 1)) [] d
          → (¬ Allows f (deadline c.db (arg c 1)) when
              → Does c
                  (some w)
                  (deadline c.db (arg c 1))
                  0
                  []
                  (expire_when f command (some when) (record c { db = d })))
            × (Allows f (deadline c.db (arg c 1)) when
                → expire_when f command (some when) (record c { db = d })
                  ≡ expire_put when (record c { db = (Db.expire_at_ms d (arg c 1)).1 }))
            × Becomes c.db
                (arg c 1)
                (some w)
                (deadline c.db (arg c 1))
                []
                ((Db.expire_at_ms d (arg c 1)).1)
      unfolding expire_when integer notices_of
      expire_when-Does future b =
          let k = arg c 1 in
          let t = deadline c.db k in
          let (own, time) = Becomes-own b in
          let found : (Db.expire_at_ms d k).0 ≡ or_minus_one t =
            (expire_at_ms-same d k b.sound).0 ∙ ap or_minus_one time in
          let x = (Db.expire_at_ms d k).1 in
          let searched : Becomes d k (some w) t [] x =
            subst (λ o. Becomes d k o t [] x) own
              (subst (λ u. Becomes d k (value d k) u [] x) time
                (expire_at_ms-Becomes d k b.sound)) in
          let change : Becomes c.db k (some w) t [] x = Becomes-trans b searched in
          let (to, from) = is_refused-Allows f t when future in
          (
            λ forbidden.
                let refused : is_refused f (or_minus_one t) when ≡ true =
                  elim (Bool-cases (is_refused f (or_minus_one t) when)) [
                    | inl stops ↦ stops
                    | inr free ↦ absurd (forbidden (to free))
                  ] in
                rw (found, refused)
                  (record {
                    change = change;
                    answered = refl;
                    counted = omega arith;
                    told = sym (append-nil c.notices);
                  }),
            λ a. rw (found, from a) refl,
            change,
          )

  -- EXPIRE, PEXPIRE, EXPIREAT and PEXPIREAT on a live key, with a clock that is not negative and
  -- arguments that can be read: where the flags do not allow the deadline, the answer is 0 and nothing
  -- changes; where they do and it is over, the key goes, and else it gets the deadline. The answer is
  -- 1 then, one change is counted, and `del` or `expire` is told.
  pub expire_generic-Does :
      (c : Context C) (v : Value C) (seconds absolute : Bool) (command : Bytes) (raw when : ℤ)
      (f : Flags)
      → IsLive c (arg c 1) v
      → pos 0 ≤ℤ c.now_ms
      → string_to_int64 (arg c 2) ≡ some raw
      → read_flags (drop 3 c.argv) no_flags ≡ flags f
      → are_compatible f ≡ true
      → when_of seconds absolute raw c.now_ms ≡ some when
      → (¬ Allows f (deadline c.db (arg c 1)) when
          → Does c
              (some (touch c.now_ms v))
              (deadline c.db (arg c 1))
              0
              []
              (expire_generic seconds absolute command c))
        × (Allows f (deadline c.db (arg c 1)) when
            → when ≤ℤ c.now_ms
            → Does c none none 1 (codes "del" ∷ []) (expire_generic seconds absolute command c))
        × (Allows f (deadline c.db (arg c 1)) when
            → c.now_ms <ℤ when
            → Does c
                (some (touch c.now_ms v))
                (some when)
                1
                (codes "expire" ∷ [])
                (expire_generic seconds absolute command c))
  unfolding expire_generic expire_parsed expire_options expire_found lookup_write lookup_read
  expire_generic-Does c v seconds absolute command raw when f l clock number options compatible at =
      let k = arg c 1 in
      let (result, b) = lookup_read-live c k v l in
      let w = touch c.now_ms v in
      let is_found : (Db.lookup_read c.db k c.now_ms).0 ≡ some w = result in
      let d = (Db.lookup_read c.db k c.now_ms).1 in
      let live : dead_at (deadline c.db k) c.now_ms ≡ false = unfold is_dead in l.live in
      let future = live-IsFuture (deadline c.db k) c.now_ms clock live in
      let (forbidden, allowed, change) = expire_when-Does c d w when f command future b in
      let x = (Db.expire_at_ms d k).1 in
      let (over, later) = expire_put-Does c x w when (deadline c.db k) change in
      rw (number, options, compatible, is_found, at)
        (forbidden, λ a h. rw (allowed a) (over h), λ a h. rw (allowed a) (later h))
