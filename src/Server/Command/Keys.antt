-- ===== src/Server/Command/Keys.antt =====
-- What a lookup of a command finds, and what it leaves of the database, where the key is there and
-- where it is not.
use mnemos.Prelude.{◌≡◌, refl, ◌∙◌, false, none, some, []}
use mnemos.Prelude.Bytes.{Bytes}
use mnemos.Core.Object.{Value, touch}
use mnemos.Server.Db.Changes.{IsSound, value, deadline, Becomes}
use mnemos.Server.Db.Lookup.{is_dead, lapses, lookup_read-Reads}
use mnemos.Server.Command.{Context, lookup_read}

module _ {C : Type 0} where
  -- The key holds this value, and its deadline is not over.
  pub record IsLive (c : Context C) (k : Bytes) (v : Value C) : Type 0 where
    pub sound : IsSound c.db
    pub held : value c.db k ≡ some v
    pub live : is_dead c.db k c.now_ms ≡ false

  -- The key is not there.
  pub record IsMissing (c : Context C) (k : Bytes) : Type 0 where
    pub sound : IsSound c.db
    pub held : value c.db k ≡ none
    pub deadline_free : deadline c.db k ≡ none

  module _ (c : Context C) (k : Bytes) where
    pub lookup_read-live :
        (v : Value C)
        → IsLive c k v
        → ((lookup_read k c).0 ≡ some (touch c.now_ms v))
          × Becomes c.db k (some (touch c.now_ms v)) (deadline c.db k) [] ((lookup_read k c).1.db)
    unfolding lookup_read
    lookup_read-live v h =
        let r = lookup_read-Reads c.db k c.now_ms h.sound in
        let stays : lapses c.db k c.now_ms ≡ false = unfold lapses in rw (h.live) refl in
        (r.result ∙ rw (h.live, h.held) refl, rw (h.live, h.held, stays) at r.change)

    pub lookup_read-missing :
        IsMissing c k
        → ((lookup_read k c).0 ≡ none) × Becomes c.db k none none [] ((lookup_read k c).1.db)
    unfolding lookup_read
    lookup_read-missing h =
        let r = lookup_read-Reads c.db k c.now_ms h.sound in
        let live : is_dead c.db k c.now_ms ≡ false = unfold is_dead in rw (h.deadline_free) refl in
        let stays : lapses c.db k c.now_ms ≡ false = unfold lapses in rw live refl in
        (r.result ∙ rw (live, h.held) refl, rw (live, h.held, stays, h.deadline_free) at r.change)
