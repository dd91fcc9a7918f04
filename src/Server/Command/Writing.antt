-- ===== src/Server/Command/Writing.antt =====
-- SET and GET, APPEND, and SETRANGE up to its overflow.
use mnemos.Prelude.{
  suc, ◌+◌, ◌≡◌, refl, sym, ap, ◌∙◌, subst, true, false, Option, none, some, List, [], ◌++◌, drop,
}
use mnemos.Prelude.Bytes.{Bytes, eqb, codes}
use mnemos.Core.Dict.Methods.{is_new}
use mnemos.Core.Object.{Value, touch, make_string, string_value}
use mnemos.Core.Object.Strings.{IsString, make_string-Holds}
use mnemos.Net.Resp.Reply
use mnemos.Server.Db
use mnemos.Server.Db.{Database, Event, new_key}
use mnemos.Server.Db.Changes.{
  IsSound, value, deadline, Becomes, Becomes-trans, Becomes-own, elsewhere,
}
use mnemos.Server.Db.Lookup.{is_dead, notice, lookup_read-Reads}
use mnemos.Server.Db.Methods.{overwrite_value-Becomes, deadlines-Becomes}
use mnemos.Server.Command.{
  Context, arg, is_string, is_string_type, lookup_read, lookup_write, overwrite_value, persist,
  mark_dirty, notify_keyspace_event, bulk, ok,
}
use mnemos.Server.Command.Keys.{IsLive, lookup_read-live}
use mnemos.Server.Command.Options.{plain_set, set_options}
use mnemos.Server.Command.Strings.{
  set, set_parsed, set_existing, set_checked, set_write, set_reply, apply_expire, get, get_found,
}

module _ {C : Type 0} where
  -- GET of a live string answers with its bytes and counts a hit.
  pub get-bulk :
      (c : Context C) (v : Value C)
      → IsLive c (arg c 1) v
      → IsString v
      → ((get c).reply ≡ Reply.bulk c.reply (string_value v))
        × ((get c).keyspace_hits ≡ suc c.keyspace_hits)
        × (value ((get c).db) (arg c 1) ≡ some (touch c.now_ms v))
  unfolding get get_found bulk lookup_read
  get-bulk c v l h =
      let (found, b) = lookup_read-live c (arg c 1) v l in
      let text : is_string (touch c.now_ms v) ≡ true =
        unfold touch is_string_type in rw (h.is_string) refl in
      let same : string_value (touch c.now_ms v) ≡ string_value v =
        unfold string_value touch in refl in
      let is_found : (Db.lookup_read c.db (arg c 1) c.now_ms).0 ≡ some (touch c.now_ms v) = found in
      rw (is_found, text, same) (refl, refl, (Becomes-own b).0)

  -- SET without options, after the lookup.
  set_existing-plain :
      (c : Context C) (o : Option (Value C))
      → set_existing plain_set o c ≡ set_write plain_set none c
  unfolding set_existing set_checked
  set_existing-plain c none = refl
  set_existing-plain c (some v) = refl

  -- What a SET without options has done.
  pub record Sets (c : Context C) (k s : Bytes) (c' : Context C) : Type 0 where
    pub sound : IsSound c'.db
    pub held : value c'.db k ≡ some (make_string s)
    pub deadline_free : deadline c'.db k ≡ none
    pub others :
        (q : Bytes)
        → eqb k q ≡ false
        → (value c'.db q ≡ value c.db q) × (deadline c'.db q ≡ deadline c.db q)
    pub answered : c'.reply ≡ Reply.simple_string c.reply (codes "OK")
    pub counted : c'.dirty ≡ c.dirty + 1

  set_write-plain :
      (c : Context C)
      → IsSound c.db
      → (es : List Event) × Becomes c.db
          (arg c 1)
          (some (make_string (arg c 2)))
          none
          es
          ((set_write plain_set none c).db)
        × ((set_write plain_set none c).reply ≡ Reply.simple_string c.reply (codes "OK"))
        × ((set_write plain_set none c).dirty ≡ c.dirty + 1)
  unfolding set_write set_reply apply_expire overwrite_value persist mark_dirty
      notify_keyspace_event ok
  set_write-plain c h =
      let k = arg c 1 in
      let v = make_string (arg c 2) in
      let first = overwrite_value-Becomes c.db k v h in
      let e = Db.overwrite_value c.db k v in
      let second = (deadlines-Becomes e k first.sound).2 in
      let own = (Becomes-own first).0 in
      let both = Becomes-trans first second in
      let es = notice (is_new (value c.db k)) (new_key k) ++ [] in
      (es, subst (λ w. Becomes c.db k w none es ((Db.persist e k).1)) own both, refl, refl)

  -- SET key value, without options: whatever the key held, a string of another type or nothing, it
  -- holds the value as a string then, without a deadline; no other key changes, and the answer is OK.
  pub set-Sets :
      (c : Context C) → IsSound c.db → drop 3 c.argv ≡ [] → Sets c (arg c 1) (arg c 2) (set c)
  unfolding set set_parsed set_options lookup_write lookup_read
  set-Sets c h e =
      let r = lookup_read-Reads c.db (arg c 1) c.now_ms h in
      let d = (Db.lookup_read c.db (arg c 1) c.now_ms).1 in
      let found = (Db.lookup_read c.db (arg c 1) c.now_ms).0 in
      let (es, b, reply, dirty) = set_write-plain (record c { db = d }) r.change.sound in
      let (own, time) = Becomes-own b in
      rw (e, set_existing-plain (record c { db = d }) found)
        (record {
          sound = b.sound;
          held = own;
          deadline_free = time;
          others = λ q other.
              let (v, t) = elsewhere q b other in
              let (w, u) = elsewhere q r.change other in (v ∙ w, t ∙ u);
          answered = reply;
          counted = dirty;
        })

  -- GET of a key on what a SET of this key without options has made of a well-formed database,
  -- whatever the clock says then: the answer is the bytes that were set.
  pub get-set :
      (c d : Context C)
      → IsSound c.db
      → drop 3 c.argv ≡ []
      → d.db ≡ (set c).db
      → arg d 1 ≡ arg c 1
      → (get d).reply ≡ Reply.bulk d.reply (arg c 2)
  get-set c d h e same key =
      let s = set-Sets c h e in
      let v = make_string (arg c 2) in
      let live : IsLive d (arg d 1) v = record {
        sound = subst IsSound (sym same) (s.sound);
        held = ap (λ x. value x (arg d 1)) same ∙ ap (value ((set c).db)) key ∙ s.held;
        live =
            unfold is_dead in
            let free : deadline d.db (arg d 1) ≡ none =
              ap (λ x. deadline x (arg d 1)) same
              ∙ ap (deadline ((set c).db)) key
              ∙ s.deadline_free in
            rw free refl;
      } in
      let held = make_string-Holds (arg c 2) in
      (get-bulk d v live held.string).0 ∙ ap (Reply.bulk d.reply) held.reads
