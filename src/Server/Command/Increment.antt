-- ===== src/Server/Command/Increment.antt =====
-- INCR and its kin on a key that holds a number, and on a key that is not there.
use mnemos.Prelude.{
  ◌+◌, ◌≡◌, refl, ap, ◌∙◌, subst, inl, inr, true, Option, none, some, List, [], ◌∷◌, ◌++◌,
  if◌then◌else◌, arith, Bool-cases,
}
use mnemos.Prelude.Bytes.{Bytes, codes}
use mnemos.Prelude.Decimal.{to_string}
use mnemos.Prelude.Int.{ℤ, pos, IsI64, plus_ℤ, eq_of_parts}
use mnemos.Core.Encoding.{string_to_int64}
use mnemos.Core.Encoding.RoundTrip.{string_to_int64-to_string}
use mnemos.Core.Object.{Value, touch, make_int, as_int, string_value}
use mnemos.Core.Object.Strings.{IsString, as_int-string_value}
use mnemos.Core.Dict.Methods.{is_new}
use mnemos.Net.Resp.Reply
use mnemos.Server.Db
use mnemos.Server.Db.{Database, Event, new_key}
use mnemos.Server.Db.Changes.{IsSound, value, deadline, Becomes, Becomes-trans, Becomes-own}
use mnemos.Server.Db.Methods.{overwrite_value-Becomes}
use mnemos.Server.Command.{
  Context, arg, is_string, is_string_type, lookup_read, lookup_write, overwrite_value, mark_dirty,
  notify_keyspace_event, k_string, integer, error,
}
use mnemos.Server.Command.Bounds.{would_overflow-IsI64}
use mnemos.Server.Command.Keys.{IsLive, IsMissing, lookup_read-live, lookup_read-missing}
use mnemos.Server.Command.Numbers.{would_overflow, incr_by, incr_current, incr_found, incr_decr_by}

plus_zero : (n : ℤ) → plus_ℤ (pos 0) n ≡ n
plus_zero n = eq_of_parts (plus_ℤ (pos 0) n) n (ground arith)

abbrev pub overflow_msg : Bytes
overflow_msg = codes "ERR increment or decrement would overflow"

module _ {C : Type 0} where
  -- The handler stored the number, answered with it, and told of the change.
  pub record Stores (c : Context C) (n : ℤ) (es : List Event) (c' : Context C) : Type 0 where
    pub change : Becomes c.db (arg c 1) (some (make_int n)) (deadline c.db (arg c 1)) es c'.db
    pub answered : c'.reply ≡ Reply.integer c.reply n
    pub counted : c'.dirty ≡ c.dirty + 1
    pub told :
        c'.notices
        ≡ c.notices
          ++ (record { event_class = k_string; event = codes "incrby"; key = arg c 1 } ∷ [])

  -- The handler answered with an error and wrote nothing.
  pub record Refuses (c : Context C) (msg : Bytes) (v : Option (Value C)) (c' : Context C)
      : Type 0 where
    pub change : Becomes c.db (arg c 1) v (deadline c.db (arg c 1)) [] c'.db
    pub answered : c'.reply ≡ Reply.error c.reply msg
    pub counted : c'.dirty ≡ c.dirty
    pub told : c'.notices ≡ c.notices

  incr_by-Stores :
      (c : Context C) (current delta : ℤ)
      → IsSound c.db
      → IsI64 current
      → IsI64 delta
      → IsI64 (plus_ℤ current delta)
      → Stores c
          (plus_ℤ current delta)
          (if is_new (value c.db (arg c 1)) then new_key (arg c 1) ∷ [] else [])
          (incr_by delta current c)
  unfolding incr_by overwrite_value mark_dirty notify_keyspace_event integer
  incr_by-Stores c current delta s h k i =
      let fits = (would_overflow-IsI64 current delta h k).0.1 i in
      let n = plus_ℤ current delta in
      rw fits (record {
        change = overwrite_value-Becomes c.db (arg c 1) (make_int n) s;
        answered = refl;
        counted = refl;
        told = refl;
      })

  incr_by-Refuses :
      (c : Context C) (current delta : ℤ)
      → IsSound c.db
      → IsI64 current
      → IsI64 delta
      → ¬ IsI64 (plus_ℤ current delta)
      → (incr_by delta current c ≡ error overflow_msg c)
  unfolding incr_by
  incr_by-Refuses c current delta s h k i = elim (Bool-cases (would_overflow current delta)) [
    | inl over ↦ rw over refl
    | inr fits ↦ absurd (i ((would_overflow-IsI64 current delta h k).0.0 fits))
  ]

  as_int-touch :
      (v : Value C) (now n : ℤ)
      → IsString v
      → string_value v ≡ to_string n
      → IsI64 n
      → as_int (touch now v) ≡ some n
  as_int-touch v now n h e i =
      unfold as_int touch in
      (unfold as_int in
        as_int-string_value v h ∙ ap string_to_int64 e ∙ string_to_int64-to_string n i)

  is_string-touch : (v : Value C) (now : ℤ) → IsString v → is_string (touch now v) ≡ true
  unfolding touch is_string_type
  is_string-touch v now h = rw (h.is_string) refl

  -- What INCR comes to after the lookup.
  incr_decr_by-incr_by :
      (c : Context C) (n delta : ℤ) (v : Value C)
      → IsLive c (arg c 1) v
      → IsString v
      → string_value v ≡ to_string n
      → IsI64 n
      → incr_decr_by delta c ≡ incr_by delta n ((lookup_write (arg c 1) c).1)
  unfolding incr_decr_by incr_found incr_current lookup_write
  incr_decr_by-incr_by c n delta v l h e i =
      let found = (lookup_read-live c (arg c 1) v l).0 in
      rw (found, is_string-touch v c.now_ms h, as_int-touch v c.now_ms n h e i) refl

  -- The store and the refusal after a lookup, which changed the database only.
  incr_by-Stores_after :
      (c : Context C) (e : Database C) (v : Option (Value C)) (current delta : ℤ)
      → Becomes c.db (arg c 1) v (deadline c.db (arg c 1)) [] e
      → IsI64 current
      → IsI64 delta
      → IsI64 (plus_ℤ current delta)
      → Stores c
          (plus_ℤ current delta)
          (if is_new v then new_key (arg c 1) ∷ [] else [])
          (incr_by delta current (record c { db = e }))
  incr_by-Stores_after c e v current delta b h k i =
      let s = incr_by-Stores (record c { db = e }) current delta b.sound h k i in
      let (own, time) = Becomes-own b in
      let n = plus_ℤ current delta in
      record {
        change =
            subst
              (λ w.
                Becomes c.db (arg c 1) (some (make_int n)) (deadline c.db (arg c 1))
                  (if is_new w then new_key (arg c 1) ∷ [] else [])
                  ((incr_by delta current (record c { db = e })).db))
              own
              (subst
                (λ t.
                  Becomes c.db (arg c 1) (some (make_int n)) t
                    (if is_new (value e (arg c 1)) then new_key (arg c 1) ∷ [] else [])
                    ((incr_by delta current (record c { db = e })).db))
                time (Becomes-trans b s.change));
        answered = s.answered;
        counted = s.counted;
        told = s.told;
      }

  incr_by-Refuses_after :
      (c : Context C) (e : Database C) (v : Option (Value C)) (current delta : ℤ)
      → Becomes c.db (arg c 1) v (deadline c.db (arg c 1)) [] e
      → IsI64 current
      → IsI64 delta
      → ¬ IsI64 (plus_ℤ current delta)
      → Refuses c overflow_msg v (incr_by delta current (record c { db = e }))
  unfolding error
  incr_by-Refuses_after c e v current delta b h k i =
      rw (incr_by-Refuses (record c { db = e }) current delta b.sound h k i)
        (record { change = b; answered = refl; counted = refl; told = refl })

  -- `incrDecrBy` on a live key whose string is the decimal text of an int64, with an int64: where
  -- the sum is an int64 it is stored as an integer, with the deadline kept, one change counted, the
  -- change told and the sum answered; where it is none, the key keeps its string, the error is
  -- answered, and nothing is counted or told.
  pub incr_decr_by-Adds :
      (c : Context C) (n delta : ℤ) (v : Value C)
      → IsLive c (arg c 1) v
      → IsString v
      → string_value v ≡ to_string n
      → IsI64 n
      → IsI64 delta
      → (IsI64 (plus_ℤ n delta) → Stores c (plus_ℤ n delta) [] (incr_decr_by delta c))
        × (¬ IsI64 (plus_ℤ n delta)
            → Refuses c overflow_msg (some (touch c.now_ms v)) (incr_decr_by delta c))
  unfolding lookup_write lookup_read
  incr_decr_by-Adds c n delta v l h e i k =
      let b = (lookup_read-live c (arg c 1) v l).1 in
      let d = (Db.lookup_read c.db (arg c 1) c.now_ms).1 in
      let step = incr_decr_by-incr_by c n delta v l h e i in
      (
        λ fits. rw step (incr_by-Stores_after c d (some (touch c.now_ms v)) n delta b i k fits),
        λ over. rw step (incr_by-Refuses_after c d (some (touch c.now_ms v)) n delta b i k over),
      )

  -- On a key that is not there they start from 0, which makes a new key.
  pub incr_decr_by-missing :
      (c : Context C) (delta : ℤ)
      → IsMissing c (arg c 1)
      → IsI64 delta
      → Stores c delta (new_key (arg c 1) ∷ []) (incr_decr_by delta c)
  unfolding incr_decr_by incr_found lookup_write lookup_read
  incr_decr_by-missing c delta m k =
      let (result, b) = lookup_read-missing c (arg c 1) m in
      let d = (Db.lookup_read c.db (arg c 1) c.now_ms).1 in
      let none_found : (Db.lookup_read c.db (arg c 1) c.now_ms).0 ≡ none = result in
      let same : Becomes c.db (arg c 1) none (deadline c.db (arg c 1)) [] d =
        rw (m.deadline_free) b in
      rw none_found (
        subst
          (λ n. Stores c n (new_key (arg c 1) ∷ []) (incr_by delta (pos 0) (record c { db = d })))
          (plus_zero delta)
          (incr_by-Stores_after c d none (pos 0) delta same (omega arith) k
            (rw (plus_zero delta) k)))
