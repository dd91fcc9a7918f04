-- ===== src/Server/Command/Extend.antt =====
-- APPEND and SETRANGE on a live string: the bytes that it holds then, and the offsets on which
-- SETRANGE ends the process.
use mnemos.Prelude.{
  ℕ, ◌+◌, ◌^◌, ◌≤◌, ◌<◌, ◌≡◌, refl, ap, ◌∙◌, subst, true, false, none, some, [], ◌++◌, arith,
  length, ltb, ◌==◌,
}
use mnemos.Prelude.Bytes.{Bytes, codes}
use mnemos.Prelude.Decimal.{to_string}
use mnemos.Prelude.Int.{ℤ, pos, wrap_i64, ltb_ℤ}
use mnemos.Core.Dict.Writes.{assign-Updates}
use mnemos.Core.Encoding.{ObjEncoding, string_to_int64}
use mnemos.Core.Encoding.RoundTrip.{string_to_int64-to_string}
use mnemos.Core.Object.{Value, Arm, text, touch, is_raw, make_mutable, string_value, string_length}
use mnemos.Core.Object.Strings.{
  IsString, Agrees, as_integer, embedded, apart, append_string-Appends, string_length-string_value,
}
use mnemos.Net.Resp.Reply
use mnemos.Server.Db
use mnemos.Server.Db.{Database}
use mnemos.Server.Db.Changes.{
  deadline, Becomes, Becomes-trans, Becomes-own, Updates→Writes, Writes-refl, both_quiet,
}
use mnemos.Server.Command
use mnemos.Server.Command.{
  Context, arg, is_string, is_string_type, lookup_read, lookup_write, store, mark_dirty,
  notify_keyspace_event, k_string, error,
}
use mnemos.Server.Command.Keys.{IsLive, lookup_read-live}
use mnemos.Server.Command.Ranges.{
  max_string_size, max_size, append, append_found, append_stored, patched, setrange,
  setrange_parsed, setrange_found, setrange_write, setrange_value, setrange_target, setrange_data,
}

-- The test of the size, on the sum as it wraps.
within_size : (m : ℕ) → m ≤ max_string_size → ltb_ℤ (pos max_string_size) (wrap_i64 (pos m)) ≡ false
within_size m h = ground arith

wraps_within :
    (m : ℕ) → 2 ^ 63 ≤ m → m < 2 ^ 64 → ltb_ℤ (pos max_string_size) (wrap_i64 (pos m)) ≡ false
wraps_within m h k = ground arith

module _ {C : Type 0} where
  -- A live string after the lookup.
  touched-IsString : (v : Value C) (now : ℤ) → IsString v → IsString (touch now v)
  unfolding touch
  touched-IsString v now h = record { is_string = h.is_string; agrees = h.agrees }

  is_string-IsString : (v : Value C) → IsString v → is_string v ≡ true
  unfolding is_string_type
  is_string-IsString v h = rw (h.is_string) refl

  string_value-touch : (v : Value C) (now : ℤ) → string_value (touch now v) ≡ string_value v
  unfolding string_value touch
  string_value-touch v now = refl

  -- A new value through the pointer that a lookup gave.
  store-Becomes :
      (c : Context C) (k : Bytes) (e : Database C) (v w : Value C)
      → Becomes c.db k (some v) (deadline c.db k) [] e
      → Becomes c.db k (some w) (deadline c.db k) [] ((store k w (record c { db = e })).db)
  unfolding store
  store-Becomes c k e v w b =
      let (own, time) = Becomes-own b in
      let change : Becomes e k (some w) (deadline e k) [] ((store k w (record c { db = e })).db) =
        unfold store in
        both_quiet (Updates→Writes (assign-Updates b.sound.dict k w v own))
          (Writes-refl e.expires k b.sound.expires) in
      subst (λ t. Becomes c.db k (some w) t [] ((store k w (record c { db = e })).db)) time
        (Becomes-trans b change)

  -- What a handler has done that changed the string of the key: the string, the deadline kept, the
  -- answer, and a change counted.
  pub record Changes (c : Context C) (s : Bytes) (c' : Context C) : Type 0 where
    pub value_now : Value C
    pub string : IsString value_now
    pub reads : string_value value_now ≡ s
    pub change : Becomes c.db (arg c 1) (some value_now) (deadline c.db (arg c 1)) [] c'.db
    pub answered : c'.reply ≡ Reply.integer c.reply (pos (length s))
    pub counted : c'.dirty ≡ c.dirty + 1

  -- APPEND on a live string of any encoding: while the result has at most 512 MiB, the string is the
  -- old one with the argument behind it, the deadline is kept, and the answer is the new length.
  pub append-Changes :
      (c : Context C) (v : Value C)
      → IsLive c (arg c 1) v
      → IsString v
      → length (string_value v) + length (arg c 2) ≤ max_string_size
      → (c' : Context C) × (append c ≡ some c') × Changes c (string_value v ++ arg c 2) c'
  unfolding append append_found append_stored lookup_write lookup_read mark_dirty
      notify_keyspace_event Command.integer store
  append-Changes c v l h small =
      let now = c.now_ms in
      let t = touch now v in
      let ht = touched-IsString v now h in
      let (found, b) = lookup_read-live c (arg c 1) v l in
      let e = (Db.lookup_read c.db (arg c 1) now).1 in
      let is_found : (Db.lookup_read c.db (arg c 1) now).0 ≡ some t = found in
      let (w, appended, a) = append_string-Appends t (arg c 2) ht in
      let old = string_length-string_value t ht ∙ ap length (string_value-touch v now) in
      let fits : ltb max_string_size (string_length t + length (arg c 2)) ≡ false =
        ground (arith, old) in
      let reads : string_value w ≡ string_value v ++ arg c 2 =
        a.reads ∙ ap (λ s. s ++ arg c 2) (string_value-touch v now) in
      let n : string_length w ≡ length (string_value v ++ arg c 2) =
        string_length-string_value w a.string ∙ ap length reads in
      let c' = Command.integer (pos (string_length w)) (
        notify_keyspace_event k_string (codes "append") (arg c 1)
          (mark_dirty 1 (store (arg c 1) w (record c { db = e })))) in
      (
        c',
        rw (is_found, is_string-IsString t ht, fits, appended) refl,
        record {
          value_now = w;
          string = a.string;
          reads = reads;
          change = store-Becomes c (arg c 1) e t w b;
          answered = ap (λ k. Reply.integer c.reply (pos k)) n;
          counted = refl;
        },
      )

  -- The value that SETRANGE writes into: the text, as a raw string.
  abbrev raw_text : Value C → Bytes → Value C
  raw_text v s = record v { arm = text s; encoding = ObjEncoding.raw }

  make_mutable_as :
      (v : Value C) (en : ObjEncoding) (a : Arm C)
      → Agrees en a
      → make_mutable (record v { encoding = en; arm = a })
        ≡ raw_text v (string_value (record v { encoding = en; arm = a }))
  unfolding make_mutable is_raw string_value
  make_mutable_as v _ _ (as_integer n h) = refl
  make_mutable_as v _ _ (embedded s h) = refl
  make_mutable_as v _ _ (apart s) = refl

  make_mutable-raw_text : (v : Value C) → IsString v → make_mutable v ≡ raw_text v (string_value v)
  make_mutable-raw_text v h = make_mutable_as v v.encoding v.arm h.agrees

  raw_text-IsString :
      (v : Value C) (s : Bytes)
      → IsString v
      → IsString (raw_text v s) × (string_value (raw_text v s) ≡ s)
  unfolding string_value
  raw_text-IsString v s h = (record { is_string = h.is_string; agrees = apart s }, refl)

  -- Past the checks: the patch of the text.
  setrange-data :
      (c : Context C) (v : Value C) (n : ℕ)
      → IsLive c (arg c 1) v
      → IsString v
      → arg c 2 ≡ to_string (pos n)
      → n < 2 ^ 63
      → 1 ≤ length (arg c 3)
      → ltb_ℤ (pos max_string_size) (wrap_i64 (pos (n + length (arg c 3)))) ≡ false
      → setrange c
        ≡ setrange_data n
            (raw_text (touch c.now_ms v) (string_value v))
            (text (string_value v))
            (record c { db = (Db.lookup_read c.db (arg c 1) c.now_ms).1 })
  unfolding setrange setrange_parsed setrange_found setrange_write setrange_target setrange_value
      lookup_write lookup_read
  setrange-data c v n l h offset i some_bytes fits =
      let now = c.now_ms in
      let t = touch now v in
      let ht = touched-IsString v now h in
      let is_found : (Db.lookup_read c.db (arg c 1) now).0 ≡ some t =
        (lookup_read-live c (arg c 1) v l).0 in
      let parsed : string_to_int64 (arg c 2) ≡ some (pos n) =
        ap string_to_int64 offset ∙ string_to_int64-to_string (pos n) (omega arith) in
      let longer : (length (arg c 3) == 0) ≡ false = ground arith in
      let mutable : make_mutable t ≡ raw_text t (string_value v) =
        make_mutable-raw_text t ht ∙ ap (raw_text t) (string_value-touch v now) in
      rw (parsed, is_found, is_string-IsString t ht, longer, fits, mutable) refl

  -- SETRANGE on a live string, with an offset that is the text of a natural number below 2 ^ 63 and
  -- bytes to write. While the end of the patch is at most 512 MiB, the string is the patched one, the
  -- deadline is kept, and the answer is its length. Where the end is no int64, the sum that the size
  -- is tested by wraps, the test lets it through, and the handler ends in an exception.
  pub setrange-Changes :
      (c : Context C) (v : Value C) (n : ℕ)
      → IsLive c (arg c 1) v
      → IsString v
      → arg c 2 ≡ to_string (pos n)
      → n < 2 ^ 63
      → 1 ≤ length (arg c 3)
      → length (arg c 3) < 2 ^ 63
      → (n + length (arg c 3) ≤ max_string_size
          → (c' : Context C) × (setrange c ≡ some c')
            × Changes c (patched n (arg c 3) (string_value v)) c')
        × (2 ^ 63 ≤ n + length (arg c 3) → setrange c ≡ none)
  unfolding setrange_data mark_dirty notify_keyspace_event Command.integer store
  setrange-Changes c v n l h offset i some_bytes j = (
    λ small.
        let now = c.now_ms in
        let t = touch now v in
        let old = string_value v in
        let after = patched n (arg c 3) old in
        let w = raw_text t after in
        let e = (Db.lookup_read c.db (arg c 1) now).1 in
        let b : Becomes c.db (arg c 1) (some t) (deadline c.db (arg c 1)) [] e =
          unfold lookup_read in (lookup_read-live c (arg c 1) v l).1 in
        let (string, reads) = raw_text-IsString t after (touched-IsString v now h) in
        let enough : ltb max_size (n + length (arg c 3)) ≡ false = ground arith in
        let c' = Command.integer (pos (length after)) (
          notify_keyspace_event k_string (codes "setrange") (arg c 1)
            (mark_dirty 1 (store (arg c 1) w (record c { db = e })))) in
        (
          c',
          setrange-data c v n l h offset i some_bytes (within_size (n + length (arg c 3)) small)
              ∙ rw enough refl,
          record {
            value_now = w;
            string = string;
            reads = reads;
            change = store-Becomes c (arg c 1) e t w b;
            answered = refl;
            counted = refl;
          },
        ),
    λ over.
        let too_large : ltb max_size (n + length (arg c 3)) ≡ true = ground arith in
        setrange-data c v n l h offset i some_bytes
          (wraps_within (n + length (arg c 3)) over (omega arith))
        ∙ rw too_large refl,
  )
