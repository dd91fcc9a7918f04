-- ===== src/Server/Command/Keyspace.antt =====
-- src/server/commands/keyspace_commands.cpp: DEL, EXISTS, TYPE, TOUCH, KEYS, RENAME and RENAMENX.
use mnemos.Prelude.{
  ℕ, ◌+◌, Bool, true, false, Option, none, some, List, [], ◌∷◌, ◌++◌, drop, ◌==◌, if◌then◌else◌,
}
use mnemos.Prelude.Bytes.{Bytes, codes, eqb}
use mnemos.Prelude.Int.{pos, leb_ℤ}
use mnemos.Core.Encoding.{type_name}
use mnemos.Core.Glob.{glob_match}
use mnemos.Core.Object.{Value}
use mnemos.Net.Resp.Reply
use mnemos.Server.Db
use mnemos.Server.Command.{
  Context, arg, mark_dirty, notify_keyspace_event, notify_key_miss, k_generic, error, integer, ok,
  lookup_read, lookup_write, set_key, erase, set_expire_at,
}

-- The answer of the matcher, which has one.
unfoldable pub is_match : Option Bool → Bool
is_match (some b) = b
is_match none = false

module _ {C : Type 0} where
  -- A round of DEL: the count, and the context.
  unfoldable pub del_erased : Bytes → ℕ → Bool → Context C → ℕ × Context C
  del_erased key removed true c = (removed + 1, notify_keyspace_event k_generic (codes "del") key c)
  del_erased key removed false c = (removed, c)

  unfoldable pub del_found : Bytes → ℕ → Option (Value C) × Context C → ℕ × Context C
  del_found key removed (none, c) = (removed, c)
  del_found key removed (some v, c) =
      let (erased, d) = Db.erase c.db key in del_erased key removed erased (record c { db = d })

  unfoldable pub del_loop : List Bytes → ℕ → Context C → ℕ × Context C
  del_loop [] removed c = (removed, c)
  del_loop (key ∷ keys) removed c =
      let (n, d) = del_found key removed (lookup_read key c) in del_loop keys n d

  unfoldable pub del_done : ℕ × Context C → Context C
  del_done (removed, c) = integer (pos removed) (if removed == 0 then c else mark_dirty removed c)

  -- `unlink` is `del`.
  unfoldable pub del : Context C → Context C
  del c = del_done (del_loop (drop 1 c.argv) 0 c)

  -- A round of EXISTS and of TOUCH, which differ in nothing but the name of the method they call.
  unfoldable pub count_found : Bytes → ℕ → Option (Value C) × Context C → ℕ × Context C
  count_found key count (none, c) = (count, notify_key_miss key c)
  count_found key count (some v, c) = (count + 1, c)

  unfoldable pub count_loop : List Bytes → ℕ → Context C → ℕ × Context C
  count_loop [] count c = (count, c)
  count_loop (key ∷ keys) count c =
      let (n, d) = count_found key count (lookup_read key c) in count_loop keys n d

  unfoldable pub count_done : ℕ × Context C → Context C
  count_done (count, c) = integer (pos count) c

  unfoldable pub exists : Context C → Context C
  exists c = count_done (count_loop (drop 1 c.argv) 0 c)

  unfoldable pub touch : Context C → Context C
  touch c = count_done (count_loop (drop 1 c.argv) 0 c)

  unfoldable pub simple_string : Bytes → Context C → Context C
  simple_string s c = record c { reply = Reply.simple_string c.reply s }

  unfoldable pub type_found : Option (Value C) × Context C → Context C
  type_found (none, c) = simple_string (codes "none") (notify_key_miss (arg c 1) c)
  type_found (some v, c) = simple_string (type_name v.type) c

  unfoldable pub type : Context C → Context C
  type c = type_found (lookup_read (arg c 1) c)

  -- A round of KEYS: the matches so far, in their order.
  unfoldable pub keys_found :
      Bytes → List Bytes → Option (Value C) × Context C → List Bytes × Context C
  keys_found key matches (none, c) = (matches, c)
  keys_found key matches (some v, c) = (matches ++ (key ∷ []), c)

  unfoldable pub keys_loop : Bytes → List Bytes → List Bytes → Context C → List Bytes × Context C
  keys_loop pattern [] matches c = (matches, c)
  keys_loop pattern (key ∷ rest) matches c =
      let (found, d) = keys_found key matches (lookup_read key c) in
      let with_key = keys_loop pattern rest found d in
      let without = keys_loop pattern rest matches c in
      if is_match (glob_match pattern key false) then with_key else without

  unfoldable pub keys_done : List Bytes × Context C → Context C
  keys_done (matches, c) = record c { reply = Reply.bulk_array c.reply matches }

  unfoldable pub keys : Context C → Context C
  keys c = keys_done (keys_loop (arg c 1) (Db.keys c.db) [] c)

  -- The answers of RENAME and of RENAMENX.
  unfoldable pub rename_done : Bool → Context C → Context C
  rename_done true c = integer (pos 1) c
  rename_done false c = ok c

  unfoldable pub rename_same : Bool → Context C → Context C
  rename_same true c = integer (pos 0) c
  rename_same false c = ok c

  -- From `Value moved = *source` on.
  unfoldable pub rename_move : Bool → Value C → Context C → Context C
  rename_move fail_if_exists moved c =
      let src = arg c 1 in
      let dst = arg c 2 in
      let (expire_at, d) = Db.expire_at_ms c.db src in
      let c1 = set_key dst moved (erase src (record c { db = d })) in
      let c2 = if leb_ℤ (pos 0) expire_at then set_expire_at dst expire_at c1 else c1 in
      rename_done fail_if_exists (
        notify_keyspace_event k_generic (codes "rename_to") dst
          (notify_keyspace_event k_generic (codes "rename_from") src (mark_dirty 1 c2)))

  unfoldable pub rename_free : Value C → Option (Value C) × Context C → Context C
  rename_free v (some w, c) = integer (pos 0) c
  rename_free v (none, c) = rename_move true v c

  -- The target of RENAMENX is looked up, and has to be free.
  unfoldable pub rename_checked : Bool → Value C → Context C → Context C
  rename_checked true v c = rename_free v (lookup_write (arg c 2) c)
  rename_checked false v c = rename_move false v c

  unfoldable pub rename_found : Bool → Option (Value C) × Context C → Context C
  rename_found fail_if_exists (none, c) = error (codes "ERR no such key") c
  rename_found fail_if_exists (some v, c) =
      if eqb (arg c 1) (arg c 2)
      then rename_same fail_if_exists c
      else rename_checked fail_if_exists v c

  unfoldable pub rename_generic : Bool → Context C → Context C
  rename_generic fail_if_exists c = rename_found fail_if_exists (lookup_write (arg c 1) c)

  unfoldable pub rename : Context C → Context C
  rename c = rename_generic false c

  unfoldable pub renamenx : Context C → Context C
  renamenx c = rename_generic true c
