-- ===== src/Server/Command/Strings.antt =====
-- src/server/commands/string_commands.cpp: SET, GET, GETSET, GETDEL, GETEX, SETNX, SETEX, PSETEX.
use mnemos.Prelude.{
  ℕ, suc, ◌-◌, ◌/◌, ◌^◌, Bool, true, false, not, ◌&&◌, ◌||◌, Option, none, some, ◌++◌, drop, ltb,
  if◌then◌else◌,
}
use mnemos.Prelude.Bytes.{Bytes, codes}
use mnemos.Prelude.Int.{ℤ, pos, pos_part, leb_ℤ, plus_ℤ, times_ℤ, wrap_i64}
use mnemos.Core.Encoding.{string_to_int64}
use mnemos.Core.Object.{Value, make_string, string_value}
use mnemos.Server.Command.Options.{
  ExpireOptions, no_options, Failure, Parsed, failed, parsed, SetOptions, plain_set, set_options,
  getex_options,
}
use mnemos.Server.Command.{
  Context, arg, is_string, mark_dirty, notify_keyspace_event, notify_key_miss, k_generic, k_string,
  error, integer, bulk, null_bulk, wrong_type, syntax_error, not_an_integer, ok, lookup_read,
  lookup_write, set_key, overwrite_value, erase, set_expire_at, persist,
}

module _ {C : Type 0} where
  unfoldable pub report : Bytes → Failure → Context C → Context C
  report command Failure.syntax c = syntax_error c
  report command Failure.not_integer c = not_an_integer c
  report command Failure.invalid_expire c =
      error ((codes "ERR invalid expire time in '" ++ command) ++ codes "' command") c

  -- `applyExpire`
  unfoldable pub apply_expire : Bytes → ExpireOptions → Context C → Context C
  apply_expire key o c =
      if o.set
      then set_expire_at key o.at_ms c
      else if o.persist
      then (persist key c).1
      else if not o.keep_ttl
      then (persist key c).1
      else c

  -- `existing->stringValue()`, where there was one.
  unfoldable pub reply_old : Option Bytes → Context C → Context C
  reply_old none c = null_bulk c
  reply_old (some old) c = bulk old c

  unfoldable pub set_reply : Bool → Option Bytes → Context C → Context C
  set_reply get old c = if get then reply_old old c else ok c

  -- The write, after the checks.
  unfoldable pub set_write : SetOptions → Option Bytes → Context C → Context C
  set_write o old c =
      let key = arg c 1 in
      let written = apply_expire key o.opts (overwrite_value key (make_string (arg c 2)) c) in
      let told = notify_keyspace_event k_string (codes "set") key (mark_dirty 1 written) in
      set_reply o.get old
        (if o.opts.set then notify_keyspace_event k_generic (codes "expire") key told else told)

  -- NX and XX: the reply of an aborted write is the old value or nothing.
  unfoldable pub set_checked : SetOptions → Bool → Option Bytes → Context C → Context C
  set_checked o there old c =
      if o.nx && there || o.xx && not there
      then (if o.get then reply_old old c else null_bulk c)
      else set_write o old c

  unfoldable pub set_existing : SetOptions → Option (Value C) → Context C → Context C
  set_existing o none c =
      set_checked o false none (if o.get then notify_key_miss (arg c 1) c else c)
  set_existing o (some v) c =
      if o.get && not (is_string v)
      then wrong_type c
      else set_checked o true (if o.get then some (string_value v) else none) c

  unfoldable pub set_parsed : Parsed SetOptions → Context C → Context C
  set_parsed (failed f) c = report (codes "set") f c
  set_parsed (parsed o) c = let (v, d) = lookup_write (arg c 1) c in set_existing o v d

  unfoldable pub set : Context C → Context C
  set c = set_parsed (set_options c.now_ms (drop 3 c.argv) plain_set) c

  unfoldable pub get_found : Option (Value C) → Context C → Context C
  get_found none c =
      null_bulk (notify_key_miss (arg c 1) (record c { keyspace_misses = suc c.keyspace_misses }))
  get_found (some v) c =
      if is_string v
      then bulk (string_value v) (record c { keyspace_hits = suc c.keyspace_hits })
      else wrong_type c

  unfoldable pub get : Context C → Context C
  get c = let (v, d) = lookup_read (arg c 1) c in get_found v d

  unfoldable pub getset_write : Context C → Context C
  getset_write c =
      notify_keyspace_event k_string (codes "set") (arg c 1)
        (mark_dirty 1 (set_key (arg c 1) (make_string (arg c 2)) c))

  unfoldable pub getset_found : Option (Value C) → Context C → Context C
  getset_found none c = getset_write (null_bulk (notify_key_miss (arg c 1) c))
  getset_found (some v) c =
      if is_string v then getset_write (bulk (string_value v) c) else wrong_type c

  unfoldable pub getset : Context C → Context C
  getset c = let (v, d) = lookup_write (arg c 1) c in getset_found v d

  unfoldable pub getdel_found : Option (Value C) → Context C → Context C
  getdel_found none c = null_bulk (notify_key_miss (arg c 1) c)
  getdel_found (some v) c =
      if is_string v
      then notify_keyspace_event k_generic (codes "del") (arg c 1)
          (mark_dirty 1 (erase (arg c 1) (bulk (string_value v) c)))
      else wrong_type c

  unfoldable pub getdel : Context C → Context C
  getdel c = let (v, d) = lookup_write (arg c 1) c in getdel_found v d

  -- GETEX: a deadline that is over deletes the key; without an option nothing changes.
  unfoldable pub getex_expire : ℤ → Context C → Context C
  getex_expire at_ms c =
      let key = arg c 1 in
      if leb_ℤ at_ms c.now_ms
      then notify_keyspace_event k_generic (codes "del") key (mark_dirty 1 (erase key c))
      else notify_keyspace_event k_generic (codes "expire") key
          (mark_dirty 1 (set_expire_at key at_ms c))

  unfoldable pub getex_persist : Bool × Context C → Context C
  getex_persist (true, c) =
      notify_keyspace_event k_generic (codes "persist") (arg c 1) (mark_dirty 1 c)
  getex_persist (false, c) = c

  unfoldable pub getex_write : ExpireOptions → Context C → Context C
  getex_write o c =
      if o.set
      then getex_expire o.at_ms c
      else if o.persist
      then getex_persist (persist (arg c 1) c)
      else c

  unfoldable pub getex_found : ExpireOptions → Option (Value C) → Context C → Context C
  getex_found o none c = null_bulk (notify_key_miss (arg c 1) c)
  getex_found o (some v) c =
      if is_string v then getex_write o (bulk (string_value v) c) else wrong_type c

  unfoldable pub getex_parsed : Parsed ExpireOptions → Context C → Context C
  getex_parsed (failed f) c = report (codes "getex") f c
  getex_parsed (parsed o) c = let (v, d) = lookup_read (arg c 1) c in getex_found o v d

  unfoldable pub getex : Context C → Context C
  getex c = getex_parsed (getex_options c.now_ms (drop 2 c.argv) no_options) c

  unfoldable pub setnx_found : Option (Value C) → Context C → Context C
  setnx_found (some v) c = integer (pos 0) c
  setnx_found none c = integer (pos 1) (getset_write c)

  unfoldable pub setnx : Context C → Context C
  setnx c = let (v, d) = lookup_write (arg c 1) c in setnx_found v d

  -- `setexGeneric`; the sum with the clock wraps here, too.
  unfoldable pub setex_write : ℤ → ℕ → Context C → Context C
  setex_write ttl unit_multiplier c =
      let key = arg c 1 in
      let at_ms = wrap_i64 (plus_ℤ c.now_ms (times_ℤ ttl unit_multiplier)) in
      ok (
        notify_keyspace_event k_generic (codes "expire") key (
          notify_keyspace_event k_string (codes "set") key
            (mark_dirty 1 (set_expire_at key at_ms (set_key key (make_string (arg c 3)) c)))))

  unfoldable pub setex_parsed : Bytes → ℕ → Option ℤ → Context C → Context C
  setex_parsed name unit_multiplier none c = not_an_integer c
  setex_parsed name unit_multiplier (some ttl) c =
      if leb_ℤ ttl (pos 0) || ltb ((2 ^ 63 - 1) / unit_multiplier) (pos_part ttl)
      then report name Failure.invalid_expire c
      else setex_write ttl unit_multiplier c

  unfoldable pub setex_generic : ℕ → Bytes → Context C → Context C
  setex_generic unit_multiplier name c =
      setex_parsed name unit_multiplier (string_to_int64 (arg c 2)) c

  unfoldable pub setex : Context C → Context C
  setex c = setex_generic 1000 (codes "setex") c

  unfoldable pub psetex : Context C → Context C
  psetex c = setex_generic 1 (codes "psetex") c
