-- ===== src/Server/Command.antt =====
-- src/server/command_table.h, command_table.cpp and notify.cpp: what a command handler works on. A
-- handler takes the context and returns what it has become. `notices` collects the calls of
-- `Server::notifyKeyspaceEvent` in their order, `dirty` what `markDirty` adds up, and `C` stands for
-- the collections of a value.
pub mod Options
pub mod Strings
pub mod Numbers
pub mod Many
pub mod Ranges
pub mod Bounds
pub mod Keys
pub mod Increment
pub mod Counters
pub mod Writing
pub mod Deadlines
pub mod Extend
pub mod Keyspace
pub mod Expiring
pub mod Renames
pub mod Lifetimes
pub mod Expirations
use mnemos.Prelude.{
  ℕ, suc, ◌+◌, Bool, true, false, ◌&&◌, Option, none, some, List, [], ◌∷◌, ◌++◌, get_or, length,
  ◌==◌,
}
use mnemos.Prelude.Bytes.{Bytes, codes}
use mnemos.Prelude.Int.{ℤ}
use mnemos.Core.Dict
use mnemos.Core.Encoding.{ObjType}
use mnemos.Core.Glob.{fold}
use mnemos.Core.Object.{Value}
use mnemos.Net.Resp.Reply
use mnemos.Server.Db
use mnemos.Server.Db.{Database}

-- A call of `notifyKeyspaceEvent`, with the bit of the class.
pub record Notice : Type 0 where
  pub event_class : ℕ
  pub event : Bytes
  pub key : Bytes

abbrev pub k_generic : ℕ
k_generic = 4

abbrev pub k_string : ℕ
k_string = 8

abbrev pub k_key_miss : ℕ
k_key_miss = 8192

-- `CommandContext`, with the parts of the server that the handlers change.
pub record Context (C : Type 0) : Type 0 where
  pub db : Database C
  pub argv : List Bytes
  pub now_ms : ℤ
  pub protover : ℕ
  pub reply : Bytes
  pub dirty : ℕ
  pub notices : List Notice
  pub keyspace_hits : ℕ
  pub keyspace_misses : ℕ

-- `equalsIgnoreCase` of core/strings.h
unfoldable pub equals_ignore_case : Bytes → Bytes → Bool
equals_ignore_case [] [] = true
equals_ignore_case [] (b ∷ t) = false
equals_ignore_case (a ∷ s) [] = false
equals_ignore_case (a ∷ s) (b ∷ t) = fold true a == fold true b && equals_ignore_case s t

-- `Value::isString`
unfoldable pub is_string_type : ObjType → Bool
is_string_type ObjType.string = true
is_string_type _ = false

module _ {C : Type 0} where
  abbrev pub arg : Context C → ℕ → Bytes
  arg c i = get_or c.argv i []

  abbrev pub is_string : Value C → Bool
  is_string v = is_string_type v.type

  -- `markDirty`
  unfoldable pub mark_dirty : ℕ → Context C → Context C
  mark_dirty n c = record c { dirty = c.dirty + n }

  unfoldable pub notify_keyspace_event : ℕ → Bytes → Bytes → Context C → Context C
  notify_keyspace_event event_class event key c = record c {
    notices = c.notices ++ (record { event_class = event_class; event = event; key = key } ∷ []);
  }

  unfoldable pub notify_key_miss : Bytes → Context C → Context C
  unfolding notify_keyspace_event
  notify_key_miss key c = notify_keyspace_event k_key_miss (codes "keymiss") key c

  -- The reply buffer after a method of the writer.
  unfoldable pub error : Bytes → Context C → Context C
  error msg c = record c { reply = Reply.error c.reply msg }

  unfoldable pub integer : ℤ → Context C → Context C
  integer n c = record c { reply = Reply.integer c.reply n }

  unfoldable pub bulk : Bytes → Context C → Context C
  bulk s c = record c { reply = Reply.bulk c.reply s }

  unfoldable pub null_bulk : Context C → Context C
  null_bulk c = record c { reply = Reply.null_bulk c.protover c.reply }

  unfoldable pub array_header : ℤ → Context C → Context C
  array_header n c = record c { reply = Reply.array_header c.reply n }

  -- `namespace replies`
  unfoldable pub wrong_type : Context C → Context C
  unfolding error
  wrong_type = error (codes "WRONGTYPE Operation against a key holding the wrong kind of value")

  unfoldable pub syntax_error : Context C → Context C
  unfolding error
  syntax_error = error (codes "ERR syntax error")

  unfoldable pub not_an_integer : Context C → Context C
  unfolding error
  not_an_integer = error (codes "ERR value is not an integer or out of range")

  unfoldable pub wrong_args : Bytes → Context C → Context C
  unfolding error
  wrong_args command =
      error ((codes "ERR wrong number of arguments for '" ++ command) ++ codes "' command")

  unfoldable pub ok : Context C → Context C
  ok c = record c { reply = Reply.simple_string c.reply (codes "OK") }

  -- The calls of the database, in the context.
  unfoldable pub lookup_read : Bytes → Context C → Option (Value C) × Context C
  lookup_read key c = let (v, d) = Db.lookup_read c.db key c.now_ms in (v, record c { db = d })

  -- `lookupWrite` is `lookupRead`.
  unfoldable pub lookup_write : Bytes → Context C → Option (Value C) × Context C
  unfolding lookup_read
  lookup_write key c = lookup_read key c

  unfoldable pub set_key : Bytes → Value C → Context C → Context C
  set_key key v c = record c { db = Db.set_key c.db key v }

  unfoldable pub overwrite_value : Bytes → Value C → Context C → Context C
  overwrite_value key v c = record c { db = Db.overwrite_value c.db key v }

  unfoldable pub erase : Bytes → Context C → Context C
  erase key c = record c { db = (Db.erase c.db key).1 }

  unfoldable pub set_expire_at : Bytes → ℤ → Context C → Context C
  set_expire_at key at_ms c = record c { db = Db.set_expire_at c.db key at_ms }

  unfoldable pub persist : Bytes → Context C → Bool × Context C
  persist key c = let (had, d) = Db.persist c.db key in (had, record c { db = d })

  -- A change of the value that a lookup found, through the pointer.
  unfoldable pub store : Bytes → Value C → Context C → Context C
  store key v c = let d = c.db in record c { db = record d { dict = Dict.assign d.dict key v } }
