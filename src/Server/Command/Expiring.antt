-- ===== src/Server/Command/Expiring.antt =====
-- src/server/commands/keyspace_commands.cpp: EXPIRE and its kin, TTL, EXPIRETIME, PERSIST.
use mnemos.Prelude.{
  ℕ, zero, suc, ◌+◌, ◌-◌, ◌/◌, ◌^◌, Bool, true, false, not, ◌&&◌, ◌||◌, Option, none, some, List,
  [], ◌∷◌, ◌++◌, drop, ltb, if◌then◌else◌,
}
use mnemos.Prelude.Bytes.{Bytes, codes}
use mnemos.Prelude.Int.{ℤ, pos, negsuc, pos_part, neg_part, ltb_ℤ, leb_ℤ, plus_ℤ, times_ℤ}
use mnemos.Core.Encoding.{string_to_int64}
use mnemos.Core.Object.{Value}
use mnemos.Server.Db
use mnemos.Server.Command.Numbers.{negate}
use mnemos.Server.Command
use mnemos.Server.Command.{
  Context, arg, mark_dirty, notify_keyspace_event, notify_key_miss, k_generic, error, integer,
  not_an_integer, lookup_read, lookup_write, erase, set_expire_at, equals_ignore_case,
}

-- The flags of `expireGeneric`.
pub record Flags : Type 0 where
  pub nx : Bool
  pub xx : Bool
  pub gt : Bool
  pub lt : Bool

abbrev pub no_flags : Flags
no_flags = record { nx = false; xx = false; gt = false; lt = false }

-- One option; `none` is an unsupported one.
unfoldable pub put_flag : Bytes → Flags → Option Flags
put_flag t f =
    if equals_ignore_case t (codes "NX")
    then some (record f { nx = true })
    else if equals_ignore_case t (codes "XX")
    then some (record f { xx = true })
    else if equals_ignore_case t (codes "GT")
    then some (record f { gt = true })
    else if equals_ignore_case t (codes "LT")
    then some (record f { lt = true })
    else none

-- What the loop over the options ends with: the flags, or the option that is not supported.
pub data Options : Type 0 where
  unsupported : Bytes → Options
  flags : Flags → Options

unfoldable pub next_flags : Bytes → (Flags → Options) → Option Flags → Options
next_flags t next none = unsupported t
next_flags t next (some f) = next f

unfoldable pub read_flags : List Bytes → Flags → Options
read_flags [] f = flags f
read_flags (t ∷ args) f = next_flags t (read_flags args) (put_flag t f)

unfoldable pub are_compatible : Flags → Bool
are_compatible f = not (f.gt && f.lt || f.nx && (f.xx || f.gt || f.lt))

-- `max() / unit_multiplier` and `-(min() / unit_multiplier)`, for 1 and 1000.
abbrev pub quotient_max : Bool → ℕ
quotient_max true = 9_223_372_036_854_775
quotient_max false = 9_223_372_036_854_775_807

abbrev pub quotient_min : Bool → ℕ
quotient_min true = 9_223_372_036_854_775
quotient_min false = 9_223_372_036_854_775_808

abbrev pub unit_multiplier : Bool → ℕ
unit_multiplier true = 1000
unit_multiplier false = 1

-- `raw`, in seconds or not, to the deadline; `none` is an invalid expire time.
unfoldable pub when_of : Bool → Bool → ℤ → ℤ → Option ℤ
when_of seconds absolute raw now_ms =
    let when = times_ℤ raw (unit_multiplier seconds) in
    if ltb (quotient_max seconds) (pos_part raw) || ltb (quotient_min seconds) (neg_part raw)
    then none
    else if absolute
    then some when
    else if ltb_ℤ (plus_ℤ (pos (2 ^ 63 - 1)) (negate now_ms)) when
    then none
    else some (plus_ℤ when now_ms)

-- The four conditions that leave the key as it is.
unfoldable pub is_refused : Flags → ℤ → ℤ → Bool
is_refused f current when =
    let has_ttl = leb_ℤ (pos 0) current in
    f.nx && has_ttl
    || f.xx && not has_ttl
    || f.gt && (not has_ttl || leb_ℤ when current)
    || f.lt && (has_ttl && leb_ℤ current when)

-- What is left, in milliseconds or rounded to seconds; -1 and -2 are handed on.
unfoldable pub ttl_of : Bool → ℤ → ℤ
ttl_of in_milliseconds (negsuc n) = negsuc n
ttl_of in_milliseconds (pos ms) = pos (if in_milliseconds then ms else (ms + 500) / 1000)

unfoldable pub expire_time_of : Bool → ℤ → ℤ
expire_time_of in_milliseconds (negsuc n) = negsuc 0
expire_time_of in_milliseconds (pos when) = pos (if in_milliseconds then when else when / 1000)

module _ {C : Type 0} where
  -- The deadline is stored, or the key deleted where it is over.
  unfoldable pub expire_put : ℤ → Context C → Context C
  expire_put when c =
      if leb_ℤ when c.now_ms
      then integer (pos 1) (
          notify_keyspace_event k_generic (codes "del") (arg c 1)
            (mark_dirty 1 (erase (arg c 1) c)))
      else integer (pos 1) (
          notify_keyspace_event k_generic (codes "expire") (arg c 1)
            (mark_dirty 1 (set_expire_at (arg c 1) when c)))

  unfoldable pub expire_when : Flags → Bytes → Option ℤ → Context C → Context C
  expire_when f command none c =
      error ((codes "ERR invalid expire time in '" ++ command) ++ codes "' command") c
  expire_when f command (some when) c =
      let (current, d) = Db.expire_at_ms c.db (arg c 1) in
      if is_refused f current when
      then integer (pos 0) (record c { db = d })
      else expire_put when (record c { db = d })

  unfoldable pub expire_found :
      Flags → Bool → Bool → Bytes → ℤ → Option (Value C) × Context C → Context C
  expire_found f seconds absolute command raw (none, c) = integer (pos 0) c
  expire_found f seconds absolute command raw (some v, c) =
      expire_when f command (when_of seconds absolute raw c.now_ms) c

  unfoldable pub expire_options : Bool → Bool → Bytes → ℤ → Options → Context C → Context C
  expire_options seconds absolute command raw (unsupported t) c =
      error (codes "ERR Unsupported option " ++ t) c
  expire_options seconds absolute command raw (flags f) c =
      if are_compatible f
      then expire_found f seconds absolute command raw (lookup_write (arg c 1) c)
      else error (codes "ERR NX and XX, GT or LT options at the same time are not compatible") c

  unfoldable pub expire_parsed : Bool → Bool → Bytes → Option ℤ → Context C → Context C
  expire_parsed seconds absolute command none c = not_an_integer c
  expire_parsed seconds absolute command (some raw) c =
      expire_options seconds absolute command raw (read_flags (drop 3 c.argv) no_flags) c

  unfoldable pub expire_generic : Bool → Bool → Bytes → Context C → Context C
  expire_generic seconds absolute command c =
      expire_parsed seconds absolute command (string_to_int64 (arg c 2)) c

  unfoldable pub expire : Context C → Context C
  expire c = expire_generic true false (codes "expire") c

  unfoldable pub pexpire : Context C → Context C
  pexpire c = expire_generic false false (codes "pexpire") c

  unfoldable pub expireat : Context C → Context C
  expireat c = expire_generic true true (codes "expireat") c

  unfoldable pub pexpireat : Context C → Context C
  pexpireat c = expire_generic false true (codes "pexpireat") c

  unfoldable pub ttl_miss : ℤ → Context C → Context C
  ttl_miss (negsuc (suc zero)) c = notify_key_miss (arg c 1) c
  ttl_miss ms c = c

  unfoldable pub ttl_generic : Bool → Context C → Context C
  ttl_generic in_milliseconds c =
      let (ms, d) = Db.ttl_ms c.db (arg c 1) c.now_ms in
      integer (ttl_of in_milliseconds ms) (ttl_miss ms (record c { db = d }))

  unfoldable pub ttl : Context C → Context C
  ttl c = ttl_generic false c

  unfoldable pub pttl : Context C → Context C
  pttl c = ttl_generic true c

  unfoldable pub expire_time_found : Bool → Option (Value C) × Context C → Context C
  expire_time_found in_milliseconds (none, c) = integer (negsuc 1) (notify_key_miss (arg c 1) c)
  expire_time_found in_milliseconds (some v, c) =
      let (when, d) = Db.expire_at_ms c.db (arg c 1) in
      integer (expire_time_of in_milliseconds when) (record c { db = d })

  unfoldable pub expire_time_generic : Bool → Context C → Context C
  expire_time_generic in_milliseconds c =
      expire_time_found in_milliseconds (lookup_read (arg c 1) c)

  unfoldable pub expiretime : Context C → Context C
  expiretime c = expire_time_generic false c

  unfoldable pub pexpiretime : Context C → Context C
  pexpiretime c = expire_time_generic true c

  unfoldable pub persist_done : Bool × Context C → Context C
  persist_done (true, c) =
      integer (pos 1) (notify_keyspace_event k_generic (codes "persist") (arg c 1) (mark_dirty 1 c))
  persist_done (false, c) = integer (pos 0) c

  unfoldable pub persist_found : Option (Value C) × Context C → Context C
  persist_found (none, c) = integer (pos 0) c
  persist_found (some v, c) = persist_done (Command.persist (arg c 1) c)

  unfoldable pub persist : Context C → Context C
  persist c = persist_found (lookup_write (arg c 1) c)
