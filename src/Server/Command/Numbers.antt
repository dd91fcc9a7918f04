-- ===== src/Server/Command/Numbers.antt =====
-- src/server/commands/string_commands.cpp: INCR, DECR, INCRBY, DECRBY.
use mnemos.Prelude.{◌+◌, Bool, ◌&&◌, ◌||◌, Option, none, some, if◌then◌else◌}
use mnemos.Prelude.Bytes.{codes}
use mnemos.Prelude.Int.{ℤ, pos, negsuc, neg_of, ltb_ℤ, plus_ℤ, eqb_ℤ}
use mnemos.Core.Encoding.{string_to_int64}
use mnemos.Core.Object.{Value, as_int, make_int}
use mnemos.Server.Command.{
  Context, arg, is_string, mark_dirty, notify_keyspace_event, k_string, error, integer, wrong_type,
  not_an_integer, lookup_write, overwrite_value,
}

abbrev pub int64_max : ℤ
int64_max = pos 9_223_372_036_854_775_807

abbrev pub int64_min : ℤ
int64_min = negsuc 9_223_372_036_854_775_807

abbrev pub negate : ℤ → ℤ
negate (pos n) = neg_of n
negate (negsuc n) = pos (n + 1)

-- The test before the addition. Its differences stay in range where they are evaluated.
unfoldable pub would_overflow : ℤ → ℤ → Bool
would_overflow current delta =
    ltb_ℤ (pos 0) delta && ltb_ℤ (plus_ℤ int64_max (negate delta)) current
    || ltb_ℤ delta (pos 0) && ltb_ℤ current (plus_ℤ int64_min (negate delta))

module _ {C : Type 0} where
  unfoldable pub incr_by : ℤ → ℤ → Context C → Context C
  incr_by delta current c =
      let key = arg c 1 in
      let result = plus_ℤ current delta in
      if would_overflow current delta
      then error (codes "ERR increment or decrement would overflow") c
      else integer result (
          notify_keyspace_event k_string (codes "incrby") key
            (mark_dirty 1 (overwrite_value key (make_int result) c)))

  unfoldable pub incr_current : ℤ → Option ℤ → Context C → Context C
  incr_current delta none c = not_an_integer c
  incr_current delta (some current) c = incr_by delta current c

  unfoldable pub incr_found : ℤ → Option (Value C) → Context C → Context C
  incr_found delta none c = incr_by delta (pos 0) c
  incr_found delta (some v) c =
      if is_string v then incr_current delta (as_int v) c else wrong_type c

  unfoldable pub incr_decr_by : ℤ → Context C → Context C
  incr_decr_by delta c = let (v, d) = lookup_write (arg c 1) c in incr_found delta v d

  unfoldable pub incr : Context C → Context C
  incr c = incr_decr_by (pos 1) c

  unfoldable pub decr : Context C → Context C
  decr c = incr_decr_by (negsuc 0) c

  unfoldable pub incrby_parsed : Option ℤ → Context C → Context C
  incrby_parsed none c = not_an_integer c
  incrby_parsed (some delta) c = incr_decr_by delta c

  unfoldable pub incrby : Context C → Context C
  incrby c = incrby_parsed (string_to_int64 (arg c 2)) c

  unfoldable pub decrby_parsed : Option ℤ → Context C → Context C
  decrby_parsed none c = not_an_integer c
  decrby_parsed (some delta) c =
      if eqb_ℤ delta int64_min
      then error (codes "ERR decrement would overflow") c
      else incr_decr_by (negate delta) c

  unfoldable pub decrby : Context C → Context C
  decrby c = decrby_parsed (string_to_int64 (arg c 2)) c
