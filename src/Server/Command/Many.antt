-- ===== src/Server/Command/Many.antt =====
-- src/server/commands/string_commands.cpp: MSET, MSETNX, MGET.
use mnemos.Prelude.{
  ◌/◌, ◌%◌, Bool, true, false, Option, none, some, List, [], ◌∷◌, length, drop, ◌==◌, if◌then◌else◌,
}
use mnemos.Prelude.Bytes.{Bytes, codes}
use mnemos.Prelude.Int.{pos}
use mnemos.Core.Object.{Value, make_string, string_value}
use mnemos.Server.Command.{
  Context, is_string, mark_dirty, notify_keyspace_event, notify_key_miss, k_string, integer, bulk,
  null_bulk, array_header, wrong_args, ok, lookup_read, lookup_write, set_key,
}

module _ {C : Type 0} where
  -- The loop that writes, over the arguments behind the name.
  unfoldable pub set_pairs : List Bytes → Context C → Context C
  set_pairs (key ∷ value ∷ rest) c =
      set_pairs rest
        (notify_keyspace_event k_string (codes "set") key (set_key key (make_string value) c))
  set_pairs _ c = c

  unfoldable pub mset : Context C → Context C
  mset c =
      let pairs = drop 1 c.argv in
      if length pairs % 2 == 0
      then ok (mark_dirty (length pairs / 2) (set_pairs pairs c))
      else wrong_args (codes "mset") c

  -- The loop of MSETNX that looks for a key that is there; it stops at the first.
  unfoldable pub any_found :
      (Context C → Bool × Context C) → Option (Value C) × Context C → Bool × Context C
  any_found next (some v, c) = (true, c)
  any_found next (none, c) = next c

  unfoldable pub any_exists : List Bytes → Context C → Bool × Context C
  any_exists (key ∷ value ∷ rest) c = any_found (any_exists rest) (lookup_write key c)
  any_exists _ c = (false, c)

  unfoldable pub msetnx_checked : List Bytes → Bool × Context C → Context C
  msetnx_checked pairs (true, c) = integer (pos 0) c
  msetnx_checked pairs (false, c) =
      integer (pos 1) (mark_dirty (length pairs / 2) (set_pairs pairs c))

  unfoldable pub msetnx : Context C → Context C
  msetnx c =
      let pairs = drop 1 c.argv in
      if length pairs % 2 == 0
      then msetnx_checked pairs (any_exists pairs c)
      else wrong_args (codes "msetnx") c

  -- A key that is not there or no string is a null.
  unfoldable pub mget_found : Bytes → Option (Value C) × Context C → Context C
  mget_found key (none, c) = null_bulk (notify_key_miss key c)
  mget_found key (some v, c) = if is_string v then bulk (string_value v) c else null_bulk c

  unfoldable pub mget_loop : List Bytes → Context C → Context C
  mget_loop [] c = c
  mget_loop (key ∷ keys) c = mget_loop keys (mget_found key (lookup_read key c))

  unfoldable pub mget : Context C → Context C
  mget c = let keys = drop 1 c.argv in mget_loop keys (array_header (pos (length keys)) c)
