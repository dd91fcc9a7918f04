-- ===== src/Server/Transactions/Sessions.antt =====
-- SELECT and RESET of src/server/commands/connection.cpp, on the state that the transactions have. The
-- part of RESET on subscriptions, the protocol, the name and the authentication is not there.
use mnemos.Prelude.{ℕ, Option, none, some, List, [], ◌∷◌, ltb, if◌then◌else◌}
use mnemos.Prelude.Bytes.{Bytes}
use mnemos.Prelude.Int.{ℤ, pos, negsuc}
use mnemos.Core.Encoding.{string_to_int64}
use mnemos.Server.Transactions.{
  Client, put, Reply, ok, not_an_integer, db_out_of_range, reset_done, Server, with_client,
  discard_transaction,
}

module _ {C : Type 0} where
  -- The client moves to another database; what it watches stays where it is.
  unfoldable pub set_db_index : Server C → ℕ → Client → ℕ → Server C
  set_db_index s fd c n = record s { clients = put s.clients fd (some (record c { db_index = n })) }

  unfoldable pub select_parsed : ℕ → Server C → ℕ → Client → Option ℤ → List Reply × Server C
  select_parsed count s fd c none = (not_an_integer ∷ [], s)
  select_parsed count s fd c (some (negsuc n)) = (db_out_of_range ∷ [], s)
  select_parsed count s fd c (some (pos n)) =
      if ltb n count then (ok ∷ [], set_db_index s fd c n) else (db_out_of_range ∷ [], s)

  -- `count` is `databaseCount`.
  unfoldable pub select : ℕ → Server C → ℕ → Client → Bytes → List Reply × Server C
  select count s fd c index = select_parsed count s fd c (string_to_int64 index)

  unfoldable pub reset : Server C → ℕ → Client → List Reply × Server C
  reset s fd c = (
    reset_done ∷ [],
    with_client (discard_transaction s fd c) fd (λ d. record d { db_index = 0 }),
  )
