-- ===== src/Server/Transactions.antt =====
-- WATCH and the transactions: src/server/commands/transaction_commands.cpp and what it calls of
-- src/server/server.cpp. The map of the clients and the vector of the databases are functions; an
-- operation on a client names it by its file descriptor.
pub mod Sessions
pub mod Watches
pub mod Signals
pub mod Exec
pub mod Reachable
use mnemos.Prelude.{
  ℕ, zero, suc, ◌+◌, ◌≡◌, Bool, true, false, ◌&&◌, ◌||◌, not, Option, none, some, List, [], ◌∷◌,
  ◌++◌, ◌==◌, if◌then◌else◌,
}
use mnemos.Prelude.Bytes.{Bytes, eqb}
use mnemos.Prelude.Int.{ℤ, pos, leb_ℤ}
use mnemos.Server.Db.{Database, expire_at_ms}
use mnemos.Server.PubSub.{ChannelMap, add_to, remove_from, entry}

pub record WatchedKey : Type 0 where
  pub db : ℕ
  pub key : Bytes
  pub expired : Bool

pub record Client : Type 0 where
  pub db_index : ℕ
  pub in_multi : Bool
  pub multi_error : Bool
  pub dirty_cas : Bool
  pub multi_queue : List (List Bytes)
  pub watched_keys : List WatchedKey

-- `resetMultiState`
abbrev pub reset_multi_state : Client → Client
reset_multi_state c = record c {
  in_multi = false;
  multi_error = false;
  dirty_cas = false;
  multi_queue = [];
}

-- `watched.db == db_index && watched.key == key`
abbrev pub is_watch : ℕ → Bytes → WatchedKey → Bool
is_watch db key w = (w.db == db) && eqb w.key key

-- The search of `watchKey`.
unfoldable pub watching : List WatchedKey → ℕ → Bytes → Bool
watching [] db key = false
watching (w ∷ ws) db key = is_watch db key w || watching ws db key

-- The loop of `signalModifiedKey` over the watches of one client, with `seen_expired`.
unfoldable pub forgive : List WatchedKey → ℕ → Bytes → Bool × List WatchedKey
forgive [] db key = (false, [])
forgive (w ∷ ws) db key =
    let (seen, rest) = forgive ws db key in
    if is_watch db key w && w.expired
    then (true, record w { expired = false } ∷ rest)
    else (seen, w ∷ rest)

-- A client whose watched key changed.
unfoldable pub signal_client : ℕ → Bytes → Bool → Client → Client
unfolding forgive
signal_client db key false c = record c { dirty_cas = true }
signal_client db key true c =
    let (seen, ws) = forgive c.watched_keys db key in
    if seen
    then record c { watched_keys = ws }
    else record c { watched_keys = ws; dirty_cas = true }

-- A function with another value at one place.
abbrev pub put : {A : Type 0} → (ℕ → A) → ℕ → A → ℕ → A
put f i a j = if i == j then a else f j

-- The loop of `unwatchAllKeys` over the index.
unfoldable pub unwatch_index : List WatchedKey → ℕ → (ℕ → ChannelMap) → ℕ → ChannelMap
unwatch_index [] fd m = m
unwatch_index (w ∷ ws) fd m = unwatch_index ws fd (put m w.db (remove_from (m w.db) w.key fd).1)

abbrev pub count_of : List (List Bytes) → ℕ
count_of [] = 0
count_of (argv ∷ queue) = suc (count_of queue)

pub data Reply : Type 0 where
  ok null_array : Reply
  nested_multi discard_without_multi exec_without_multi exec_abort watch_inside_multi : Reply
  not_an_integer db_out_of_range reset_done : Reply
  array_header : ℕ → Reply
  command_reply : Bytes → Reply

pub record Server (C : Type 0) : Type 0 where
  pub clients : ℕ → Option Client
  pub databases : ℕ → Database C
  pub watched_keys : ℕ → ChannelMap
  pub now_ms : ℤ

-- `callCommand` with the handler of a command: the bytes of its reply and the new server.
abbrev pub Handler : Type 0 → Type 0
Handler C = Server C → ℕ → List Bytes → Bytes × Server C

module _ {C : Type 0} where
  with_found : Option Client → Server C → ℕ → (Client → Client) → Server C
  with_found none s fd f = s
  with_found (some c) s fd f = record s { clients = put s.clients fd (some (f c)) }

  -- A change of one client, if it is there.
  unfoldable pub with_client : Server C → ℕ → (Client → Client) → Server C
  unfolding with_found
  with_client s fd f = with_found (s.clients fd) s fd f

  -- `watchKey` for a client; `new_watch` is its second part.
  unfoldable pub new_watch : Server C → ℕ → Client → Bytes → Server C
  new_watch s fd c key =
      let db = c.db_index in
      let (at_ms, d) = expire_at_ms (s.databases db) key in
      let w : WatchedKey = record {
        db = db;
        key = key;
        expired = leb_ℤ (pos 0) at_ms && leb_ℤ at_ms s.now_ms;
      } in
      record s {
        databases = put s.databases db d;
        clients = put s.clients fd (some (record c { watched_keys = c.watched_keys ++ w ∷ [] }));
        watched_keys = put s.watched_keys db (add_to (s.watched_keys db) key fd).1;
      }

  unfoldable pub watch_key : Server C → ℕ → Client → Bytes → Server C
  unfolding watching new_watch
  watch_key s fd c key = if watching c.watched_keys c.db_index key then s else new_watch s fd c key

  unfoldable pub unwatch_all_keys : Server C → ℕ → Client → Server C
  unfolding unwatch_index
  unwatch_all_keys s fd c = record s {
    clients = put s.clients fd (some (record c { watched_keys = [] }));
    watched_keys = unwatch_index c.watched_keys fd s.watched_keys;
  }

  unfoldable pub discard_transaction : Server C → ℕ → Client → Server C
  unfolding unwatch_all_keys
  discard_transaction s fd c = unwatch_all_keys s fd (reset_multi_state c)

  -- The loop of `signalModifiedKey` over the watchers.
  unfoldable pub signal_all : List ℕ → ℕ → Bytes → Bool → Server C → Server C
  unfolding with_client signal_client
  signal_all [] db key from_expiry s = s
  signal_all (fd ∷ fds) db key from_expiry s =
      signal_all fds db key from_expiry (with_client s fd (signal_client db key from_expiry))

  signal_found : Option (List ℕ) → ℕ → Bytes → Bool → Server C → Server C
  unfolding signal_all
  signal_found none db key from_expiry s = s
  signal_found (some fds) db key from_expiry s = signal_all fds db key from_expiry s

  unfoldable pub signal_modified_key : Server C → ℕ → Bytes → Bool → Server C
  unfolding signal_found entry
  signal_modified_key s db key from_expiry =
      signal_found (entry (s.watched_keys db) key) db key from_expiry s

  unfoldable pub multi : Server C → ℕ → Client → List Reply × Server C
  multi s fd c =
      if c.in_multi
      then (nested_multi ∷ [], s)
      else (ok ∷ [], record s { clients = put s.clients fd (some (record c { in_multi = true })) })

  unfoldable pub discard : Server C → ℕ → Client → List Reply × Server C
  unfolding discard_transaction
  discard s fd c =
      if c.in_multi then (ok ∷ [], discard_transaction s fd c) else (discard_without_multi ∷ [], s)

  unfoldable pub unwatch : Server C → ℕ → Client → List Reply × Server C
  unfolding unwatch_all_keys
  unwatch s fd c = (ok ∷ [], unwatch_all_keys s fd (record c { dirty_cas = false }))

  -- The arguments of WATCH, one after the other; the client is looked up again for each.
  unfoldable pub watch_keys : List Bytes → ℕ → Server C → Server C
  unfolding watch_key
  watch_keys [] fd s = s
  watch_keys (key ∷ keys) fd s = elim (s.clients fd) [
    | none ↦ s
    | some c ↦ watch_keys keys fd (watch_key s fd c key)
  ]

  unfoldable pub watch : Server C → ℕ → Client → List Bytes → List Reply × Server C
  unfolding watch_keys
  watch s fd c keys =
      if c.in_multi then (watch_inside_multi ∷ [], s) else (ok ∷ [], watch_keys keys fd s)

  -- The queued commands, in their order.
  unfoldable pub run_queue : Handler C → List (List Bytes) → ℕ → Server C → List Reply × Server C
  run_queue call [] fd s = ([], s)
  run_queue call (argv ∷ queue) fd s =
      let (reply, s') = call s fd argv in
      let (replies, s'') = run_queue call queue fd s' in (command_reply reply ∷ replies, s'')

  -- `exec`, on the three flags that it tests.
  unfoldable pub exec_when :
      Bool → Bool → Bool → Handler C → Server C → ℕ → Client → List Reply × Server C
  unfolding discard_transaction run_queue
  exec_when false multi_error dirty_cas call s fd c = (exec_without_multi ∷ [], s)
  exec_when true true dirty_cas call s fd c = (exec_abort ∷ [], discard_transaction s fd c)
  exec_when true false true call s fd c = (null_array ∷ [], discard_transaction s fd c)
  exec_when true false false call s fd c =
      let (replies, s') = run_queue call c.multi_queue fd (discard_transaction s fd c) in
      (array_header (count_of c.multi_queue) ∷ replies, s')

  unfoldable pub exec : Handler C → Server C → ℕ → Client → List Reply × Server C
  unfolding exec_when
  exec call s fd c = exec_when c.in_multi c.multi_error c.dirty_cas call s fd c

  -- `queueCommand` and `flagMultiError`, as `dispatch` calls them inside a transaction.
  unfoldable pub queue_command : Server C → ℕ → Client → List Bytes → Server C
  queue_command s fd c argv = record s {
    clients = put s.clients fd (some (record c { multi_queue = c.multi_queue ++ argv ∷ [] }));
  }

  unfoldable pub flag_multi_error : Server C → ℕ → Client → Server C
  flag_multi_error s fd c = record s {
    clients = put s.clients fd (some (record c { multi_error = true }));
  }

  -- A connection that is accepted.
  unfoldable pub connect : Server C → ℕ → Server C
  connect s fd = record s {
    clients = put s.clients fd (
        some (record {
          db_index = 0;
          in_multi = false;
          multi_error = false;
          dirty_cas = false;
          multi_queue = [];
          watched_keys = [];
        }));
  }

  -- `closeClient` outside of the client's own command.
  unfoldable pub close_client : Server C → ℕ → Client → Server C
  unfolding unwatch_all_keys
  close_client s fd c =
      let t = unwatch_all_keys s fd c in record t { clients = put t.clients fd none }
