-- ===== src/Tests/Watching.antt =====
-- Runs of the watches and the transactions.
use mnemos.Prelude.{ℕ, ◌≡◌, refl, true, false, none, some, [], ◌∷◌}
use mnemos.Prelude.Bytes.{Bytes, eqb, codes}
use mnemos.Prelude.Int.{pos}
use mnemos.Core.Dict
use mnemos.Server.Db.{expire_at_ms}
use mnemos.Server.Transactions.{
  Client, null_array, Server, Handler, watching, watch_key, connect, multi, exec, unwatch,
  signal_modified_key,
}
use mnemos.Server.Transactions.Sessions.{select}
use mnemos.Server.Transactions.Watches.{IsInStep}
use mnemos.Server.Transactions.Exec.{Executes, Ends, exec-Executes, exec-signal_modified_key}
use mnemos.Server.Transactions.Reachable.{
  Steps, selects, unwatches, connects, watches, opens, stays, goes, Steps-IsInStep,
}

abbrev idle : Server ℕ
idle = record {
  clients = λ fd. none;
  databases =
      λ db. record { dict = Dict.new; expires = Dict.new; expiration_enabled = true; events = [] };
  watched_keys = λ db. [];
  now_ms = pos 1000;
}

abbrev cat : Bytes
cat = b'c' ∷ b'a' ∷ b't' ∷ []

abbrev newcomer : Client
newcomer = record {
  db_index = 0;
  in_multi = false;
  multi_error = false;
  dirty_cas = false;
  multi_queue = [];
  watched_keys = [];
}

abbrev watcher : Server ℕ
watcher = watch_key (connect idle 7) 7 newcomer cat

watcher_reached : Steps idle watcher
watcher_reached =
    goes idle (connect idle 7) watcher
      (goes idle idle (connect idle 7) (stays idle) (connects idle 7 refl))
      (watches (connect idle 7) 7 newcomer cat (unfold connect in refl))

watcher-IsInStep : IsInStep watcher
watcher-IsInStep = Steps-IsInStep idle watcher (λ fd. refl) (λ db. refl) watcher_reached

abbrev watching_client : Client
watching_client = record newcomer {
  watched_keys = record { db = 0; key = cat; expired = false } ∷ [];
}

watcher_has : watcher.clients 7 ≡ some watching_client
unfolding watch_key watching Dict.find Dict.new expire_at_ms connect
watcher_has = refl

-- The client goes to another database, and takes its watch back from there.
abbrev elsewhere : Server ℕ
elsewhere = (select 16 watcher 7 watching_client (codes "3")).1

abbrev elsewhere_client : Client
elsewhere_client = record watching_client { db_index = 3 }

elsewhere_has : elsewhere.clients 7 ≡ some elsewhere_client
unfolding select mnemos.Server.Transactions.Sessions.select_parsed
    mnemos.Core.Encoding.string_to_int64 mnemos.Server.Transactions.Sessions.set_db_index
elsewhere_has = refl

Steps-IsInStep_example : IsInStep (unwatch elsewhere 7 elsewhere_client).1
Steps-IsInStep_example =
    Steps-IsInStep idle (unwatch elsewhere 7 elsewhere_client).1 (λ fd. refl) (λ db. refl)
      (goes idle elsewhere (unwatch elsewhere 7 elsewhere_client).1
        (goes idle watcher elsewhere watcher_reached
          (selects watcher 7 watching_client 16 (codes "3") watcher_has))
        (unwatches elsewhere 7 elsewhere_client elsewhere_has))

-- The client watches a key and has opened a transaction.
abbrev inside : Server ℕ
inside = (multi watcher 7 watching_client).1

abbrev inside_client : Client
inside_client = record watching_client { in_multi = true }

inside_has : inside.clients 7 ≡ some inside_client
unfolding multi
inside_has = refl

inside-IsInStep : IsInStep inside
inside-IsInStep =
    Steps-IsInStep idle inside (λ fd. refl) (λ db. refl)
      (goes idle watcher inside watcher_reached (opens watcher 7 watching_client watcher_has))

abbrev echo : Handler ℕ
echo s fd argv = (cat, s)

exec-Executes_example : Executes echo inside 7 inside_client (exec echo inside 7 inside_client)
exec-Executes_example = exec-Executes echo inside 7 inside_client inside-IsInStep inside_has

cat_watched : watching inside_client.watched_keys 0 cat ≡ true
unfolding watching eqb
cat_watched = refl

exec-signal_modified_key_example :
    (d : Client) × ((signal_modified_key inside 0 cat false).clients 7 ≡ some d)
    × ((exec echo (signal_modified_key inside 0 cat false) 7 d).0 ≡ null_array ∷ [])
    × Ends
        (signal_modified_key inside 0 cat false)
        7
        d
        (exec echo (signal_modified_key inside 0 cat false) 7 d).1
exec-signal_modified_key_example =
    exec-signal_modified_key echo inside 7 0 cat inside_client inside-IsInStep inside_has refl refl
      cat_watched
