-- ===== src/Server/Transactions/Exec.antt =====
-- What a transaction ends with, and the invariant of the watches in every reachable state.
use mnemos.Prelude.{
  ℕ, suc, ◌≡◌, refl, ap, ◌∙◌, Bool, true, false, some, List, [], ◌∷◌, length, ◌==◌, arith,
}
use mnemos.Prelude.Bytes.{Bytes}
use mnemos.Server.PubSub.Maps.{listens}
use mnemos.Server.Transactions.{
  Client, reset_multi_state, watching, signal_client, Reply, null_array, array_header,
  exec_without_multi, exec_abort, Server, Handler, exec_when, unwatch_all_keys, discard_transaction,
  signal_modified_key, run_queue, count_of, exec,
}
use mnemos.Server.Transactions.Watches.{IsInStep, unwatch_all_keys-IsInStep}
use mnemos.Server.Transactions.Signals.{signal_modified_key-signalled, signal_modified_key-IsInStep}

-- The state of a client outside a transaction, with nothing watched.
abbrev pub at_rest : Client → Client
at_rest c = record (reset_multi_state c) { watched_keys = [] }

module _ {C : Type 0} where
  -- The transaction of one client is over: it is at rest and in no set of the index, and every other
  -- client and every database is as it was.
  pub record Ends (s : Server C) (fd : ℕ) (c : Client) (t : Server C) : Type 0 where
    pub in_step : IsInStep t
    pub own : t.clients fd ≡ some (at_rest c)
    pub unwatched : (db : ℕ) (key : Bytes) → listens (t.watched_keys db) key fd ≡ false
    pub others : (f : ℕ) → (fd == f) ≡ false → t.clients f ≡ s.clients f
    pub databases : t.databases ≡ s.databases

  discard_transaction-Ends :
      (s : Server C) (fd : ℕ) (c : Client)
      → IsInStep s
      → s.clients fd ≡ some c
      → Ends s fd c (discard_transaction s fd c)
  unfolding discard_transaction unwatch_all_keys watching
  discard_transaction-Ends s fd c h e =
      let here : (fd == fd) ≡ true = ground arith in
      let step = unwatch_all_keys-IsInStep s fd c (reset_multi_state c) h e refl in
      record {
        in_step = step;
        own = rw here;
        unwatched = λ db key. step.same fd db key ∙ rw here;
        others = λ f ne. rw ne;
        databases = refl;
      }

  run_queue-length :
      (call : Handler C) (queue : List (List Bytes)) (fd : ℕ) (s : Server C)
      → length (run_queue call queue fd s).0 ≡ count_of queue
  unfolding run_queue
  run_queue-length call [] fd s = refl
  run_queue-length call (argv ∷ queue) fd s =
      ap suc (run_queue-length call queue fd (call s fd argv).1)

  -- What EXEC must do: without MULTI, nothing; with a command that could not be queued or a watched
  -- key that changed, end the transaction and run nothing; and else end the transaction and then run
  -- the queue from there, with one reply for each command behind the header that counts them.
  abbrev pub ExecutesWhen :
      Bool → Bool → Bool → Handler C → Server C → ℕ → Client → List Reply × Server C → Type 0
  ExecutesWhen false multi_error dirty_cas call s fd c r = r ≡ (exec_without_multi ∷ [], s)
  ExecutesWhen true true dirty_cas call s fd c r = (r.0 ≡ exec_abort ∷ []) × Ends s fd c r.1
  ExecutesWhen true false true call s fd c r = (r.0 ≡ null_array ∷ []) × Ends s fd c r.1
  ExecutesWhen true false false call s fd c r =
      (t : Server C) × (replies : List Reply) × Ends s fd c t
      × (r ≡ (array_header (length replies) ∷ replies, (run_queue call c.multi_queue fd t).1))
      × (replies ≡ (run_queue call c.multi_queue fd t).0)

  abbrev pub Executes : Handler C → Server C → ℕ → Client → List Reply × Server C → Type 0
  Executes call s fd c r = ExecutesWhen c.in_multi c.multi_error c.dirty_cas call s fd c r

  exec_when-ExecutesWhen :
      (inside bad dirty : Bool) (call : Handler C) (s : Server C) (fd : ℕ) (c : Client)
      → Ends s fd c (discard_transaction s fd c)
      → ExecutesWhen inside bad dirty call s fd c (exec_when inside bad dirty call s fd c)
  unfolding exec_when
  exec_when-ExecutesWhen false bad dirty call s fd c d = refl
  exec_when-ExecutesWhen true true dirty call s fd c d = (refl, d)
  exec_when-ExecutesWhen true false true call s fd c d = (refl, d)
  exec_when-ExecutesWhen true false false call s fd c d =
      let n = run_queue-length call c.multi_queue fd (discard_transaction s fd c) in
      (
        discard_transaction s fd c,
        (run_queue call c.multi_queue fd (discard_transaction s fd c)).0,
        d,
        rw n refl,
        refl,
      )

  -- EXEC runs the whole queue in order or nothing of it, and in every case but a missing MULTI the
  -- transaction is over before the first command runs: the client is at rest, in no set of the
  -- index, and no other client and no database has changed.
  pub exec-Executes :
      (call : Handler C) (s : Server C) (fd : ℕ) (c : Client)
      → IsInStep s
      → s.clients fd ≡ some c
      → Executes call s fd c (exec call s fd c)
  exec-Executes call s fd c h e =
      unfold exec in
      exec_when-ExecutesWhen c.in_multi c.multi_error c.dirty_cas call s fd c
        (discard_transaction-Ends s fd c h e)

  -- Where the index of the watches is in step: a client inside MULTI, none of whose commands was refused there, watches a key which somebody then
  -- changes, perhaps the client itself, and not by the end of its lifetime: EXEC runs nothing, answers
  -- with the null array and ends the transaction, whatever the queue holds and the handlers do.
  pub exec-signal_modified_key :
      (call : Handler C) (s : Server C) (fd db : ℕ) (key : Bytes) (c : Client)
      → IsInStep s
      → s.clients fd ≡ some c
      → c.in_multi ≡ true
      → c.multi_error ≡ false
      → watching c.watched_keys db key ≡ true
      → (d : Client) × ((signal_modified_key s db key false).clients fd ≡ some d)
        × ((exec call (signal_modified_key s db key false) fd d).0 ≡ null_array ∷ [])
        × Ends
            (signal_modified_key s db key false)
            fd
            d
            (exec call (signal_modified_key s db key false) fd d).1
  unfolding exec
  exec-signal_modified_key call s fd db key c h e inside good watched =
      let (clients, _, _) = signal_modified_key-signalled s db key false h in
      let d : Client = record c { dirty_cas = true } in
      let there : (signal_modified_key s db key false).clients fd ≡ some d =
        clients fd ∙ rw (e, watched) (unfold signal_client in refl) in
      let ends =
        discard_transaction-Ends (signal_modified_key s db key false) fd d
          (signal_modified_key-IsInStep s db key false h) there in
      (
        d,
        there,
        null_reply c.in_multi c.multi_error inside good d,
        ended c.in_multi c.multi_error inside good d ends,
      )
    where
      t : Server C
      t = signal_modified_key s db key false

      null_reply :
          (i b : Bool)
          → i ≡ true
          → b ≡ false
          → (d : Client) → (exec_when i b true call t fd d).0 ≡ null_array ∷ []
      null_reply i b p q d = unfold exec_when in rw (p, q)

      ended :
          (i b : Bool)
          → i ≡ true
          → b ≡ false
          → (d : Client) → Ends t fd d (discard_transaction t fd d)
          → Ends t fd d (exec_when i b true call t fd d).1
      ended i b p q d h = unfold exec_when in rw (p, q) h
