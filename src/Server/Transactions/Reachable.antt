-- ===== src/Server/Transactions/Reachable.antt =====
-- The states that a server reaches by connections, transactions, watches, changes of keys and of the
-- selected database, in any order and by any clients.
use mnemos.Prelude.{
  ℕ, ◌≡◌, refl, ap, sym, ◌∙◌, Bool, true, false, Option, none, some, ltb, List, [], ◌==◌, arith,
  Bool-cases, inl, inr,
}
use mnemos.Prelude.Bytes.{Bytes}
use mnemos.Prelude.Int.{ℤ, pos, negsuc}
use mnemos.Core.Encoding.{string_to_int64}
use mnemos.Server.Db.{Database}
use mnemos.Server.PubSub.Maps.{listens}
use mnemos.Server.Transactions.{
  Client, watching, put, Server, watch_key, unwatch_all_keys, signal_modified_key, multi, unwatch,
  discard_transaction, queue_command, flag_multi_error, connect, close_client, with_client,
  with_found,
}
use mnemos.Server.Transactions.Sessions.{set_db_index, select_parsed, select, reset}
use mnemos.Server.Transactions.Watches.{
  client_watches, IsInStep, watch_key-IsInStep, unwatch_all_keys-IsInStep,
}
use mnemos.Server.Transactions.Signals.{signal_modified_key-IsInStep}

module _ {C : Type 0} where
  -- One step, by the client `c` behind `fd` where there is one. EXEC is the discarding step and then
  -- the steps of its commands; `writes` is what a command or the clock does to the databases.
  pub data Step : Server C → Server C → Type 0 where
    connects : (s : Server C) (fd : ℕ) → s.clients fd ≡ none → Step s (connect s fd)
    closes :
        (s : Server C) (fd : ℕ) (c : Client) → s.clients fd ≡ some c → Step s (close_client s fd c)
    opens : (s : Server C) (fd : ℕ) (c : Client) → s.clients fd ≡ some c → Step s (multi s fd c).1
    queues :
        (s : Server C) (fd : ℕ) (c : Client) (argv : List Bytes)
        → s.clients fd ≡ some c
        → Step s (queue_command s fd c argv)
    flags :
        (s : Server C) (fd : ℕ) (c : Client)
        → s.clients fd ≡ some c
        → Step s (flag_multi_error s fd c)
    ends :
        (s : Server C) (fd : ℕ) (c : Client)
        → s.clients fd ≡ some c
        → Step s (discard_transaction s fd c)
    watches :
        (s : Server C) (fd : ℕ) (c : Client) (key : Bytes)
        → s.clients fd ≡ some c
        → Step s (watch_key s fd c key)
    unwatches :
        (s : Server C) (fd : ℕ) (c : Client) → s.clients fd ≡ some c → Step s (unwatch s fd c).1
    selects :
        (s : Server C) (fd : ℕ) (c : Client) (count : ℕ) (index : Bytes)
        → s.clients fd ≡ some c
        → Step s (select count s fd c index).1
    resets : (s : Server C) (fd : ℕ) (c : Client) → s.clients fd ≡ some c → Step s (reset s fd c).1
    writes :
        (s : Server C) (databases : ℕ → Database C) (now_ms : ℤ)
        → Step s (record s { databases = databases; now_ms = now_ms })
    changes :
        (s : Server C) (db : ℕ) (key : Bytes) (from_expiry : Bool)
        → Step s (signal_modified_key s db key from_expiry)

  pub data Steps : Server C → Server C → Type 0 where
    stays : (s : Server C) → Steps s s
    goes : (s t u : Server C) → Steps s t → Step t u → Steps s u

  put-IsInStep :
      (s : Server C) (fd : ℕ) (d : Client)
      → IsInStep s
      → ((db : ℕ) (key : Bytes)
          → watching d.watched_keys db key ≡ client_watches (s.clients fd) db key)
      → IsInStep (record s { clients = put s.clients fd (some d) })
  put-IsInStep s fd d h same = record {
    maps = h.maps;
    same = λ f db key. elim (Bool-cases (fd == f)) [
      | inl own ↦
          let g : fd ≡ f = ground (arith, own) in
          rw own (
            h.same f db key
            ∙ ap (λ x. client_watches (s.clients x) db key) (sym g)
            ∙ sym (same db key))
      | inr apart ↦ rw apart (h.same f db key)
    ];
  }

  close_client-IsInStep :
      (s : Server C) (fd : ℕ) (c : Client)
      → IsInStep s
      → s.clients fd ≡ some c
      → IsInStep (close_client s fd c)
  unfolding close_client unwatch_all_keys watching
  close_client-IsInStep s fd c h e =
      let t = unwatch_all_keys-IsInStep s fd c c h e refl in
      record {
        maps = t.maps;
        same = λ f db key.
            t.same f db key
            ∙ elim (Bool-cases (fd == f)) [ inl own ↦ rw own | inr apart ↦ rw apart ];
      }

  multi-IsInStep :
      (b : Bool) (s : Server C) (fd : ℕ) (c : Client)
      → IsInStep s
      → s.clients fd ≡ some c
      → c.in_multi ≡ b
      → IsInStep (multi s fd c).1
  multi-IsInStep true s fd c h e inside = unfold multi in rw inside h
  multi-IsInStep false s fd c h e outside =
      unfold multi in
      rw outside (put-IsInStep s fd (record c { in_multi = true }) h (λ db key. rw e))

  select_parsed-IsInStep :
      (count : ℕ) (s : Server C) (fd : ℕ) (c : Client) (n : Option ℤ)
      → IsInStep s
      → s.clients fd ≡ some c
      → IsInStep (select_parsed count s fd c n).1
  unfolding select_parsed set_db_index
  select_parsed-IsInStep count s fd c none h e = h
  select_parsed-IsInStep count s fd c (some (negsuc n)) h e = h
  select_parsed-IsInStep count s fd c (some (pos n)) h e = elim (Bool-cases (ltb n count)) [
    | inl inside ↦ rw inside (put-IsInStep s fd (record c { db_index = n }) h (λ db key. rw e))
    | inr outside ↦ rw outside h
  ]

  with_found-IsInStep :
      (s : Server C) (fd n : ℕ) (o : Option Client)
      → IsInStep s
      → s.clients fd ≡ o
      → IsInStep (with_found o s fd (λ d. record d { db_index = n }))
  unfolding with_found
  with_found-IsInStep s fd n none h e = h
  with_found-IsInStep s fd n (some c) h e =
      put-IsInStep s fd (record c { db_index = n }) h (λ db key. rw e)

  discard_transaction-IsInStep :
      (s : Server C) (fd : ℕ) (c : Client)
      → IsInStep s
      → s.clients fd ≡ some c
      → IsInStep (discard_transaction s fd c)
  unfolding discard_transaction
  discard_transaction-IsInStep s fd c h e = unwatch_all_keys-IsInStep s fd c _ h e refl

  reset-IsInStep :
      (s : Server C) (fd : ℕ) (c : Client)
      → IsInStep s
      → s.clients fd ≡ some c
      → IsInStep (reset s fd c).1
  unfolding reset with_client
  reset-IsInStep s fd c h e =
      let t = discard_transaction s fd c in
      with_found-IsInStep t fd 0 (t.clients fd) (discard_transaction-IsInStep s fd c h e) refl

  Step-IsInStep : (s t : Server C) → Step s t → IsInStep s → IsInStep t
  Step-IsInStep _ _ (connects s fd e) h =
      unfold connect watching in put-IsInStep s fd _ h (λ db key. rw e)
  Step-IsInStep _ _ (closes s fd c e) h = close_client-IsInStep s fd c h e
  Step-IsInStep _ _ (opens s fd c e) h = multi-IsInStep c.in_multi s fd c h e refl
  Step-IsInStep _ _ (queues s fd c argv e) h =
      unfold queue_command in put-IsInStep s fd _ h (λ db key. rw e)
  Step-IsInStep _ _ (flags s fd c e) h =
      unfold flag_multi_error in put-IsInStep s fd _ h (λ db key. rw e)
  Step-IsInStep _ _ (ends s fd c e) h = discard_transaction-IsInStep s fd c h e
  Step-IsInStep _ _ (watches s fd c key e) h = watch_key-IsInStep s fd c key h e
  Step-IsInStep _ _ (unwatches s fd c e) h =
      unfold unwatch in unwatch_all_keys-IsInStep s fd c _ h e refl
  Step-IsInStep _ _ (selects s fd c count index e) h =
      unfold select in select_parsed-IsInStep count s fd c (string_to_int64 index) h e
  Step-IsInStep _ _ (resets s fd c e) h = reset-IsInStep s fd c h e
  Step-IsInStep _ _ (writes s databases now_ms) h = record { maps = h.maps; same = h.same }
  Step-IsInStep _ _ (changes s db key x) h = signal_modified_key-IsInStep s db key x h

  -- In every state that a server reaches from one without clients and watches by connections, closes,
  -- SELECT, RESET, MULTI, queued and refused commands, the end of a transaction, WATCH, UNWATCH, any
  -- writes to the databases and any signals of changed keys, the index of the server and the lists of
  -- the clients say the same: a client is in the set of a key of a database exactly if it watches that
  -- key there, whichever database it has selected since.
  pub Steps-IsInStep :
      (s t : Server C)
      → ((fd : ℕ) → s.clients fd ≡ none)
      → ((db : ℕ) → s.watched_keys db ≡ [])
      → Steps s t
      → IsInStep t
  Steps-IsInStep s _ nobody nothing (stays _) = record {
    maps = λ db. rw (nothing db) tt;
    same = λ fd db key. rw (nothing db, nobody fd) (unfold listens in refl);
  }
  Steps-IsInStep s _ nobody nothing (goes _ t u before step) =
      Step-IsInStep t u step (Steps-IsInStep s t nobody nothing before)
