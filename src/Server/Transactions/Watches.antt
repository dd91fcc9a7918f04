-- ===== src/Server/Transactions/Watches.antt =====
-- The watches of the clients and the index of the server: the two sides agree.
use mnemos.Prelude.{
  ℕ, ◌≡◌, refl, ◌∙◌, Bool, true, false, ◌&&◌, ◌||◌, not, Option, none, some, List, [], ◌∷◌, ◌++◌,
  ◌==◌, arith, Bool-cases, inl, inr,
}
use mnemos.Prelude.Bytes.{Bytes, eqb}
use mnemos.Server.PubSub.{ChannelMap, remove_from}
use mnemos.Server.PubSub.Maps.{
  IsChannelMap, listens, add_to-IsChannelMap, listens-add_to, remove_from-IsChannelMap,
  listens-remove_from,
}
use mnemos.Server.Transactions.{
  WatchedKey, Client, is_watch, watching, put, Server, new_watch, watch_key, unwatch_index,
  unwatch_all_keys,
}

abbrev pub client_watches : Option Client → ℕ → Bytes → Bool
client_watches none db key = false
client_watches (some c) db key = watching c.watched_keys db key

watching_append :
    (ws : List WatchedKey) (w : WatchedKey) (db : ℕ) (key : Bytes)
    → watching (ws ++ w ∷ []) db key ≡ is_watch db key w || watching ws db key
unfolding watching
watching_append [] w db key = refl
watching_append (v ∷ ws) w db key = ground (arith, watching_append ws w db key)

unwatch_index-listens :
    (ws : List WatchedKey) (fd : ℕ) (m : ℕ → ChannelMap)
    → ((db : ℕ) → IsChannelMap (m db))
    → ((db : ℕ) → IsChannelMap (unwatch_index ws fd m db))
      × ((db : ℕ) (key : Bytes) (f : ℕ)
          → listens (unwatch_index ws fd m db) key f
            ≡ not ((fd == f) && watching ws db key) && listens (m db) key f)
unfolding unwatch_index watching
unwatch_index-listens [] fd m h = (h, λ db key f. ground arith)
unwatch_index-listens (w ∷ ws) fd m h =
    let n : ℕ → ChannelMap = put m w.db (remove_from (m w.db) w.key fd).1 in
    let good : (db : ℕ) → IsChannelMap (n db) = λ db. elim (Bool-cases (w.db == db)) [
      | inl same ↦ rw same (remove_from-IsChannelMap (m w.db) w.key fd (h w.db))
      | inr other ↦ rw other (h db)
    ] in
    let (all, reads) = unwatch_index-listens ws fd n good in
    (
      all,
      λ db key f. reads db key f ∙ elim (Bool-cases (w.db == db)) [
        | inl same ↦
            let e : w.db ≡ db = ground (arith, same) in
            rw (same, listens-remove_from (m w.db) w.key key fd f (h w.db), e)
              (shuffle (fd == f) (watching ws db key) (eqb w.key key) (listens (m db) key f))
        | inr other ↦ rw other
      ],
    )
  where
    shuffle : (a b e l : Bool) → not (a && b) && (not (e && a) && l) ≡ not (a && (e || b)) && l
    shuffle true true true l = refl
    shuffle true true false l = refl
    shuffle true false true l = refl
    shuffle true false false l = refl
    shuffle false b true l = refl
    shuffle false b false l = refl

module _ {C : Type 0} where
  -- A client is in the set of a key exactly if it watches the key, in every database; the index is
  -- well formed, so no key without a watcher stays in it.
  pub record IsInStep (s : Server C) : Type 0 where
    pub maps : (db : ℕ) → IsChannelMap (s.watched_keys db)
    pub same :
        (fd db : ℕ) (key : Bytes)
        → listens (s.watched_keys db) key fd ≡ client_watches (s.clients fd) db key

  new_watch-IsInStep :
      (s : Server C) (fd : ℕ) (c : Client) (key : Bytes)
      → IsInStep s
      → s.clients fd ≡ some c
      → IsInStep (new_watch s fd c key)
  unfolding new_watch
  new_watch-IsInStep s fd c key h e = record {
    maps = λ db. elim (Bool-cases (c.db_index == db)) [
      | inl this ↦
          rw this (add_to-IsChannelMap (s.watched_keys c.db_index) key fd (h.maps c.db_index))
      | inr other ↦ rw other (h.maps db)
    ];
    same = λ f db q. elim (Bool-cases (c.db_index == db)) [
      | inl this ↦
          let d : c.db_index ≡ db = ground (arith, this) in
          rw (this, listens-add_to (s.watched_keys c.db_index) key q fd f, d, h.same f db q)
            (elim (Bool-cases (fd == f)) [
              | inl own ↦
                  let g : fd ≡ f = ground (arith, own) in
                  rw (own, ← g, e, watching_append)
                    (both_true (eqb key q) (watching c.watched_keys db q) (db == db) (ground arith))
              | inr apart ↦ rw apart (drop_pair (eqb key q) (client_watches (s.clients f) db q))
            ])
      | inr other ↦
          rw (other, h.same f db q)
            (elim (Bool-cases (fd == f)) [
              | inl own ↦
                  let g : fd ≡ f = ground (arith, own) in rw (own, ← g, e, watching_append, other)
              | inr apart ↦ rw apart
            ])
    ];
  }
    where
      both_true : (a w d : Bool) → d ≡ true → (a && true || w) ≡ (d && a || w)
      both_true true w d h = rw h
      both_true false w d h = rw h

      drop_pair : (a w : Bool) → (a && false || w) ≡ w
      drop_pair true w = refl
      drop_pair false w = refl

  pub watch_key-IsInStep :
      (s : Server C) (fd : ℕ) (c : Client) (key : Bytes)
      → IsInStep s
      → s.clients fd ≡ some c
      → IsInStep (watch_key s fd c key)
  watch_key-IsInStep s fd c key h e = elim (Bool-cases (watching c.watched_keys c.db_index key)) [
    | inl old ↦ unfold watch_key in rw old h
    | inr new ↦ unfold watch_key in rw new (new_watch-IsInStep s fd c key h e)
  ]

  pub unwatch_all_keys-IsInStep :
      (s : Server C) (fd : ℕ) (c d : Client)
      → IsInStep s
      → s.clients fd ≡ some c
      → d.watched_keys ≡ c.watched_keys
      → IsInStep (unwatch_all_keys s fd d)
  unfolding unwatch_all_keys watching
  unwatch_all_keys-IsInStep s fd c d h e same =
      let (all, reads) = unwatch_index-listens d.watched_keys fd s.watched_keys h.maps in
      record {
        maps = all;
        same = λ f db q. reads db q f ∙ elim (Bool-cases (fd == f)) [
          | inl own ↦
              let g : fd ≡ f = ground (arith, own) in
              rw (own, h.same f db q, ← g, e, same) (contradiction (watching c.watched_keys db q))
          | inr apart ↦ rw (apart, h.same f db q)
        ];
      }
    where
      contradiction : (b : Bool) → not (true && b) && b ≡ false
      contradiction true = refl
      contradiction false = refl
