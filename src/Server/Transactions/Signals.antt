-- ===== src/Server/Transactions/Signals.antt =====
-- A change of a key reaches exactly its watchers.
use mnemos.Prelude.{
  ℕ, ◌≡◌, refl, ap, sym, ◌∙◌, Bool, true, false, ◌&&◌, ◌||◌, Option, none, some, List, [], ◌∷◌,
  ◌==◌, arith, if◌then◌else◌, Bool-cases, inl, inr,
}
use mnemos.Prelude.Bytes.{Bytes}
use mnemos.Server.PubSub.{entry}
use mnemos.Server.PubSub.Sets.{IsAscending, has_fd, has_fd_below}
use mnemos.Server.PubSub.Maps.{listens_absent, entry-some}
use mnemos.Server.Transactions.{
  WatchedKey, Client, is_watch, watching, forgive, signal_client, Server, with_found, with_client,
  signal_all, signal_found, signal_modified_key,
}
use mnemos.Server.Transactions.Watches.{client_watches, IsInStep}

forgive-watching :
    (ws : List WatchedKey) (db e : ℕ) (key q : Bytes)
    → watching (forgive ws db key).1 e q ≡ watching ws e q
unfolding watching forgive
forgive-watching [] db e key q = refl
forgive-watching (w ∷ ws) db e key q = elim (Bool-cases (is_watch db key w && w.expired)) [
  | inl matched ↦ rw matched (ap (λ t. is_watch e q w || t) (forgive-watching ws db e key q))
  | inr other ↦ rw other (ap (λ t. is_watch e q w || t) (forgive-watching ws db e key q))
]

signal_client-watching :
    (db e : ℕ) (key q : Bytes) (from_expiry : Bool) (c : Client)
    → watching (signal_client db key from_expiry c).watched_keys e q ≡ watching c.watched_keys e q
unfolding signal_client
signal_client-watching db e key q false c = refl
signal_client-watching db e key q true c = elim (Bool-cases (forgive c.watched_keys db key).0) [
  | inl seen ↦ rw seen (forgive-watching c.watched_keys db e key q)
  | inr unseen ↦ rw unseen (forgive-watching c.watched_keys db e key q)
]

-- A client as `signalModifiedKey` leaves it.
abbrev pub signalled : ℕ → Bytes → Bool → Option Client → Option Client
signalled db key from_expiry none = none
signalled db key from_expiry (some c) = some (signal_client db key from_expiry c)

abbrev pub signalled_if : Bool → ℕ → Bytes → Bool → Option Client → Option Client
signalled_if b db key from_expiry o = if b then signalled db key from_expiry o else o

client_watches-signalled :
    (b : Bool) (o : Option Client) (db e : ℕ) (key q : Bytes) (x : Bool)
    → client_watches (signalled_if b db key x o) e q ≡ client_watches o e q
client_watches-signalled true none db e key q x = refl
client_watches-signalled true (some c) db e key q x = signal_client-watching db e key q x c
client_watches-signalled false o db e key q x = refl

module _ {C : Type 0} where
  with_found-clients :
      (s : Server C) (fd f : ℕ) (db : ℕ) (key : Bytes) (x : Bool) (o : Option Client)
      → s.clients fd ≡ o
      → (with_found o s fd (signal_client db key x)).clients f
        ≡ signalled_if (fd == f) db key x (s.clients f)
  unfolding with_found
  with_found-clients s fd f db key x none e = elim (Bool-cases (fd == f)) [
    | inl own ↦ let g : fd ≡ f = ground (arith, own) in rw (own, ← g, e)
    | inr apart ↦ rw apart
  ]
  with_found-clients s fd f db key x (some c) e = elim (Bool-cases (fd == f)) [
    | inl own ↦ let g : fd ≡ f = ground (arith, own) in rw (own, ← g, e)
    | inr apart ↦ rw apart
  ]

  with_client-clients :
      (s : Server C) (fd f : ℕ) (db : ℕ) (key : Bytes) (x : Bool)
      → (with_client s fd (signal_client db key x)).clients f
        ≡ signalled_if (fd == f) db key x (s.clients f)
  with_client-clients s fd f db key x =
      unfold with_client in with_found-clients s fd f db key x (s.clients fd) refl

  with_found-rest :
      (o : Option Client) (s : Server C) (fd : ℕ) (g : Client → Client)
      → ((with_found o s fd g).watched_keys ≡ s.watched_keys)
        × ((with_found o s fd g).databases ≡ s.databases)
  unfolding with_found
  with_found-rest none s fd g = (refl, refl)
  with_found-rest (some c) s fd g = (refl, refl)

  signal_all-clients :
      (fds : List ℕ) (db : ℕ) (key : Bytes) (x : Bool) (s : Server C)
      → IsAscending fds
      → ((f : ℕ)
          → (signal_all fds db key x s).clients f
            ≡ signalled_if (has_fd fds f) db key x (s.clients f))
        × ((signal_all fds db key x s).watched_keys ≡ s.watched_keys)
        × ((signal_all fds db key x s).databases ≡ s.databases)
  unfolding signal_all has_fd with_client
  signal_all-clients [] db key x s h = (λ f. refl, refl, refl)
  signal_all-clients (fd ∷ fds) db key x s h =
      let t = with_client s fd (signal_client db key x) in
      let (reads, index, stores) = signal_all-clients fds db key x t h.1 in
      let (index0, stores0) = with_found-rest (s.clients fd) s fd (signal_client db key x) in
      (
        λ f. reads f ∙ elim (Bool-cases (fd == f)) [
          | inl own ↦
              let g : fd ≡ f = ground (arith, own) in
              let later : has_fd fds f ≡ false = rw (← g) (has_fd_below fd fds h.0) in
              rw (later, own) (with_client-clients s fd f db key x ∙ rw own)
          | inr apart ↦ rw (with_client-clients s fd f db key x, apart)
        ],
        index ∙ index0,
        stores ∙ stores0,
      )

  -- A change of a key reaches exactly the clients that watch it: each of them is signalled once, no
  -- other client changes, and the index and the databases stay as they are.
  pub signal_modified_key-signalled :
      (s : Server C) (db : ℕ) (key : Bytes) (from_expiry : Bool)
      → IsInStep s
      → ((f : ℕ)
          → (signal_modified_key s db key from_expiry).clients f
            ≡ signalled_if (client_watches (s.clients f) db key) db key from_expiry (s.clients f))
        × ((signal_modified_key s db key from_expiry).watched_keys ≡ s.watched_keys)
        × ((signal_modified_key s db key from_expiry).databases ≡ s.databases)
  signal_modified_key-signalled s db key x h =
      unfold signal_modified_key in found (entry (s.watched_keys db) key) refl
    where
      found :
          (o : Option (List ℕ))
          → entry (s.watched_keys db) key ≡ o
          → ((f : ℕ)
              → (signal_found o db key x s).clients f
                ≡ signalled_if (client_watches (s.clients f) db key) db key x (s.clients f))
            × ((signal_found o db key x s).watched_keys ≡ s.watched_keys)
            × ((signal_found o db key x s).databases ≡ s.databases)
      found none e = (
        λ f.
            unfold signal_found in
            rw (← h.same f db key, listens_absent (s.watched_keys db) key f e) refl,
        unfold signal_found in refl,
        unfold signal_found in refl,
      )
      found (some fds) e =
          let (up, reads) = entry-some (s.watched_keys db) key fds (h.maps db) e in
          let (clients, index, stores) = signal_all-clients fds db key x s up in
          (
            λ f.
                unfold signal_found in
                clients f
                ∙ ap (λ b. signalled_if b db key x (s.clients f)) (sym (reads f) ∙ h.same f db key),
            unfold signal_found in index,
            unfold signal_found in stores,
          )

  pub signal_modified_key-IsInStep :
      (s : Server C) (db : ℕ) (key : Bytes) (from_expiry : Bool)
      → IsInStep s
      → IsInStep (signal_modified_key s db key from_expiry)
  signal_modified_key-IsInStep s db key x h =
      let (clients, index, _) = signal_modified_key-signalled s db key x h in
      record {
        maps = λ e. rw (index) (h.maps e);
        same = λ f e q.
            rw (index, clients f)
              (h.same f e q
                ∙ sym (
                    client_watches-signalled (client_watches (s.clients f) db key) (s.clients f) db
                      e key q x));
      }
