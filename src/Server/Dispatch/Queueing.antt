-- ===== src/Server/Dispatch/Queueing.antt =====
-- What a client sends inside MULTI: every command is held or refused, and EXEC runs all or nothing.
use mnemos.Prelude.{
  ℕ, suc, ◌≡◌, refl, sym, ap, ◌∙◌, subst, Bool, true, false, ◌&&◌, ◌||◌, not, Option, none, some,
  List, [], ◌∷◌, ◌++◌, append-nil, append_assoc, map, length, All, ◌⊎◌, inl, inr, Bool-cases,
  if_cases, if◌then◌else◌, arith, ◌==◌,
}
use mnemos.Prelude.Bytes.{Bytes, codes, eqb}
use mnemos.Server.Transactions.{
  Server, Client, Handler, Reply, put, exec, exec_when, count_of, run_queue, queue_command,
  flag_multi_error, discard_transaction,
}
use mnemos.Server.Dispatch.{
  CommandSpec, Session, Verdict, lookup_command, is_transaction_control, is_among, check,
  check_found, act, refuse, dispatch, arity_ok, is_no_auth, is_allowed_in_subscriber_mode,
}

-- A command as it arrives: its name and its arguments.
abbrev pub Request : Type 0
Request = Bytes × List Bytes

abbrev pub argv_of : Request → List Bytes
argv_of r = r.0 ∷ r.1

-- The table does not have the name, or the command is none that steers a transaction.
abbrev pub IsOrdinaryAs : Option CommandSpec → Type 0
IsOrdinaryAs none = Unit {0}
IsOrdinaryAs (some spec) = is_transaction_control spec.name ≡ false

unfoldable pub is_reject : Verdict → Bool
is_reject (Verdict.reject e code text) = true
is_reject _ = false

or_false : (b : Bool) → (b || false) ≡ b
or_false true = refl
or_false false = refl

put_same : {A : Type 0} (f : ℕ → A) (i : ℕ) (a : A) → put f i a i ≡ a
put_same f i a = let same : (i == i) ≡ true = ground arith in rw same refl

exec-control :
    (name : Bytes) → is_transaction_control name ≡ false → eqb name (codes "exec") ≡ false
unfolding is_transaction_control is_among
exec-control name h = ground (arith, h)

module _ (table : List CommandSpec) (session : Session) where
  abbrev pub IsOrdinary : Request → Type 0
  IsOrdinary r = IsOrdinaryAs (lookup_command table r.0)

  -- The checks refuse the request inside MULTI.
  unfoldable pub is_refused : Request → Bool
  is_refused r = is_reject (check table session true r.0 r.1)

  unfoldable pub any_refused : List Request → Bool
  any_refused [] = false
  any_refused (r ∷ rs) = is_refused r || any_refused rs

  -- What the queue gets.
  unfoldable pub held : List Request → List (List Bytes)
  held [] = []
  held (r ∷ rs) = let rest = held rs in if is_refused r then rest else argv_of r ∷ rest

  held-all : (rs : List Request) → any_refused rs ≡ false → held rs ≡ map argv_of rs
  unfolding held any_refused
  held-all [] h = refl
  held-all (r ∷ rs) h =
      let first : is_refused r ≡ false = ground (arith, h) in
      let others : any_refused rs ≡ false = ground (arith, h) in rw (first, held-all rs others) refl

  -- The verdict inside MULTI on what does not steer the transaction.
  abbrev HeldOrRefused : Verdict → Type 0
  HeldOrRefused v =
      (v ≡ Verdict.hold) ⊎ ((code : Bytes) × (text : Bytes) × (v ≡ Verdict.reject false code text))

  check_found-ordinary :
      (name : Bytes) (args : List Bytes) (o : Option CommandSpec)
      → IsOrdinaryAs o
      → HeldOrRefused (check_found session true name args o)
  unfolding check_found
  check_found-ordinary name args none h = inr (_, _, refl)
  check_found-ordinary name args (some spec) h =
      let other = exec-control spec.name h in
      rw (other, h)
        (if_cases HeldOrRefused (not (arity_ok spec (suc (length args)))) _ _
          (λ x. inr (_, _, refl))
          λ x.
            if_cases HeldOrRefused
              (session.requires_password && not session.authenticated && not (is_no_auth spec)) _ _
              (λ x. inr (_, _, refl))
              λ x.
                if_cases HeldOrRefused
                  ((session.protocol_version == 2)
                    && session.in_subscriber_mode
                    && not (is_allowed_in_subscriber_mode spec.name))
                  _ _ (λ x. inr (_, _, refl)) λ x. inl refl)

  module _ {C : Type 0} (call : Handler C) (fd : ℕ) where
    -- One request inside MULTI.
    dispatch-ordinary :
        (s : Server C) (c : Client) (r : Request)
        → c.in_multi ≡ true
        → IsOrdinary r
        → (dispatch table session call s fd c r.0 r.1).1
          ≡ (if is_refused r then flag_multi_error s fd c else queue_command s fd c (argv_of r))
    unfolding dispatch act refuse is_refused is_reject check
    dispatch-ordinary s c r h k = elim (check_found-ordinary r.0 r.1 (lookup_command table r.0) k) [
      | inl holds ↦ rw (h, holds) refl
      | inr (code, text, refuses) ↦ rw (h, refuses) refl
    ]

    dispatch_found : Option Client → Request → (Server C → Server C) → Server C → Server C
    dispatch_found none r next s = s
    dispatch_found (some c) r next s = next (dispatch table session call s fd c r.0 r.1).1

    -- The requests of a client, one after the other; it is looked up again for each.
    unfoldable pub dispatch_all : List Request → Server C → Server C
    unfolding dispatch_found
    dispatch_all [] s = s
    dispatch_all (r ∷ rs) s = dispatch_found (s.clients fd) r (dispatch_all rs) s

    dispatch_all-step :
        (rs : List Request) (r : Request) (s t : Server C) (c : Client)
        → s.clients fd ≡ some c
        → (dispatch table session call s fd c r.0 r.1).1 ≡ t
        → dispatch_all (r ∷ rs) s ≡ dispatch_all rs t
    unfolding dispatch_all dispatch_found
    dispatch_all-step rs r s t c found e =
        ap (λ o. dispatch_found o r (dispatch_all rs) s) found ∙ ap (dispatch_all rs) e

    -- The client after these requests.
    abbrev after : List Request → Client → Client
    after rs c = record c {
      multi_error = c.multi_error || any_refused rs;
      multi_queue = c.multi_queue ++ held rs;
    }

    Stays : List Request → Server C → Client → Server C → Type 0
    Stays rs s c t =
        (t.clients fd ≡ some (after rs c))
        × (t.databases ≡ s.databases)
        × (t.watched_keys ≡ s.watched_keys)

    dispatch_all-after :
        (rs : List Request) (s : Server C) (c : Client)
        → s.clients fd ≡ some c
        → c.in_multi ≡ true
        → All IsOrdinary rs
        → Stays rs s c (dispatch_all rs s)
    unfolding Stays dispatch_all any_refused held
    dispatch_all-after [] s c found h k = (
      found
          ∙ ap (λ b. some (record c { multi_error = b })) (sym (or_false c.multi_error))
          ∙ ap (λ q. some (record c { multi_error = c.multi_error || false; multi_queue = q }))
              (sym (append-nil c.multi_queue)),
      refl,
      refl,
    )
    dispatch_all-after (r ∷ rs) s c found h (k, ks) =
        let one = dispatch-ordinary s c r h k in
        elim (Bool-cases (is_refused r)) [
          | inl refused ↦
              let c1 = record c { multi_error = true } in
              let s1 = flag_multi_error s fd c in
              let is_s1 : (dispatch table session call s fd c r.0 r.1).1 ≡ s1 =
                one ∙ rw refused refl in
              let own : s1.clients fd ≡ some c1 =
                unfold flag_multi_error in put_same s.clients fd (some c1) in
              let (next, databases, index) = dispatch_all-after rs s1 c1 own h ks in
              let set : true ≡ (c.multi_error || (true || any_refused rs)) = ground arith in
              subst (Stays (r ∷ rs) s c) (sym (dispatch_all-step rs r s s1 c found is_s1)) (
                rw refused (
                  next
                      ∙ ap
                          (λ b.
                            some (record c {
                              multi_error = b;
                              multi_queue = c.multi_queue ++ held rs;
                            }))
                          set,
                  databases ∙ unfold flag_multi_error in refl,
                  index ∙ unfold flag_multi_error in refl,
                ))
          | inr taken ↦
              let c1 = record c { multi_queue = c.multi_queue ++ (argv_of r ∷ []) } in
              let s1 = queue_command s fd c (argv_of r) in
              let is_s1 : (dispatch table session call s fd c r.0 r.1).1 ≡ s1 =
                one ∙ rw taken refl in
              let own : s1.clients fd ≡ some c1 =
                unfold queue_command in put_same s.clients fd (some c1) in
              let (next, databases, index) = dispatch_all-after rs s1 c1 own h ks in
              subst (Stays (r ∷ rs) s c) (sym (dispatch_all-step rs r s s1 c found is_s1)) (
                rw taken (
                  next
                      ∙ ap
                          (λ q. some (record c {
                            multi_error = c.multi_error || any_refused rs;
                            multi_queue = q;
                          }))
                          (append_assoc c.multi_queue (argv_of r ∷ []) (held rs)),
                  databases ∙ unfold queue_command in refl,
                  index ∙ unfold queue_command in refl,
                ))
        ]

    -- A client that has just entered MULTI and sees no change of its watched keys sends ordinary
    -- commands, and then EXEC. Before EXEC no database changes. Where one of the commands was
    -- refused, EXEC answers EXECABORT and runs nothing; else it runs exactly the commands that were
    -- sent, in their order.
    pub dispatch_all-exec :
        (rs : List Request) (s : Server C) (c : Client)
        → s.clients fd ≡ some c
        → c.in_multi ≡ true
        → c.multi_error ≡ false
        → c.dirty_cas ≡ false
        → c.multi_queue ≡ []
        → All IsOrdinary rs
        → let t = dispatch_all rs s in
          (d : Client) × (t.clients fd ≡ some d)
          × (t.databases ≡ s.databases)
          × (any_refused rs ≡ true
              → exec call t fd d ≡ (Reply.exec_abort ∷ [], discard_transaction t fd d))
          × (any_refused rs ≡ false
              → exec call t fd d ≡ (
                  let (replies, u) =
                    run_queue call (map argv_of rs) fd (discard_transaction t fd d) in
                  (Reply.array_header (count_of (map argv_of rs)) ∷ replies, u)))
    unfolding exec exec_when Stays
    dispatch_all-exec rs s c found h clean untouched empty k =
        let t = dispatch_all rs s in
        let (own, databases, index) : Stays rs s c t = dispatch_all-after rs s c found h k in
        (
          after rs c,
          own,
          databases,
          λ refused. rw (h, clean, refused) refl,
          λ taken. rw (h, clean, taken, untouched, empty, held-all rs taken) refl,
        )
