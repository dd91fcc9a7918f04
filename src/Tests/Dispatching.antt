-- ===== src/Tests/Dispatching.antt =====
-- A transaction from MULTI to EXEC through the dispatcher.
use mnemos.Prelude.{
  ℕ, ◌≡◌, refl, Bool, true, false, Option, none, some, List, [], ◌∷◌, ◌++◌, map, length, arith, leb,
}
use mnemos.Prelude.Bytes.{Bytes, codes}
use mnemos.Prelude.Int.{ℤ, pos}
use mnemos.Core.Dict
use mnemos.Server.Transactions.{
  Server, Client, Handler, Reply, exec, run_queue, discard_transaction, count_of,
}
use mnemos.Server.Dispatch.{CommandSpec, Session, lookup_command, quote_args}
use mnemos.Server.Dispatch.Queueing.{Request, argv_of, any_refused, dispatch_all, dispatch_all-exec}

abbrev spec : Bytes → ℤ → CommandSpec
spec name arity = record {
  name = name;
  arity = arity;
  flags = 0;
  first_key = pos 1;
  last_key = pos 1;
  key_step = pos 1;
}

abbrev table : List CommandSpec
table = spec (codes "get") (pos 2) ∷ spec (codes "exec") (pos 1) ∷ []

abbrev session : Session
session = record {
  requires_password = false;
  authenticated = false;
  protocol_version = 2;
  in_subscriber_mode = false;
}

abbrev echo : Handler ℕ
echo s fd argv = (codes "+OK", s)

abbrev in_multi : Client
in_multi = record {
  db_index = 0;
  in_multi = true;
  multi_error = false;
  dirty_cas = false;
  multi_queue = [];
  watched_keys = [];
}

abbrev server : Server ℕ
server = record {
  clients = λ fd. some in_multi;
  databases =
      λ db. record { dict = Dict.new; expires = Dict.new; expiration_enabled = true; events = [] };
  watched_keys = λ db. [];
  now_ms = pos 0;
}

-- GET with a key, and GET without one.
abbrev requests : List Request
requests = (codes "GeT", codes "a" ∷ []) ∷ (codes "get", []) ∷ []

one_refused : any_refused table session requests ≡ true
unfolding any_refused mnemos.Server.Dispatch.Queueing.is_refused
    mnemos.Server.Dispatch.Queueing.is_reject mnemos.Server.Dispatch.check
    mnemos.Server.Dispatch.check_found lookup_command mnemos.Server.Dispatch.find_command
    mnemos.Prelude.Bytes.eqb mnemos.Server.Dispatch.to_lower mnemos.Core.Glob.fold
    mnemos.Server.Dispatch.arity_ok mnemos.Server.Dispatch.arity_allows
    mnemos.Server.Dispatch.is_transaction_control mnemos.Server.Dispatch.is_among
one_refused = refl

dispatch_all-exec_example :
    let t = dispatch_all table session echo 3 requests server in
    (d : Client) × (t.clients 3 ≡ some d)
    × (t.databases ≡ server.databases)
    × (any_refused table session requests ≡ true
        → exec echo t 3 d ≡ (Reply.exec_abort ∷ [], discard_transaction t 3 d))
    × (any_refused table session requests ≡ false
        → exec echo t 3 d ≡ (
            let (replies, u) =
              run_queue echo (map argv_of requests) 3 (discard_transaction t 3 d) in
            (Reply.array_header (count_of (map argv_of requests)) ∷ replies, u)))
unfolding lookup_command mnemos.Server.Dispatch.find_command mnemos.Prelude.Bytes.eqb
    mnemos.Server.Dispatch.to_lower mnemos.Core.Glob.fold
    mnemos.Server.Dispatch.is_transaction_control mnemos.Server.Dispatch.is_among
dispatch_all-exec_example =
    dispatch_all-exec table session echo 3 requests server in_multi refl refl refl refl refl
      (refl, (refl, tt))
