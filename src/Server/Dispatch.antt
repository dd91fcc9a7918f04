-- ===== src/Server/Dispatch.antt =====
-- `Server::dispatch` of src/server/server.cpp with the lookup of src/server/command_table.cpp: the
-- checks before a command, and what becomes of it. The table of the commands is an argument, and so
-- is `callCommand` with the handlers. What a command delivers to its own client is left out.
pub mod Queueing
use mnemos.Prelude.{
  ℕ, suc, ◌+◌, ◌-◌, ◌/◌, ◌%◌, Bool, true, false, ◌&&◌, ◌||◌, not, Option, none, some, List, [], ◌∷◌,
  ◌++◌, map, length, take, ltb, leb, ◌==◌, if◌then◌else◌,
}
use mnemos.Prelude.Bytes.{Bytes, codes, eqb}
use mnemos.Prelude.Int.{ℤ, pos, negsuc}
use mnemos.Core.Glob.{fold}
use mnemos.Net.Resp.Reply
use mnemos.Server.Transactions.{
  Server, Client, Handler, queue_command, flag_multi_error, discard_transaction,
}

-- `CommandSpec`, without the handler.
pub record CommandSpec : Type 0 where
  pub name : Bytes
  pub arity : ℤ
  pub flags : ℕ
  pub first_key : ℤ
  pub last_key : ℤ
  pub key_step : ℤ

-- `toLower`
unfoldable pub to_lower : Bytes → Bytes
to_lower s = map (fold true) s

-- The search in the index, which keeps the first command of a name.
unfoldable pub find_command : List CommandSpec → Bytes → Option CommandSpec
find_command [] name = none
find_command (spec ∷ specs) name =
    let rest = find_command specs name in if eqb spec.name name then some spec else rest

unfoldable pub lookup_command : List CommandSpec → Bytes → Option CommandSpec
lookup_command table name = find_command table (to_lower name)

unfoldable pub arity_allows : ℤ → ℕ → Bool
arity_allows (pos n) argc = argc == n
arity_allows (negsuc n) argc = leb (n + 1) argc

unfoldable pub arity_ok : CommandSpec → ℕ → Bool
arity_ok spec argc = arity_allows spec.arity argc

-- `flags & kNoAuth` and `flags & kContainer`
unfoldable pub is_no_auth : CommandSpec → Bool
is_no_auth spec = (spec.flags / 8) % 2 == 1

unfoldable pub is_container : CommandSpec → Bool
is_container spec = (spec.flags / 64) % 2 == 1

unfoldable pub is_among : Bytes → List Bytes → Bool
is_among name [] = false
is_among name (n ∷ names) = eqb name n || is_among name names

unfoldable pub is_allowed_in_subscriber_mode : Bytes → Bool
is_allowed_in_subscriber_mode name = is_among name (
    codes "subscribe"
    ∷ codes "unsubscribe"
    ∷ codes "psubscribe"
    ∷ codes "punsubscribe"
    ∷ codes "ssubscribe"
    ∷ codes "sunsubscribe"
    ∷ codes "ping"
    ∷ codes "quit"
    ∷ codes "reset"
    ∷ [])

unfoldable pub is_transaction_control : Bytes → Bool
is_transaction_control name = is_among name (
    codes "multi"
    ∷ codes "exec"
    ∷ codes "discard"
    ∷ codes "watch"
    ∷ codes "quit"
    ∷ codes "reset"
    ∷ [])

abbrev pub unknown_command_args_limit : ℕ
unknown_command_args_limit = 128

-- The arguments that are quoted back, behind those in `args`.
unfoldable pub quote_args : List Bytes → Bytes → Bytes
quote_args [] args = args
quote_args (a ∷ argv) args =
    let opened = args ++ codes "'" in
    let quoted = (opened ++ take (unknown_command_args_limit - length opened) a) ++ codes "' " in
    let rest = quote_args argv quoted in
    if ltb (length args) unknown_command_args_limit then rest else args

unfoldable pub wrong_args_text : Bytes → Bytes
wrong_args_text command = (codes "wrong number of arguments for '" ++ command) ++ codes "' command"

unfoldable pub subscriber_mode_text : Bytes → Bytes
subscriber_mode_text command =
    (codes "Can't execute '" ++ command)
    ++ codes
        "': only (P|S)SUBSCRIBE / (P|S)UNSUBSCRIBE / PING / QUIT / RESET are allowed in this context"

-- What the checks read of a client and of the configuration.
pub record Session : Type 0 where
  pub requires_password : Bool
  pub authenticated : Bool
  pub protocol_version : ℕ
  pub in_subscriber_mode : Bool

-- The outcome of the checks. `reject` has whether the command is EXEC, the code and the text.
pub data Verdict : Type 0 where
  reject : Bool → Bytes → Bytes → Verdict
  hold : Verdict
  run : CommandSpec → Verdict

-- The name that the refusal in subscriber mode quotes.
unfoldable pub full_name : CommandSpec → List Bytes → Bytes
full_name spec [] = spec.name
full_name spec (sub ∷ args) =
    if is_container spec then (spec.name ++ codes "|") ++ to_lower sub else spec.name

unfoldable pub check_found : Session → Bool → Bytes → List Bytes → Option CommandSpec → Verdict
check_found session in_multi name args none = reject false (codes "ERR") (
    ((codes "unknown command '" ++ name) ++ codes "', with args beginning with: ")
    ++ quote_args args [])
check_found session in_multi name args (some spec) =
    let is_exec = eqb spec.name (codes "exec") in
    if not (arity_ok spec (suc (length args)))
    then reject is_exec (codes "ERR") (wrong_args_text spec.name)
    else if session.requires_password && not session.authenticated && not (is_no_auth spec)
    then reject is_exec (codes "NOAUTH") (codes "Authentication required.")
    else if (session.protocol_version == 2)
        && session.in_subscriber_mode
        && not (is_allowed_in_subscriber_mode spec.name)
    then reject is_exec (codes "ERR") (subscriber_mode_text (full_name spec args))
    else if in_multi && not (is_transaction_control spec.name)
    then hold
    else run spec

unfoldable pub check : List CommandSpec → Session → Bool → Bytes → List Bytes → Verdict
check table session in_multi name args =
    check_found session in_multi name args (lookup_command table name)

module _ {C : Type 0} where
  -- The closure `reject`, on the server after the flag.
  unfoldable pub refuse : Server C → ℕ → Client → Bool → Bytes → Bytes → Bytes × Server C
  refuse s fd c true code text = (
    Reply.error [] (codes "EXECABORT Transaction discarded because of: " ++ text),
    discard_transaction s fd c,
  )
  refuse s fd c false code text = (Reply.error [] ((code ++ codes " ") ++ text), s)

  unfoldable pub act : Handler C → Server C → ℕ → Client → List Bytes → Verdict → Bytes × Server C
  act call s fd c argv (reject is_exec code text) =
      if c.in_multi
      then refuse (flag_multi_error s fd c) fd (record c { multi_error = true }) is_exec code text
      else refuse s fd c is_exec code text
  act call s fd c argv hold = (Reply.simple_string [] (codes "QUEUED"), queue_command s fd c argv)
  act call s fd c argv (run spec) = call s fd argv

  -- `dispatch` of a command with its arguments: what is appended to the output, and the server.
  unfoldable pub dispatch :
      List CommandSpec
      → Session
      → Handler C
      → Server C
      → ℕ
      → Client
      → Bytes
      → List Bytes
      → Bytes × Server C
  dispatch table session call s fd c name args =
      act call s fd c (name ∷ args) (check table session c.in_multi name args)
