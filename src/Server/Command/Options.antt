-- ===== src/Server/Command/Options.antt =====
-- src/server/commands/string_commands.cpp: the options of SET and GETEX.
use mnemos.Prelude.{
  ℕ, Bool, true, false, ◌&&◌, ◌||◌, Option, none, some, List, [], ◌∷◌, ltb, if◌then◌else◌,
}
use mnemos.Prelude.Bytes.{Bytes, codes}
use mnemos.Prelude.Int.{ℤ, pos, pos_part, neg_part, leb_ℤ, plus_ℤ, times_ℤ, wrap_i64}
use mnemos.Core.Encoding.{string_to_int64}
use mnemos.Server.Command.{equals_ignore_case}

-- `ExpireOptions`
pub record ExpireOptions : Type 0 where
  pub set : Bool
  pub persist : Bool
  pub keep_ttl : Bool
  pub at_ms : ℤ

abbrev pub no_options : ExpireOptions
no_options = record { set = false; persist = false; keep_ttl = false; at_ms = pos 0 }

-- The failures of `ParseResult`.
pub data Failure : Type 0 where
  syntax not_integer invalid_expire : Failure

pub data Parsed (O : Type 0) : Type 0 where
  failed : Failure → Parsed O
  parsed : O → Parsed O

-- The four tokens; `relative` and `seconds` of `parseExpireToken` are read off them.
pub data ExpireToken : Type 0 where
  ex px exat pxat : ExpireToken

unfoldable pub is_relative : ExpireToken → Bool
is_relative ExpireToken.ex = true
is_relative ExpireToken.px = true
is_relative _ = false

unfoldable pub is_seconds : ExpireToken → Bool
is_seconds ExpireToken.ex = true
is_seconds ExpireToken.exat = true
is_seconds _ = false

-- The tests of `isExpireToken`.
unfoldable pub expire_token : Bytes → Option ExpireToken
expire_token t =
    if equals_ignore_case t (codes "EX")
    then some ExpireToken.ex
    else if equals_ignore_case t (codes "PX")
    then some ExpireToken.px
    else if equals_ignore_case t (codes "EXAT")
    then some ExpireToken.exat
    else if equals_ignore_case t (codes "PXAT")
    then some ExpireToken.pxat
    else none

-- `max() / 1000` and `-(min() / 1000)`
abbrev pub max_seconds : ℕ
max_seconds = 9_223_372_036_854_775

-- `parseExpireToken` on the number. The sum with the clock is not guarded: it wraps.
unfoldable pub deadline_of : ExpireToken → ℤ → ℤ → Parsed ℤ
deadline_of t n now_ms =
    let ms = if is_seconds t then times_ℤ n 1000 else n in
    if is_relative t && leb_ℤ n (pos 0)
    then failed Failure.invalid_expire
    else if is_seconds t && (ltb max_seconds (pos_part n) || ltb max_seconds (neg_part n))
    then failed Failure.invalid_expire
    else parsed (if is_relative t then wrap_i64 (plus_ℤ now_ms ms) else ms)

unfoldable pub parse_expire_token : ExpireToken → Bytes → ℤ → Parsed ℤ
parse_expire_token t value now_ms = elim (string_to_int64 value) [
  | none ↦ failed Failure.not_integer
  | some n ↦ deadline_of t n now_ms
]

-- The local variables of `set` while it reads its options.
pub record SetOptions : Type 0 where
  pub nx : Bool
  pub xx : Bool
  pub get : Bool
  pub opts : ExpireOptions

abbrev pub plain_set : SetOptions
plain_set = record { nx = false; xx = false; get = false; opts = no_options }

pub data SetToken : Type 0 where
  nx_token xx_token get_token keep_ttl_token other_token : SetToken
  deadline_token : ExpireToken → SetToken

unfoldable pub set_token : Bytes → SetToken
set_token t =
    if equals_ignore_case t (codes "NX")
    then SetToken.nx_token
    else if equals_ignore_case t (codes "XX")
    then SetToken.xx_token
    else if equals_ignore_case t (codes "GET")
    then SetToken.get_token
    else if equals_ignore_case t (codes "KEEPTTL")
    then SetToken.keep_ttl_token
    else elim (expire_token t) [ none ↦ SetToken.other_token | some e ↦ SetToken.deadline_token e ]

-- The rest of the loop after a deadline, which takes the next argument as well.
abbrev pub Ahead : Type 0 → Type 0
Ahead O = Option (Bytes × (O → Parsed O))

unfoldable pub with_deadline : {O : Type 0} → (ℤ → O) → (O → Parsed O) → Parsed ℤ → Parsed O
with_deadline put after (failed f) = failed f
with_deadline put after (parsed at_ms) = after (put at_ms)

unfoldable pub put_deadline : ExpireOptions → ℤ → ExpireOptions
put_deadline o at_ms = record o { set = true; at_ms = at_ms }

-- The branch for EX, PX, EXAT and PXAT: `i + 1 >= argc` is `none`.
unfoldable pub set_deadline : ℤ → SetOptions → ExpireToken → Ahead SetOptions → Parsed SetOptions
set_deadline now_ms o t none = failed Failure.syntax
set_deadline now_ms o t (some (value, after)) =
    if o.opts.set || o.opts.keep_ttl
    then failed Failure.syntax
    else with_deadline (λ at_ms. record o { opts = put_deadline o.opts at_ms }) after
        (parse_expire_token t value now_ms)

unfoldable pub set_option :
    ℤ
    → SetOptions
    → (SetOptions → Parsed SetOptions)
    → Ahead SetOptions
    → SetToken
    → Parsed SetOptions
set_option now_ms o next ahead SetToken.nx_token =
    if o.xx then failed Failure.syntax else next (record o { nx = true })
set_option now_ms o next ahead SetToken.xx_token =
    if o.nx then failed Failure.syntax else next (record o { xx = true })
set_option now_ms o next ahead SetToken.get_token = next (record o { get = true })
set_option now_ms o next ahead SetToken.keep_ttl_token =
    if o.opts.set
    then failed Failure.syntax
    else next (record o { opts = record (o.opts) { keep_ttl = true } })
set_option now_ms o next ahead (SetToken.deadline_token t) = set_deadline now_ms o t ahead
set_option now_ms o next ahead SetToken.other_token = failed Failure.syntax

-- The loop over the arguments from the fourth on.
unfoldable pub set_options : ℤ → List Bytes → SetOptions → Parsed SetOptions
set_options now_ms [] o = parsed o
set_options now_ms (t ∷ []) o = set_option now_ms o (set_options now_ms []) none (set_token t)
set_options now_ms (t ∷ value ∷ rest) o =
    set_option now_ms o (set_options now_ms (value ∷ rest)) (some (value, set_options now_ms rest))
      (set_token t)

unfoldable pub is_some : {A : Type 0} → Option A → Bool
is_some none = false
is_some (some a) = true

-- The local variables of `getex`; `at_ms` counts where `set` is.
unfoldable pub getex_deadline :
    ℤ → ExpireOptions → ExpireToken → Ahead ExpireOptions → Parsed ExpireOptions
getex_deadline now_ms o t none = failed Failure.syntax
getex_deadline now_ms o t (some (value, after)) =
    if o.set || o.persist
    then failed Failure.syntax
    else with_deadline (put_deadline o) after (parse_expire_token t value now_ms)

unfoldable pub getex_other :
    ℤ → ExpireOptions → Ahead ExpireOptions → Option ExpireToken → Parsed ExpireOptions
getex_other now_ms o ahead none = failed Failure.syntax
getex_other now_ms o ahead (some t) = getex_deadline now_ms o t ahead

unfoldable pub getex_option :
    ℤ
    → ExpireOptions
    → (ExpireOptions → Parsed ExpireOptions)
    → Ahead ExpireOptions
    → Bool
    → Option ExpireToken
    → Parsed ExpireOptions
getex_option now_ms o next ahead true t =
    if o.set then failed Failure.syntax else next (record o { persist = true })
getex_option now_ms o next ahead false t = getex_other now_ms o ahead t

-- The loop over the arguments from the third on.
unfoldable pub getex_options : ℤ → List Bytes → ExpireOptions → Parsed ExpireOptions
getex_options now_ms [] o = parsed o
getex_options now_ms (t ∷ []) o =
    getex_option now_ms o (getex_options now_ms []) none (equals_ignore_case t (codes "PERSIST"))
      (expire_token t)
getex_options now_ms (t ∷ value ∷ rest) o =
    getex_option now_ms o (getex_options now_ms (value ∷ rest))
      (some (value, getex_options now_ms rest)) (equals_ignore_case t (codes "PERSIST"))
      (expire_token t)
