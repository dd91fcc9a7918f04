-- ===== src/Net/Resp/Request/Stable.antt =====
-- Parsing in pieces: what a call decides does not change when more bytes arrive, and a call that
-- wants more bytes leaves a state from which the next call goes on as if it had seen all at once.
use mnemos.Prelude.{
  ℕ, zero, suc, ◌+◌, ◌≤◌, false, Option, none, some, List, [], ◌∷◌, ◌++◌, length, length-append,
  take-append_le, drop-append_le, ltb, ◌==◌, ◌≡◌, refl, sym, inl, inr, arith, Bool-cases,
  Option-cases,
}
use mnemos.Prelude.Int.{ℤ, pos, negsuc}
use mnemos.Prelude.Bytes.{Bytes}
use mnemos.Net.Resp.Text.{find_newline, find_crlf, parse_long}
use mnemos.Net.Resp.Text.Lines.{find_newline-append, find_crlf-append}
use mnemos.Net.Resp.SplitArgs.{split_args}
use mnemos.Net.Resp.Request.{
  RequestParser, Message, Outcome, incomplete, complete, error, hangs, parse_inline, inline_line,
  bulk_length, payload, bulk_header, parse_body, multibulk_header, parse_first, parse_from, parse,
  max_inline_request, max_multibulk_length,
}

-- The messages about a line that has no end yet. More bytes may bring one.
abbrev pub IsTooBig : Message → Type 0
IsTooBig Message.too_big_inline = Unit {0}
IsTooBig Message.too_big_count = Unit {0}
IsTooBig Message.too_big_bulk_count = Unit {0}
IsTooBig _ = ⊥

-- `o` is what the outcome on some bytes becomes when `more` follows them.
abbrev pub Extends : Outcome → Bytes → Outcome → Type 0
Extends (incomplete p rest) more o = o ≡ parse p (rest ++ more)
Extends (complete argv rest) more o = o ≡ complete argv (rest ++ more)
Extends (error m) more o = ¬ IsTooBig m → o ≡ error m
Extends hangs more o = o ≡ hangs

payload-append :
    (n len : ℕ) (argv : List Bytes) (s more : Bytes)
    → ((argv' : List Bytes) (r : Bytes)
        → Extends (parse_body n none argv' r) more (parse_body n none argv' (r ++ more)))
    → Extends
        (payload n (parse_body n none) len argv s)
        more
        (payload n (parse_body n none) len argv (s ++ more))
unfolding payload
payload-append n len argv s more ih = elim (Bool-cases (ltb (length s) (len + 2))) [
  | inl short ↦ rw short (unfold parse parse_from parse_body payload in refl)
  | inr whole ↦
      let fits : len + 2 ≤ length s = ground (arith, whole) in
      let longer : ltb (length (s ++ more)) (len + 2) ≡ false =
        ground (arith, length-append s more) in
      rw
        (
          whole,
          longer,
          take-append_le len s more (omega arith),
          drop-append_le (len + 2) s more fits,
        )
        (ih _ _)
]

bulk_header-append :
    (n : ℕ) (argv : List Bytes) (s more : Bytes) (found : Option (Bytes × Bytes))
    → find_crlf s ≡ found
    → ((argv' : List Bytes) (r : Bytes)
        → Extends (parse_body n none argv' r) more (parse_body n none argv' (r ++ more)))
    → Extends
        (bulk_header n (parse_body n none) argv s found)
        more
        (bulk_header n (parse_body n none) argv (s ++ more) (find_crlf (s ++ more)))
bulk_header-append n argv s more none e ih = elim (Bool-cases (ltb max_inline_request (length s))) [
  | inl big ↦ unfold bulk_header in rw big (λ h. absurd (h tt))
  | inr small ↦ unfold bulk_header parse parse_from parse_body in rw small refl
]
bulk_header-append n argv s more (some ([], rest)) e ih =
    rw (find_crlf-append s more [] rest e) (unfold bulk_header in λ _. refl)
bulk_header-append n argv s more (some (c ∷ digits, rest)) e ih =
    rw (find_crlf-append s more (c ∷ digits) rest e) (elim (Bool-cases (c == b'$')) [
      | inr other ↦ unfold bulk_header in rw other (λ _. refl)
      | inl dollar ↦ elim (Option-cases (bulk_length digits)) [
        | inl bad ↦ unfold bulk_header in rw (dollar, bad) (λ _. refl)
        | inr (len, good) ↦
            unfold bulk_header in rw (dollar, good) (payload-append n len argv rest more ih)
      ]
    ])

parse_body-append :
    (n : ℕ) (bulk : Option ℕ) (argv : List Bytes) (s more : Bytes)
    → Extends (parse_body n bulk argv s) more (parse_body n bulk argv (s ++ more))
unfolding parse_body
parse_body-append zero bulk argv s more = refl
parse_body-append (suc n) none argv s more =
    bulk_header-append n argv s more (find_crlf s) refl (λ a r. parse_body-append n none a r more)
parse_body-append (suc n) (some len) argv s more =
    payload-append n len argv s more (λ a r. parse_body-append n none a r more)

multibulk_header-append :
    (p : RequestParser) (s more : Bytes) (found : Option (Bytes × Bytes))
    → find_crlf s ≡ found
    → parse p (s ++ more) ≡ multibulk_header p (s ++ more) (find_crlf (s ++ more))
    → Extends
        (multibulk_header p s found)
        more
        (multibulk_header p (s ++ more) (find_crlf (s ++ more)))
multibulk_header-append p s more none e same =
    elim (Bool-cases (ltb max_inline_request (length s))) [
      | inl big ↦ unfold multibulk_header in rw big (λ h. absurd (h tt))
      | inr small ↦ unfold multibulk_header in rw small (sym same)
    ]
multibulk_header-append p s more (some ([], rest)) e same =
    rw (find_crlf-append s more [] rest e) (unfold multibulk_header in λ _. refl)
multibulk_header-append p s more (some (c ∷ digits, rest)) e same =
    rw (find_crlf-append s more (c ∷ digits) rest e) (number (parse_long digits) refl)
  where
    number :
        (read : Option ℤ)
        → parse_long digits ≡ read
        → Extends
            (multibulk_header p s (some (c ∷ digits, rest)))
            more
            (multibulk_header p (s ++ more) (some (c ∷ digits, rest ++ more)))
    number none r = unfold multibulk_header in rw (r, multibulk_header) (λ _. refl)
    number (some (negsuc n)) r = unfold multibulk_header in rw (r, multibulk_header) refl
    number (some (pos n)) r = elim (Bool-cases (ltb max_multibulk_length n)) [
      | inl big ↦ unfold multibulk_header in rw (r, big, multibulk_header) (λ _. refl)
      | inr fits ↦
          unfold multibulk_header in
          rw (r, fits, multibulk_header) (parse_body-append n none [] rest more)
    ]

parse_inline-append :
    (p : RequestParser) (s more : Bytes)
    → parse p (s ++ more) ≡ parse_inline p (s ++ more)
    → Extends (parse_inline p s) more (parse_inline p (s ++ more))
parse_inline-append p s more same = elim (Option-cases (find_newline s)) [
  | inl missing ↦ elim (Bool-cases (ltb max_inline_request (length s))) [
    | inl big ↦ unfold parse_inline in rw (missing, big, parse_inline) (λ h. absurd (h tt))
    | inr small ↦
        let left : parse_inline p s ≡ incomplete p s =
          unfold parse_inline in rw (missing, small, parse_inline) refl in
        rw left (sym same)
  ]
  | inr ((line, rest), found) ↦
      let left = find_newline-append s more line rest found in
      elim (Option-cases (split_args (inline_line line))) [
        | inl loops ↦ unfold parse_inline in rw (found, left, loops, parse_inline) refl
        | inr (none, r) ↦ unfold parse_inline in rw (found, left, r, parse_inline) (λ _. refl)
        | inr (some argv, r) ↦ unfold parse_inline in rw (found, left, r, parse_inline) refl
      ]
]

parse_first-append :
    (p : RequestParser) (s more : Bytes)
    → p.multibulk_len ≡ 0
    → Extends (parse_first p s) more (parse_first p (s ++ more))
parse_first-append p [] more idle = unfold parse parse_from parse_first in rw idle refl
parse_first-append p (c ∷ s) more idle = elim (Bool-cases (c == b'*')) [
  | inl star ↦
      unfold parse_first in
      rw star (
        multibulk_header-append p (c ∷ s) more (find_crlf (c ∷ s)) refl
          (unfold parse parse_from parse_first in rw (idle, star)))
  | inr other ↦
      unfold parse_first in
      rw other (
        parse_inline-append p (c ∷ s) more
          (unfold parse parse_from parse_first in rw (idle, other)))
]

parse_from-append :
    (n : ℕ) (p : RequestParser) (s more : Bytes)
    → p.multibulk_len ≡ n
    → Extends (parse_from n p s) more (parse_from n p (s ++ more))
parse_from-append zero p s more e = unfold parse_from in parse_first-append p s more e
parse_from-append (suc n) p s more e =
    unfold parse_from in parse_body-append (suc n) p.bulk_len p.argv s more

-- However a stream of bytes is cut, the parser ends up the same: when more bytes follow those of
-- one call, an incomplete outcome becomes what the next call makes of the rest and the new bytes;
-- a complete command stays, with the new bytes behind its rest; a protocol error stays, unless it
-- only says that a line without an end is too long; and a call that does not return still does not.
pub parse-append :
    (p : RequestParser) (s more : Bytes) → Extends (parse p s) more (parse p (s ++ more))
parse-append p s more = unfold parse in parse_from-append p.multibulk_len p s more refl
