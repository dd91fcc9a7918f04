-- ===== src/Net/Resp/Request/Limits.antt =====
-- What an unfinished command can make the server hold, and that every finished one takes bytes.
use mnemos.Prelude.{
  ℕ, zero, suc, ◌+◌, ◌≤◌, ◌<◌, Option, none, some, List, [], ◌∷◌, ◌++◌, length, length-append,
  length-take, length-drop, take, drop, ltb, ◌==◌, ◌≡◌, refl, inl, inr, arith, Bool-cases,
  Option-cases, All, All-append,
}
use mnemos.Prelude.Int.{ℤ, pos, negsuc}
use mnemos.Prelude.Bytes.{Bytes}
use mnemos.Net.Resp.Text.{find_newline, find_crlf, parse_long}
use mnemos.Net.Resp.Text.Lines.{find_newline-length, find_crlf-length}
use mnemos.Net.Resp.SplitArgs.{split_args}
use mnemos.Net.Resp.SplitArgs.Nul.{NoNul, split_args-total}
use mnemos.Net.Resp.Request.Inline.{find_newline-NoNul, inline_line-NoNul}
use mnemos.Net.Resp.Request.{
  RequestParser, Outcome, incomplete, complete, error, hangs, parse_inline, inline_line,
  bulk_length, payload, bulk_header, parse_body, multibulk_header, parse_first, parse_from, parse,
  max_multibulk_length, max_bulk_length, max_inline_request, fresh,
}

abbrev IsShort : Bytes → Type 0
IsShort a = length a ≤ max_bulk_length

abbrev IsShortBulk : Option ℕ → Type 0
IsShortBulk none = Unit {0}
IsShortBulk (some len) = len ≤ max_bulk_length

-- The most bytes that wait in the buffer.
abbrev room : Option ℕ → ℕ
room none = max_inline_request
room (some len) = len + 1

-- The arguments read and those to come are within the limits.
pub record IsWithinLimits (p : RequestParser) : Type 0 where
  pub count : length p.argv + p.multibulk_len ≤ max_multibulk_length
  pub short : All IsShort p.argv
  pub bulk : IsShortBulk p.bulk_len
  pub idle : p.multibulk_len ≡ 0 → p.bulk_len ≡ none

-- An unfinished command stays within the limits and leaves few bytes; a finished one leaves fewer
-- bytes than there were; and `H` has to hold where the call never ends.
abbrev pub Outcome-IsBounded : Type 0 → ℕ → Outcome → Type 0
Outcome-IsBounded H n (incomplete p rest) = IsWithinLimits p × (length rest ≤ room p.bulk_len)
Outcome-IsBounded H n (complete argv rest) = length rest < n
Outcome-IsBounded H n (error m) = Unit {0}
Outcome-IsBounded H n hangs = H

module _ (H : Type 0) where
  payload-IsBounded :
      (m n len : ℕ) (argv : List Bytes) (s : Bytes)
      → length argv + suc n ≤ max_multibulk_length
      → All IsShort argv
      → len ≤ max_bulk_length
      → length s ≤ m
      → ((argv' : List Bytes) (r : Bytes)
          → length argv' + n ≤ max_multibulk_length
          → All IsShort argv'
          → length r < m
          → Outcome-IsBounded H m (parse_body n none argv' r))
      → Outcome-IsBounded H m (payload n (parse_body n none) len argv s)
  payload-IsBounded m n len argv s few short small fits ih =
      elim (Bool-cases (ltb (length s) (len + 2))) [
        | inl wait ↦
            unfold payload in
            rw wait (
              record { count = few; short = short; bulk = small; idle = λ z. absurd (omega arith) },
              ground (arith, wait),
            )
        | inr whole ↦
            let enough : len + 2 ≤ length s = ground (arith, whole) in
            unfold payload in
            rw whole (
              ih (argv ++ take len s ∷ []) (drop (len + 2) s)
                (omega (arith, length-append argv (take len s ∷ [])))
                (All-append IsShort argv (take len s ∷ []) short (omega (arith, length-take len s)))
                (omega (arith, length-drop (len + 2) s)))
      ]

  bulk_length-le :
      (digits : Bytes) (len : ℕ) → bulk_length digits ≡ some len → len ≤ max_bulk_length
  bulk_length-le digits len e = unfold bulk_length in ground arith

  bulk_header-IsBounded :
      (m n : ℕ) (argv : List Bytes) (s : Bytes) (found : Option (Bytes × Bytes))
      → find_crlf s ≡ found
      → length argv + suc n ≤ max_multibulk_length
      → All IsShort argv
      → length s ≤ m
      → ((argv' : List Bytes) (r : Bytes)
          → length argv' + n ≤ max_multibulk_length
          → All IsShort argv'
          → length r < m
          → Outcome-IsBounded H m (parse_body n none argv' r))
      → Outcome-IsBounded H m (bulk_header n (parse_body n none) argv s found)
  bulk_header-IsBounded m n argv s none e few short fits ih =
      elim (Bool-cases (ltb max_inline_request (length s))) [
        | inl big ↦ unfold bulk_header in rw big tt
        | inr small ↦
            unfold bulk_header in
            rw small (
              record { count = few; short = short; bulk = tt; idle = λ z. absurd (omega arith) },
              ground (arith, small),
            )
      ]
  bulk_header-IsBounded m n argv s (some ([], rest)) e few short fits ih = unfold bulk_header in tt
  bulk_header-IsBounded m n argv s (some (c ∷ digits, rest)) e few short fits ih =
      elim (Bool-cases (c == b'$')) [
        | inr other ↦ unfold bulk_header in rw other tt
        | inl dollar ↦ elim (Option-cases (bulk_length digits)) [
          | inl bad ↦ unfold bulk_header in rw (dollar, bad) tt
          | inr (len, good) ↦
              unfold bulk_header in
              rw (dollar, good)
                (payload-IsBounded m n len argv rest few short (bulk_length-le digits len good)
                  (omega (arith, find_crlf-length s (c ∷ digits) rest e)) ih)
        ]
      ]

  parse_body-IsBounded :
      (m n : ℕ) (bulk : Option ℕ) (argv : List Bytes) (s : Bytes)
      → length argv + n ≤ max_multibulk_length
      → All IsShort argv
      → IsShortBulk bulk
      → length s ≤ m
      → (n ≡ 0 → length s < m)
      → Outcome-IsBounded H m (parse_body n bulk argv s)
  unfolding parse_body
  parse_body-IsBounded m zero bulk argv s few short b fits less = less refl
  parse_body-IsBounded m (suc n) none argv s few short b fits less =
      bulk_header-IsBounded m n argv s (find_crlf s) refl few short fits
        (λ a r f sh lt. parse_body-IsBounded m n none a r f sh tt (omega arith) (λ _. lt))
  parse_body-IsBounded m (suc n) (some len) argv s few short b fits less =
      payload-IsBounded m n len argv s few short b fits
        (λ a r f sh lt. parse_body-IsBounded m n none a r f sh tt (omega arith) (λ _. lt))

  multibulk_header-IsBounded :
      (p : RequestParser) (s : Bytes) (found : Option (Bytes × Bytes))
      → find_crlf s ≡ found
      → IsWithinLimits p
      → p.bulk_len ≡ none
      → Outcome-IsBounded H (length s) (multibulk_header p s found)
  multibulk_header-IsBounded p s none e w idle =
      elim (Bool-cases (ltb max_inline_request (length s))) [
        | inl big ↦ unfold multibulk_header in rw big tt
        | inr small ↦ unfold multibulk_header in rw small (w, rw idle (ground (arith, small)))
      ]
  multibulk_header-IsBounded p s (some ([], rest)) e w idle = unfold multibulk_header in tt
  multibulk_header-IsBounded p s (some (c ∷ digits, rest)) e w idle =
      number (parse_long digits) refl
    where
      less : length rest < length s
      less = find_crlf-length s (c ∷ digits) rest e

      number :
          (read : Option ℤ)
          → parse_long digits ≡ read
          → Outcome-IsBounded H (length s) (multibulk_header p s (some (c ∷ digits, rest)))
      number none r = unfold multibulk_header in rw (r, multibulk_header) tt
      number (some (negsuc n)) r = unfold multibulk_header in rw (r, multibulk_header) less
      number (some (pos n)) r = elim (Bool-cases (ltb max_multibulk_length n)) [
        | inl big ↦ unfold multibulk_header in rw (r, big, multibulk_header) tt
        | inr fits ↦
            unfold multibulk_header in
            rw (r, fits, multibulk_header)
              (parse_body-IsBounded (length s) n none [] rest (ground (arith, fits)) tt tt
                (omega (arith, less)) (λ _. less))
      ]

  parse_inline-IsBounded :
      (p : RequestParser) (s : Bytes)
      → (¬ NoNul s → H)
      → IsWithinLimits p
      → p.bulk_len ≡ none
      → Outcome-IsBounded H (length s) (parse_inline p s)
  parse_inline-IsBounded p s nul w idle = elim (Option-cases (find_newline s)) [
    | inl missing ↦ elim (Bool-cases (ltb max_inline_request (length s))) [
      | inl big ↦ unfold parse_inline in rw (missing, big, parse_inline) tt
      | inr small ↦
          unfold parse_inline in
          rw (missing, small, parse_inline) (w, rw idle (ground (arith, small)))
    ]
    | inr ((line, rest), found) ↦
        let less : length rest < length s = omega (arith, find_newline-length s line rest found) in
        elim (Option-cases (split_args (inline_line line))) [
          | inl loops ↦
              let has_nul : ¬ NoNul s = λ n.
                split_args-total (inline_line line)
                  (inline_line-NoNul line (find_newline-NoNul s line rest found n)) loops in
              unfold parse_inline in rw (found, loops, parse_inline) (nul has_nul)
          | inr (none, r) ↦ unfold parse_inline in rw (found, r, parse_inline) tt
          | inr (some argv, r) ↦ unfold parse_inline in rw (found, r, parse_inline) less
        ]
  ]

  parse_first-IsBounded :
      (p : RequestParser) (s : Bytes)
      → (¬ NoNul s → H)
      → IsWithinLimits p
      → p.bulk_len ≡ none
      → Outcome-IsBounded H (length s) (parse_first p s)
  parse_first-IsBounded p [] nul w idle = unfold parse_first in (w, rw idle (omega arith))
  parse_first-IsBounded p (c ∷ s) nul w idle = elim (Bool-cases (c == b'*')) [
    | inl star ↦
        unfold parse_first in
        rw star (multibulk_header-IsBounded p (c ∷ s) (find_crlf (c ∷ s)) refl w idle)
    | inr other ↦ unfold parse_first in rw other (parse_inline-IsBounded p (c ∷ s) nul w idle)
  ]

  parse_from-IsBounded :
      (n : ℕ) (p : RequestParser) (s : Bytes)
      → (¬ NoNul s → H)
      → p.multibulk_len ≡ n
      → IsWithinLimits p
      → Outcome-IsBounded H (length s) (parse_from n p s)
  parse_from-IsBounded zero p s nul e w =
      unfold parse_from in parse_first-IsBounded p s nul w (w.idle e)
  parse_from-IsBounded (suc n) p s nul e w =
      unfold parse_from in
      parse_body-IsBounded (length s) (suc n) p.bulk_len p.argv s (omega (arith, w.count)) w.short
        w.bulk (omega arith) (λ z. absurd (omega arith))

-- A new parser is within the limits. A call that wants more bytes keeps the parser there and leaves at
-- most 64 KB of the buffer unread between arguments, and less than the announced bulk and its CRLF
-- inside of one; a call that returns a command has used up at least one byte; and a call on a buffer
-- without a NUL byte ends, while nothing is said of the memory of one that does not.
pub parse-IsBounded :
    IsWithinLimits fresh
    × ((p : RequestParser) (s : Bytes)
        → IsWithinLimits p
        → Outcome-IsBounded (¬ NoNul s) (length s) (parse p s))
parse-IsBounded = (
  record { count = omega arith; short = tt; bulk = tt; idle = λ _. refl },
  λ p s w.
      unfold parse in
      parse_from-IsBounded (¬ NoNul s) p.multibulk_len p s (λ has_nul. has_nul) refl w,
)
