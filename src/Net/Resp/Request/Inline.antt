-- ===== src/Net/Resp/Request/Inline.antt =====
-- The line of an inline command has a NUL byte only where the buffer has one.
use mnemos.Prelude.{◌≡◌, subst, some, [], ◌∷◌, ◌==◌, inl, inr, arith, Bool-cases, Option-cases}
use mnemos.Prelude.Bytes.{Bytes}
use mnemos.Net.Resp.Text.{find_newline, drop_cr}
use mnemos.Net.Resp.SplitArgs.Nul.{NoNul}
use mnemos.Net.Resp.Request.{inline_line}

pub find_newline-NoNul :
    (s line rest : Bytes) → find_newline s ≡ some (line, rest) → NoNul s → NoNul line
unfolding find_newline
find_newline-NoNul [] line rest e n = absurd (ground (arith, e))
find_newline-NoNul (c ∷ s) line rest e (h, n) = elim (Bool-cases (c == 10)) [
  | inl ends ↦ let nothing : [] ≡ line = ground (arith, e, ends) in subst NoNul nothing tt
  | inr other ↦ elim (Option-cases (find_newline s)) [
    | inl missing ↦ absurd (ground (arith, e, other, missing))
    | inr ((l, r), found) ↦
        let longer : (c ∷ l) ≡ line = ground (arith, e, other, found) in
        subst NoNul longer (h, find_newline-NoNul s l r found n)
  ]
]

drop_cr-NoNul : (line body : Bytes) → drop_cr line ≡ some body → NoNul line → NoNul body
unfolding drop_cr
drop_cr-NoNul [] body e n = absurd (ground (arith, e))
drop_cr-NoNul (c ∷ []) body e n = elim (Bool-cases (c == 13)) [
  | inl cut ↦ let nothing : [] ≡ body = ground (arith, e, cut) in subst NoNul nothing tt
  | inr other ↦ absurd (ground (arith, e, other))
]
drop_cr-NoNul (c ∷ d ∷ s) body e (h, n) = elim (Option-cases (drop_cr (d ∷ s))) [
  | inl missing ↦ absurd (ground (arith, e, missing))
  | inr (b, found) ↦
      let longer : (c ∷ b) ≡ body = ground (arith, e, found) in
      subst NoNul longer (h, drop_cr-NoNul (d ∷ s) b found n)
]

pub inline_line-NoNul : (line : Bytes) → NoNul line → NoNul (inline_line line)
unfolding inline_line
inline_line-NoNul line n = elim (Option-cases (drop_cr line)) [
  | inl kept ↦ rw (kept, inline_line) n
  | inr (body, cut) ↦ rw (cut, inline_line) (drop_cr-NoNul line body cut n)
]
