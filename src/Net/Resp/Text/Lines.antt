-- ===== src/Net/Resp/Text/Lines.antt =====
-- Lines in a buffer that grows, and lines that the code wrote itself.
use mnemos.Prelude.{
  suc, ◌+◌, ◌<◌, some, [], ◌∷◌, ◌++◌, length, ◌==◌, ◌≡◌, refl, ◌≢◌, inl, inr, arith, Bool-cases,
  Option-cases, All,
}
use mnemos.Prelude.Bytes.{Bytes}
use mnemos.Net.Resp.Text.{find_newline, drop_cr, find_crlf}

pub find_newline-append :
    (s t line rest : Bytes)
    → find_newline s ≡ some (line, rest)
    → find_newline (s ++ t) ≡ some (line, rest ++ t)
unfolding find_newline
find_newline-append [] t line rest e = cc
find_newline-append (c ∷ s) t line rest e = elim (Bool-cases (c == 10)) [
  | inl nl ↦ ground (arith, nl)
  | inr other ↦ elim (Option-cases (find_newline s)) [
    | inl missing ↦ absurd (ground (arith, other, missing))
    | inr ((l, r), found) ↦ ground (arith, other, found, find_newline-append s t l r found)
  ]
]

pub find_crlf-append :
    (s t line rest : Bytes)
    → find_crlf s ≡ some (line, rest)
    → find_crlf (s ++ t) ≡ some (line, rest ++ t)
unfolding find_crlf
find_crlf-append s t line rest e = elim (Option-cases (find_newline s)) [
  | inl missing ↦ absurd (ground (arith, missing))
  | inr ((l, r), found) ↦ ground (arith, found, find_newline-append s t l r found)
]

-- A line without a line feed is found again.
pub find_newline-line :
    (line rest : Bytes)
    → All (λ c. c ≢ 10) line
    → find_newline (line ++ 10 ∷ rest) ≡ some (line, rest)
unfolding find_newline
find_newline-line [] rest h = refl
find_newline-line (c ∷ line) rest h = ground (arith, find_newline-line line rest)

pub drop_cr-line : (line : Bytes) → drop_cr (line ++ 13 ∷ []) ≡ some line
unfolding drop_cr
drop_cr-line [] = refl
drop_cr-line (c ∷ []) = refl
drop_cr-line (c ∷ d ∷ line) = ground (arith, drop_cr-line (d ∷ line))

pub find_newline-length :
    (s line rest : Bytes)
    → find_newline s ≡ some (line, rest)
    → length s ≡ length line + suc (length rest)
unfolding find_newline
find_newline-length [] line rest e = cc
find_newline-length (c ∷ s) line rest e = elim (Bool-cases (c == 10)) [
  | inl nl ↦ ground (arith, nl)
  | inr other ↦ elim (Option-cases (find_newline s)) [
    | inl missing ↦ absurd (ground (arith, other, missing))
    | inr ((l, r), found) ↦ ground (arith, other, found, find_newline-length s l r found)
  ]
]

pub find_crlf-length :
    (s line rest : Bytes) → find_crlf s ≡ some (line, rest) → length rest < length s
unfolding find_crlf
find_crlf-length s line rest e = elim (Option-cases (find_newline s)) [
  | inl missing ↦ absurd (ground (arith, missing))
  | inr ((l, r), found) ↦ ground (arith, found, find_newline-length s l r found)
]
