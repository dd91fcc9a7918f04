-- ===== src/Core/Glob/Plain.antt =====
-- A pattern with no special byte.
use mnemos.Prelude.{
  ℕ, ◌≡◌, refl, sym, ap, ◌∙◌, subst, Bool, true, false, not, ◌||◌, none, some, [], ◌∷◌, All, arith,
  ◌==◌, if◌then◌else◌,
}
use mnemos.Prelude.Bytes.{Bytes, eqb, eqb_iff}
use mnemos.Core.Glob.{fold, same_char, literal_step, unit_step, glob_match}
use mnemos.Core.Glob.Matching.{Matches, empty, leave, take, unit}
use mnemos.Core.Glob.OneByte.{unit_step-TakesOne, TakesOne-unit_step}
use mnemos.Core.Glob.Loop.{glob_match-Matches}

-- No star, question mark, bracket or backslash.
unfoldable pub is_plain : ℕ → Bool
is_plain x = not (x == b'*' || x == b'?' || x == b'[' || x == b'\\')

abbrev pub IsPlain : Bytes → Type 0
IsPlain p = All (λ (x : ℕ). is_plain x ≡ true) p

unit_step-plain :
    (c x : ℕ) (p : Bytes)
    → is_plain x ≡ true
    → unit_step false c x p ≡ (if x == c then some p else none)
unfolding is_plain unit_step literal_step same_char fold
unit_step-plain c x [] h = ground arith
unit_step-plain c x (y ∷ p) h = ground arith

same-Matches : (p : Bytes) → IsPlain p → Matches false p p
same-Matches [] h = empty
same-Matches (x ∷ p) (h, hs) =
    let other : (x == b'*') ≡ false = unfold is_plain in ground arith in
    let goes : (if x == x then some p else none) ≡ some p = ground arith in
    unit other (unit_step-TakesOne false x x p p other (unit_step-plain x x p h ∙ goes))
      (same-Matches p hs)

Matches-same : (p t : Bytes) → IsPlain p → Matches false p t → p ≡ t
Matches-same [] t h empty = refl
Matches-same (x ∷ p) t (h, hs) (leave s d) = absurd (unfold is_plain in ground arith)
Matches-same (x ∷ p) t (h, hs) (take s d) = absurd (unfold is_plain in ground arith)
Matches-same (x ∷ p) (c ∷ t) (h, hs) (unit {q = q} s e d) =
    let tried : (if x == c then some p else none) ≡ some q =
      sym (unit_step-plain c x p h) ∙ TakesOne-unit_step false c x p q e in
    let (head, rest) : (x ≡ c) × (q ≡ p) = ground arith in
    rw (head, Matches-same p t hs (subst (λ r. Matches false r t) rest d)) refl

Bool-iff : (a b : Bool) → (a ≡ true → b ≡ true) → (b ≡ true → a ≡ true) → a ≡ b
Bool-iff true b f g = sym (f refl)
Bool-iff false b f g = ground (arith, g)

-- A pattern without a special byte matches the string that it is, and no other, where upper and lower
-- case are not the same.
glob_match-eqb : (p t : Bytes) → IsPlain p → glob_match p t false ≡ some (eqb p t)
glob_match-eqb p t h =
    let (b, e, (to, from)) = glob_match-Matches p t false in
    let same : (p ≡ t) → Matches false p t = λ q. subst (Matches false p) q (same-Matches p h) in
    let iff = eqb_iff p t in
    e
    ∙ ap some
        (Bool-iff b (eqb p t) (λ q. iff.1 (Matches-same p t h (to q))) (λ q. from (same (iff.0 q))))
