-- ===== src/Core/Glob/Classes.antt =====
-- The class loop reads the members of a class and finds out whether the byte is among them.
use mnemos.Prelude.{
  ℕ, zero, suc, ◌<◌, ◌≡◌, refl, sym, ap, ◌∙◌, subst, ◌↔◌, ◌⊎◌, inl, inr, Bool, true, false, not,
  ◌||◌, Option, none, some, List, [], ◌∷◌, length, arith, Bool-cases,
}
use mnemos.Prelude.Bytes.{Bytes}
use mnemos.Core.Glob.{
  fold, Piece, piece, in_range, same_char, class_round, class_loop, class_result,
}
use mnemos.Core.Glob.Language.{
  IsSame, Item, one, between, Hits, Contains, Items, ends, quotes, spans, lists,
}
use mnemos.Core.Glob.Pieces.{
  Cuts, nothing, closes, escapes, ranges, stands, piece-Cuts, piece-ends, piece-quotes, piece-spans,
  piece-lists,
}

pub same_char-IsSame : (ci : Bool) (x c : ℕ) → (same_char ci x c ≡ true) ↔ IsSame ci x c
unfolding same_char fold
same_char-IsSame false x c = (ground arith, ground arith)
same_char-IsSame true x c = (λ e. ground (arith, e), λ h. ground (arith, h))

in_range-Hits : (ci : Bool) (a b c : ℕ) → (in_range ci a b c ≡ true) ↔ Hits ci c (between a b)
unfolding in_range
in_range-Hits ci a b c = (λ e. ground (arith, e), λ h. ground (arith, h))

module _ (ci : Bool) (c : ℕ) where
  -- The test of the code for a member.
  unfoldable pub hit : Item → Bool
  hit (one x) = same_char ci x c
  hit (between a b) = in_range ci a b c

  hit-Hits : (i : Item) → (hit i ≡ true) ↔ Hits ci c i
  unfolding hit
  hit-Hits (one x) = same_char-IsSame ci x c
  hit-Hits (between a b) = in_range-Hits ci a b c

  -- `matched` after these members.
  unfoldable pub any_hit : List Item → Bool → Bool
  any_hit [] matched = matched
  any_hit (i ∷ is) matched = any_hit is (hit i || matched)

  any_hit-Contains :
      (is : List Item) (m : Bool) → (any_hit is m ≡ true) ↔ ((m ≡ true) ⊎ Contains ci c is)
  unfolding any_hit
  any_hit-Contains [] m = (λ e. inl e, λ h. elim h [ inl e ↦ e | inr f ↦ absurd f ])
  any_hit-Contains (i ∷ is) m =
      let (to, from) = any_hit-Contains is (hit i || m) in
      let (is_hit, hits) = hit-Hits i in
      (
        λ e. elim (to e) [
          | inl now ↦ elim (Bool-cases (hit i)) [
            | inl now_hit ↦ inr (inl (is_hit now_hit))
            | inr no_hit ↦ inl (ground (arith, now, no_hit))
          ]
          | inr later ↦ inr (inr later)
        ],
        λ h. elim h [
          | inl before ↦ from (inl (ground (arith, before)))
          | inr (inl now) ↦ let now_hit = hits now in from (inl (ground (arith, now_hit)))
          | inr (inr later) ↦ from (inr later)
        ],
      )

  -- The loop that ends at a `]` has read members.
  class_round-Items :
      (next : Bool → Bytes → Bool × Option Bytes) (m : Bool) (p q : Bytes) (r : Piece)
      → ((m : Bool) (p q : Bytes) → (next m p).1 ≡ some q → (is : List Item) × Items p is q)
      → ((m : Bool) → (next m []).1 ≡ none)
      → Cuts p r
      → (class_round next ci c m r).1 ≡ some q
      → (is : List Item) × Items p is q
  unfolding class_round
  class_round-Items next m _ q _ ih stop nothing e = absurd (ground (arith, e))
  class_round-Items next m _ q _ ih stop (closes {p = p}) e =
      let same : p ≡ q = ground (arith, e) in ([], subst (Items (b']' ∷ p) []) same ends)
  class_round-Items next m _ q _ ih stop (escapes {y = y} {p = p}) e =
      let (is, d) = ih (same_char ci y c || m) p q e in (one y ∷ is, quotes d)
  class_round-Items next m _ q _ ih stop (ranges {x = x} {z = z} {p = p} a b g) e =
      let (is, d) = ih (in_range ci x z c || m) p q e in (between x z ∷ is, spans a b g d)
  class_round-Items next m _ q _ ih stop (stands {x = x} {p = p} a (inl free) g) e =
      let (is, d) = ih (same_char ci x c || m) p q e in (one x ∷ is, lists a free g d)
  class_round-Items next m _ q _ ih stop (stands {x = x} {p = p} a (inr last) g) e =
      let none_left : (next (same_char ci x c || m) p).1 ≡ none =
        ap (λ r. (next (same_char ci x c || m) r).1) last ∙ stop (same_char ci x c || m) in
      absurd (ground (arith, e, none_left))

  class_loop-nil : (fuel : ℕ) (m : Bool) → (class_loop fuel ci c m []).1 ≡ none
  unfolding class_loop class_round piece
  class_loop-nil zero m = refl
  class_loop-nil (suc fuel) m = refl

  class_loop-Items :
      (fuel : ℕ) (m : Bool) (p q : Bytes)
      → (class_loop fuel ci c m p).1 ≡ some q
      → (is : List Item) × Items p is q
  unfolding class_loop
  class_loop-Items zero m p q e = absurd (ground (arith, e))
  class_loop-Items (suc fuel) m p q e =
      class_round-Items (class_loop fuel ci c) m p q (piece p) (class_loop-Items fuel)
        (class_loop-nil fuel) (piece-Cuts p) e

  -- The loop over members and their `]`.
  class_loop-any_hit :
      (fuel : ℕ) (m : Bool) (p q : Bytes) (is : List Item)
      → Items p is q
      → length p < fuel
      → class_loop fuel ci c m p ≡ (any_hit is m, some q)
  unfolding class_loop class_round any_hit hit
  class_loop-any_hit zero m p q is d h = absurd (omega arith)
  class_loop-any_hit (suc fuel) m _ q _ ends h = rw (piece-ends q) refl
  class_loop-any_hit (suc fuel) m _ q _ (quotes {y = y} {p = p} {is = is} d) h =
      rw (piece-quotes y p) (class_loop-any_hit fuel (same_char ci y c || m) p q is d (omega arith))
  class_loop-any_hit (suc fuel) m _ q _ (spans {x = x} {z = z} {p = p} {is = is} a b g d) h =
      rw (piece-spans x z p a b g)
        (class_loop-any_hit fuel (in_range ci x z c || m) p q is d (omega arith))
  class_loop-any_hit (suc fuel) m _ q _ (lists {x = x} {p = p} {is = is} a b g d) h =
      rw (piece-lists x p a b g)
        (class_loop-any_hit fuel (same_char ci x c || m) p q is d (omega arith))

  -- A class and what follows it, in both directions.
  class_result-some :
      (negate : Bool) (r : Bool × Option Bytes) (q : Bytes)
      → class_result negate r ≡ some q
      → (r.1 ≡ some q) × (r.0 ≡ not negate)
  unfolding class_result
  class_result-some negate (m, none) q e = absurd (ground (arith, e))
  class_result-some true (m, some a) q e = (ground (arith, e), ground (arith, e))
  class_result-some false (m, some a) q e = (ground (arith, e), ground (arith, e))

  pub class-members :
      (negate : Bool) (fuel : ℕ) (p q : Bytes)
      → length p < fuel
      → class_result negate (class_loop fuel ci c false p) ≡ some q
      → (is : List Item) × Items p is q × (any_hit is false ≡ not negate)
  class-members negate fuel p q h e =
      let (rest, verdict) = class_result-some negate (class_loop fuel ci c false p) q e in
      let (is, d) = class_loop-Items fuel false p q rest in
      let run = class_loop-any_hit fuel false p q is d h in
      (is, d, sym (ap (λ r. r.0) run) ∙ verdict)

  pub members-class :
      (negate : Bool) (fuel : ℕ) (p q : Bytes) (is : List Item)
      → length p < fuel
      → Items p is q
      → any_hit is false ≡ not negate
      → class_result negate (class_loop fuel ci c false p) ≡ some q
  unfolding class_result
  members-class true fuel p q is h d e = rw (class_loop-any_hit fuel false p q is d h, e) refl
  members-class false fuel p q is h d e = rw (class_loop-any_hit fuel false p q is d h, e) refl

  pub no_hit : (is : List Item) → (any_hit is false ≡ false) ↔ ¬ Contains ci c is
  no_hit is =
      let (to, from) = any_hit-Contains is false in
      (
        λ e d. let found = from (inr d) in absurd (ground (arith, e, found)),
        λ n. elim (Bool-cases (any_hit is false)) [
          | inl found ↦ elim (to found) [
            | inl wrong ↦ absurd (ground (arith, wrong))
            | inr d ↦ absurd (n d)
          ]
          | inr clear ↦ clear
        ],
      )

  pub some_hit : (is : List Item) → (any_hit is false ≡ true) ↔ Contains ci c is
  some_hit is =
      let (to, from) = any_hit-Contains is false in
      (
        λ e. elim (to e) [ inl wrong ↦ absurd (ground (arith, wrong)) | inr d ↦ d ],
        λ d. from (inr d),
      )
