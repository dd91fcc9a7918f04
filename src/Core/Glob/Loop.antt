-- ===== src/Core/Glob/Loop.antt =====
-- The loop of `globMatch` decides the matching relation, within its fuel.
use mnemos.Prelude.{
  ℕ, zero, suc, ◌+◌, ◌*◌, ◌≤◌, ◌<◌, ◌≡◌, refl, subst, ◌↔◌, inl, inr, Bool, true, false, Option,
  none, some, [], ◌∷◌, length, arith, ◌==◌, Bool-cases, Option-cases,
}
use mnemos.Prelude.Bytes.{Bytes}
use mnemos.Core.Glob.{
  unit_step, skip_stars, front, Saved, Round, tail, retry, round, is_empty, glob_loop, glob_match,
}
use mnemos.Core.Glob.Units.{unit_step-length, length-skip_stars}
use mnemos.Core.Glob.OneByte.{unit_step-TakesOne}
use mnemos.Core.Glob.Matching.{
  Matches, leave, take, unit, Starred, star_at_end, must_take, two_stars, skip_stars-Starred,
  is_empty-Matches, drop_unit, unit_inv, unit_fails,
}

-- The loop ended with an answer, and the answer to `G` is right.
abbrev pub Decides : Type 0 → Option Bool → Type 0
Decides G none = ⊥
Decides G (some true) = G
Decides G (some false) = ¬ G

Decides-some : {G : Type 0} (b : Bool) → (b ≡ true) ↔ G → Decides G (some b)
Decides-some true e = e.0 refl
Decides-some false e = λ g. absurd (ground (arith, e.1 g))

-- `G` is the question that the caller asked, and every pattern on the way is shorter than `k`.
module _ (ci : Bool) (G : Type 0) (k : ℕ) where
  -- What the open star is good for; `m` bounds the bytes that it has yet to try.
  abbrev IsOpen : ℕ → Bytes → Bytes → Saved → Type 0
  IsOpen m p t none = G → Matches ci p t
  IsOpen m p t (some (sp, st)) =
      (G ↔ Starred ci sp st)
      × (Matches ci sp st → Matches ci p t)
      × (length t ≤ length st)
      × (length st ≤ m)
      × (length sp < k)

  record Inv (fuel m : ℕ) (p t : Bytes) (saved : Saved) : Type 0 where
    sound : Matches ci p t → G
    complete : G → Starred ci p t
    open_star : IsOpen m p t saved
    target_bound : length t ≤ m
    pattern_bound : length p < k
    enough : m * k + length p < fuel

  Inv-star :
      {fuel m : ℕ} {p t : Bytes}
      → G ↔ Starred ci p t
      → length t ≤ m
      → length p < k
      → m * k + length p < fuel
      → Inv fuel m p t (some (p, t))
  Inv-star e ht hp hf = record {
    sound = λ d. e.1 (leave refl d);
    complete = e.0;
    open_star = (e, λ d. d, omega arith, ht, hp);
    target_bound = ht;
    pattern_bound = hp;
    enough = hf;
  }

  IsOpen-unit :
      (m x c : ℕ) (p q t : Bytes) (saved : Saved)
      → (x == b'*') ≡ false
      → unit_step ci c x p ≡ some q
      → IsOpen m (x ∷ p) (c ∷ t) saved
      → IsOpen m q t saved
  IsOpen-unit m x c p q t none other e h = λ g. unit_inv ci other e (h g)
  IsOpen-unit m x c p q t (some (sp, st)) other e (iff, down, short, ht, hp) =
      (iff, λ d. unit_inv ci other e (down d), omega arith, ht, hp)

  Inv-unit :
      {fuel m : ℕ} (x c : ℕ) (p q t : Bytes) (saved : Saved)
      → (x == b'*') ≡ false
      → unit_step ci c x p ≡ some q
      → Inv (suc fuel) m (x ∷ p) (c ∷ t) saved
      → Inv fuel m q t saved
  Inv-unit {m} x c p q t saved other e i =
      let shorter = unit_step-length ci c x p q e in
      record {
        sound = λ d. i.sound (unit other (unit_step-TakesOne ci c x p q other e) d);
        complete = λ g. drop_unit ci c c t other e (i.complete g);
        open_star = IsOpen-unit m x c p q t saved other e i.open_star;
        target_bound = omega arith;
        pattern_bound = omega arith;
        enough = omega arith;
      }

  -- After a mismatch the open star takes a byte, which pays for going back in the pattern.
  retry-Decides :
      {fuel : ℕ} (m c : ℕ) (p t : Bytes) (saved : Saved) (next : Round)
      → ((m : ℕ) (p t : Bytes) (saved : Saved) → Inv fuel m p t saved → Decides G (next p t saved))
      → Inv (suc fuel) m p (c ∷ t) saved
      → ¬ Matches ci p (c ∷ t)
      → Decides G (retry next saved)
  unfolding retry tail
  retry-Decides m c p t none next ih i fails = λ g. fails (i.open_star g)
  retry-Decides m c p t (some (sp, [])) next ih i fails = absurd (omega arith)
  retry-Decides zero c p t (some (sp, b ∷ st)) next ih i fails = absurd (omega arith)
  retry-Decides (suc m) c p t (some (sp, b ∷ st)) next ih i fails =
      let (iff, down, _, _, _) = i.open_star in
      let again : G ↔ Starred ci sp st =
        (λ g. must_take ci (iff.0 g) (λ d. fails (down d)), λ d. iff.1 (take refl d)) in
      ih m sp st (some (sp, st)) (Inv-star again (omega arith) (omega arith) (omega arith))

  glob_loop-Decides :
      (fuel m : ℕ) (p t : Bytes) (saved : Saved)
      → Inv fuel m p t saved
      → Decides G (glob_loop fuel ci p t saved)
  unfolding glob_loop round front
  glob_loop-Decides zero m p t saved i = omega arith
  glob_loop-Decides (suc fuel) m p [] saved i =
      let (to, from) = is_empty-Matches ci p in
      Decides-some (is_empty (skip_stars p))
        (λ e. i.sound (to e), λ g. from (star_at_end ci (i.complete g)))
  glob_loop-Decides (suc fuel) m [] (c ∷ t) saved i =
      retry-Decides m c [] t saved (glob_loop fuel ci) (glob_loop-Decides fuel) i (λ d. elim d [ ])
  glob_loop-Decides (suc fuel) m (x ∷ p) (c ∷ t) saved i = elim (Bool-cases (x == b'*')) [
    | inl star ↦
        let (to, from) = skip_stars-Starred ci p (c ∷ t) in
        let same : b'*' ≡ x = ground arith in
        let fewer = length-skip_stars p in
        let question : G ↔ Starred ci (skip_stars p) (c ∷ t) = (
          λ g. to (two_stars ci (c ∷ t) star (i.complete g)),
          λ d. i.sound (subst (λ y. Matches ci (y ∷ p) (c ∷ t)) same (from d)),
        ) in
        rw star (
          glob_loop-Decides fuel m (skip_stars p) (c ∷ t) (some (skip_stars p, c ∷ t))
            (Inv-star question (omega arith) (omega arith) (omega arith)))
    | inr other ↦ elim (Option-cases (unit_step ci c x p)) [
      | inl fails ↦
          rw (other, fails)
            (retry-Decides m c (x ∷ p) t saved (glob_loop fuel ci) (glob_loop-Decides fuel) i
              (unit_fails ci other fails))
      | inr (q, goes) ↦
          rw (other, goes)
            (glob_loop-Decides fuel m q t saved (Inv-unit x c p q t saved other goes i))
    ]
  ]

glob_match-Decides :
    (ci : Bool) (pattern target : Bytes)
    → Decides (Matches ci pattern target) (glob_match pattern target ci)
unfolding glob_match
glob_match-Decides ci pattern target =
    let k = length pattern + 1 in
    let start : Inv ci (Matches ci pattern target) k ((length target + 1) * k) (length target)
        pattern target none =
      record {
        sound = λ d. d;
        complete = leave refl;
        open_star = λ d. d;
        target_bound = omega arith;
        pattern_bound = omega arith;
        enough = omega arith;
      } in
    glob_loop-Decides ci (Matches ci pattern target) k ((length target + 1) * k) (length target)
      pattern target none start

-- `globMatch` ends within (length of the target + 1) * (length of the pattern + 1) rounds, and it
-- answers true exactly where the pattern matches: a star stands for any bytes, and every other unit
-- for one byte, `?` for any, a literal or an escaped byte for the same byte, a class for its members,
-- and one that begins with a caret for all others. A `[` that is not closed stands for no byte, not
-- for itself.
pub glob_match-Matches :
    (pattern target : Bytes) (case_insensitive : Bool)
    → (b : Bool) × (glob_match pattern target case_insensitive ≡ some b)
      × ((b ≡ true) ↔ Matches case_insensitive pattern target)
glob_match-Matches pattern target ci =
    answer (glob_match pattern target ci) refl (glob_match-Decides ci pattern target)
  where
    answer :
        (r : Option Bool)
        → glob_match pattern target ci ≡ r
        → Decides (Matches ci pattern target) r
        → (b : Bool) × (glob_match pattern target ci ≡ some b)
          × ((b ≡ true) ↔ Matches ci pattern target)
    answer none e h = absurd h
    answer (some true) e h = (true, e, (λ _. h, λ _. refl))
    answer (some false) e h = (false, e, (λ f. absurd (ground arith), λ d. absurd (h d)))
