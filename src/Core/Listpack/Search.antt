-- ===== src/Core/Listpack/Search.antt =====
-- `find` against a search in the strings that the listpack holds.
use mnemos.Prelude.{
  ℕ, zero, suc, ◌+◌, ◌<◌, ◌≡◌, refl, sym, ap, ◌∙◌, Option, some, none, Bool, true, false, ◌&&◌,
  List, [], ◌∷◌, map, length, All, arith, if◌then◌else◌,
}
use mnemos.Prelude.Bytes.{Bytes, eqb, eqb_iff}
use mnemos.Prelude.Int.{ℤ, IsI64, eqb_ℤ, eqb_ℤ_iff}
use mnemos.Prelude.Decimal.{to_string}
use mnemos.Core.Encoding.{string_to_int64}
use mnemos.Core.Encoding.RoundTrip.{to_string-string_to_int64, string_to_int64-to_string}
use mnemos.Core.Listpack.{Element, integer, string, element_to_string}
use mnemos.Core.Listpack.Buffer.{Listpack, matches, is_candidate, find_from, find_found, find}
use mnemos.Core.Listpack.Layout.{Entry, IsEntry, Represents}
use mnemos.Core.Listpack.Entry.{element_of, stored_as}
use mnemos.Core.Listpack.Reads.{
  elements, At, At-next, At-start, at_end-At, at_end-At_nil, decode_at-At, enough_fuel,
}

-- A string is only stored as a string where it is no integer.
abbrev pub IsCanonical : Element → Type 0
IsCanonical (integer v) = IsI64 v
IsCanonical (string s) = string_to_int64 s ≡ none

pub element_of-IsCanonical : (s : Bytes) → IsCanonical (element_of s)
unfolding element_of
element_of-IsCanonical s = canonical (string_to_int64 s) refl
  where
    canonical : (o : Option ℤ) → string_to_int64 s ≡ o → IsCanonical (stored_as s o)
    canonical none e = unfold stored_as in e
    canonical (some v) e = unfold stored_as in (to_string-string_to_int64 s v e).1

eqb_of_iff : (s t : Bytes) (b : Bool) → (b ≡ true → s ≡ t) → (s ≡ t → b ≡ true) → b ≡ eqb s t
eqb_of_iff s t b f g = ground (arith, eqb_iff s t, f, g)

-- The comparison of `find` is equality of the strings.
pub matches-eqb :
    (value : Bytes) (e : Element)
    → IsCanonical e
    → matches (string_to_int64 value) value e ≡ eqb (element_to_string e) value
matches-eqb value e h = of_parse (string_to_int64 value) refl e h
  where
    of_parse :
        (o : Option ℤ)
        → string_to_int64 value ≡ o
        → (e : Element) → IsCanonical e
        → matches o value e ≡ eqb (element_to_string e) value
    of_parse (some n) p (integer v) h =
        unfold matches element_to_string in
        eqb_of_iff (to_string v) value (eqb_ℤ v n)
          (λ same. ap to_string ((eqb_ℤ_iff v n).0 same) ∙ (to_string-string_to_int64 value n p).0)
          (λ same.
            let back : some v ≡ some n =
              sym (string_to_int64-to_string v h) ∙ ap string_to_int64 same ∙ p in
            (eqb_ℤ_iff v n).1 (ground arith))
    of_parse none p (integer v) h =
        unfold matches element_to_string in
        eqb_of_iff (to_string v) value false (λ f. absurd (ground arith))
          (λ same.
            let back : some v ≡ none =
              sym (string_to_int64-to_string v h) ∙ ap string_to_int64 same ∙ p in
            absurd (ground arith))
    of_parse (some n) p (string s) h =
        unfold matches element_to_string in
        eqb_of_iff s value false (λ f. absurd (ground arith))
          (λ same.
            let back : none ≡ some n = sym h ∙ ap string_to_int64 same ∙ p in absurd (ground arith))
    of_parse none p (string s) h = unfold matches element_to_string in refl

module _ (value : Bytes) (start step : ℕ) where
  -- The first of these strings, counted from `index`, that is `value` and stands at `start` plus a
  -- multiple of `step`.
  unfoldable pub first_equal : ℕ → List Bytes → Option ℕ
  first_equal index [] = none
  first_equal index (s ∷ ss) =
      let rest = first_equal (index + 1) ss in
      if is_candidate start step index && eqb s value then some index else rest

  find_from-At :
      (fuel : ℕ) (buffer : Bytes) (index offset : ℕ) (es : List Entry)
      → length es < fuel
      → At buffer offset es
      → All IsEntry es
      → All IsCanonical (elements es)
      → find_from value start step fuel buffer index offset
        ≡ first_equal index (map element_to_string (elements es))
  unfolding find_from find_found first_equal
  find_from-At zero buffer index offset es f h i c = absurd (omega arith)
  find_from-At (suc fuel) buffer index offset [] f h i c = rw (at_end-At_nil buffer offset h) refl
  find_from-At (suc fuel) buffer index offset (e ∷ es) f h (i, is) (c, cs) =
      rw
        (
          at_end-At buffer offset e es h i,
          decode_at-At buffer offset e es h i,
          matches-eqb value e.0 c,
        )
        (ap
          (λ t.
            if is_candidate start step index && eqb (element_to_string e.0) value
            then some index
            else t)
          (find_from-At fuel buffer (index + 1) (offset + length e.1) es (omega arith)
            (At-next buffer offset e es h) is cs))

-- `find` returns the index of the first string of the listpack that is the value, among those that
-- stand at `start` plus a multiple of `step`, where every entry is in the encoding that the class
-- would have chosen. A stored integer is found by its text only.
pub find-first_equal :
    (lp : Listpack) (es : List Entry) (value : Bytes) (start step : ℕ)
    → Represents lp es
    → All IsCanonical (elements es)
    → find lp value start step
      ≡ first_equal value start step 0 (map element_to_string (elements es))
unfolding find
find-first_equal lp es value start step r c =
    find_from-At value start step (length lp.buffer) lp.buffer 0 6 es (enough_fuel lp es r)
      (At-start lp es r) r.entries c
