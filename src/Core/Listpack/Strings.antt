-- ===== src/Core/Listpack/Strings.antt =====
-- A listpack that its own operations made, as a list of strings: the specification of the class, and
-- every sequence of edits against it.
use mnemos.Prelude.{
  ℕ, suc, ◌+◌, ◌^◌, ◌<◌, ◌≡◌, refl, sym, ap, ◌∙◌, Bool, true, false, List, [], ◌∷◌, ◌++◌, map,
  length, take, drop, length-map, map-append, map-take, map-drop, All, All-append, All-take,
  All-drop, arith, ltb, leb, ◌==◌, if◌then◌else◌, if_cases,
}
use mnemos.Prelude.Bytes.{Bytes}
use mnemos.Core.Listpack.{element_to_string}
use mnemos.Core.Listpack.Buffer.{Listpack, clear, to_strings, num_elements, find}
use mnemos.Core.Listpack.Edits.{append, erase_range, replace_at, insert_at}
use mnemos.Core.Listpack.Entry.{element_to_string-element_of}
use mnemos.Core.Listpack.Layout.{Entry, Represents}
use mnemos.Core.Listpack.Reads.{elements, for_each-elements, num_elements-length}
use mnemos.Core.Listpack.Search.{IsCanonical, element_of-IsCanonical, first_equal, find-first_equal}
use mnemos.Core.Listpack.Writes.{entry_of, clear-Represents, append-Represents}
use mnemos.Core.Listpack.Places.{
  Succeeds, erase_range-Represents, replace_at-Represents, insert_at-Represents,
}

abbrev texts : List Entry → List Bytes
texts es = map element_to_string (elements es)

-- The strings of a listpack whose entries are in the encoding that the class chooses.
pub record Holds (lp : Listpack) (ss : List Bytes) : Type 0 where
  es : List Entry
  represented : Represents lp es
  canonical : All IsCanonical (elements es)
  same_texts : texts es ≡ ss

pub clear-Holds : Holds clear []
clear-Holds = record { es = []; represented = clear-Represents; canonical = tt; same_texts = refl }

module _ (lp : Listpack) (ss : List Bytes) (h : Holds lp ss) where
  pub to_strings-Holds : to_strings lp ≡ ss
  unfolding to_strings
  to_strings-Holds =
      ap (map element_to_string) (for_each-elements lp h.es h.represented) ∙ h.same_texts

  length-Holds : length h.es ≡ length ss
  length-Holds =
      sym (length-map h.es (λ (e : Entry). e.0))
      ∙ sym (length-map (elements h.es) element_to_string)
      ∙ ap length h.same_texts

  pub num_elements-Holds : num_elements lp ≡ length ss
  num_elements-Holds = num_elements-length lp h.es h.represented ∙ length-Holds

  pub find-Holds :
      (value : Bytes) (start step : ℕ)
      → find lp value start step ≡ first_equal value start step 0 ss
  find-Holds value start step =
      find-first_equal lp h.es value start step h.represented h.canonical
      ∙ ap (first_equal value start step 0) h.same_texts

-- Strings put between two parts of the list.
texts-parts : (xs ys : List Entry) → texts (xs ++ ys) ≡ texts xs ++ texts ys
texts-parts xs ys =
    ap (map element_to_string) (map-append (λ (e : Entry). e.0) xs ys)
    ∙ map-append element_to_string (elements xs) (elements ys)

texts-entry_of : (s : Bytes) (ys : List Entry) → texts (entry_of s ∷ ys) ≡ s ∷ texts ys
texts-entry_of s ys = ap (λ t. t ∷ texts ys) (element_to_string-element_of s)

texts-take : (n : ℕ) (es : List Entry) → texts (take n es) ≡ take n (texts es)
texts-take n es =
    ap (map element_to_string) (map-take (λ (e : Entry). e.0) n es)
    ∙ map-take element_to_string n (elements es)

texts-drop : (n : ℕ) (es : List Entry) → texts (drop n es) ≡ drop n (texts es)
texts-drop n es =
    ap (map element_to_string) (map-drop (λ (e : Entry). e.0) n es)
    ∙ map-drop element_to_string n (elements es)

-- One edit, with its arguments.
pub data Edit : Type 0 where
  push : Bytes → Edit
  insert : ℕ → Bytes → Edit
  replace : ℕ → Bytes → Edit
  erase : ℕ → ℕ → Edit

-- The strings of an edit are shorter than 4 GiB.
abbrev pub IsShort : Edit → Type 0
IsShort (push s) = length s < 2 ^ 32
IsShort (insert i s) = length s < 2 ^ 32
IsShort (replace i s) = length s < 2 ^ 32
IsShort (erase i n) = Unit {0}

unfoldable pub apply_edit : Edit → Listpack → Bool × Listpack
apply_edit (push s) lp = (true, append lp s)
apply_edit (insert i s) lp = insert_at lp i s
apply_edit (replace i s) lp = replace_at lp i s
apply_edit (erase i n) lp = erase_range lp i n

-- What the edit is for a list of strings.
unfoldable pub edit_list : Edit → List Bytes → Bool × List Bytes
edit_list (push s) ss = (true, ss ++ (s ∷ []))
edit_list (insert i s) ss =
    if leb i (length ss) then (true, take i ss ++ (s ∷ drop i ss)) else (false, ss)
edit_list (replace i s) ss =
    if ltb i (length ss) then (true, take i ss ++ (s ∷ drop (suc i) ss)) else (false, ss)
edit_list (erase i n) ss =
    if n == 0
    then (true, ss)
    else if leb (i + n) (length ss)
    then (true, take i ss ++ drop (i + n) ss)
    else (false, ss)

-- The results agree, and so do the lists.
abbrev Agree : Bool × Listpack → Bool × List Bytes → Type 0
Agree r s = (r.0 ≡ s.0) × Holds (r.1) (s.1)

abbrev AllCanonical : List Entry → Type 0
AllCanonical es = All IsCanonical (elements es)

AllCanonical-parts :
    (xs ys : List Entry) → AllCanonical xs → AllCanonical ys → AllCanonical (xs ++ ys)
AllCanonical-parts xs ys h k =
    rw (map-append (λ (e : Entry). e.0) xs ys)
      (All-append IsCanonical (elements xs) (elements ys) h k)

AllCanonical-take : (n : ℕ) (es : List Entry) → AllCanonical es → AllCanonical (take n es)
AllCanonical-take n es h =
    rw (map-take (λ (e : Entry). e.0) n es) (All-take IsCanonical n (elements es) h)

AllCanonical-drop : (n : ℕ) (es : List Entry) → AllCanonical es → AllCanonical (drop n es)
AllCanonical-drop n es h =
    rw (map-drop (λ (e : Entry). e.0) n es) (All-drop IsCanonical n (elements es) h)

module _ (lp : Listpack) (ss : List Bytes) (h : Holds lp ss) where
  -- The entries on both sides of a place are kept.
  Agree-place :
      (result : Bool × Listpack) (i j : ℕ) (s : Bytes)
      → Succeeds result (take i h.es ++ (entry_of s ∷ drop j h.es))
      → Agree result (true, take i ss ++ (s ∷ drop j ss))
  Agree-place result i j s (done, r) =
      let left = take i h.es in
      let right = entry_of s ∷ drop j h.es in
      let after : AllCanonical right =
        (element_of-IsCanonical s, AllCanonical-drop j h.es h.canonical) in
      (
        done,
        record {
          es = left ++ right;
          represented = r;
          canonical = AllCanonical-parts left right (AllCanonical-take i h.es h.canonical) after;
          same_texts =
              texts-parts left right
              ∙ rw
                  (
                    texts-entry_of s (drop j h.es),
                    texts-take i h.es,
                    texts-drop j h.es,
                    h.same_texts,
                  )
                  refl;
        },
      )

  Agree-push : (s : Bytes) → length s < 2 ^ 32 → Agree (true, append lp s) (true, ss ++ (s ∷ []))
  Agree-push s k = (
    refl,
    record {
      es = h.es ++ (entry_of s ∷ []);
      represented = append-Represents lp h.es h.represented s k;
      canonical =
          AllCanonical-parts h.es (entry_of s ∷ []) h.canonical (element_of-IsCanonical s, tt);
      same_texts = texts-parts h.es (entry_of s ∷ []) ∙ rw (h.same_texts, texts-entry_of s []) refl;
    },
  )

  Agree-erase :
      (result : Bool × Listpack) (i j : ℕ)
      → Succeeds result (take i h.es ++ drop j h.es)
      → Agree result (true, take i ss ++ drop j ss)
  Agree-erase result i j (done, r) =
      let left = take i h.es in
      let right = drop j h.es in
      (
        done,
        record {
          es = left ++ right;
          represented = r;
          canonical =
              AllCanonical-parts left right (AllCanonical-take i h.es h.canonical)
                (AllCanonical-drop j h.es h.canonical);
          same_texts =
              texts-parts left right ∙ rw (texts-take i h.es, texts-drop j h.es, h.same_texts) refl;
        },
      )

  Agree-unchanged : (result : Bool × Listpack) → result ≡ (false, lp) → Agree result (false, ss)
  Agree-unchanged result same = rw same (refl, h)

  erase_nothing : (i n : ℕ) → (n == 0) ≡ true → Agree (erase_range lp i n) (true, ss)
  unfolding erase_range
  erase_nothing i n z = rw z (refl, h)

  apply_edit-edit_list : (e : Edit) → IsShort e → Agree (apply_edit e lp) (edit_list e ss)
  unfolding apply_edit edit_list
  apply_edit-edit_list (push s) k = Agree-push s k
  apply_edit-edit_list (insert i s) k =
      let (inside, outside) = insert_at-Represents lp h.es s h.represented k i in
      let n = length-Holds lp ss h in
      if_cases (Agree (insert_at lp i s)) (leb i (length ss)) _ _
        (λ t. Agree-place (insert_at lp i s) i i s (inside (ground (arith, n, t))))
        (λ t. Agree-unchanged (insert_at lp i s) (outside (ground (arith, n, t))))
  apply_edit-edit_list (replace i s) k =
      let (inside, outside) = replace_at-Represents lp h.es s h.represented k i in
      let n = length-Holds lp ss h in
      if_cases (Agree (replace_at lp i s)) (ltb i (length ss)) _ _
        (λ t. Agree-place (replace_at lp i s) i (suc i) s (inside (ground (arith, n, t))))
        (λ t. Agree-unchanged (replace_at lp i s) (outside (ground (arith, n, t))))
  apply_edit-edit_list (erase i n) k =
      let (inside, outside) = erase_range-Represents lp h.es h.represented i n in
      let m = length-Holds lp ss h in
      if_cases (Agree (erase_range lp i n)) (n == 0) _ _ (erase_nothing i n) (λ left.
        if_cases (Agree (erase_range lp i n)) (leb (i + n) (length ss)) _ _
          (λ t. Agree-erase (erase_range lp i n) i (i + n) (inside (ground (arith, m, t))))
          (λ t.
            Agree-unchanged (erase_range lp i n)
              (outside (ground (arith, m, t)) (ground (arith, left)))))

-- A sequence of edits: the results, and what is left.
unfoldable pub apply_edits : List Edit → Listpack → List Bool × Listpack
apply_edits [] lp = ([], lp)
apply_edits (e ∷ es) lp =
    let (ok, next) = apply_edit e lp in let (oks, last) = apply_edits es next in (ok ∷ oks, last)

unfoldable pub edit_all : List Edit → List Bytes → List Bool × List Bytes
edit_all [] ss = ([], ss)
edit_all (e ∷ es) ss =
    let (ok, next) = edit_list e ss in let (oks, last) = edit_all es next in (ok ∷ oks, last)

edits_refine :
    (edits : List Edit) (lp : Listpack) (ss : List Bytes)
    → Holds lp ss
    → All IsShort edits
    → ((apply_edits edits lp).0 ≡ (edit_all edits ss).0)
      × Holds ((apply_edits edits lp).1) ((edit_all edits ss).1)
unfolding apply_edits edit_all
edits_refine [] lp ss h k = (refl, h)
edits_refine (e ∷ es) lp ss h (k, ks) =
    let (ok, next) = apply_edit-edit_list lp ss h e k in
    let (oks, last) = edits_refine es ((apply_edit e lp).1) ((edit_list e ss).1) next ks in
    (rw (ok, oks) refl, last)

-- A listpack that starts empty refines a list of strings: after every sequence of `append`,
-- `insertAt`, `replaceAt` and `eraseRange` with strings of less than 4 GiB, the results are those of
-- the list operations, `toStrings` is the list, `numElements` its length, and `find` finds in it.
pub apply_edits-edit_all :
    (edits : List Edit) (value : Bytes) (start step : ℕ)
    → All IsShort edits
    → let (oks, lp) = apply_edits edits clear in
      let (wanted, ss) = edit_all edits [] in
      (oks ≡ wanted)
      × (to_strings lp ≡ ss)
      × (num_elements lp ≡ length ss)
      × (find lp value start step ≡ first_equal value start step 0 ss)
apply_edits-edit_all edits value start step k =
    let (oks, h) = edits_refine edits clear [] clear-Holds k in
    let lp = (apply_edits edits clear).1 in
    let ss = (edit_all edits []).1 in
    (oks, to_strings-Holds lp ss h, num_elements-Holds lp ss h, find-Holds lp ss h value start step)
