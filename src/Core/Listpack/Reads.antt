-- ===== src/Core/Listpack/Reads.antt =====
-- What the reading operations return for the entries of a buffer. Each loop is followed from one
-- entry to the next.
use mnemos.Prelude.{
  ℕ, zero, suc, ◌+◌, ◌≤◌, ◌<◌, ◌≡◌, refl, ap, ◌∙◌, inl, inr, some, none, true, false, List, [], ◌∷◌,
  ◌++◌, map, append_assoc, length, take, drop, drop_add, get_elem?, length-append,
  drop-append_length, All, arith, ltb, if◌then◌else◌, Bool-cases, length-map,
}
use mnemos.Prelude.Bytes.{Bytes}
use mnemos.Core.Listpack.{Element, decode_entry, decode_payload, sized_entry}
use mnemos.Core.Listpack.Buffer.{
  Listpack, at_end, decode_at, for_each_from, for_each_found, for_each, num_elements, offset_from,
  offset_found, offset_of, element_at, element_found, get, stored_count, listpack_eof,
}
use mnemos.Core.Listpack.Layout.{
  Entry, IsEntry, body, tail_of, Represents, drop-layout, length-layout, stored_count-layout,
}

-- The elements that a buffer of these entries holds.
abbrev pub elements : List Entry → List Element
elements es = map (λ (e : Entry). e.0) es

decode_entry-at_end : (p : Bytes) → at_end p ≡ true → decode_entry p ≡ none
unfolding at_end decode_entry decode_payload sized_entry
decode_entry-at_end [] h = refl
decode_entry-at_end (b ∷ p) h = let eof : b ≡ 0xFF = ground arith in rw eof refl

pub at_end-IsEntry : (e : Entry) (rest : Bytes) → IsEntry e → at_end (e.1 ++ rest) ≡ false
at_end-IsEntry e rest h = elim (Bool-cases (at_end (e.1 ++ rest))) [
  | inl ends ↦ absurd (ground (arith, decode_entry-at_end (e.1 ++ rest) ends, h rest))
  | inr goes ↦ goes
]

pub length-IsEntry : (e : Entry) → IsEntry e → 1 ≤ length e.1
length-IsEntry (x, []) h =
    absurd (ground (arith, decode_entry-at_end [] (unfold at_end in refl), h []))
length-IsEntry (x, b ∷ p) h = omega arith

pub length-body : (es : List Entry) → All IsEntry es → length es ≤ length (body es)
unfolding body
length-body [] h = omega arith
length-body (e ∷ es) (h, hs) =
    omega (arith, length-append e.1 (body es), length-IsEntry e h, length-body es hs)

-- The bytes from `offset` on are these entries and the terminator.
abbrev pub At : Bytes → ℕ → List Entry → Type 0
At buffer offset es = drop offset buffer ≡ tail_of es

pub At-next :
    (buffer : Bytes) (offset : ℕ) (e : Entry) (es : List Entry)
    → At buffer offset (e ∷ es)
    → At buffer (offset + length e.1) es
unfolding body
At-next buffer offset e es h =
    drop_add offset (length e.1) buffer
    ∙ ap (drop (length e.1)) (h ∙ append_assoc e.1 (body es) (listpack_eof ∷ []))
    ∙ drop-append_length (length e.1) e.1 (tail_of es) refl

pub at_end-At_nil :
    (buffer : Bytes) (offset : ℕ) → At buffer offset [] → at_end (drop offset buffer) ≡ true
unfolding body at_end
at_end-At_nil buffer offset h = rw h refl

pub at_end-At :
    (buffer : Bytes) (offset : ℕ) (e : Entry) (es : List Entry)
    → At buffer offset (e ∷ es)
    → IsEntry e
    → at_end (drop offset buffer) ≡ false
unfolding body
at_end-At buffer offset e es h i =
    ap at_end (h ∙ append_assoc e.1 (body es) (listpack_eof ∷ [])) ∙ at_end-IsEntry e _ i

pub decode_at-At :
    (buffer : Bytes) (offset : ℕ) (e : Entry) (es : List Entry)
    → At buffer offset (e ∷ es)
    → IsEntry e
    → decode_at buffer offset ≡ some (e.0, length e.1)
unfolding body decode_at
decode_at-At buffer offset e es h i =
    ap decode_entry (h ∙ append_assoc e.1 (body es) (listpack_eof ∷ [])) ∙ i _

for_each_from-At :
    (fuel : ℕ) (buffer : Bytes) (offset : ℕ) (es : List Entry)
    → length es < fuel
    → At buffer offset es
    → All IsEntry es
    → for_each_from fuel buffer offset ≡ elements es
unfolding for_each_from for_each_found
for_each_from-At zero buffer offset es f h i = absurd (omega arith)
for_each_from-At (suc fuel) buffer offset [] f h i = rw (at_end-At_nil buffer offset h) refl
for_each_from-At (suc fuel) buffer offset (e ∷ es) f h (i, is) =
    rw (at_end-At buffer offset e es h i, decode_at-At buffer offset e es h i)
      (ap (λ t. e.0 ∷ t)
        (for_each_from-At fuel buffer (offset + length e.1) es (omega arith)
          (At-next buffer offset e es h) is))

-- A loop that starts at the first entry has enough fuel.
module _ (lp : Listpack) (es : List Entry) (r : Represents lp es) where
  pub At-start : At lp.buffer 6 es
  At-start = ap (drop 6) r.buffer_layout ∙ drop-layout r.stored es

  pub enough_fuel : length es < length lp.buffer
  enough_fuel =
      let size : length lp.buffer ≡ 7 + length (body es) =
        ap length r.buffer_layout ∙ length-layout r.stored es in
      omega (arith, length-body es r.entries)

  -- `forEach` passes the elements of all entries to the callback, in order.
  pub for_each-elements : for_each lp ≡ elements es
  unfolding for_each
  for_each-elements =
      for_each_from-At (length lp.buffer) lp.buffer 6 es enough_fuel At-start r.entries

  pub num_elements-length : num_elements lp ≡ length es
  unfolding num_elements
  num_elements-length =
      let field : stored_count lp.buffer ≡ r.stored =
        ap stored_count r.buffer_layout ∙ stored_count-layout r.stored es r.stored_bound in
      rw (field, for_each-elements)
        (ground (arith, r.stored_right, length-map es (λ (e : Entry). e.0)))

-- The offset of an entry is the size of the header and of the entries before it.
offset_from-At :
    (fuel : ℕ) (buffer : Bytes) (index offset : ℕ) (es : List Entry)
    → length es < fuel
    → At buffer offset es
    → All IsEntry es
    → offset_from fuel buffer index offset
      ≡ (if ltb index (length es) then some (offset + length (body (take index es))) else none)
unfolding offset_from offset_found body
offset_from-At zero buffer index offset es f h i = absurd (omega arith)
offset_from-At (suc fuel) buffer index offset [] f h i =
    rw (at_end-At_nil buffer offset h) (ground arith)
offset_from-At (suc fuel) buffer zero offset (e ∷ es) f h (i, is) =
    rw (at_end-At buffer offset e es h i) (ground arith)
offset_from-At (suc fuel) buffer (suc index) offset (e ∷ es) f h (i, is) =
    rw (at_end-At buffer offset e es h i, decode_at-At buffer offset e es h i)
      (ground (
        arith,
        length-append e.1 (body (take index es)),
        offset_from-At fuel buffer index (offset + length e.1) es (omega arith)
            (At-next buffer offset e es h) is,
      ))

element_at-offset_from :
    (fuel : ℕ) (buffer : Bytes) (index offset : ℕ) (es : List Entry)
    → length es < fuel
    → At buffer offset es
    → All IsEntry es
    → element_at buffer (offset_from fuel buffer index offset) ≡ get_elem? (elements es) index
unfolding offset_from offset_found element_at element_found
element_at-offset_from zero buffer index offset es f h i = absurd (omega arith)
element_at-offset_from (suc fuel) buffer index offset [] f h i =
    rw (at_end-At_nil buffer offset h) refl
element_at-offset_from (suc fuel) buffer zero offset (e ∷ es) f h (i, is) =
    rw (at_end-At buffer offset e es h i, decode_at-At buffer offset e es h i) refl
element_at-offset_from (suc fuel) buffer (suc index) offset (e ∷ es) f h (i, is) =
    rw (at_end-At buffer offset e es h i, decode_at-At buffer offset e es h i)
      (ground (
        arith,
        element_at-offset_from fuel buffer index (offset + length e.1) es (omega arith)
            (At-next buffer offset e es h) is,
      ))

module _ (lp : Listpack) (es : List Entry) (r : Represents lp es) where
  pub offset_of-body :
      (index : ℕ)
      → offset_of lp index
        ≡ (if ltb index (length es) then some (6 + length (body (take index es))) else none)
  unfolding offset_of
  offset_of-body index =
      offset_from-At (length lp.buffer) lp.buffer index 6 es (enough_fuel lp es r)
        (At-start lp es r) r.entries

  pub get-elements : (index : ℕ) → get lp index ≡ get_elem? (elements es) index
  unfolding get offset_of
  get-elements index =
      element_at-offset_from (length lp.buffer) lp.buffer index 6 es (enough_fuel lp es r)
        (At-start lp es r) r.entries
