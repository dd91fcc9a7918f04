-- ===== src/Core/Listpack/Writes.antt =====
-- What the operations that change a listpack make of its sequence of entries.
use mnemos.Prelude.{
  ℕ, ◌+◌, ◌-◌, ◌%◌, ◌^◌, min, ◌≤◌, ◌<◌, ◌≡◌, refl, sym, ap, ◌∙◌, inl, inr, List, [], ◌∷◌, ◌++◌,
  append_assoc, append-nil, length, length-append, take-append_length, drop-append_length,
  All-append, All-split, subst, arith, ltb, Bool-cases,
}
use mnemos.Prelude.Bytes.{Bytes}
use mnemos.Core.IntSet.{append_le}
use mnemos.Prelude.Int.{ℤ, IsI64}
use mnemos.Core.Listpack.{integer, build_entry, build_integer_entry}
use mnemos.Core.Listpack.Entry.{
  element_of, decode_entry-build_entry, decode_entry-build_integer_entry,
}
use mnemos.Core.Listpack.Buffer.{Listpack, set_total_bytes, set_num_elements, listpack_eof, clear}
use mnemos.Core.Listpack.Edits.{insert_bytes, update_size, count_up, splice, append, append_integer}
use mnemos.Core.Listpack.Layout.{
  Entry, IsEntry, body, body-append, tail_of, layout, Represents, set_total_bytes-layout,
  length-layout, stored_count-layout, set_num_elements-layout,
}

-- The buffer with any number in the size field.
abbrev pub sized : ℕ → ℕ → List Entry → Bytes
sized u stored es = append_le 4 u ++ (append_le 2 stored ++ tail_of es)

-- Up to the entries `xs`.
abbrev pub before : ℕ → ℕ → List Entry → Bytes
before u stored xs = append_le 4 u ++ (append_le 2 stored ++ body xs)

-- What the size field holds.
abbrev pub size_field : List Entry → ℕ
size_field es = (7 + length (body es)) % 2 ^ 32

pub layout-sized :
    (stored : ℕ) (es : List Entry) → layout stored es ≡ sized (size_field es) stored es
unfolding layout
layout-sized stored es = refl

module _ (u stored : ℕ) (xs : List Entry) where
  pub length-before : length (before u stored xs) ≡ 6 + length (body xs)
  unfolding append_le
  length-before = omega arith

  pub sized-append :
      (ys : List Entry) → sized u stored (xs ++ ys) ≡ before u stored xs ++ tail_of ys
  unfolding append_le
  sized-append ys =
      let parts : tail_of (xs ++ ys) ≡ body xs ++ tail_of ys =
        ap (λ t. t ++ (listpack_eof ∷ [])) (body-append xs ys)
        ∙ append_assoc (body xs) (body ys) (listpack_eof ∷ []) in
      ap (λ t. append_le 4 u ++ (append_le 2 stored ++ t)) parts

  pub update_size-sized : update_size (sized u stored xs) ≡ layout stored xs
  unfolding update_size append_le
  update_size-sized =
      let size : length (sized u stored xs) ≡ 7 + length (body xs) =
        omega (arith, length-append (body xs) (listpack_eof ∷ [])) in
      ap (λ n. set_total_bytes n (sized u stored xs)) size ∙ set_total_bytes-layout stored xs u

insert_bytes-append :
    (n : ℕ) (p entry t : Bytes) → n ≡ length p → insert_bytes n entry (p ++ t) ≡ p ++ (entry ++ t)
unfolding insert_bytes
insert_bytes-append n p entry t h =
    rw (drop-append_length n p t h) (rw h (rw (take-append_length p t) refl))

-- An entry is put in front of the entries `ys`.
pub insert_bytes-sized :
    (u stored : ℕ) (xs ys : List Entry) (e : Entry)
    → insert_bytes (6 + length (body xs)) e.1 (sized u stored (xs ++ ys))
      ≡ sized u stored (xs ++ (e ∷ ys))
unfolding body
insert_bytes-sized u stored xs ys e =
    ap (insert_bytes (6 + length (body xs)) e.1) (sized-append u stored xs ys)
    ∙ insert_bytes-append (6 + length (body xs)) (before u stored xs) e.1 (tail_of ys)
        (sym (length-before u stored xs))
    ∙ ap (λ t. before u stored xs ++ t) (sym (append_assoc e.1 (body ys) (listpack_eof ∷ [])))
    ∙ sym (sized-append u stored xs (e ∷ ys))

-- One entry more: the count goes up, unless it is saturated.
count_up-layout :
    (stored : ℕ) (es : List Entry)
    → stored ≤ 65535
    → count_up (layout stored es) ≡ layout (min (stored + 1) 65535) es
unfolding count_up
count_up-layout stored es h =
    rw (stored_count-layout stored es h, set_num_elements-layout stored es (stored + 1))
      (elim (Bool-cases (ltb stored 65535)) [
        | inl below ↦ rw below (ap (λ n. layout n es) (ground arith))
        | inr full ↦ rw full (ap (λ n. layout n es) (ground arith))
      ])

pub splice-Represents :
    (lp : Listpack) (xs ys : List Entry) (e : Entry)
    → Represents lp (xs ++ ys)
    → IsEntry e
    → Represents (splice (6 + length (body xs)) e.1 lp) (xs ++ (e ∷ ys))
unfolding splice
splice-Represents lp xs ys e r h =
    let (left, right) = All-split IsEntry xs ys r.entries in
    let u = size_field (xs ++ ys) in
    let inserted : insert_bytes (6 + length (body xs)) e.1 lp.buffer
        ≡ sized u r.stored (xs ++ (e ∷ ys)) =
      ap (insert_bytes (6 + length (body xs)) e.1)
        (r.buffer_layout ∙ layout-sized r.stored (xs ++ ys))
      ∙ insert_bytes-sized u r.stored xs ys e in
    record {
      stored = min (r.stored + 1) 65535;
      stored_bound = omega arith;
      stored_right = ground (arith, r.stored_right, length-append xs ys, length-append xs (e ∷ ys));
      buffer_layout =
          ap (λ b. count_up (update_size b)) inserted
          ∙ ap count_up (update_size-sized u r.stored (xs ++ (e ∷ ys)))
          ∙ count_up-layout r.stored (xs ++ (e ∷ ys)) r.stored_bound;
      entries = All-append IsEntry xs (e ∷ ys) left (h, right);
    }

-- The entry of a string, and of an integer.
abbrev pub entry_of : Bytes → Entry
entry_of s = (element_of s, build_entry s)

abbrev pub integer_entry : ℤ → Entry
integer_entry v = (integer v, build_integer_entry v)

module _ (lp : Listpack) (es : List Entry) (r : Represents lp es) where
  pub last_offset : length lp.buffer - 1 ≡ 6 + length (body es)
  last_offset =
      let size : length lp.buffer ≡ 7 + length (body es) =
        ap length r.buffer_layout ∙ length-layout r.stored es in
      omega arith

  splice_last :
      (e : Entry) → IsEntry e → Represents (splice (length lp.buffer - 1) e.1 lp) (es ++ (e ∷ []))
  splice_last e h =
      rw last_offset
        (splice-Represents lp es [] e (subst (Represents lp) (sym (append-nil es)) r) h)

  -- `append` puts the entry of the string behind the others and keeps the header right.
  pub append-Represents :
      (s : Bytes) → length s < 2 ^ 32 → Represents (append lp s) (es ++ (entry_of s ∷ []))
  unfolding append
  append-Represents s h = splice_last (entry_of s) (λ rest. decode_entry-build_entry s rest h)

  pub append_integer-Represents :
      (v : ℤ) → IsI64 v → Represents (append_integer lp v) (es ++ (integer_entry v ∷ []))
  unfolding append_integer
  append_integer-Represents v h =
      splice_last (integer_entry v) (λ rest. decode_entry-build_integer_entry v rest h)

-- The constructor and `clear` make an empty listpack.
pub clear-Represents : Represents clear []
unfolding clear layout body set_total_bytes set_num_elements append_le
clear-Represents = record {
  stored = 0;
  stored_bound = omega arith;
  stored_right = inl refl;
  buffer_layout = refl;
  entries = tt;
}
