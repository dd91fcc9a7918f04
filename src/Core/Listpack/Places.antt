-- ===== src/Core/Listpack/Places.antt =====
-- `eraseRange`, `eraseAt`, `replaceAt` and `insertAt` by index, on every branch.
use mnemos.Prelude.{
  ℕ, zero, suc, ◌+◌, ◌^◌, ◌≤◌, ◌<◌, ◌≡◌, refl, sym, ap, ◌∙◌, subst, inl, inr, some, none, Bool,
  true, false, List, [], ◌∷◌, ◌++◌, append-nil, length, take, drop, drop_add, length-append,
  length-take, length-drop, take-append-drop, take-append_length, All-append, All-split, arith, ltb,
  leb, ◌==◌, Bool-cases,
}
use mnemos.Prelude.Bytes.{Bytes}
use mnemos.Core.Listpack.Entry.{decode_entry-build_entry}
use mnemos.Core.Listpack.Buffer.{Listpack, offset_of}
use mnemos.Core.Listpack.Edits.{
  erase_bytes, end_offset, erase_to, erase_from, erase_range, replace_found, replace_from,
  replace_at, insert_from, insert_at,
}
use mnemos.Core.Listpack.Layout.{Entry, IsEntry, body, Represents}
use mnemos.Core.Listpack.Reads.{decode_at-At, num_elements-length, offset_of-body}
use mnemos.Core.Listpack.Writes.{
  sized, size_field, update_size-sized, insert_bytes-sized, splice-Represents, entry_of,
  last_offset,
}
use mnemos.Core.Listpack.Erase.{
  buffer_sized, At-middle, end_offset-At, erase_bytes-sized, erase_to-Represents,
}

-- The offset of the entry behind `xs`.
offset_of-append :
    (lp : Listpack) (xs : List Entry) (e : Entry) (ys : List Entry)
    → Represents lp (xs ++ (e ∷ ys))
    → offset_of lp (length xs) ≡ some (6 + length (body xs))
offset_of-append lp xs e ys r =
    let inside : ltb (length xs) (length (xs ++ (e ∷ ys))) ≡ true =
      ground (arith, length-append xs (e ∷ ys)) in
    rw (offset_of-body lp (xs ++ (e ∷ ys)) r (length xs), inside, take-append_length xs (e ∷ ys))
      refl

end_offset-append :
    (lp : Listpack) (xs ms ys : List Entry)
    → Represents lp (xs ++ (ms ++ ys))
    → end_offset (length ms) lp.buffer (6 + length (body xs))
      ≡ some (6 + length (body xs) + length (body ms))
end_offset-append lp xs ms ys r =
    let (left, rest) = All-split IsEntry xs (ms ++ ys) r.entries in
    let inside : leb (length ms) (length (ms ++ ys)) ≡ true = ground (arith, length-append ms ys) in
    rw
      (
        end_offset-At (length ms) lp.buffer (6 + length (body xs)) (ms ++ ys)
            (At-middle lp xs (ms ++ ys) r) rest,
        inside,
        take-append_length ms ys,
      )
      refl

-- A result that is true, and what the listpack holds then.
abbrev pub Succeeds : Bool × Listpack → List Entry → Type 0
Succeeds result es = (result.0 ≡ true) × Represents (result.1) es

erase_range-append :
    (lp : Listpack) (xs ms ys : List Entry)
    → Represents lp (xs ++ (ms ++ ys))
    → Succeeds (erase_range lp (length xs) (length ms)) (xs ++ ys)
unfolding erase_range erase_from
erase_range-append lp xs [] ys r = (refl, r)
erase_range-append lp xs (m ∷ ms) ys r =
    let some_left : (length (m ∷ ms) == 0) ≡ false = ground arith in
    rw (some_left, offset_of-append lp xs m (ms ++ ys) r)
      (rw (end_offset-append lp xs (m ∷ ms) ys r) (erase_to-Represents lp xs (m ∷ ms) ys r))

-- An index and a count cut a list in three.
cut :
    (es : List Entry) (index count : ℕ)
    → es ≡ take index es ++ (take count (drop index es) ++ drop (index + count) es)
cut es index count =
    rw (drop_add index count es, take-append-drop count (drop index es), take-append-drop index es)
      refl

-- The walk over the entries to erase fails where there are too few.
end_offset_outside :
    (lp : Listpack) (es : List Entry) (r : Represents lp es) (index count : ℕ)
    → length es < index + count
    → index ≤ length es
    → end_offset count lp.buffer (6 + length (body (take index es))) ≡ none
end_offset_outside lp es r index count h k =
    let xs = take index es in
    let ms = drop index es in
    let s : Represents lp (xs ++ ms) = subst (Represents lp) (sym (take-append-drop index es)) r in
    let few : leb count (length ms) ≡ false = ground (arith, length-drop index es) in
    rw
      (
        end_offset-At count lp.buffer (6 + length (body xs)) ms (At-middle lp xs ms s)
            ((All-split IsEntry xs ms s.entries).1),
        few,
      )
      refl

erase_range-outside :
    (lp : Listpack) (es : List Entry) (r : Represents lp es) (index count : ℕ)
    → length es < index + count
    → 1 ≤ count
    → erase_range lp index count ≡ (false, lp)
unfolding erase_range erase_from erase_to
erase_range-outside lp es r index count h k =
    let some_left : (count == 0) ≡ false = ground arith in
    elim (Bool-cases (ltb index (length es))) [
      | inl inside ↦
          let at : index ≤ length es = ground arith in
          rw
            (
              some_left,
              offset_of-body lp es r index,
              inside,
              end_offset_outside lp es r index count h at,
            )
            refl
      | inr out ↦ rw (some_left, offset_of-body lp es r index, out) refl
    ]

module _ (lp : Listpack) (es : List Entry) (r : Represents lp es) where
  -- `eraseRange` takes out the entries from `index` on where there are so many; otherwise it is
  -- false and changes nothing, unless it is asked for none, where it is true.
  pub erase_range-Represents :
      (index count : ℕ)
      → (index + count ≤ length es
          → Succeeds (erase_range lp index count) (take index es ++ drop (index + count) es))
        × (length es < index + count → 1 ≤ count → erase_range lp index count ≡ (false, lp))
  erase_range-Represents index count = (inside, outside)
    where
      inside :
          index + count ≤ length es
          → Succeeds (erase_range lp index count) (take index es ++ drop (index + count) es)
      inside h =
          let xs = take index es in
          let ms = take count (drop index es) in
          let n : length xs ≡ index = omega (arith, length-take index es) in
          let k : length ms ≡ count =
            omega (arith, length-take count (drop index es), length-drop index es) in
          let done =
            erase_range-append lp xs ms (drop (index + count) es)
              (subst (Represents lp) (cut es index count) r) in
          rw n at (rw k at done)

      outside : length es < index + count → 1 ≤ count → erase_range lp index count ≡ (false, lp)
      outside h k = erase_range-outside lp es r index count h k

replace_at-append :
    (lp : Listpack) (xs : List Entry) (e : Entry) (ys : List Entry) (s : Bytes)
    → Represents lp (xs ++ (e ∷ ys))
    → length s < 2 ^ 32
    → Succeeds (replace_at lp (length xs) s) (xs ++ (entry_of s ∷ ys))
unfolding replace_at replace_from replace_found
replace_at-append lp xs e ys s r h =
    let (left, (i, right)) = All-split IsEntry xs (e ∷ ys) r.entries in
    let n = 6 + length (body xs) in
    let u = size_field (xs ++ (e ∷ ys)) in
    let one : body (e ∷ []) ≡ e.1 = unfold body in append-nil e.1 in
    let erased : erase_bytes n (n + length e.1) lp.buffer ≡ sized u r.stored (xs ++ ys) =
      ap (λ b. erase_bytes n (n + length e.1) b) (buffer_sized lp xs (e ∷ ys) r)
      ∙ rw one at (erase_bytes-sized u r.stored xs (e ∷ []) ys) in
    rw
      (
        offset_of-append lp xs e ys r,
        decode_at-At lp.buffer n e ys (At-middle lp xs (e ∷ ys) r) i,
        erased,
        insert_bytes-sized u r.stored xs ys (entry_of s),
        update_size-sized u r.stored (xs ++ (entry_of s ∷ ys)),
      )
      (
        refl,
        record {
          stored = r.stored;
          stored_bound = r.stored_bound;
          stored_right = ground (
            arith,
            r.stored_right,
            length-append xs (e ∷ ys),
            length-append xs (entry_of s ∷ ys),
          );
          buffer_layout = refl;
          entries =
              All-append IsEntry xs (entry_of s ∷ ys) left
                (λ rest. decode_entry-build_entry s rest h, right);
        },
      )

insert_at-append :
    (lp : Listpack) (xs ys : List Entry) (s : Bytes)
    → Represents lp (xs ++ ys)
    → length s < 2 ^ 32
    → Succeeds (insert_at lp (length xs) s) (xs ++ (entry_of s ∷ ys))
unfolding insert_at insert_from
insert_at-append lp xs [] s r h =
    let last : (length xs == length (xs ++ [])) ≡ true = ground (arith, length-append xs []) in
    let same : body (xs ++ []) ≡ body xs = ap body (append-nil xs) in
    rw (num_elements-length lp (xs ++ []) r, last, last_offset lp (xs ++ []) r, same)
      (refl, splice-Represents lp xs [] (entry_of s) r (λ rest. decode_entry-build_entry s rest h))
insert_at-append lp xs (y ∷ ys) s r h =
    let inside : (length xs == length (xs ++ (y ∷ ys))) ≡ false =
      ground (arith, length-append xs (y ∷ ys)) in
    rw (num_elements-length lp (xs ++ (y ∷ ys)) r, inside, offset_of-append lp xs y ys r)
      (
        refl,
        splice-Represents lp xs (y ∷ ys) (entry_of s) r (λ rest. decode_entry-build_entry s rest h),
      )

-- An index inside a list splits it at an element.
split_at {ℓ} :
    {A : Type ℓ} (es : List A) (index : ℕ)
    → index < length es
    → (e : A) × (es ≡ take index es ++ (e ∷ drop (suc index) es))
split_at [] index h = absurd (omega arith)
split_at (e ∷ es) zero h = (e, refl)
split_at (e ∷ es) (suc index) h =
    let (x, parts) = split_at es index (omega arith) in (x, ap (λ t. e ∷ t) parts)

module _ (lp : Listpack) (es : List Entry) (s : Bytes) (r : Represents lp es)
    (h : length s < 2 ^ 32) where
  -- `replaceAt` puts the entry of the string in the place of the entry at the index; without such an
  -- entry it is false and changes nothing.
  pub replace_at-Represents :
      (index : ℕ)
      → (index < length es
          → Succeeds (replace_at lp index s) (take index es ++ (entry_of s ∷ drop (suc index) es)))
        × (length es ≤ index → replace_at lp index s ≡ (false, lp))
  unfolding replace_at replace_from
  replace_at-Represents index = (
    λ inside.
        let (e, parts) = split_at es index inside in
        let n : length (take index es) ≡ index = omega (arith, length-take index es) in
        rw n at (
          replace_at-append lp (take index es) e (drop (suc index) es) s
            (subst (Represents lp) parts r) h),
    λ outside.
        let out : ltb index (length es) ≡ false = ground arith in
        rw (offset_of-body lp es r index, out) refl,
  )

  -- `insertAt` puts the entry of the string in front of the entry at the index, or behind the last
  -- one; on a larger index it is false and changes nothing.
  pub insert_at-Represents :
      (index : ℕ)
      → (index ≤ length es
          → Succeeds (insert_at lp index s) (take index es ++ (entry_of s ∷ drop index es)))
        × (length es < index → insert_at lp index s ≡ (false, lp))
  unfolding insert_at insert_from
  insert_at-Represents index = (
    λ inside.
        let n : length (take index es) ≡ index = omega (arith, length-take index es) in
        rw n at (
          insert_at-append lp (take index es) (drop index es) s
            (subst (Represents lp) (sym (take-append-drop index es)) r) h),
    λ outside.
        let out : ltb index (length es) ≡ false = ground arith in
        let other : (index == length es) ≡ false = ground arith in
        rw (num_elements-length lp es r, other, offset_of-body lp es r index, out) refl,
  )
