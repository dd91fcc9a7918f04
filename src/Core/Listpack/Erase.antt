-- ===== src/Core/Listpack/Erase.antt =====
-- `eraseRange`, `eraseAt`, `replaceAt` and `insertAt` on the sequence of entries.
use mnemos.Prelude.{
  ℕ, zero, suc, ◌+◌, ◌-◌, min, ◌≤◌, ◌≡◌, refl, sym, ap, ◌∙◌, ◌⊎◌, inl, inr, some, none, true, List,
  [], ◌∷◌, ◌++◌, append_assoc, length, take, drop, drop_add, length-append, take-append_length,
  drop-append_length, All, All-append, All-split, arith, ltb, leb, if◌then◌else◌, Bool-cases,
}
use mnemos.Prelude.Bytes.{Bytes}
use mnemos.Core.Listpack.Buffer.{Listpack, listpack_eof}
use mnemos.Core.Listpack.Edits.{
  erase_bytes, update_size, count_down, end_found, end_offset, erase_to,
}
use mnemos.Core.Listpack.Layout.{
  Entry, IsEntry, body, body-append, tail_of, layout, Represents, stored_count-layout,
  set_num_elements-layout,
}
use mnemos.Core.Listpack.Reads.{
  At, At-next, at_end-At, at_end-At_nil, decode_at-At, num_elements-length,
}
use mnemos.Core.Listpack.Writes.{
  sized, size_field, layout-sized, before, length-before, sized-append, update_size-sized,
}

pub end_offset-At :
    (count : ℕ) (buffer : Bytes) (offset : ℕ) (es : List Entry)
    → At buffer offset es
    → All IsEntry es
    → end_offset count buffer offset
      ≡ (if leb count (length es) then some (offset + length (body (take count es))) else none)
unfolding end_offset end_found body
end_offset-At zero buffer offset es h i = ground arith
end_offset-At (suc count) buffer offset [] h i = rw (at_end-At_nil buffer offset h) (ground arith)
end_offset-At (suc count) buffer offset (e ∷ es) h (i, is) =
    rw (at_end-At buffer offset e es h i, decode_at-At buffer offset e es h i)
      (ground (
        arith,
        length-append e.1 (body (take count es)),
        end_offset-At count buffer (offset + length e.1) es (At-next buffer offset e es h) is,
      ))

erase_bytes-append :
    (n m : ℕ) (p q t : Bytes)
    → n ≡ length p
    → m ≡ length p + length q
    → erase_bytes n m (p ++ (q ++ t)) ≡ p ++ t
unfolding erase_bytes
erase_bytes-append n m p q t h k =
    rw (h, take-append_length p (q ++ t), k, drop_add (length p) (length q) (p ++ (q ++ t)))
      (rw (drop-append_length (length p) p (q ++ t) refl, drop-append_length (length q) q t refl)
        refl)

-- The entries `ms` are taken out.
pub erase_bytes-sized :
    (u stored : ℕ) (xs ms ys : List Entry)
    → erase_bytes
        (6 + length (body xs))
        (6 + length (body xs) + length (body ms))
        (sized u stored (xs ++ (ms ++ ys)))
      ≡ sized u stored (xs ++ ys)
erase_bytes-sized u stored xs ms ys =
    let first = 6 + length (body xs) in
    let last = 6 + length (body xs) + length (body ms) in
    let head = length-before u stored xs in
    let parts : tail_of (ms ++ ys) ≡ body ms ++ tail_of ys =
      ap (λ t. t ++ (listpack_eof ∷ [])) (body-append ms ys)
      ∙ append_assoc (body ms) (body ys) (listpack_eof ∷ []) in
    ap (erase_bytes first last)
      (sized-append u stored xs (ms ++ ys) ∙ ap (λ t. before u stored xs ++ t) parts)
    ∙ erase_bytes-append first last (before u stored xs) (body ms) (tail_of ys) (sym head)
        (omega (arith, head))
    ∙ sym (sized-append u stored xs ys)

count_down-Represents :
    (count stored : ℕ) (es : List Entry)
    → stored ≤ 65535
    → (stored ≡ length es + count) ⊎ (stored ≡ 65535)
    → All IsEntry es
    → Represents (count_down count (record { buffer = layout stored es })) es
unfolding count_down
count_down-Represents count stored es bound right i =
    let lp : Listpack = record { buffer = layout stored es } in
    rw (stored_count-layout stored es bound) (elim (Bool-cases (ltb stored 65535)) [
      | inl below ↦ rw below (record {
        stored = length es;
        stored_bound = ground arith;
        stored_right = inl refl;
        buffer_layout =
            set_num_elements-layout stored es (if leb count stored then stored - count else 0)
            ∙ ap (λ n. layout n es) (ground (arith, right));
        entries = i;
      })
      | inr full ↦
          let saturated : stored ≡ 65535 = ground arith in
          let r : Represents lp es = record {
            stored = stored;
            stored_bound = bound;
            stored_right = inr saturated;
            buffer_layout = refl;
            entries = i;
          } in
          rw (full, num_elements-length lp es r)
            (record {
              stored = min (length es) 65535;
              stored_bound = omega arith;
              stored_right = omega arith;
              buffer_layout = set_num_elements-layout stored es (length es);
              entries = i;
            })
    ])

module _ (lp : Listpack) (xs ms : List Entry) (r : Represents lp (xs ++ ms)) where
  pub buffer_sized : lp.buffer ≡ sized (size_field (xs ++ ms)) r.stored (xs ++ ms)
  buffer_sized = r.buffer_layout ∙ layout-sized r.stored (xs ++ ms)

  pub At-middle : At lp.buffer (6 + length (body xs)) ms
  At-middle =
      let u = size_field (xs ++ ms) in
      let n = 6 + length (body xs) in
      ap (drop n) (buffer_sized ∙ sized-append u r.stored xs ms)
      ∙ drop-append_length n (before u r.stored xs) (tail_of ms) (sym (length-before u r.stored xs))

-- The listpack after the erasure of `ms`: the result of `eraseRange` from the offsets on.
pub erase_to-Represents :
    (lp : Listpack) (xs ms ys : List Entry)
    → Represents lp (xs ++ (ms ++ ys))
    → let result =
        erase_to lp
          (length ms)
          (6 + length (body xs))
          (some (6 + length (body xs) + length (body ms))) in
      (result.0 ≡ true) × Represents (result.1) (xs ++ ys)
unfolding erase_to
erase_to-Represents lp xs ms ys r =
    let (left, rest) = All-split IsEntry xs (ms ++ ys) r.entries in
    let (middle, right) = All-split IsEntry ms ys rest in
    let first = 6 + length (body xs) in
    let last = 6 + length (body xs) + length (body ms) in
    let u = size_field (xs ++ (ms ++ ys)) in
    let after : update_size (erase_bytes first last lp.buffer) ≡ layout r.stored (xs ++ ys) =
      ap (λ b. update_size (erase_bytes first last b)) (buffer_sized lp xs (ms ++ ys) r)
      ∙ ap update_size (erase_bytes-sized u r.stored xs ms ys)
      ∙ update_size-sized u r.stored (xs ++ ys) in
    (
      refl,
      rw after (
          count_down-Represents (length ms) r.stored (xs ++ ys) r.stored_bound
            (ground (
              arith,
              r.stored_right,
              length-append xs (ms ++ ys),
              length-append ms ys,
              length-append xs ys,
            ))
            (All-append IsEntry xs ys left right)),
    )
