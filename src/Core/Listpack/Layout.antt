-- ===== src/Core/Listpack/Layout.antt =====
-- The buffer of a listpack as a sequence of entries: what an operation may rely on.
use mnemos.Prelude.{
  ℕ, ◌+◌, ◌%◌, ◌^◌, min, ◌≤◌, ◌≡◌, refl, sym, ◌⊎◌, some, List, [], ◌∷◌, ◌++◌, append_assoc, length,
  drop, length-append, All, arith,
}
use mnemos.Prelude.Bytes.{Bytes}
use mnemos.Core.IntSet.{append_le, from_le}
use mnemos.Core.Listpack.{Element, decode_entry}
use mnemos.Core.Listpack.Buffer.{
  Listpack, set_total_bytes, set_num_elements, stored_count, listpack_eof,
}

-- An element and the bytes of its entry.
abbrev pub Entry : Type 0
Entry = Element × Bytes

-- The bytes decode to the element, whatever follows them.
abbrev pub IsEntry : Entry → Type 0
IsEntry e = (rest : Bytes) → decode_entry (e.1 ++ rest) ≡ some (e.0, length e.1)

unfoldable pub body : List Entry → Bytes
body [] = []
body (e ∷ es) = e.1 ++ body es

-- From an entry on: the entries that are left, and the terminator.
abbrev pub tail_of : List Entry → Bytes
tail_of es = body es ++ (listpack_eof ∷ [])

-- The whole buffer, with `stored` in the field for the number of elements.
unfoldable pub layout : ℕ → List Entry → Bytes
layout stored es =
    append_le 4 ((7 + length (body es)) % 2 ^ 32) ++ (append_le 2 stored ++ tail_of es)

-- The buffer is a header, these entries and the terminator; the size field is right modulo 2 ^ 32,
-- and the field for the number of elements is right unless it is saturated.
pub record Represents (lp : Listpack) (es : List Entry) : Type 0 where
  pub stored : ℕ
  pub stored_bound : stored ≤ 65535
  pub stored_right : (stored ≡ length es) ⊎ (stored ≡ 65535)
  pub buffer_layout : lp.buffer ≡ layout stored es
  pub entries : All IsEntry es

pub body-append : (xs ys : List Entry) → body (xs ++ ys) ≡ body xs ++ body ys
unfolding body
body-append [] ys = refl
body-append (x ∷ xs) ys = rw (body-append xs ys) (sym (append_assoc x.1 (body xs) (body ys)))

module _ (stored : ℕ) (es : List Entry) where
  pub drop-layout : drop 6 (layout stored es) ≡ tail_of es
  unfolding layout append_le
  drop-layout = refl

  pub length-layout : length (layout stored es) ≡ 7 + length (body es)
  unfolding layout append_le
  length-layout = omega (arith, length-append (body es) (listpack_eof ∷ []))

  pub stored_count-layout : stored ≤ 65535 → stored_count (layout stored es) ≡ stored
  unfolding layout append_le stored_count from_le
  stored_count-layout h = omega arith

  pub set_num_elements-layout :
      (v : ℕ) → set_num_elements v (layout stored es) ≡ layout (min v 65535) es
  unfolding layout append_le set_num_elements
  set_num_elements-layout v = refl

  -- Any header is replaced.
  pub set_total_bytes-layout :
      (u : ℕ)
      → set_total_bytes (7 + length (body es)) (append_le 4 u ++ (append_le 2 stored ++ tail_of es))
        ≡ layout stored es
  unfolding layout append_le set_total_bytes
  set_total_bytes-layout u = refl
