-- ===== src/Core/Listpack/Accepts.antt =====
-- `fromBytes` accepts exactly the buffers that a sequence of entries makes.
use mnemos.Prelude.{
  ℕ, zero, suc, ◌+◌, ◌-◌, ◌*◌, ◌%◌, ◌^◌, ◌≤◌, ◌<◌, ◌≡◌, refl, sym, ap, ◌∙◌, subst, ◌⊎◌, inl, inr,
  some, true, false, not, ◌&&◌, List, [], ◌∷◌, ◌++◌, length, take, drop, drop_add, length-append,
  length-take, length-drop, take-append-drop, append_assoc, append-nil, All, All-split, arith, ltb,
  ◌==◌, Option-cases, Bool-cases,
}
use mnemos.Prelude.Bytes.{Bytes, IsByte}
use mnemos.Core.IntSet.{append_le, from_le, read_le32}
use mnemos.Core.IntSet.Words.{read_le32-append_le}
use mnemos.Core.Listpack.{decode_entry}
use mnemos.Core.Listpack.Buffer.{Listpack, at_end, decode_at, stored_count, listpack_eof}
use mnemos.Core.Listpack.Edits.{check_from, check_found, accept, from_bytes}
use mnemos.Core.Listpack.Layout.{
  Entry, IsEntry, body, tail_of, layout, Represents, length-layout, stored_count-layout,
}
use mnemos.Core.Listpack.Reads.{
  At, At-next, At-start, at_end-At, at_end-At_nil, decode_at-At, enough_fuel,
}
use mnemos.Core.Listpack.Erase.{At-middle}
use mnemos.Core.Listpack.Local.{decode_entry_local}

check_from-At :
    (fuel : ℕ) (buffer : Bytes) (counted offset : ℕ) (es : List Entry)
    → length es < fuel
    → At buffer offset es
    → All IsEntry es
    → check_from fuel buffer counted offset ≡ some (offset + length (body es), counted + length es)
unfolding check_from check_found body
check_from-At zero buffer counted offset es f h i = absurd (omega arith)
check_from-At (suc fuel) buffer counted offset [] f h i =
    rw (at_end-At_nil buffer offset h) (ground arith)
check_from-At (suc fuel) buffer counted offset (e ∷ es) f h (i, is) =
    rw (at_end-At buffer offset e es h i, decode_at-At buffer offset e es h i)
      (ground (
        arith,
        length-append e.1 (body es),
        check_from-At fuel buffer (counted + 1) (offset + length e.1) es (omega arith)
            (At-next buffer offset e es h) is,
      ))

-- The buffer of a listpack that represents a list of entries is accepted, while it has less than
-- 4 GiB, and gives the same listpack back.
pub from_bytes-Represents :
    (lp : Listpack) (es : List Entry)
    → Represents lp es
    → length lp.buffer < 2 ^ 32
    → from_bytes lp.buffer ≡ some lp
unfolding from_bytes accept
from_bytes-Represents lp es r h =
    let size : length lp.buffer ≡ 7 + length (body es) =
      ap length r.buffer_layout ∙ length-layout r.stored es in
    let field : stored_count lp.buffer ≡ r.stored =
      ap stored_count r.buffer_layout ∙ stored_count-layout r.stored es r.stored_bound in
    let declared : read_le32 lp.buffer ≡ length lp.buffer =
      ap read_le32 r.buffer_layout
      ∙ unfold layout in
        omega (
          arith,
          read_le32-append_le ((7 + length (body es)) % 2 ^ 32)
              (append_le 2 r.stored ++ tail_of es),
        ) in
    let walk =
      check_from-At (length lp.buffer) lp.buffer 0 6 es (enough_fuel lp es r) (At-start lp es r)
        r.entries in
    let last : length lp.buffer - 1 ≡ 6 + length (body es) = omega arith in
    let whole : Represents lp (es ++ []) = subst (Represents lp) (sym (append-nil es)) r in
    let eof = at_end-At_nil lp.buffer (6 + length (body es)) (At-middle lp es [] whole) in
    let long : ltb (length lp.buffer) 7 ≡ false = ground arith in
    let right_size : (read_le32 lp.buffer == length lp.buffer) ≡ true = ground arith in
    let at_last : (6 + length (body es) == length lp.buffer - 1) ≡ true = ground arith in
    let right_count : (ltb r.stored 65535 && not (r.stored == 0 + length es)) ≡ false =
      ground (arith, r.stored_right) in
    rw (long, right_size, walk, field, at_last, last, eof, right_count) refl

check_from_sound :
    (fuel : ℕ) (buffer : Bytes) (counted offset last n : ℕ)
    → check_from fuel buffer counted offset ≡ some (last, n)
    → (es : List Entry) × (drop offset buffer ≡ body es ++ drop last buffer)
      × (n ≡ counted + length es)
      × (at_end (drop last buffer) ≡ true)
      × All IsEntry es
unfolding check_from check_found body decode_at
check_from_sound zero buffer counted offset last n eq = absurd (ground arith)
check_from_sound (suc fuel) buffer counted offset last n eq =
    elim (Bool-cases (at_end (drop offset buffer))) [
      | inl ends ↦
          let here : (offset ≡ last) × (counted ≡ n) = ground (arith, ends) in
          rw (← here.0) ([], refl, omega arith, ends, tt)
      | inr goes ↦ elim (Option-cases (decode_entry (drop offset buffer))) [
        | inl fails ↦ absurd (ground (arith, goes, fails))
        | inr ((e, size), reads) ↦
            let chunk = take size (drop offset buffer) in
            let (es, parts, count, ends, entries) =
              check_from_sound fuel buffer (counted + 1) (offset + size) last n
                (ground (arith, goes, reads)) in
            let size_right : length chunk ≡ size =
              let (_, whole, _) = decode_entry_local (drop offset buffer) [] e size reads in
              omega (arith, length-take size (drop offset buffer)) in
            (
              (e, chunk) ∷ es,
              sym (take-append-drop size (drop offset buffer))
                  ∙ ap (λ t. chunk ++ t) (sym (drop_add offset size buffer) ∙ parts)
                  ∙ sym (append_assoc chunk (body es) (drop last buffer)),
              omega arith,
              ends,
              (
                λ rest.
                    rw size_right ((decode_entry_local (drop offset buffer) rest e size reads).2),
                entries,
              ),
            )
      ]
    ]

-- The bytes of a header, and the number that they make.
header-append_le :
    (a b c d e f n : ℕ) (rest : Bytes)
    → All IsByte (a ∷ b ∷ c ∷ d ∷ e ∷ f ∷ [])
    → read_le32 (a ∷ b ∷ c ∷ d ∷ e ∷ f ∷ rest) ≡ n
    → a ∷ b ∷ c ∷ d ∷ e ∷ f ∷ rest ≡ append_le 4 (n % 2 ^ 32) ++ (append_le 2 (e + 256 * f) ++ rest)
unfolding read_le32 append_le
header-append_le a b c d e f n rest h eq = ground arith

one_byte : (t : Bytes) → length t ≡ 1 → at_end t ≡ true → t ≡ listpack_eof ∷ []
unfolding at_end
one_byte [] h ends = absurd (omega arith)
one_byte (b ∷ []) h ends = ground arith
one_byte (b ∷ c ∷ t) h ends = absurd (omega arith)

stored_count-header :
    (a b c d e f : ℕ) (rest : Bytes) → stored_count (a ∷ b ∷ c ∷ d ∷ e ∷ f ∷ rest) ≡ e + 256 * f
unfolding stored_count from_le
stored_count-header a b c d e f rest = omega arith

accept_sound :
    (bytes : Bytes) (lp : Listpack)
    → accept bytes (check_from (length bytes) bytes 0 6) ≡ some lp
    → (es : List Entry) × (lp ≡ record { buffer = bytes })
      × (drop 6 bytes ≡ body es ++ drop (length bytes - 1) bytes)
      × ((stored_count bytes ≡ length es) ⊎ (65535 ≤ stored_count bytes))
      × All IsEntry es
unfolding accept
accept_sound bytes lp eq = elim (Option-cases (check_from (length bytes) bytes 0 6)) [
  | inl fails ↦ absurd (ground (arith, fails))
  | inr ((last, n), walk) ↦
      let (es, parts, count, ends, entries) =
        check_from_sound (length bytes) bytes 0 6 last n walk in
      let place : last ≡ length bytes - 1 = ground (arith, walk) in
      (es, ground (arith, walk), rw (← place) parts, ground (arith, walk, count), entries)
]

-- The buffer that `fromBytes` accepts is laid out as a header, entries and the terminator, and it is
-- taken over unchanged: each entry can be decoded, the size field is right, and the number of
-- elements is right unless the field is saturated.
from_bytes_layout :
    (a b c d e f : ℕ) (rest : Bytes) (lp : Listpack)
    → All IsByte (a ∷ b ∷ c ∷ d ∷ e ∷ f ∷ [])
    → from_bytes (a ∷ b ∷ c ∷ d ∷ e ∷ f ∷ rest) ≡ some lp
    → (es : List Entry) × (lp.buffer ≡ a ∷ b ∷ c ∷ d ∷ e ∷ f ∷ rest) × Represents lp es
unfolding from_bytes layout
from_bytes_layout a b c d e f rest lp h eq =
    let bytes = a ∷ b ∷ c ∷ d ∷ e ∷ f ∷ rest in
    let declared : read_le32 bytes ≡ length bytes = ground arith in
    let ends : at_end (drop (length bytes - 1) bytes) ≡ true = ground arith in
    let accepted : accept bytes (check_from (length bytes) bytes 0 6) ≡ some lp = ground arith in
    let long : 7 ≤ length bytes = ground arith in
    let (es, same, parts, count, entries) = accept_sound bytes lp accepted in
    let last : drop (length bytes - 1) bytes ≡ listpack_eof ∷ [] =
      one_byte (drop (length bytes - 1) bytes) (omega (arith, length-drop (length bytes - 1) bytes))
        ends in
    let tail : rest ≡ tail_of es = parts ∙ ap (λ t. body es ++ t) last in
    let size : length bytes ≡ 7 + length (body es) =
      omega (arith, ap length tail, length-append (body es) (listpack_eof ∷ [])) in
    let field = stored_count-header a b c d e f rest in
    let bounded : e + 256 * f ≤ 65535 = omega arith in
    let header : bytes ≡ layout (e + 256 * f) es =
      header-append_le a b c d e f (length bytes) rest h declared
      ∙ ap (λ n. append_le 4 (n % 2 ^ 32) ++ (append_le 2 (e + 256 * f) ++ rest)) size
      ∙ ap (λ t. append_le 4 ((7 + length (body es)) % 2 ^ 32) ++ (append_le 2 (e + 256 * f) ++ t))
          tail in
    (
      es,
      rw same refl,
      record {
        stored = e + 256 * f;
        stored_bound = bounded;
        stored_right = ground (arith, count, field);
        buffer_layout = rw same header;
        entries = entries;
      },
    )

from_bytes_long : (bytes : Bytes) (lp : Listpack) → from_bytes bytes ≡ some lp → 7 ≤ length bytes
unfolding from_bytes
from_bytes_long bytes lp eq = ground arith

-- Bytes that `fromBytes` accepts are taken over unchanged, and they represent a list of entries: a
-- header with the right size and, unless it is saturated, the right number of elements, entries that
-- can be decoded, and the terminator.
pub from_bytes_sound :
    (bytes : Bytes) (lp : Listpack)
    → All IsByte bytes
    → from_bytes bytes ≡ some lp
    → (lp.buffer ≡ bytes) × (es : List Entry) × Represents lp es
from_bytes_sound (a ∷ b ∷ c ∷ d ∷ e ∷ f ∷ rest) lp h eq =
    let bytes = (All-split IsByte (a ∷ b ∷ c ∷ d ∷ e ∷ f ∷ []) rest h).0 in
    let (es, same, r) = from_bytes_layout a b c d e f rest lp bytes eq in (same, es, r)
from_bytes_sound [] lp h eq = absurd (omega (arith, from_bytes_long [] lp eq))
from_bytes_sound (a ∷ []) lp h eq = absurd (omega (arith, from_bytes_long (a ∷ []) lp eq))
from_bytes_sound (a ∷ b ∷ []) lp h eq = absurd (omega (arith, from_bytes_long (a ∷ b ∷ []) lp eq))
from_bytes_sound (a ∷ b ∷ c ∷ []) lp h eq =
    absurd (omega (arith, from_bytes_long (a ∷ b ∷ c ∷ []) lp eq))
from_bytes_sound (a ∷ b ∷ c ∷ d ∷ []) lp h eq =
    absurd (omega (arith, from_bytes_long (a ∷ b ∷ c ∷ d ∷ []) lp eq))
from_bytes_sound (a ∷ b ∷ c ∷ d ∷ e ∷ []) lp h eq =
    absurd (omega (arith, from_bytes_long (a ∷ b ∷ c ∷ d ∷ e ∷ []) lp eq))
