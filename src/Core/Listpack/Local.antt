-- ===== src/Core/Listpack/Local.antt =====
-- An entry is decoded from its own bytes only: what follows them does not matter.
use mnemos.Prelude.{
  ℕ, zero, suc, ◌+◌, ◌-◌, ◌*◌, ◌/◌, ◌%◌, ◌^◌, ◌≤◌, ◌≡◌, refl, sym, ap, ◌∙◌, subst, inl, inr, Option,
  some, none, Bool, true, false, List, [], ◌∷◌, ◌++◌, length, take, drop, length-append,
  length-take, take-append-drop, arith, ltb, ◌==◌, if◌then◌else◌, if_cases, Option-cases,
  Bool-cases,
}
use mnemos.Prelude.Bytes.{Bytes}
use mnemos.Prelude.Int.{pos, of_word}
use mnemos.Core.IntSet.{from_le}
use mnemos.Core.Listpack.{
  Element, integer, string, decode_string, decode_int13, decode_string12, decode_string32,
  decode_signed, decode_payload, sized_entry, decode_entry, encode_backlen,
}

-- A part of a prefix is a part of the list.
part_of_prefix {ℓ} :
    {A : Type ℓ} (j k n : ℕ) (xs ys : List A)
    → j + k ≤ n
    → n ≤ length xs
    → take k (drop j (take n xs ++ ys)) ≡ take k (drop j xs)
part_of_prefix zero zero n xs ys h l = refl
part_of_prefix zero (suc k) zero xs ys h l = absurd (omega arith)
part_of_prefix zero (suc k) (suc n) [] ys h l = absurd (omega arith)
part_of_prefix zero (suc k) (suc n) (x ∷ xs) ys h l =
    ap (λ t. x ∷ t) (part_of_prefix zero k n xs ys (omega arith) (omega arith))
part_of_prefix (suc j) k zero xs ys h l = absurd (omega arith)
part_of_prefix (suc j) k (suc n) [] ys h l = absurd (omega arith)
part_of_prefix (suc j) k (suc n) (x ∷ xs) ys h l =
    part_of_prefix j k n xs ys (omega arith) (omega arith)

-- A reader of what follows the encoding byte uses n - 1 bytes.
abbrev IsLocal : (Bytes → Option (Element × ℕ)) → Type 0
IsLocal f =
    (p rest : Bytes) (e : Element) (n : ℕ)
    → f p ≡ some (e, n)
    → (1 ≤ n) × (n ≤ suc (length p)) × (f (take (n - 1) p ++ rest) ≡ some (e, n))

prefix_length :
    (n : ℕ) (p rest : Bytes) → n ≤ length p → length (take n p ++ rest) ≡ n + length rest
prefix_length n p rest h = omega (arith, length-append (take n p) rest, length-take n p)

decode_string_size :
    (header len : ℕ) (p : Bytes) (e : Element) (n : ℕ)
    → decode_string header len p ≡ some (e, n)
    → (n ≡ header + len) × (n ≤ suc (length p))
unfolding decode_string
decode_string_size header len p e n eq = ground arith

decode_string-IsLocal : (header len : ℕ) → 1 ≤ header → IsLocal (decode_string header len)
unfolding decode_string
decode_string-IsLocal header len h p rest e n eq =
    elim (Bool-cases (ltb (suc (length p)) (header + len))) [
      | inl short ↦ absurd (ground (arith, short))
      | inr fits ↦
          let size : n ≡ header + len = ground (arith, fits) in
          let value : string (take len (drop (header - 1) p)) ≡ e = ground (arith, fits) in
          let whole : n ≤ suc (length p) = ground (arith, size, fits) in
          let enough : ltb (suc (length (take (n - 1) p ++ rest))) (header + len) ≡ false =
            ground (arith, prefix_length (n - 1) p rest (omega arith), size) in
          let part = part_of_prefix (header - 1) len (n - 1) p rest (omega arith) (omega arith) in
          (omega arith, whole, rw (enough, part, value, size) refl)
    ]

decode_signed-IsLocal : (k m : ℕ) → IsLocal (decode_signed k m)
unfolding decode_signed
decode_signed-IsLocal k m p rest e n eq = elim (Bool-cases (ltb (suc (length p)) (suc k))) [
  | inl short ↦ absurd (ground (arith, short))
  | inr fits ↦
      let size : n ≡ suc k = ground (arith, fits) in
      let value : integer (of_word m (from_le (take k p))) ≡ e = ground (arith, fits) in
      let whole : n ≤ suc (length p) = ground (arith, size, fits) in
      let enough : ltb (suc (length (take (n - 1) p ++ rest))) (suc k) ≡ false =
        ground (arith, prefix_length (n - 1) p rest (omega arith), size) in
      let part = part_of_prefix 0 k (n - 1) p rest (omega arith) (omega arith) in
      (omega arith, whole, rw (enough, part, value, size) refl)
]

decode_int13-IsLocal : (high : ℕ) → IsLocal (decode_int13 high)
unfolding decode_int13
decode_int13-IsLocal high [] rest e n eq = absurd (ground arith)
decode_int13-IsLocal high (b ∷ p) rest e n eq =
    let size : 2 ≡ n = ground arith in rw (← size) (omega arith, omega arith, ground arith)

decode_string12-IsLocal : (high : ℕ) → IsLocal (decode_string12 high)
unfolding decode_string12
decode_string12-IsLocal high [] rest e n eq = absurd (ground arith)
decode_string12-IsLocal high (b ∷ p) rest e n eq =
    let (low, whole, again) =
      decode_string-IsLocal 2 (high * 2 ^ 8 + b) (omega arith) (b ∷ p) rest e n eq in
    let (size, _) = decode_string_size 2 (high * 2 ^ 8 + b) (b ∷ p) e n eq in
    let next : n - 1 ≡ suc (n - 2) = omega arith in (low, whole, rw next (rw next at again))

decode_string32-IsLocal : IsLocal decode_string32
unfolding decode_string32
decode_string32-IsLocal p rest e n eq = elim (Bool-cases (ltb (suc (length p)) 5)) [
  | inl short ↦ absurd (ground (arith, short))
  | inr fits ↦
      let len = from_le (take 4 p) in
      let reads : decode_string 5 len p ≡ some (e, n) = ground (arith, fits) in
      let (low, whole, again) = decode_string-IsLocal 5 len (omega arith) p rest e n reads in
      let (size, _) = decode_string_size 5 len p e n reads in
      let enough : ltb (suc (length (take (n - 1) p ++ rest))) 5 ≡ false =
        ground (arith, prefix_length (n - 1) p rest (omega arith)) in
      let part = part_of_prefix 0 4 (n - 1) p rest (omega arith) (omega arith) in
      (low, whole, rw (enough, part) again)
]

if_app {ℓ κ} :
    {A : Type ℓ} {B : Type κ} (b : Bool) (f g : A → B) (a : A)
    → (if b then f else g) a ≡ (if b then f a else g a)
if_app true f g a = refl
if_app false f g a = refl

-- The branches, as readers of what follows the encoding byte.
unfoldable decoder : ℕ → Bytes → Option (Element × ℕ)
decoder encoding =
    if ltb encoding 0x80
    then (λ p. some (integer (pos (encoding % 2 ^ 7)), 1))
    else if encoding / 2 ^ 6 == 2
    then decode_string 1 (encoding % 2 ^ 6)
    else if encoding / 2 ^ 5 == 6
    then decode_int13 (encoding % 2 ^ 5)
    else if encoding / 2 ^ 4 == 14
    then decode_string12 (encoding % 2 ^ 4)
    else if encoding == 0xF0
    then decode_string32
    else if encoding == 0xF1
    then decode_signed 2 (2 ^ 16)
    else if encoding == 0xF2
    then decode_signed 3 (2 ^ 24)
    else if encoding == 0xF3
    then decode_signed 4 (2 ^ 32)
    else if encoding == 0xF4
    then decode_signed 8 (2 ^ 64)
    else (λ p. none)

decoder-decode_payload :
    (encoding : ℕ) (p : Bytes) → decoder encoding p ≡ decode_payload (encoding ∷ p)
unfolding decoder decode_payload
decoder-decode_payload encoding p = simp if_app refl

decoder-IsLocal : (encoding : ℕ) → IsLocal (decoder encoding)
unfolding decoder
decoder-IsLocal c =
    if_cases IsLocal (ltb c 0x80) _ _ (λ _ p rest e n eq. ground arith)
      λ _.
        if_cases IsLocal (c / 2 ^ 6 == 2) _ _
          (λ _. decode_string-IsLocal 1 (c % 2 ^ 6) (omega arith))
          λ _.
            if_cases IsLocal (c / 2 ^ 5 == 6) _ _ (λ _. decode_int13-IsLocal (c % 2 ^ 5))
              λ _.
                if_cases IsLocal (c / 2 ^ 4 == 14) _ _ (λ _. decode_string12-IsLocal (c % 2 ^ 4))
                  λ _.
                    if_cases IsLocal (c == 0xF0) _ _ (λ _. decode_string32-IsLocal)
                      λ _.
                        if_cases IsLocal (c == 0xF1) _ _ (λ _. decode_signed-IsLocal 2 (2 ^ 16))
                          λ _.
                            if_cases IsLocal (c == 0xF2) _ _ (λ _. decode_signed-IsLocal 3 (2 ^ 24))
                              λ _.
                                if_cases IsLocal (c == 0xF3) _ _
                                  (λ _. decode_signed-IsLocal 4 (2 ^ 32))
                                  λ _.
                                    if_cases IsLocal (c == 0xF4) _ _
                                      (λ _. decode_signed-IsLocal 8 (2 ^ 64))
                                      λ _ p rest e n eq. absurd (ground arith)

-- A payload of size n is read from the first n bytes.
decode_payload_local :
    (p rest : Bytes) (e : Element) (n : ℕ)
    → decode_payload p ≡ some (e, n)
    → (1 ≤ n) × (n ≤ length p) × (decode_payload (take n p ++ rest) ≡ some (e, n))
decode_payload_local [] rest e n eq = absurd (unfold decode_payload in ground arith)
decode_payload_local (c ∷ p) rest e n eq =
    let (low, whole, again) = decoder-IsLocal c p rest e n (decoder-decode_payload c p ∙ eq) in
    let next : n ≡ suc (n - 1) = omega arith in
    (
      low,
      whole,
      subst (λ k. decode_payload (take k (c ∷ p) ++ rest) ≡ some (e, n)) (sym next)
          (sym (decoder-decode_payload c (take (n - 1) p ++ rest)) ∙ again),
    )

-- A prefix in front of something starts with the shorter prefix.
prefix_parts {ℓ} :
    {A : Type ℓ} (m n : ℕ) (xs ys : List A)
    → m ≤ n
    → n ≤ length xs
    → take n xs ++ ys ≡ take m xs ++ drop m (take n xs ++ ys)
prefix_parts m n xs ys h k =
    sym (take-append-drop m (take n xs ++ ys))
    ∙ ap (λ t. t ++ drop m (take n xs ++ ys)) (part_of_prefix 0 m n xs ys (omega arith) k)

-- What `decodeAt` reads at the front of some bytes it reads from the entry alone, whatever follows.
pub decode_entry_local :
    (p rest : Bytes) (e : Element) (n : ℕ)
    → decode_entry p ≡ some (e, n)
    → (1 ≤ n) × (n ≤ length p) × (decode_entry (take n p ++ rest) ≡ some (e, n))
unfolding decode_entry sized_entry
decode_entry_local p rest e n eq = elim (Option-cases (decode_payload p)) [
  | inl fails ↦ absurd (ground (arith, fails))
  | inr ((x, size), reads) ↦
      let full = size + length (encode_backlen size) in
      let (same, total, whole) : (x ≡ e) × (full ≡ n) × (n ≤ length p) = ground (arith, reads) in
      let parts = prefix_parts size n p rest (omega arith) whole in
      let (low, fits, again) = decode_payload_local p (drop size (take n p ++ rest)) x size reads in
      let enough : ltb (length (take n p ++ rest)) full ≡ false =
        ground (arith, prefix_length n p rest whole) in
      (omega arith, whole, ground (arith, enough, ap decode_payload parts ∙ again))
]
