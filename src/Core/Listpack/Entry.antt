-- ===== src/Core/Listpack/Entry.antt =====
-- One entry of a listpack: decoding what was encoded.
use mnemos.Prelude.{
  ℕ, suc, ◌+◌, ◌-◌, ◌/◌, ◌%◌, ◌^◌, ◌<◌, ◌≡◌, refl, sym, ap, ◌∙◌, Option, some, none, true, [], ◌∷◌,
  ◌++◌, append_assoc, length, take, length-append, take-append_length, arith, drop-append_length,
  ltb, if_cases,
}
use mnemos.Prelude.Bytes.{Bytes}
use mnemos.Prelude.Int.{ℤ, to_word, of_word, IsI64}
use mnemos.Core.IntSet.{append_le, from_le, fits}
use mnemos.Core.Encoding.{string_to_int64}
use mnemos.Core.Encoding.RoundTrip.{to_string-string_to_int64}
use mnemos.Core.IntSet.Words.{
  length-append_le, from_le_two, from_le_three, from_le_four, from_le_eight,
}
use mnemos.Core.Listpack.{
  Element, integer, string, build_entry, build_integer_entry, payload_of, element_to_string,
  encode_integer, encode_string, string_header, encode_backlen, with_backlen, decode_payload,
  decode_signed, decode_int13, decode_string12, decode_string, decode_string32, decode_entry,
  sized_entry,
}

decode_signed-append_le :
    (k m u : ℕ) (rest : Bytes)
    → decode_signed k m (append_le k u ++ rest)
      ≡ some (integer (of_word m (from_le (append_le k u))), suc k)
unfolding decode_signed
decode_signed-append_le k m u rest =
    let size = length-append_le k u in
    let front : take k (append_le k u ++ rest) ≡ append_le k u =
      ap (λ n. take n (append_le k u ++ rest)) (sym size)
      ∙ take-append_length (append_le k u) rest in
    let whole = length-append (append_le k u) rest in rw front (ground arith)

-- The payload of every int64 is read back, whatever follows it.
module _ (v : ℤ) (rest : Bytes) (h : IsI64 v) where
  abbrev Reads : Bytes → Type 0
  Reads payload = decode_payload (payload ++ rest) ≡ some (integer v, length payload)

  Reads-uint7 : fits 0 127 v ≡ true → Reads (to_word (2 ^ 64) v % 2 ^ 8 ∷ [])
  unfolding decode_payload
  Reads-uint7 f = ground arith

  Reads-int13 :
      fits 4096 4095 v ≡ true
      → Reads
          ((0xC0 + to_word (2 ^ 64) v % 2 ^ 13 / 2 ^ 8) ∷ to_word (2 ^ 64) v % 2 ^ 13 % 2 ^ 8 ∷ [])
  unfolding decode_payload decode_int13
  Reads-int13 f = ground arith

  Reads-signed :
      (e k m u : ℕ)
      → (decode_payload (e ∷ append_le k u ++ rest) ≡ decode_signed k m (append_le k u ++ rest))
      → of_word m (from_le (append_le k u)) ≡ v
      → Reads (e ∷ append_le k u)
  Reads-signed e k m u branch value =
      rw (branch, decode_signed-append_le k m u rest, value, length-append_le k u) refl

  Reads-int16 : fits 32768 32767 v ≡ true → Reads (0xF1 ∷ append_le 2 (to_word (2 ^ 64) v % 2 ^ 16))
  unfolding decode_payload
  Reads-int16 f = Reads-signed 0xF1 2 (2 ^ 16) _ refl (rw from_le_two (ground arith))

  Reads-int24 :
      fits 8388608 8388607 v ≡ true → Reads (0xF2 ∷ append_le 3 (to_word (2 ^ 64) v % 2 ^ 32))
  unfolding decode_payload
  Reads-int24 f = Reads-signed 0xF2 3 (2 ^ 24) _ refl (rw from_le_three (ground arith))

  Reads-int32 :
      fits 2147483648 2147483647 v ≡ true → Reads (0xF3 ∷ append_le 4 (to_word (2 ^ 64) v % 2 ^ 32))
  unfolding decode_payload
  Reads-int32 f = Reads-signed 0xF3 4 (2 ^ 32) _ refl (rw from_le_four (ground arith))

  Reads-int64 : Reads (0xF4 ∷ append_le 8 (to_word (2 ^ 64) v))
  unfolding decode_payload
  Reads-int64 = Reads-signed 0xF4 8 (2 ^ 64) _ refl (rw from_le_eight (ground arith))

  pub decode_payload-encode_integer : Reads (encode_integer v)
  unfolding encode_integer
  decode_payload-encode_integer = if_cases Reads (fits 0 127 v) _ _ Reads-uint7 λ _.
      if_cases Reads (fits 4096 4095 v) _ _ Reads-int13 λ _.
        if_cases Reads (fits 32768 32767 v) _ _ Reads-int16 λ _.
          if_cases Reads (fits 8388608 8388607 v) _ _ Reads-int24
            λ _. if_cases Reads (fits 2147483648 2147483647 v) _ _ Reads-int32 λ _. Reads-int64

decode_string-append :
    (k : ℕ) (header s rest : Bytes)
    → length header ≡ k
    → decode_string (suc k) (length s) (header ++ (s ++ rest)) ≡ some (string s, suc k + length s)
unfolding decode_string
decode_string-append k header s rest h =
    let before : suc k - 1 ≡ k = omega arith in
    rw (before, drop-append_length k header (s ++ rest) (sym h), take-append_length s rest)
      (ground (arith, length-append header (s ++ rest), length-append s rest))

decode_string32-append :
    (s rest : Bytes)
    → length s < 2 ^ 32
    → decode_string32 (append_le 4 (length s % 2 ^ 32) ++ (s ++ rest))
      ≡ some (string s, 5 + length s)
unfolding decode_string32
decode_string32-append s rest h =
    let n = length s % 2 ^ 32 in
    let size = length-append_le 4 n in
    let front : take 4 (append_le 4 n ++ (s ++ rest)) ≡ append_le 4 n =
      ap (λ k. take k (append_le 4 n ++ (s ++ rest))) (sym size)
      ∙ take-append_length (append_le 4 n) (s ++ rest) in
    let value : from_le (append_le 4 n) ≡ length s = omega (arith, from_le_four n) in
    rw (front, value, decode_string-append 4 (append_le 4 n) s rest size)
      (ground (arith, length-append (append_le 4 n) (s ++ rest)))

-- The payload of a string is read back, whatever follows it.
module _ (s rest : Bytes) where
  abbrev ReadsString : Bytes → Type 0
  ReadsString header =
      decode_payload ((header ++ s) ++ rest) ≡ some (string s, length (header ++ s))

  ReadsString-short : ltb (length s) 64 ≡ true → ReadsString ((0x80 + length s) ∷ [])
  unfolding decode_payload
  ReadsString-short f = ground (arith, decode_string-append 0 [] s rest refl)

  ReadsString-medium :
      ltb (length s) 4096 ≡ true → ReadsString ((0xE0 + length s / 2 ^ 8) ∷ length s % 2 ^ 8 ∷ [])
  unfolding decode_payload decode_string12
  ReadsString-medium f = ground (arith, decode_string-append 1 (length s % 2 ^ 8 ∷ []) s rest refl)

  ReadsString-long : length s < 2 ^ 32 → ReadsString (0xF0 ∷ append_le 4 (length s % 2 ^ 32))
  unfolding decode_payload
  ReadsString-long h =
      let n = length s % 2 ^ 32 in
      rw (append_assoc (append_le 4 n) s rest, decode_string32-append s rest h)
        (ground (arith, length-append (append_le 4 n) s, length-append_le 4 n))

  pub decode_payload-encode_string :
      length s < 2 ^ 32
      → decode_payload (encode_string s ++ rest) ≡ some (string s, length (encode_string s))
  unfolding encode_string string_header
  decode_payload-encode_string h =
      if_cases ReadsString (ltb (length s) 64) _ _ ReadsString-short λ _.
        if_cases ReadsString (ltb (length s) 4096) _ _ ReadsString-medium λ _. ReadsString-long h

pub decode_entry-with_backlen :
    (e : Element) (payload rest : Bytes)
    → decode_payload (payload ++ (encode_backlen (length payload) ++ rest))
      ≡ some (e, length payload)
    → decode_entry (with_backlen payload ++ rest) ≡ some (e, length (with_backlen payload))
unfolding with_backlen decode_entry sized_entry
decode_entry-with_backlen e payload rest h =
    let back = encode_backlen (length payload) in
    rw (append_assoc payload back rest, h)
      (ground (
        arith,
        length-append payload back,
        length-append payload (back ++ rest),
        length-append back rest,
      ))

-- The element that a string is stored as.
unfoldable pub stored_as : Bytes → Option ℤ → Element
stored_as s none = string s
stored_as s (some v) = integer v

unfoldable pub element_of : Bytes → Element
element_of s = stored_as s (string_to_int64 s)

pub decode_entry-build_integer_entry :
    (v : ℤ) (rest : Bytes)
    → IsI64 v
    → decode_entry (build_integer_entry v ++ rest)
      ≡ some (integer v, length (build_integer_entry v))
unfolding build_integer_entry
decode_entry-build_integer_entry v rest h =
    decode_entry-with_backlen (integer v) (encode_integer v) rest
      (decode_payload-encode_integer v _ h)

-- An entry that is built from a string of less than 4 GiB is decoded to the element that the string
-- is stored as, and its size is the number of its bytes, whatever follows it in the buffer.
pub decode_entry-build_entry :
    (s rest : Bytes)
    → length s < 2 ^ 32
    → decode_entry (build_entry s ++ rest) ≡ some (element_of s, length (build_entry s))
unfolding build_entry element_of
decode_entry-build_entry s rest h =
    decode_entry-with_backlen (stored_as s (string_to_int64 s)) (payload_of s (string_to_int64 s))
      rest (reads (string_to_int64 s) refl)
  where
    reads :
        (o : Option ℤ)
        → string_to_int64 s ≡ o
        → decode_payload (payload_of s o ++ (encode_backlen (length (payload_of s o)) ++ rest))
          ≡ some (stored_as s o, length (payload_of s o))
    reads none e = unfold payload_of stored_as in decode_payload-encode_string s _ h
    reads (some v) e =
        unfold payload_of stored_as in
        decode_payload-encode_integer v _ (to_string-string_to_int64 s v e).1

-- The text of the element that a string is stored as is the string: nothing is lost when a string
-- is stored as an integer.
pub element_to_string-element_of : (s : Bytes) → element_to_string (element_of s) ≡ s
unfolding element_of
element_to_string-element_of s = text (string_to_int64 s) refl
  where
    text : (o : Option ℤ) → string_to_int64 s ≡ o → element_to_string (stored_as s o) ≡ s
    text none e = unfold element_to_string stored_as in refl
    text (some v) e = unfold element_to_string stored_as in (to_string-string_to_int64 s v e).0
