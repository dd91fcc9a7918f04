-- ===== src/Core/Object/Strings.antt =====
-- The text of a string value: what `makeString` keeps of it, and what the reads and the append of
-- every encoding make of it.
use mnemos.Prelude.{
  ℕ, zero, suc, ◌/◌, ◌≤◌, ◌≡◌, refl, sym, Option, none, some, ◌++◌, length, length-append, arith,
  leb, ◌==◌, Bool-cases, inl, inr,
}
use mnemos.Prelude.Bytes.{Bytes}
use mnemos.Prelude.Int.{ℤ, pos, negsuc, IsI64}
use mnemos.Prelude.Decimal.{decimal, to_string, decimal_one, decimal_more}
use mnemos.Core.Encoding.{ObjType, ObjEncoding, emb_str_size_limit, string_to_int64}
use mnemos.Core.Encoding.RoundTrip.{string_to_int64-to_string, to_string-string_to_int64}
use mnemos.Core.Object.{
  Arm, integer, text, Value, count_digits, magnitude, make_string, text_of, string_value, int_of,
  as_int, make_mutable, is_raw, append_text, append_string, length_of, string_length,
}

count_digits_enough : (f n : ℕ) → n ≤ f → count_digits f n ≡ length (decimal n)
unfolding count_digits
count_digits_enough zero n h = rw (decimal_one n (omega arith)) refl
count_digits_enough (suc f) n h = elim (Bool-cases (n / 10 == 0)) [
  | inl small ↦ rw (small, decimal_one n (ground (arith, small))) refl
  | inr large ↦
      rw (large, decimal_more n (ground (arith, large)), length-append)
        (omega (arith, count_digits_enough f (n / 10) (omega arith)))
]

module _ {C : Type 0} where
  -- The encodings of a string: an int64, or bytes.
  pub data Agrees : ObjEncoding → Arm C → Type 0 where
    as_integer : (n : ℤ) → IsI64 n → Agrees ObjEncoding.int (integer n)
    embedded : (s : Bytes) → length s ≤ emb_str_size_limit → Agrees ObjEncoding.emb_str (text s)
    apart : (s : Bytes) → Agrees ObjEncoding.raw (text s)

  -- A string in one of its three encodings.
  pub record IsString (v : Value C) : Type 0 where
    pub is_string : v.type ≡ ObjType.string
    pub agrees : Agrees v.encoding v.arm

  -- What `makeString` must make of the text `s`.
  pub record Holds (s : Bytes) (v : Value C) : Type 0 where
    pub string : IsString v
    pub reads : string_value v ≡ s
    pub number : as_int v ≡ string_to_int64 s

  make_string_as : (s : Bytes) (o : Option ℤ) → string_to_int64 s ≡ o → Holds s (make_string s)
  unfolding make_string string_value as_int text_of int_of
  make_string_as s (some n) e =
      let (same, range) = to_string-string_to_int64 s n e in
      rw (e, make_string)
        (record {
          string = record { is_string = refl; agrees = as_integer n range };
          reads = same;
          number = sym e;
        })
  make_string_as s none e = elim (Bool-cases (leb (length s) emb_str_size_limit)) [
    | inl short ↦
        rw (e, short, make_string)
          (record {
            string = record { is_string = refl; agrees = embedded s (ground (arith, short)) };
            reads = refl;
            number = refl;
          })
    | inr long ↦
        rw (e, long, make_string)
          (record {
            string = record { is_string = refl; agrees = apart s };
            reads = refl;
            number = refl;
          })
  ]

  -- `makeString` keeps the text, whichever encoding it chooses: the string reads back as it was
  -- given, it is well formed, and it is an integer exactly where the strict parse reads one.
  pub make_string-Holds : (s : Bytes) → Holds s (make_string s)
  make_string-Holds s = make_string_as s (string_to_int64 s) refl

  int_of-text_of :
      (e : ObjEncoding) (a : Arm C) → Agrees e a → int_of a ≡ string_to_int64 (text_of e a)
  unfolding int_of text_of
  int_of-text_of _ _ (as_integer n h) = sym (string_to_int64-to_string n h)
  int_of-text_of _ _ (embedded s h) = refl
  int_of-text_of _ _ (apart s) = refl

  -- The integer that a string value gives is that of its text, in every encoding: an append or a
  -- conversion never changes whether a value counts as a number.
  pub as_int-string_value : (v : Value C) → IsString v → as_int v ≡ string_to_int64 (string_value v)
  as_int-string_value v h = unfold as_int string_value in int_of-text_of v.encoding v.arm h.agrees

  -- What `appendString` must make of the value `v`.
  pub record Appends (v : Value C) (suffix : Bytes) (w : Value C) : Type 0 where
    pub string : IsString w
    pub reads : string_value w ≡ string_value v ++ suffix
    pub mutable : w.encoding ≡ ObjEncoding.raw
    pub access : w.last_access_ms ≡ v.last_access_ms

  append_text-Appends :
      (v : Value C) (suffix : Bytes)
      → v.type ≡ ObjType.string
      → (e : ObjEncoding) (a : Arm C) → Agrees e a
      → (w : Value C) × (append_string (record v { encoding = e; arm = a }) suffix ≡ some w)
        × Appends (record v { encoding = e; arm = a }) suffix w
  unfolding append_string make_mutable append_text string_value text_of is_raw
  append_text-Appends v suffix t _ _ (as_integer n h) = (
    _,
    refl,
    record {
      string = record { is_string = t; agrees = apart _ };
      reads = refl;
      mutable = refl;
      access = refl;
    },
  )
  append_text-Appends v suffix t _ _ (embedded s h) = (
    _,
    refl,
    record {
      string = record { is_string = t; agrees = apart _ };
      reads = refl;
      mutable = refl;
      access = refl;
    },
  )
  append_text-Appends v suffix t _ _ (apart s) = (
    _,
    refl,
    record {
      string = record { is_string = t; agrees = apart _ };
      reads = refl;
      mutable = refl;
      access = refl;
    },
  )

  -- `appendString` never throws on a string: it puts the suffix behind the text, whatever the
  -- encoding was, and leaves a raw string, which later appends change in place.
  pub append_string-Appends :
      (v : Value C) (suffix : Bytes)
      → IsString v
      → (w : Value C) × (append_string v suffix ≡ some w) × Appends v suffix w
  append_string-Appends v suffix h =
      append_text-Appends v suffix h.is_string v.encoding v.arm h.agrees

  length_of-text_of :
      (e : ObjEncoding) (a : Arm C) → Agrees e a → length_of a ≡ length (text_of e a)
  unfolding length_of text_of to_string magnitude
  length_of-text_of _ _ (as_integer (pos n) h) =
      ground (arith, count_digits_enough n n (omega arith))
  length_of-text_of _ _ (as_integer (negsuc n) h) =
      let m : magnitude (negsuc n) ≡ suc n = omega arith in
      rw m (ground (arith, count_digits_enough (suc n) (suc n) (omega arith)))
  length_of-text_of _ _ (embedded s h) = refl
  length_of-text_of _ _ (apart s) = refl

  -- The length that is counted without writing the text is that of the text, the smallest int64
  -- included, whose magnitude is no int64.
  pub string_length-string_value :
      (v : Value C) → IsString v → string_length v ≡ length (string_value v)
  string_length-string_value v h =
      unfold string_length string_value in length_of-text_of v.encoding v.arm h.agrees
