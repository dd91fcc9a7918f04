-- ===== src/Kafka/Wire/RoundTrip.antt =====
-- Reading back what was written: words, groups of seven bits, strings and the request header.
use mnemos.Prelude.{
  ℕ, zero, suc, ◌+◌, ◌*◌, ◌/◌, ◌%◌, ◌^◌, ◌≤◌, ◌<◌, ◌≡◌, refl, ap, sym, ◌∙◌, true, false, some, [],
  ◌++◌, append_assoc, length, length-append, take, drop, take-append_length, drop-append_length,
  ltb, leb, arith, Bool-cases, inl, inr,
}
use mnemos.Prelude.Bytes.{Bytes}
use mnemos.Prelude.Int.{ℤ, pos, negsuc, pos_part, neg_part, to_word, of_word, IsI64}
use mnemos.Kafka.Wire.{
  Reader, need, be_from, word_if, read_word, read_int8, read_int16, read_uint32, read_int32,
  read_int64, read_groups, unzigzag, varlong_of, read_varlong, taken, take_view, counted,
  read_nullable_string, or_empty, be_bytes, write_int8, write_int16, write_uint32, write_int32,
  write_int64, zigzag, groups_of, write_varlong, write_string, RequestHeader, parse_request_header,
  reserve_int32, patch_int32, patch_uint32,
}

-- A reader of these bytes.
abbrev pub reader : Bytes → Reader
reader s = record { rest = s; is_ok = true }

pub length-be_bytes : (k u : ℕ) → length (be_bytes k u) ≡ k
unfolding be_bytes
length-be_bytes zero u = refl
length-be_bytes (suc k) u = ap suc (length-be_bytes k u)

be_from_more :
    (k m u value : ℕ)
    → ((a : ℕ) → be_from a (be_bytes k u) ≡ a * m + u % m)
    → 256 ^ k ≡ m
    → be_from value (be_bytes (suc k) u) ≡ (value * 256 + u / m % 256) * m + u % m
unfolding be_from be_bytes
be_from_more k m u value h e = rw e (h (value * 256 + u / m % 256))

be_from_one : (u a : ℕ) → be_from a (be_bytes 1 u) ≡ a * 256 + u % 256
unfolding be_from be_bytes
be_from_one u a = omega arith

be_from_two : (u a : ℕ) → be_from a (be_bytes 2 u) ≡ a * 2 ^ 16 + u % 2 ^ 16
be_from_two u a = omega (arith, be_from_more 1 256 u a (be_from_one u) refl)

be_from_four : (u a : ℕ) → be_from a (be_bytes 4 u) ≡ a * 2 ^ 32 + u % 2 ^ 32
be_from_four u a = omega (arith, be_from_more 3 (2 ^ 24) u a three refl)
  where
    three : (b : ℕ) → be_from b (be_bytes 3 u) ≡ b * 2 ^ 24 + u % 2 ^ 24
    three b = omega (arith, be_from_more 2 (2 ^ 16) u b (be_from_two u) refl)

be_from_eight : (u a : ℕ) → be_from a (be_bytes 8 u) ≡ a * 2 ^ 64 + u % 2 ^ 64
be_from_eight u a = omega (arith, be_from_more 7 (2 ^ 56) u a seven refl)
  where
    five : (b : ℕ) → be_from b (be_bytes 5 u) ≡ b * 2 ^ 40 + u % 2 ^ 40
    five b = omega (arith, be_from_more 4 (2 ^ 32) u b (be_from_four u) refl)

    six : (b : ℕ) → be_from b (be_bytes 6 u) ≡ b * 2 ^ 48 + u % 2 ^ 48
    six b = omega (arith, be_from_more 5 (2 ^ 40) u b five refl)

    seven : (b : ℕ) → be_from b (be_bytes 7 u) ≡ b * 2 ^ 56 + u % 2 ^ 56
    seven b = omega (arith, be_from_more 6 (2 ^ 48) u b six refl)

-- A word at the front of the buffer.
read_word-be_bytes :
    (k u : ℕ) (s : Bytes)
    → read_word k (reader (be_bytes k u ++ s)) ≡ (be_from 0 (be_bytes k u), reader s)
read_word-be_bytes k u s =
    let size = length-be_bytes k u in
    let enough : ltb (length (be_bytes k u ++ s)) k ≡ false =
      ground (arith, length-append (be_bytes k u) s, size) in
    let front : take k (be_bytes k u ++ s) ≡ be_bytes k u =
      ap (λ n. take n (be_bytes k u ++ s)) (sym size) ∙ take-append_length (be_bytes k u) s in
    unfold read_word need word_if in
    rw (enough, front, drop-append_length k (be_bytes k u) s (sym size)) refl

-- -2 ^ (w - 1) ≤ v < 2 ^ (w - 1), with half = 2 ^ (w - 1)
abbrev pub Fits : ℕ → ℤ → Type 0
Fits half v = (pos_part v < half) × (neg_part v ≤ half)

word16 : (v : ℤ) → Fits (2 ^ 15) v → of_word (2 ^ 16) (0 * 2 ^ 16 + to_word (2 ^ 16) v % 2 ^ 16) ≡ v
word16 (pos n) h = ground arith
word16 (negsuc n) h = ground arith

word32 : (v : ℤ) → Fits (2 ^ 31) v → of_word (2 ^ 32) (0 * 2 ^ 32 + to_word (2 ^ 32) v % 2 ^ 32) ≡ v
word32 (pos n) h = ground arith
word32 (negsuc n) h = ground arith

-- What was written behind a buffer is read back from there on: the fixed widths, both ends of their
-- ranges included.
read_int-write_int :
    (buf s : Bytes) (v : ℤ)
    → (Fits (2 ^ 7) v
        → (write : Bytes) × (write_int8 buf v ≡ buf ++ write)
          × (read_int8 (reader (write ++ s)) ≡ (v, reader s)))
      × (Fits (2 ^ 15) v
          → (write : Bytes) × (write_int16 buf v ≡ buf ++ write)
            × (read_int16 (reader (write ++ s)) ≡ (v, reader s)))
      × (Fits (2 ^ 31) v
          → (write : Bytes) × (write_int32 buf v ≡ buf ++ write)
            × (read_int32 (reader (write ++ s)) ≡ (v, reader s)))
      × (IsI64 v
          → (write : Bytes) × (write_int64 buf v ≡ buf ++ write)
            × (read_int64 (reader (write ++ s)) ≡ (v, reader s)))
read_int-write_int buf s v = (
  λ h. (
    be_bytes 1 (to_word (2 ^ 8) v),
    unfold write_int8 in refl,
    unfold read_int8 in
        rw (read_word-be_bytes 1 (to_word (2 ^ 8) v) s, be_from_one (to_word (2 ^ 8) v) 0)
          (ap (λ x. (x, reader s)) (word8 v h)),
  ),
  λ h. (
    be_bytes 2 (to_word (2 ^ 16) v),
    unfold write_int16 in refl,
    unfold read_int16 in
        rw (read_word-be_bytes 2 (to_word (2 ^ 16) v) s, be_from_two (to_word (2 ^ 16) v) 0)
          (ap (λ x. (x, reader s)) (word16 v h)),
  ),
  λ h. (
    be_bytes 4 (to_word (2 ^ 32) v),
    unfold write_int32 write_uint32 in refl,
    unfold read_int32 read_uint32 in
        rw (read_word-be_bytes 4 (to_word (2 ^ 32) v) s, be_from_four (to_word (2 ^ 32) v) 0)
          (ap (λ x. (x, reader s)) (word32 v h)),
  ),
  λ h. (
    be_bytes 8 (to_word (2 ^ 64) v),
    unfold write_int64 in refl,
    unfold read_int64 in
        rw (read_word-be_bytes 8 (to_word (2 ^ 64) v) s, be_from_eight (to_word (2 ^ 64) v) 0)
          (ap (λ x. (x, reader s)) (word64 v h)),
  ),
)
  where
    word8 : (v : ℤ) → Fits (2 ^ 7) v → of_word (2 ^ 8) (0 * 256 + to_word (2 ^ 8) v % 256) ≡ v
    word8 (pos n) h = ground arith
    word8 (negsuc n) h = ground arith

    word64 : (v : ℤ) → IsI64 v → of_word (2 ^ 64) (0 * 2 ^ 64 + to_word (2 ^ 64) v % 2 ^ 64) ≡ v
    word64 (pos n) h = ground arith
    word64 (negsuc n) h = ground arith

groups_more :
    (fuel m raw : ℕ) (s : Bytes)
    → ((x : ℕ) → x < m → read_groups (suc fuel) (groups_of fuel x ++ s) ≡ some (x, s))
    → raw < 128 * m
    → read_groups (suc (suc fuel)) (groups_of (suc fuel) raw ++ s) ≡ some (raw, s)
unfolding read_groups groups_of
groups_more fuel m raw s h small = elim (Bool-cases (leb 128 raw)) [
  | inl large ↦
      let next : read_groups (suc fuel) (groups_of fuel (raw / 128) ++ s) ≡ some (raw / 128, s) =
        h (raw / 128) (omega arith) in
      let flag : leb 128 (raw % 128 + 128) ≡ true = ground arith in
      rw (large, flag, next) (ap (λ x. some (x, s)) (omega arith))
  | inr last ↦ rw (last, last)
]

groups_one :
    (raw : ℕ) (s : Bytes) → raw < 128 → read_groups 1 (groups_of 0 raw ++ s) ≡ some (raw, s)
unfolding read_groups groups_of
groups_one raw s h = let last : leb 128 raw ≡ false = ground arith in rw last

-- The groups of a number below 2 ^ 64 are at most ten, and are read back.
groups_ten :
    (raw : ℕ) (s : Bytes) → raw < 2 ^ 64 → read_groups 10 (groups_of 9 raw ++ s) ≡ some (raw, s)
groups_ten raw s h =
    groups_more 8 (2 ^ 63) raw s
      (λ a. groups_more 7 (2 ^ 56) a s (λ b. groups_more 6 (2 ^ 49) b s (λ c.
        groups_more 5 (2 ^ 42) c s (λ d. groups_more 4 (2 ^ 35) d s (λ e.
          groups_more 3 (2 ^ 28) e s (λ f. groups_more 2 (2 ^ 21) f s (λ g.
            groups_more 1 (2 ^ 14) g s (λ i. groups_more 0 128 i s (λ j. groups_one j s)))))))))
      (omega arith)

unzigzag-zigzag : (v : ℤ) → IsI64 v → unzigzag (zigzag v % 2 ^ 64) ≡ v
unzigzag-zigzag (pos n) h = ground arith
unzigzag-zigzag (negsuc n) h = ground arith

zigzag-lt : (v : ℤ) → zigzag v < 2 ^ 64
zigzag-lt (pos n) = omega arith
zigzag-lt (negsuc n) = omega arith

-- Every int64 is read back from its zigzag groups, and these are never more than the ten that the
-- reader takes.
pub read_varlong-write_varlong :
    (buf s : Bytes) (v : ℤ)
    → IsI64 v
    → (write : Bytes) × (write_varlong buf v ≡ buf ++ write)
      × (read_varlong (reader (write ++ s)) ≡ (v, reader s))
read_varlong-write_varlong buf s v h = (
  groups_of 9 (zigzag v),
  unfold write_varlong in refl,
  unfold read_varlong varlong_of in
      rw (groups_ten (zigzag v) s (zigzag-lt v)) (ap (λ x. (x, reader s)) (unzigzag-zigzag v h)),
)

read_int16-be_bytes :
    (v : ℤ) (s : Bytes)
    → Fits (2 ^ 15) v
    → read_int16 (reader (be_bytes 2 (to_word (2 ^ 16) v) ++ s)) ≡ (v, reader s)
read_int16-be_bytes v s h =
    unfold read_int16 in
    rw (read_word-be_bytes 2 (to_word (2 ^ 16) v) s, be_from_two (to_word (2 ^ 16) v) 0)
      (ap (λ x. (x, reader s)) (word16 v h))

read_int32-be_bytes :
    (v : ℤ) (s : Bytes)
    → Fits (2 ^ 31) v
    → read_int32 (reader (be_bytes 4 (to_word (2 ^ 32) v) ++ s)) ≡ (v, reader s)
read_int32-be_bytes v s h =
    unfold read_int32 read_uint32 in
    rw (read_word-be_bytes 4 (to_word (2 ^ 32) v) s, be_from_four (to_word (2 ^ 32) v) 0)
      (ap (λ x. (x, reader s)) (word32 v h))

take_view-append :
    (s more : Bytes) → take_view (length s) (reader (s ++ more)) ≡ (some s, reader more)
take_view-append s more =
    let enough : ltb (length (s ++ more)) (length s) ≡ false =
      ground (arith, length-append s more) in
    unfold take_view need taken in
    rw (enough, take-append_length s more, drop-append_length (length s) s more refl) refl

read_nullable_string-append :
    (s more : Bytes)
    → length s < 2 ^ 15
    → read_nullable_string (reader (be_bytes 2 (length s % 2 ^ 16) ++ (s ++ more)))
      ≡ (some s, reader more)
read_nullable_string-append s more h =
    let cut : length s % 2 ^ 16 ≡ to_word (2 ^ 16) (pos (length s)) = omega arith in
    unfold read_nullable_string counted in
    rw (cut, read_int16-be_bytes (pos (length s)) (s ++ more) (omega arith))
      (take_view-append s more)

-- A request header that was written in the order of its fields is read back, and the reader then
-- stands at the payload, for every client id of less than 2 ^ 15 bytes.
pub parse_request_header-write :
    (h : RequestHeader) (payload : Bytes)
    → Fits (2 ^ 15) h.api_key
    → Fits (2 ^ 15) h.api_version
    → Fits (2 ^ 31) h.correlation_id
    → length h.client_id < 2 ^ 15
    → parse_request_header (
        reader (
          write_string
            (write_int32 (write_int16 (write_int16 [] h.api_key) h.api_version) h.correlation_id)
            h.client_id
          ++ payload))
      ≡ (h, reader payload)
parse_request_header-write h payload key version correlation short =
    let k = be_bytes 2 (to_word (2 ^ 16) h.api_key) in
    let v = be_bytes 2 (to_word (2 ^ 16) h.api_version) in
    let c = be_bytes 4 (to_word (2 ^ 32) h.correlation_id) in
    let l = be_bytes 2 (length h.client_id % 2 ^ 16) in
    let s = h.client_id in
    let shape : write_string
            (write_int32 (write_int16 (write_int16 [] h.api_key) h.api_version) h.correlation_id) s
          ++ payload
        ≡ k ++ (v ++ (c ++ (l ++ (s ++ payload)))) =
      unfold write_string write_int32 write_uint32 write_int16 in simp append_assoc in
    rw shape (
      unfold parse_request_header or_empty in
      rw
        (
          read_int16-be_bytes h.api_key (v ++ (c ++ (l ++ (s ++ payload)))) key,
          read_int16-be_bytes h.api_version (c ++ (l ++ (s ++ payload))) version,
          read_int32-be_bytes h.correlation_id (l ++ (s ++ payload)) correlation,
          read_nullable_string-append s payload short,
        )
        refl)

-- A length that is patched in afterwards makes the same bytes as if it had been known and written in
-- its place, whatever was written behind the placeholder.
patch_int32-reserve_int32 :
    (buf content : Bytes) (v : ℤ)
    → patch_int32 ((reserve_int32 buf).1 ++ content) (reserve_int32 buf).0 v
      ≡ write_int32 buf v ++ content
patch_int32-reserve_int32 buf content v =
    let zeros = be_bytes 4 (to_word (2 ^ 32) (pos 0)) in
    let word = be_bytes 4 (to_word (2 ^ 32) v) in
    let size = length-be_bytes 4 (to_word (2 ^ 32) (pos 0)) in
    let all : (buf ++ zeros) ++ content ≡ buf ++ (zeros ++ content) =
      append_assoc buf zeros content in
    let front : take (length buf) ((buf ++ zeros) ++ content) ≡ buf =
      ap (take (length buf)) all ∙ take-append_length buf (zeros ++ content) in
    let back : drop (length buf + 4) ((buf ++ zeros) ++ content) ≡ content =
      drop-append_length (length buf + 4) (buf ++ zeros) content
        (omega (arith, length-append buf zeros, size)) in
    unfold patch_int32 patch_uint32 reserve_int32 write_int32 write_uint32 in
    rw (front, back) (sym (append_assoc buf word content))
