-- ===== src/Core/Listpack/Backlen.antt =====
-- The backlen of an entry: read backwards, it gives the length that was written.
use mathlib.Core.List.{reverse, reverse-append, append_assoc}
use mnemos.Prelude.{
  ℕ, ◌+◌, ◌^◌, ◌<◌, ◌≡◌, refl, some, ◌++◌, length, length-append, arith, ltb, leb, if_cases,
}
use mnemos.Prelude.Bytes.{Bytes}
use mnemos.Core.Listpack.{encode_backlen, decode_backlen_backwards, backlen_rounds, with_backlen}

module _ (n : ℕ) (before : Bytes) (h : n < 2 ^ 35) where
  abbrev ReadsBack : Bytes → Type 0
  ReadsBack bytes = decode_backlen_backwards (reverse bytes ++ before) ≡ some (n, length bytes)

  -- The length that `encodeBacklen` writes is read by `decodeBacklenBackwards` from the last of its
  -- bytes, whatever stands before them, with the number of bytes, for a length below 2 ^ 35.
  pub decode_backlen_backwards-encode_backlen : ReadsBack (encode_backlen n)
  unfolding encode_backlen decode_backlen_backwards backlen_rounds
  decode_backlen_backwards-encode_backlen =
      if_cases ReadsBack (leb n 127) _ _ (λ f. ground arith)
        λ _.
          if_cases ReadsBack (ltb n 16384) _ _ (λ f. ground arith)
            λ _.
              if_cases ReadsBack (ltb n 2097152) _ _ (λ f. ground arith)
                λ _. if_cases ReadsBack (ltb n 268435456) _ _ (λ f. ground arith) λ _. ground arith

-- Reading backwards from the end of an entry gives the length of its payload and the number of the
-- backlen's bytes, which add up to the entry: the walk to the entry before it lands on its start.
pub decode_backlen_backwards-with_backlen :
    (payload before : Bytes)
    → length payload < 2 ^ 35
    → (read : ℕ × ℕ) × (decode_backlen_backwards (reverse (with_backlen payload) ++ before)
        ≡ some read)
      × (read.0 ≡ length payload)
      × (read.0 + read.1 ≡ length (with_backlen payload))
unfolding with_backlen
decode_backlen_backwards-with_backlen payload before h =
    let back = encode_backlen (length payload) in
    (
      (length payload, length back),
      rw (reverse-append payload back, append_assoc (reverse back) (reverse payload) before)
          (decode_backlen_backwards-encode_backlen (length payload) (reverse payload ++ before) h),
      refl,
      omega (arith, length-append payload back),
    )
