-- ===== src/Server/Command/Counters.antt =====
-- INCR, DECR, INCRBY and DECRBY as whole commands.
use mnemos.Prelude.{
  ◌^◌, ◌≡◌, refl, ◌∙◌, ap, inl, inr, Bool, false, ◌&&◌, some, [], if◌then◌else◌, arith, Bool-cases,
  ltb, leb,
}
use mnemos.Prelude.Bytes.{codes}
use mnemos.Prelude.Decimal.{to_string}
use mnemos.Prelude.Int.{ℤ, pos, negsuc, pos_part, neg_part, IsI64, plus_ℤ, eqb_ℤ}
use mnemos.Core.Encoding.{string_to_int64}
use mnemos.Core.Encoding.RoundTrip.{string_to_int64-to_string}
use mnemos.Core.Object.{Value, touch, string_value}
use mnemos.Core.Object.Strings.{IsString}
use mnemos.Server.Command.{Context, arg, error}
use mnemos.Server.Command.Increment.{Stores, Refuses, overflow_msg, incr_decr_by-Adds}
use mnemos.Server.Command.Keys.{IsLive}
use mnemos.Server.Command.Numbers.{
  int64_min, negate, incr_decr_by, incr, decr, incrby, incrby_parsed, decrby, decrby_parsed,
}

abbrev pub is_i64 : ℤ → Bool
is_i64 n = ltb (pos_part n) (2 ^ 63) && leb (neg_part n) (2 ^ 63)

negate-IsI64 : (m : ℤ) → IsI64 m → eqb_ℤ m int64_min ≡ false → IsI64 (negate m)
negate-IsI64 (pos n) k h = ground arith
negate-IsI64 (negsuc n) k h = ground arith

module _ {C : Type 0} where
  -- A sum that is an int64 is stored, and any other one refused.
  abbrev pub Adds : Context C → Value C → ℤ → Context C → Type 0
  Adds c v sum c' =
      if is_i64 sum then Stores c sum [] c' else Refuses c overflow_msg (some (touch c.now_ms v)) c'

  -- DECRBY adds the negated number, but for the smallest int64, which has none.
  abbrev pub Subtracts : Context C → Value C → ℤ → ℤ → Context C → Type 0
  Subtracts c v n m c' =
      if eqb_ℤ m int64_min
      then c' ≡ error (codes "ERR decrement would overflow") c
      else Adds c v (plus_ℤ n (negate m)) c'

  module _ (c : Context C) (n : ℤ) (v : Value C) (l : IsLive c (arg c 1) v) (h : IsString v)
      (e : string_value v ≡ to_string n) (i : IsI64 n) where
    incr_decr_by-sum : (delta : ℤ) → IsI64 delta → Adds c v (plus_ℤ n delta) (incr_decr_by delta c)
    incr_decr_by-sum delta k =
        let (fits, over) = incr_decr_by-Adds c n delta v l h e i k in
        let sum = plus_ℤ n delta in
        elim (Bool-cases (is_i64 sum)) [
          | inl inside ↦ rw inside (fits (ground (arith, inside)))
          | inr outside ↦ rw outside (over (λ wrong. absurd (ground (arith, outside, wrong))))
        ]

    -- INCR, DECR, INCRBY and DECRBY on a live key whose string is the decimal text of an int64, the
    -- last two with the text of an int64 as argument. Where the sum or the difference is an int64, it
    -- is stored as an integer, with the deadline kept, one change counted, the change told and the
    -- result answered; where it is none, the key keeps its string, the error is answered, and nothing
    -- is counted or told. DECRBY by the smallest int64 is always an error, before the key is looked up.
    pub incr-Adds :
        Adds c v (plus_ℤ n (pos 1)) (incr c)
        × Adds c v (plus_ℤ n (negsuc 0)) (decr c)
        × ((m : ℤ)
            → IsI64 m
            → arg c 2 ≡ to_string m
            → Adds c v (plus_ℤ n m) (incrby c) × Subtracts c v n m (decrby c))
    unfolding incr decr incrby incrby_parsed decrby decrby_parsed
    incr-Adds = (
      incr_decr_by-sum (pos 1) (omega arith),
      incr_decr_by-sum (negsuc 0) (omega arith),
      λ m k text.
          let parsed : string_to_int64 (arg c 2) ≡ some m =
            ap string_to_int64 text ∙ string_to_int64-to_string m k in
          (
            rw parsed (incr_decr_by-sum m k),
            rw parsed (elim (Bool-cases (eqb_ℤ m int64_min)) [
              | inl smallest ↦ rw smallest refl
              | inr other ↦ rw other (incr_decr_by-sum (negate m) (negate-IsI64 m k other))
            ]),
          ),
    )
