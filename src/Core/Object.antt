-- ===== src/Core/Object.antt =====
-- The strings of src/core/object.h and object.cpp: how `Value` chooses an encoding, and the
-- conversions between the encodings. `C` stands for what the arms of the four collections hold.
pub mod Strings
use mnemos.Prelude.{
  ℕ, zero, suc, ◌+◌, ◌-◌, ◌/◌, ◌%◌, ◌^◌, Bool, true, false, Option, none, some, List, [], ◌∷◌, ◌++◌,
  length, leb, ◌==◌, if◌then◌else◌,
}
use mnemos.Prelude.Bytes.{Bytes}
use mnemos.Prelude.Int.{ℤ, pos, negsuc, to_word, ltb_ℤ}
use mnemos.Prelude.Decimal.{to_string}
use mnemos.Core.Encoding.{ObjType, ObjEncoding, emb_str_size_limit, string_to_int64}

pub data Arm (C : Type 0) : Type 0 where
  integer : ℤ → Arm C
  text : Bytes → Arm C
  collection : C → Arm C

pub record Value (C : Type 0) : Type 0 where
  pub type : ObjType
  pub encoding : ObjEncoding
  pub arm : Arm C
  pub last_access_ms : ℤ

-- The rounds of the loop that counts decimal digits, on fuel; `n` rounds are enough.
pub count_digits : ℕ → ℕ → ℕ
count_digits zero n = 1
count_digits (suc fuel) n =
    let more = suc (count_digits fuel (n / 10)) in if n / 10 == 0 then 1 else more

-- `-static_cast<std::uint64_t>(n)` for a negative `n`
pub magnitude : ℤ → ℕ
magnitude (pos n) = n
magnitude (negsuc n) = (2 ^ 64 - to_word (2 ^ 64) (negsuc n)) % 2 ^ 64

unfoldable pub is_raw : ObjEncoding → Bool
is_raw ObjEncoding.raw = true
is_raw _ = false

module _ {C : Type 0} where
  string_as : ObjEncoding → Arm C → Value C
  string_as e a = record { type = ObjType.string; encoding = e; arm = a; last_access_ms = pos 0 }

  unfoldable pub make_int : ℤ → Value C
  unfolding string_as
  make_int n = string_as ObjEncoding.int (integer n)

  unfoldable pub make_raw_string : Bytes → Value C
  unfolding string_as
  make_raw_string s = string_as ObjEncoding.raw (text s)

  unfoldable pub make_string : Bytes → Value C
  unfolding string_as
  make_string s = elim (string_to_int64 s) [
    | some n ↦ string_as ObjEncoding.int (integer n)
    | none ↦
        string_as
          (if leb (length s) emb_str_size_limit then ObjEncoding.emb_str else ObjEncoding.raw)
          (text s)
  ]

  -- `stringValue` by the encoding and the arm
  pub text_of : ObjEncoding → Arm C → Bytes
  text_of ObjEncoding.int (integer n) = to_string n
  text_of _ (text s) = s
  text_of _ _ = []

  unfoldable pub string_value : Value C → Bytes
  unfolding text_of
  string_value v = text_of v.encoding v.arm

  -- `asInt`
  pub int_of : Arm C → Option ℤ
  int_of (integer n) = some n
  int_of (text s) = string_to_int64 s
  int_of (collection c) = none

  unfoldable pub as_int : Value C → Option ℤ
  unfolding int_of
  as_int v = int_of v.arm

  unfoldable pub make_mutable : Value C → Value C
  unfolding is_raw
  make_mutable v =
      if is_raw v.encoding
      then v
      else record v { arm = text (string_value v); encoding = ObjEncoding.raw }

  -- `std::get<std::string>(data_).append(suffix)`; it throws on another arm, which is `none`.
  pub append_text : Value C → Arm C → Bytes → Option (Value C)
  append_text v (text s) suffix = some (record v { arm = text (s ++ suffix) })
  append_text v _ suffix = none

  unfoldable pub append_string : Value C → Bytes → Option (Value C)
  unfolding make_mutable append_text
  append_string v suffix = append_text (make_mutable v) (make_mutable v).arm suffix

  -- `stringLength` by the arm
  pub length_of : Arm C → ℕ
  unfolding count_digits magnitude
  length_of (integer n) =
      (if ltb_ℤ n (pos 0) then 1 else 0) + count_digits (magnitude n) (magnitude n)
  length_of (text s) = length s
  length_of (collection c) = 0

  unfoldable pub string_length : Value C → ℕ
  unfolding length_of
  string_length v = length_of v.arm

  unfoldable pub touch : ℤ → Value C → Value C
  touch now_ms v = record v { last_access_ms = now_ms }
