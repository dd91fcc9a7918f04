-- ===== src/Prelude/Bytes.antt =====
-- Byte strings: their equality as a test, and a mask's bound.
use Prim.Native.Nat.{bit_and, digits, bit_and-bitwise}
use Prim.Native.Char.{code}
use Prim.Native.String.{String}
use mnemos.Prelude.{
  ℕ, zero, suc, ◌/◌, ◌≤◌, ◌≡◌, refl, ◌↔◌, Bool, true, false, ◌&&◌, List, [], ◌∷◌, arith, ◌==◌, min,
  ◌<◌,
}

-- A std::string or string_view is the list of its bytes.
abbrev pub Bytes : Type 0
Bytes = List ℕ

-- The bytes of an ASCII text.
abbrev pub codes : String → Bytes
codes String.[] = []
codes (String.◌∷◌ c s) = code c ∷ codes s

abbrev pub IsByte : ℕ → Type 0
IsByte b = b < 256

-- `==` of two strings
unfoldable pub eqb : Bytes → Bytes → Bool
eqb [] [] = true
eqb [] (b ∷ t) = false
eqb (a ∷ s) [] = false
eqb (a ∷ s) (b ∷ t) = a == b && eqb s t

pub eqb_refl : (s : Bytes) → eqb s s ≡ true
unfolding eqb
eqb_refl [] = refl
eqb_refl (a ∷ s) = ground (arith, eqb_refl s)

pub eqb→eq : (s t : Bytes) → eqb s t ≡ true → s ≡ t
unfolding eqb
eqb→eq [] [] h = refl
eqb→eq [] (b ∷ t) h = cc
eqb→eq (a ∷ s) [] h = cc
eqb→eq (a ∷ s) (b ∷ t) h = ground (arith, eqb→eq s t)

pub eqb_iff : (s t : Bytes) → (eqb s t ≡ true) ↔ (s ≡ t)
eqb_iff s t = (eqb→eq s t, λ e. ground (arith, e, eqb_refl s))

digits-le : (n a b : ℕ) → digits (λ b. zero) min n a b ≤ b
digits-le zero a b = omega arith
digits-le (suc n) zero b = omega arith
digits-le (suc n) (suc a) b = omega (arith, digits-le n (suc a / 2) (b / 2))

-- A value under a mask is at most the mask.
pub bit_and-le : (a b : ℕ) → bit_and a b ≤ b
bit_and-le a b = omega (arith, bit_and-bitwise a b, digits-le a a b)
