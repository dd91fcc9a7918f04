-- ===== src/Core/Glob/Language.antt =====
-- What a unit of a pattern of src/core/strings.cpp means, whatever order the code tests it in: a
-- literal, an escaped byte, `?`, and a class with its members.
use mnemos.Prelude.{ℕ, ◌+◌, ◌≤◌, ◌≡◌, Bool, true, false, not, ◌&&◌, ◌||◌, ◌⊎◌, List, [], ◌∷◌, ◌==◌}
use mnemos.Prelude.Bytes.{Bytes}
use mnemos.Core.Glob.{fold, rank}

-- The capital letters of the C locale.
abbrev pub IsUpper : ℕ → Type 0
IsUpper x = (b'A' ≤ x) × (x ≤ b'Z')

-- Two bytes are the same, where case does not count up to the case of a letter.
abbrev pub IsSame : Bool → ℕ → ℕ → Type 0
IsSame false x c = x ≡ c
IsSame true x c = (x ≡ c) ⊎ ((IsUpper x × (c ≡ x + 32)) ⊎ (IsUpper c × (x ≡ c + 32)))

-- A member of a class.
pub data Item : Type 0 where
  one : ℕ → Item
  between : ℕ → ℕ → Item

-- A range goes from one end to the other, whichever is written first, in the order of signed chars.
abbrev pub Hits : Bool → ℕ → Item → Type 0
Hits ci c (one x) = IsSame ci x c
Hits ci c (between a b) =
    ((rank (fold ci a) ≤ rank (fold ci c)) × (rank (fold ci c) ≤ rank (fold ci b)))
    ⊎ ((rank (fold ci b) ≤ rank (fold ci c)) × (rank (fold ci c) ≤ rank (fold ci a)))

abbrev pub Contains : Bool → ℕ → List Item → Type 0
Contains ci c [] = ⊥
Contains ci c (i ∷ is) = Hits ci c i ⊎ Contains ci c is

-- A range begins behind the byte in front of these.
unfoldable pub goes_on_as_range : Bytes → Bool
goes_on_as_range (d ∷ z ∷ p) = d == b'-' && not (z == b']')
goes_on_as_range _ = false

-- The bytes begin with these members and a `]`, and then the rest.
pub data Items : Bytes → List Item → Bytes → Type 0 where
  ends : {p : Bytes} → Items (b']' ∷ p) [] p
  quotes :
      {y : ℕ} {p q : Bytes} {is : List Item} → Items p is q → Items (b'\\' ∷ y ∷ p) (one y ∷ is) q
  spans :
      {x z : ℕ} {p q : Bytes} {is : List Item}
      → (x == b']') ≡ false
      → (x == b'\\') ≡ false
      → (z == b']') ≡ false
      → Items p is q
      → Items (x ∷ b'-' ∷ z ∷ p) (between x z ∷ is) q
  lists :
      {x : ℕ} {p q : Bytes} {is : List Item}
      → (x == b']') ≡ false
      → (x == b'\\') ≡ false
      → goes_on_as_range p ≡ false
      → Items p is q
      → Items (x ∷ p) (one x ∷ is) q

unfoldable pub is_special : ℕ → Bool
is_special x = x == b'*' || x == b'?' || x == b'[' || x == b'\\'

unfoldable pub begins_with : ℕ → Bytes → Bool
begins_with a [] = false
begins_with a (x ∷ p) = x == a

-- The pattern begins with a unit that matches the byte `c`, and the rest follows it. A `[` without
-- its `]` is no unit.
pub data TakesOne (ci : Bool) (c : ℕ) : Bytes → Bytes → Type 0 where
  any : {p : Bytes} → TakesOne ci c (b'?' ∷ p) p
  literal : {x : ℕ} {p : Bytes} → is_special x ≡ false → IsSame ci x c → TakesOne ci c (x ∷ p) p
  quoted : {y : ℕ} {p : Bytes} → IsSame ci y c → TakesOne ci c (b'\\' ∷ y ∷ p) p
  backslash : IsSame ci b'\\' c → TakesOne ci c (b'\\' ∷ []) []
  in_class :
      {p q : Bytes} {is : List Item}
      → begins_with b'^' p ≡ false
      → Items p is q
      → Contains ci c is
      → TakesOne ci c (b'[' ∷ p) q
  outside_class :
      {p q : Bytes} {is : List Item}
      → Items p is q
      → ¬ Contains ci c is
      → TakesOne ci c (b'[' ∷ b'^' ∷ p) q
