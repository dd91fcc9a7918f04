-- ===== src/Server/PubSub/Sets.antt =====
-- Ascending lists of file descriptors as sets.
use mnemos.Prelude.{
  ℕ, ◌<◌, ◌≡◌, refl, Bool, false, ◌&&◌, ◌||◌, not, List, [], ◌∷◌, All, ltb, ◌==◌, arith, Bool-cases,
  inl, inr,
}
use mnemos.Server.PubSub.{insert_fd, erase_fd}

abbrev pub IsAscending : List ℕ → Type 0
IsAscending [] = Unit {0}
IsAscending (x ∷ s) = All (λ y. x < y) s × IsAscending s

unfoldable pub has_fd : List ℕ → ℕ → Bool
has_fd [] fd = false
has_fd (x ∷ s) fd = (x == fd) || has_fd s fd

All-weaken_lt : (a b : ℕ) (s : List ℕ) → a < b → All (λ y. b < y) s → All (λ y. a < y) s
All-weaken_lt a b [] h k = tt
All-weaken_lt a b (x ∷ s) h k = (omega arith, All-weaken_lt a b s h k.1)

pub has_fd_below : (fd : ℕ) (s : List ℕ) → All (λ y. fd < y) s → has_fd s fd ≡ false
unfolding has_fd
has_fd_below fd [] h = refl
has_fd_below fd (x ∷ s) h = ground (arith, has_fd_below fd s h.1)

All-insert_fd :
    (a fd : ℕ) (s : List ℕ) → a < fd → All (λ y. a < y) s → All (λ y. a < y) (insert_fd fd s).1
unfolding insert_fd
All-insert_fd a fd [] h k = (h, tt)
All-insert_fd a fd (x ∷ s) h k = elim (Bool-cases (ltb fd x)) [
  | inl below ↦ rw below (h, k)
  | inr above ↦ elim (Bool-cases (fd == x)) [
    | inl same ↦ rw (above, same) k
    | inr other ↦ rw (above, other) (k.0, All-insert_fd a fd s h k.1)
  ]
]

pub insert_fd-IsAscending : (fd : ℕ) (s : List ℕ) → IsAscending s → IsAscending (insert_fd fd s).1
unfolding insert_fd
insert_fd-IsAscending fd [] h = (tt, tt)
insert_fd-IsAscending fd (x ∷ s) h = elim (Bool-cases (ltb fd x)) [
  | inl below ↦
      let lt : fd < x = ground (arith, below) in rw below ((lt, All-weaken_lt fd x s lt h.0), h)
  | inr above ↦ elim (Bool-cases (fd == x)) [
    | inl same ↦ rw (above, same) h
    | inr other ↦
        rw (above, other)
          (All-insert_fd x fd s (ground (arith, above, other)) h.0, insert_fd-IsAscending fd s h.1)
  ]
]

pub has_fd-insert_fd :
    (fd f : ℕ) (s : List ℕ) → has_fd (insert_fd fd s).1 f ≡ (fd == f) || has_fd s f
unfolding insert_fd has_fd
has_fd-insert_fd fd f [] = refl
has_fd-insert_fd fd f (x ∷ s) = ground (arith, has_fd-insert_fd fd f s)

pub insert_fd-told : (fd : ℕ) (s : List ℕ) → IsAscending s → (insert_fd fd s).0 ≡ not (has_fd s fd)
unfolding insert_fd has_fd
insert_fd-told fd [] h = refl
insert_fd-told fd (x ∷ s) h = elim (Bool-cases (ltb fd x)) [
  | inl below ↦
      let gone = has_fd_below fd s (All-weaken_lt fd x s (ground (arith, below)) h.0) in
      rw (below, gone) (ground (arith, below))
  | inr above ↦ ground (arith, above, insert_fd-told fd s h.1)
]

All-erase_fd : (a fd : ℕ) (s : List ℕ) → All (λ y. a < y) s → All (λ y. a < y) (erase_fd fd s).1
unfolding erase_fd
All-erase_fd a fd [] k = tt
All-erase_fd a fd (x ∷ s) k = elim (Bool-cases (fd == x)) [
  | inl same ↦ rw same k.1
  | inr other ↦ rw other (k.0, All-erase_fd a fd s k.1)
]

pub erase_fd-IsAscending : (fd : ℕ) (s : List ℕ) → IsAscending s → IsAscending (erase_fd fd s).1
unfolding erase_fd
erase_fd-IsAscending fd [] h = tt
erase_fd-IsAscending fd (x ∷ s) h = elim (Bool-cases (fd == x)) [
  | inl same ↦ rw same h.1
  | inr other ↦ rw other (All-erase_fd x fd s h.0, erase_fd-IsAscending fd s h.1)
]

pub has_fd-erase_fd :
    (fd f : ℕ) (s : List ℕ)
    → IsAscending s
    → has_fd (erase_fd fd s).1 f ≡ not (fd == f) && has_fd s f
unfolding erase_fd has_fd
has_fd-erase_fd fd f [] h = ground arith
has_fd-erase_fd fd f (x ∷ s) h = ground (arith, has_fd-erase_fd fd f s h.1, has_fd_below x s h.0)

pub erase_fd-told : (fd : ℕ) (s : List ℕ) → (erase_fd fd s).0 ≡ has_fd s fd
unfolding erase_fd has_fd
erase_fd-told fd [] = refl
erase_fd-told fd (x ∷ s) = ground (arith, erase_fd-told fd s)
