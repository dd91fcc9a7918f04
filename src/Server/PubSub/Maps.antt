-- ===== src/Server/PubSub/Maps.antt =====
-- The two templates of src/server/pubsub.cpp, as changes of one pair of a channel and a client.
use mnemos.Prelude.{
  ℕ, ◌<◌, ◌≡◌, refl, Bool, false, ◌&&◌, ◌||◌, not, none, some, List, [], ◌∷◌, length, ◌==◌,
  if◌then◌else◌, arith, Bool-cases, inl, inr,
}
use mnemos.Prelude.Bytes.{Bytes, eqb, eqb_iff, eqb_refl}
use mnemos.Server.PubSub.{insert_fd, erase_fd, ChannelMap, add_to, keep_entry, remove_from, entry}
use mnemos.Server.PubSub.Sets.{
  IsAscending, has_fd, insert_fd-IsAscending, has_fd-insert_fd, insert_fd-told,
  erase_fd-IsAscending, has_fd-erase_fd, erase_fd-told,
}

-- The keys are different, the sets are ascending, and none is empty.
abbrev pub IsChannelMap : ChannelMap → Type 0
IsChannelMap [] = Unit {0}
IsChannelMap ((k, s) ∷ m) = (entry m k ≡ none) × IsAscending s × (0 < length s) × IsChannelMap m

-- The client is in the set of the key.
unfoldable pub listens : ChannelMap → Bytes → ℕ → Bool
listens [] q f = false
listens ((k, s) ∷ m) q f = if eqb k q then has_fd s f else listens m q f

pub listens_absent : (m : ChannelMap) (q : Bytes) (f : ℕ) → entry m q ≡ none → listens m q f ≡ false
unfolding entry listens
listens_absent [] q f h = refl
listens_absent ((k, s) ∷ m) q f h = ground (arith, listens_absent m q f)

entry-add_to :
    (m : ChannelMap) (key q : Bytes) (fd : ℕ)
    → eqb key q ≡ false
    → entry m q ≡ none
    → entry (add_to m key fd).1 q ≡ none
unfolding entry add_to
entry-add_to [] key q fd ne h = rw ne
entry-add_to ((k, s) ∷ m) key q fd ne h = ground (arith, eqb_iff k key, entry-add_to m key q fd ne)

length-insert_fd : (fd : ℕ) (s : List ℕ) → 0 < length (insert_fd fd s).1
unfolding insert_fd
length-insert_fd fd [] = omega arith
length-insert_fd fd (x ∷ s) = ground (arith, length-insert_fd fd s)

pub add_to-IsChannelMap :
    (m : ChannelMap) (key : Bytes) (fd : ℕ) → IsChannelMap m → IsChannelMap (add_to m key fd).1
unfolding add_to entry
add_to-IsChannelMap [] key fd h = (refl, (tt, tt), omega arith, tt)
add_to-IsChannelMap ((k, s) ∷ m) key fd h = elim (Bool-cases (eqb k key)) [
  | inl same ↦ rw same (h.0, insert_fd-IsAscending fd s h.1, length-insert_fd fd s, h.3)
  | inr other ↦
      let ne : eqb key k ≡ false =
        ground (arith, eqb_iff key k, eqb_iff k key, eqb_refl k, other) in
      rw other (entry-add_to m key k fd ne h.0, h.1, h.2, add_to-IsChannelMap m key fd h.3)
]

pub listens-add_to :
    (m : ChannelMap) (key q : Bytes) (fd f : ℕ)
    → listens (add_to m key fd).1 q f ≡ (eqb key q && (fd == f)) || listens m q f
unfolding add_to listens has_fd
listens-add_to [] key q fd f = ground arith
listens-add_to ((k, s) ∷ m) key q fd f = ground (
  arith,
  eqb_iff k key,
  eqb_iff k q,
  eqb_iff key q,
  eqb_refl k,
  has_fd-insert_fd fd f s,
  listens-add_to m key q fd f,
)

pub add_to-told :
    (m : ChannelMap) (key : Bytes) (fd : ℕ)
    → IsChannelMap m
    → (add_to m key fd).0 ≡ not (listens m key fd)
unfolding add_to listens
add_to-told [] key fd h = refl
add_to-told ((k, s) ∷ m) key fd h =
    ground (arith, insert_fd-told fd s h.1, add_to-told m key fd h.3)

entry-keep_entry :
    (k q : Bytes) (s : List ℕ) (m : ChannelMap)
    → eqb k q ≡ false
    → entry (keep_entry k s m) q ≡ entry m q
unfolding entry keep_entry
entry-keep_entry k q [] m ne = refl
entry-keep_entry k q (x ∷ s) m ne = rw ne

entry-remove_from :
    (m : ChannelMap) (key q : Bytes) (fd : ℕ)
    → entry m q ≡ none
    → entry (remove_from m key fd).1 q ≡ none
unfolding entry remove_from
entry-remove_from [] key q fd h = refl
entry-remove_from ((k, s) ∷ m) key q fd h =
    ground (arith, entry-keep_entry k q (erase_fd fd s).1 m, entry-remove_from m key q fd)

keep_entry-IsChannelMap :
    (k : Bytes) (s : List ℕ) (m : ChannelMap)
    → entry m k ≡ none
    → IsAscending s
    → IsChannelMap m
    → IsChannelMap (keep_entry k s m)
unfolding keep_entry
keep_entry-IsChannelMap k [] m fresh up h = h
keep_entry-IsChannelMap k (x ∷ s) m fresh up h = (fresh, up, omega arith, h)

pub remove_from-IsChannelMap :
    (m : ChannelMap) (key : Bytes) (fd : ℕ) → IsChannelMap m → IsChannelMap (remove_from m key fd).1
unfolding remove_from
remove_from-IsChannelMap [] key fd h = tt
remove_from-IsChannelMap ((k, s) ∷ m) key fd h = elim (Bool-cases (eqb k key)) [
  | inl same ↦
      rw same
        (keep_entry-IsChannelMap k (erase_fd fd s).1 m h.0 (erase_fd-IsAscending fd s h.1) h.3)
  | inr other ↦
      rw other (entry-remove_from m key k fd h.0, h.1, h.2, remove_from-IsChannelMap m key fd h.3)
]

listens-keep_entry :
    (k q : Bytes) (s : List ℕ) (m : ChannelMap) (f : ℕ)
    → entry m k ≡ none
    → listens (keep_entry k s m) q f ≡ (if eqb k q then has_fd s f else listens m q f)
unfolding keep_entry listens has_fd
listens-keep_entry k q [] m f fresh = elim (Bool-cases (eqb k q)) [
  | inl same ↦ rw (same, ← (eqb_iff k q).0 same) (listens_absent m k f fresh)
  | inr other ↦ rw other
]
listens-keep_entry k q (x ∷ s) m f fresh = refl

pub listens-remove_from :
    (m : ChannelMap) (key q : Bytes) (fd f : ℕ)
    → IsChannelMap m
    → listens (remove_from m key fd).1 q f ≡ not (eqb key q && (fd == f)) && listens m q f
unfolding remove_from listens
listens-remove_from [] key q fd f h = ground arith
listens-remove_from ((k, s) ∷ m) key q fd f h = ground (
  arith,
  eqb_iff k key,
  eqb_iff k q,
  eqb_iff key q,
  eqb_refl k,
  listens-keep_entry k q (erase_fd fd s).1 m f h.0,
  has_fd-erase_fd fd f s h.1,
  listens-remove_from m key q fd f h.3,
)

pub remove_from-told :
    (m : ChannelMap) (key : Bytes) (fd : ℕ) → (remove_from m key fd).0 ≡ listens m key fd
unfolding remove_from listens
remove_from-told [] key fd = refl
remove_from-told ((k, s) ∷ m) key fd = ground (arith, erase_fd-told fd s, remove_from-told m key fd)

-- The set of a key that has one.
pub entry-some :
    (m : ChannelMap) (key : Bytes) (s : List ℕ)
    → IsChannelMap m
    → entry m key ≡ some s
    → IsAscending s × ((f : ℕ) → listens m key f ≡ has_fd s f)
unfolding entry listens
entry-some [] key s h e = cc
entry-some ((k, t) ∷ m) key s h e = elim (Bool-cases (eqb k key)) [
  | inl same ↦ let this : t ≡ s = ground (arith, e, same) in (rw (← this) h.1, λ f. rw (same, this))
  | inr other ↦
      let (up, reads) = entry-some m key s h.3 (ground (arith, e, other)) in
      (up, λ f. rw other (reads f))
]
