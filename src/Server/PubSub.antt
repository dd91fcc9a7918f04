-- ===== src/Server/PubSub.antt =====
-- src/server/pubsub.h and pubsub.cpp: who listens to which channel and pattern. A map is the list
-- of its entries, and a `std::set<int>` the ascending list of its file descriptors.
pub mod Sets
pub mod Maps
pub mod Methods
use mnemos.Prelude.{
  ℕ, ◌+◌, ◌≡◌, Bool, true, false, Option, none, some, List, [], ◌∷◌, length, map, ltb, ◌==◌,
  if◌then◌else◌,
}
use mnemos.Prelude.Bytes.{Bytes, eqb}

-- `std::set::insert`; the result says whether the number is new.
pub insert_fd : ℕ → List ℕ → Bool × List ℕ
insert_fd fd [] = (true, fd ∷ [])
insert_fd fd (x ∷ s) =
    let (added, rest) = insert_fd fd s in
    if ltb fd x then (true, fd ∷ x ∷ s) else if fd == x then (false, x ∷ s) else (added, x ∷ rest)

-- `std::set::erase`; the result says whether the number was there.
pub erase_fd : ℕ → List ℕ → Bool × List ℕ
erase_fd fd [] = (false, [])
erase_fd fd (x ∷ s) =
    let (erased, rest) = erase_fd fd s in if fd == x then (true, s) else (erased, x ∷ rest)

abbrev pub ChannelMap : Type 0
ChannelMap = List (Bytes × List ℕ)

-- `map[key].insert(fd).second`
pub add_to : ChannelMap → Bytes → ℕ → Bool × ChannelMap
unfolding insert_fd
add_to [] key fd = (true, (key, fd ∷ []) ∷ [])
add_to ((k, s) ∷ m) key fd =
    let (added, s') = insert_fd fd s in
    let (elsewhere, m') = add_to m key fd in
    if eqb k key then (added, (k, s') ∷ m) else (elsewhere, (k, s) ∷ m')

-- An entry that nobody is left in goes.
pub keep_entry : Bytes → List ℕ → ChannelMap → ChannelMap
keep_entry k [] m = m
keep_entry k (x ∷ s) m = (k, x ∷ s) ∷ m

pub remove_from : ChannelMap → Bytes → ℕ → Bool × ChannelMap
unfolding erase_fd keep_entry
remove_from [] key fd = (false, [])
remove_from ((k, s) ∷ m) key fd =
    let (erased, s') = erase_fd fd s in
    let (elsewhere, m') = remove_from m key fd in
    if eqb k key then (erased, keep_entry k s' m) else (elsewhere, (k, s) ∷ m')

-- `find` in a map
unfoldable pub entry : ChannelMap → Bytes → Option (List ℕ)
entry [] key = none
entry ((k, s) ∷ m) key = if eqb k key then some s else entry m key

pub data ChannelKind : Type 0 where
  global shard : ChannelKind

pub record PubSub : Type 0 where
  pub channels : ChannelMap
  pub shard_channels : ChannelMap
  pub patterns : ChannelMap

-- `mapFor`, and a write to what it returns
abbrev pub map_for : ChannelKind → PubSub → ChannelMap
map_for ChannelKind.shard p = p.shard_channels
map_for ChannelKind.global p = p.channels

abbrev pub with_map : ChannelKind → PubSub → ChannelMap → PubSub
with_map ChannelKind.shard p m = record p { shard_channels = m }
with_map ChannelKind.global p m = record p { channels = m }

unfoldable pub subscribe_channel : ChannelKind → PubSub → Bytes → ℕ → Bool × PubSub
unfolding add_to
subscribe_channel kind p channel fd =
    let (added, m) = add_to (map_for kind p) channel fd in (added, with_map kind p m)

unfoldable pub unsubscribe_channel : ChannelKind → PubSub → Bytes → ℕ → Bool × PubSub
unfolding remove_from
unsubscribe_channel kind p channel fd =
    let (erased, m) = remove_from (map_for kind p) channel fd in (erased, with_map kind p m)

unfoldable pub subscribe_pattern : PubSub → Bytes → ℕ → Bool × PubSub
unfolding add_to
subscribe_pattern p pattern fd =
    let (added, m) = add_to p.patterns pattern fd in (added, record p { patterns = m })

unfoldable pub unsubscribe_pattern : PubSub → Bytes → ℕ → Bool × PubSub
unfolding remove_from
unsubscribe_pattern p pattern fd =
    let (erased, m) = remove_from p.patterns pattern fd in (erased, record p { patterns = m })

unfoldable pub channel_subscribers : ChannelKind → PubSub → Bytes → Option (List ℕ)
unfolding entry
channel_subscribers kind p channel = entry (map_for kind p) channel

unfoldable pub channel_names : ChannelKind → PubSub → List Bytes
channel_names kind p = map (λ e. e.0) (map_for kind p)

size_of : Option (List ℕ) → ℕ
size_of none = 0
size_of (some s) = length s

unfoldable pub channel_subscriber_count : ChannelKind → PubSub → Bytes → ℕ
unfolding channel_subscribers size_of
channel_subscriber_count kind p channel = size_of (channel_subscribers kind p channel)

unfoldable pub pattern_count : PubSub → ℕ
pattern_count p = length p.patterns
