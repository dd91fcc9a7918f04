-- ===== src/Server/PubSub/Methods.antt =====
-- The subscriptions of a server: what each operation changes, and what the reads report.
use mnemos.Prelude.{
  ℕ, ◌<◌, ◌≡◌, refl, ◌∙◌, Bool, true, false, ◌&&◌, ◌||◌, not, none, List, [], ◌∷◌, length, ◌==◌,
  if◌then◌else◌, ◌↔◌, arith, Bool-cases, inl, inr,
}
use mnemos.Prelude.Bytes.{Bytes, eqb}
use mnemos.Server.PubSub.{
  ChannelMap, add_to, remove_from, entry, ChannelKind, PubSub, map_for, with_map, subscribe_channel,
  unsubscribe_channel, subscribe_pattern, unsubscribe_pattern, channel_subscribers,
}
use mnemos.Server.PubSub.Sets.{has_fd}
use mnemos.Server.PubSub.Maps.{
  IsChannelMap, listens, listens_absent, add_to-IsChannelMap, listens-add_to, add_to-told,
  remove_from-IsChannelMap, listens-remove_from, remove_from-told,
}

-- The three maps are well formed.
pub record IsPubSub (p : PubSub) : Type 0 where
  pub channels : IsChannelMap p.channels
  pub shard_channels : IsChannelMap p.shard_channels
  pub patterns : IsChannelMap p.patterns

-- The three name spaces: the channels of both kinds, and the patterns.
pub data Space : Type 0 where
  channels_of : ChannelKind → Space
  all_patterns : Space

abbrev pub map_of : Space → PubSub → ChannelMap
map_of (channels_of kind) p = map_for kind p
map_of all_patterns p = p.patterns

-- The client listens to the name in the name space.
abbrev pub hears : PubSub → Space → Bytes → ℕ → Bool
hears p s q f = listens (map_of s p) q f

abbrev pub same_space : Space → Space → Bool
same_space (channels_of ChannelKind.global) (channels_of ChannelKind.global) = true
same_space (channels_of ChannelKind.shard) (channels_of ChannelKind.shard) = true
same_space all_patterns all_patterns = true
same_space _ _ = false

-- Subscribing and unsubscribing in a name space.
unfoldable pub subscribe : Space → PubSub → Bytes → ℕ → Bool × PubSub
unfolding subscribe_channel subscribe_pattern
subscribe (channels_of kind) p name fd = subscribe_channel kind p name fd
subscribe all_patterns p name fd = subscribe_pattern p name fd

unfoldable pub unsubscribe : Space → PubSub → Bytes → ℕ → Bool × PubSub
unfolding unsubscribe_channel unsubscribe_pattern
unsubscribe (channels_of kind) p name fd = unsubscribe_channel kind p name fd
unsubscribe all_patterns p name fd = unsubscribe_pattern p name fd

-- The result tells `told`, and then exactly `heard` of a name, a client and what was before.
pub record Sets (p : PubSub) (s : Space) (told : Bool) (heard : Bytes → ℕ → Bool → Bool)
    (r : Bool × PubSub) : Type 0 where
  pub told_so : r.0 ≡ told
  pub well : IsPubSub r.1
  pub hears_so :
      (t : Space) (q : Bytes) (f : ℕ)
      → hears r.1 t q f ≡ (if same_space s t then heard q f (hears p t q f) else hears p t q f)

-- The subscription of one client to one name.
abbrev pub is_pair : Bytes → ℕ → Bytes → ℕ → Bool
is_pair name fd q f = eqb name q && (fd == f)

abbrev with_space : Space → PubSub → ChannelMap → PubSub
with_space (channels_of kind) p m = with_map kind p m
with_space all_patterns p m = record p { patterns = m }

hears-with_space :
    (s t : Space) (p : PubSub) (m : ChannelMap) (q : Bytes) (f : ℕ)
    → hears (with_space s p m) t q f ≡ (if same_space s t then listens m q f else hears p t q f)
hears-with_space (channels_of ChannelKind.global) (channels_of ChannelKind.global) p m q f = refl
hears-with_space (channels_of ChannelKind.global) (channels_of ChannelKind.shard) p m q f = refl
hears-with_space (channels_of ChannelKind.global) all_patterns p m q f = refl
hears-with_space (channels_of ChannelKind.shard) (channels_of ChannelKind.global) p m q f = refl
hears-with_space (channels_of ChannelKind.shard) (channels_of ChannelKind.shard) p m q f = refl
hears-with_space (channels_of ChannelKind.shard) all_patterns p m q f = refl
hears-with_space all_patterns (channels_of ChannelKind.global) p m q f = refl
hears-with_space all_patterns (channels_of ChannelKind.shard) p m q f = refl
hears-with_space all_patterns all_patterns p m q f = refl

same_space-map_of : (s t : Space) (p : PubSub) → same_space s t ≡ true → map_of s p ≡ map_of t p
same_space-map_of (channels_of ChannelKind.global) (channels_of ChannelKind.global) p h = refl
same_space-map_of (channels_of ChannelKind.global) (channels_of ChannelKind.shard) p h = cc
same_space-map_of (channels_of ChannelKind.global) all_patterns p h = cc
same_space-map_of (channels_of ChannelKind.shard) (channels_of ChannelKind.global) p h = cc
same_space-map_of (channels_of ChannelKind.shard) (channels_of ChannelKind.shard) p h = refl
same_space-map_of (channels_of ChannelKind.shard) all_patterns p h = cc
same_space-map_of all_patterns (channels_of ChannelKind.global) p h = cc
same_space-map_of all_patterns (channels_of ChannelKind.shard) p h = cc
same_space-map_of all_patterns all_patterns p h = refl

map_of-IsChannelMap : (s : Space) (p : PubSub) → IsPubSub p → IsChannelMap (map_of s p)
map_of-IsChannelMap (channels_of ChannelKind.global) p h = h.channels
map_of-IsChannelMap (channels_of ChannelKind.shard) p h = h.shard_channels
map_of-IsChannelMap all_patterns p h = h.patterns

with_space-IsPubSub :
    (s : Space) (p : PubSub) (m : ChannelMap)
    → IsPubSub p
    → IsChannelMap m
    → IsPubSub (with_space s p m)
with_space-IsPubSub (channels_of ChannelKind.global) p m h g = record {
  channels = g;
  shard_channels = h.shard_channels;
  patterns = h.patterns;
}
with_space-IsPubSub (channels_of ChannelKind.shard) p m h g = record {
  channels = h.channels;
  shard_channels = g;
  patterns = h.patterns;
}
with_space-IsPubSub all_patterns p m h g = record {
  channels = h.channels;
  shard_channels = h.shard_channels;
  patterns = g;
}

-- A change of one map, seen through all of them.
with_space-Sets :
    (s : Space) (p : PubSub) (r : Bool × ChannelMap) (told : Bool) (heard : Bytes → ℕ → Bool → Bool)
    → IsPubSub p
    → r.0 ≡ told
    → IsChannelMap r.1
    → ((q : Bytes) (f : ℕ) → listens r.1 q f ≡ heard q f (listens (map_of s p) q f))
    → Sets p s told heard (r.0, with_space s p r.1)
with_space-Sets s p r told heard h so well reads = record {
  told_so = so;
  well = with_space-IsPubSub s p r.1 h well;
  hears_so = λ t q f. hears-with_space s t p r.1 q f ∙ elim (Bool-cases (same_space s t)) [
    | inr other ↦ rw other
    | inl same ↦ rw (same, ← same_space-map_of s t p same) (reads q f)
  ];
}

subscribe-with_space :
    (s : Space) (p : PubSub) (name : Bytes) (fd : ℕ)
    → subscribe s p name fd
      ≡ ((add_to (map_of s p) name fd).0, with_space s p (add_to (map_of s p) name fd).1)
unfolding subscribe subscribe_channel subscribe_pattern
subscribe-with_space (channels_of kind) p name fd = refl
subscribe-with_space all_patterns p name fd = refl

unsubscribe-with_space :
    (s : Space) (p : PubSub) (name : Bytes) (fd : ℕ)
    → unsubscribe s p name fd
      ≡ ((remove_from (map_of s p) name fd).0, with_space s p (remove_from (map_of s p) name fd).1)
unfolding unsubscribe unsubscribe_channel unsubscribe_pattern
unsubscribe-with_space (channels_of kind) p name fd = refl
unsubscribe-with_space all_patterns p name fd = refl

-- A client hears a name exactly from the time it subscribes, in this name space only; no other
-- subscription changes, and the result says whether it is new. The maps stay well formed: no name
-- twice, no client twice, and no name without a client.
pub subscribe-Sets :
    (s : Space) (p : PubSub) (name : Bytes) (fd : ℕ)
    → IsPubSub p
    → Sets p s
        (not (hears p s name fd))
        (λ q f before. is_pair name fd q f || before)
        (subscribe s p name fd)
subscribe-Sets s p name fd h =
    let m = map_of-IsChannelMap s p h in
    rw (subscribe-with_space s p name fd) (
      with_space-Sets s p (add_to (map_of s p) name fd) _ _ h (add_to-told (map_of s p) name fd m)
        (add_to-IsChannelMap (map_of s p) name fd m)
        (λ q f. listens-add_to (map_of s p) name q fd f))

-- A client does not hear a name any more once it unsubscribes, in this name space only; no other
-- subscription changes, and the result says whether there was one. The maps stay well formed, so
-- that a name that nobody hears is gone.
pub unsubscribe-Sets :
    (s : Space) (p : PubSub) (name : Bytes) (fd : ℕ)
    → IsPubSub p
    → Sets p s
        (hears p s name fd)
        (λ q f before. not (is_pair name fd q f) && before)
        (unsubscribe s p name fd)
unsubscribe-Sets s p name fd h =
    let m = map_of-IsChannelMap s p h in
    rw (unsubscribe-with_space s p name fd) (
      with_space-Sets s p (remove_from (map_of s p) name fd) _ _ h
        (remove_from-told (map_of s p) name fd) (remove_from-IsChannelMap (map_of s p) name fd m)
        (λ q f. listens-remove_from (map_of s p) name q fd f m))

entry-listens :
    (m : ChannelMap) (q : Bytes)
    → IsChannelMap m
    → (entry m q ≡ none) ↔ ((f : ℕ) → listens m q f ≡ false)
unfolding entry listens has_fd
entry-listens m q h = (λ e f. listens_absent m q f e, λ none_hears. only m h none_hears)
  where
    first : (s : List ℕ) → 0 < length s → (f : ℕ) × (has_fd s f ≡ true)
    first [] l = absurd (omega arith)
    first (x ∷ s) l = (x, ground arith)

    only : (m : ChannelMap) → IsChannelMap m → ((f : ℕ) → listens m q f ≡ false) → entry m q ≡ none
    only [] h n = refl
    only ((k, s) ∷ m) h n = elim (Bool-cases (eqb k q)) [
      | inl same ↦ let (f, there) = first s h.2 in absurd (ground (arith, same, there, n f))
      | inr other ↦ rw other (only m h.3 (λ f. rw other at (n f)))
    ]

-- `channelSubscribers` is null exactly for a channel that no client hears: a name whose last client
-- left is not kept.
channel_subscribers-listens :
    (kind : ChannelKind) (p : PubSub) (channel : Bytes)
    → IsPubSub p
    → (channel_subscribers kind p channel ≡ none)
      ↔ ((fd : ℕ) → hears p (channels_of kind) channel fd ≡ false)
channel_subscribers-listens kind p channel h =
    unfold channel_subscribers in
    entry-listens (map_for kind p) channel (map_of-IsChannelMap (channels_of kind) p h)
