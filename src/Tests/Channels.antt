-- ===== src/Tests/Channels.antt =====
-- Runs of the subscriptions.
use mnemos.Prelude.{◌≡◌, refl, ◌&&◌, ◌||◌, not, [], ◌∷◌, arith}
use mnemos.Prelude.Bytes.{Bytes, eqb}
use mnemos.Server.PubSub.{PubSub, entry, ChannelKind, subscribe_channel}
use mnemos.Server.PubSub.Methods.{
  IsPubSub, Sets, channels_of, hears, is_pair, subscribe, unsubscribe, subscribe-Sets,
  unsubscribe-Sets,
}

abbrev news : Bytes
news = b'n' ∷ b'e' ∷ b'w' ∷ b's' ∷ []

-- Two clients listen to one channel.
abbrev two_clients : PubSub
two_clients = record { channels = (news, 4 ∷ 7 ∷ []) ∷ []; shard_channels = []; patterns = [] }

two_clients-IsPubSub : IsPubSub two_clients
unfolding entry
two_clients-IsPubSub = record {
  channels = (refl, omega arith, omega arith, tt);
  shard_channels = tt;
  patterns = tt;
}

subscribe-Sets_example :
    Sets two_clients
      (channels_of ChannelKind.shard)
      (not (hears two_clients (channels_of ChannelKind.shard) news 7))
      (λ q f before. is_pair news 7 q f || before)
      (subscribe (channels_of ChannelKind.shard) two_clients news 7)
subscribe-Sets_example =
    subscribe-Sets (channels_of ChannelKind.shard) two_clients news 7 two_clients-IsPubSub

unsubscribe-Sets_example :
    Sets two_clients
      (channels_of ChannelKind.global)
      (hears two_clients (channels_of ChannelKind.global) news 7)
      (λ q f before. not (is_pair news 7 q f) && before)
      (unsubscribe (channels_of ChannelKind.global) two_clients news 7)
unsubscribe-Sets_example =
    unsubscribe-Sets (channels_of ChannelKind.global) two_clients news 7 two_clients-IsPubSub

in_order :
    (subscribe_channel ChannelKind.global two_clients news 5).1.channels
    ≡ (news, 4 ∷ 5 ∷ 7 ∷ []) ∷ []
unfolding subscribe_channel eqb
in_order = refl
