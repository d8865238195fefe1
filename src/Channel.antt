-- ===== src/Channel.antt =====
-- The transport over channels in one process: chitchat/src/transport/channel.rs. A socket is its
-- address: the receiver that it holds and the sender that the transport holds are the two ends of the
-- channel that is stored under that address, and both go when the socket is dropped.
pub mod Links
pub mod Delivery
use scuttlebutt.Prelude.{
  ℕ, ◌+◌, ◌%◌, ◌≤◌, ◌<◌, ◌≡◌, Bool, true, false, not, Option, none, some, List, [], ◌∷◌, ◌++◌,
  length, if◌then◌else◌, ltb, ◌==◌, arith,
}
use scuttlebutt.Prelude.Maps
use scuttlebutt.Prelude.Maps.{Map}
use scuttlebutt.Ids.{SocketAddr, ChitchatId, addr_ord}
use scuttlebutt.Types.{u64_mod, inc_u64, KeyValueMutation, DeletionStatusMutation}
use scuttlebutt.NodeDelta.{NodeDelta}
use scuttlebutt.Delta.{Delta}
use scuttlebutt.Digest.{Digest, NodeDigest}
use scuttlebutt.Stream.{Compressor}
use scuttlebutt.Message.{
  ChitchatMessage, serialize_message, serialized_len_message, deserialize_message,
}
use native.Mathlib.Decide.{ℕ_discrete}

abbrev pub Envelope : Type 0
Envelope = SocketAddr × ChitchatMessage

-- The bounded channels of `tokio::sync::mpsc`.
pub record Mpsc : Type 1 where
  pub Channel : Type 0
  pub channel : ℕ → Channel
  pub try_send : Envelope → Channel → Channel
  pub recv : Channel → Option (Envelope × Channel)

abbrev pub max_message_per_channel : ℕ
max_message_per_channel = 100

pub record Statistics : Type 0 where
  pub num_bytes_total : ℕ
  pub num_messages_total : ℕ

unfoldable pub record_message_len : ℕ → Statistics → Statistics
record_message_len message_num_bytes s = record {
  num_bytes_total = (s.num_bytes_total + message_num_bytes) % u64_mod;
  num_messages_total = inc_u64 s.num_messages_total;
}

-- `HashSet<SocketAddr>`
abbrev pub AddrSet : Type 0
AddrSet = Map SocketAddr (Unit {0})

-- `==`
unfoldable pub message_discrete : Discrete ChitchatMessage
message_discrete = hlevel ℕ_discrete

abbrev is_empty : List ℕ → Bool
is_empty [] = true
is_empty (b ∷ bs) = false

abbrev pub contains : SocketAddr → Option AddrSet → Bool
contains a none = false
contains a (some set) = elim (Maps.get a set) [ none ↦ false | some u ↦ true ]

-- What `send` returns: `Ok`, with the state that it leaves, or the error.
pub data Sent (T : Type 0) : Type 0 where
  ok : T → Sent T
  exceeds_mtu : Sent T

-- What `recv` of a socket returns.
pub data Received (T : Type 0) : Type 0 where
  received : SocketAddr → ChitchatMessage → T → Received T
  waiting closed : Received T

-- `none` where an assertion fails.
module _ (z : Compressor) where
  abbrev checked : ChitchatMessage → Option (ChitchatMessage × List ℕ) → Option ChitchatMessage
  checked m none = none
  checked m (some (read, rest)) = elim (message_discrete m read) [
    | yes e ↦ if is_empty rest then some m else none
    | no e ↦ none
  ]

  unfoldable pub serialize_deserialize_chitchat_message : ChitchatMessage → Option ChitchatMessage
  serialize_deserialize_chitchat_message m = elim (serialize_message z m) [
    | none ↦ none
    | some buf ↦
        if length buf == serialized_len_message m
        then checked m (deserialize_message z buf)
        else none
  ]

module _ (mpsc : Mpsc) where
  pub record ChannelTransport : Type 0 where
    pub send_channels : Map SocketAddr mpsc.Channel
    pub statistics : Statistics
    pub removed_links : Map SocketAddr AddrSet
    pub mtu_opt : Option ℕ

  unfoldable pub with_mtu : ℕ → ChannelTransport
  with_mtu mtu = record {
    send_channels = [];
    statistics = record { num_bytes_total = 0; num_messages_total = 0 };
    removed_links = [];
    mtu_opt = some mtu;
  }

  -- `open`; `none` is the error that the address is not available.
  unfoldable pub open_socket : SocketAddr → ChannelTransport → Option ChannelTransport
  open_socket addr t = elim (Maps.get addr t.send_channels) [
    | some c ↦ none
    | none ↦ some (record t {
      send_channels = Maps.insert addr (mpsc.channel max_message_per_channel) t.send_channels;
    })
  ]

  -- `get_mut(&from)` and the removal of `to`
  unfoldable pub restore : SocketAddr → SocketAddr → Map SocketAddr AddrSet → Map SocketAddr AddrSet
  restore from to links = elim (Maps.get from links) [
    | none ↦ links
    | some set ↦ Maps.insert from (Maps.remove to set) links
  ]

  unfoldable pub add_link : SocketAddr → SocketAddr → ChannelTransport → ChannelTransport
  unfolding restore
  add_link from to t = record t {
    removed_links = restore to from (restore from to t.removed_links);
  }

  abbrev pub or_empty : Option AddrSet → AddrSet
  or_empty none = []
  or_empty (some set) = set

  -- `entry(from).or_default()` and the insertion of `to`
  unfoldable pub cut : SocketAddr → SocketAddr → Map SocketAddr AddrSet → Map SocketAddr AddrSet
  cut from to links = Maps.insert from (Maps.insert to tt (or_empty (Maps.get from links))) links

  unfoldable pub remove_link : SocketAddr → SocketAddr → ChannelTransport → ChannelTransport
  unfolding cut
  remove_link from to t = record t { removed_links = cut to from (cut from to t.removed_links) }

  unfoldable pub is_removed : SocketAddr → SocketAddr → ChannelTransport → Bool
  is_removed from to t = contains to (Maps.get from t.removed_links)

  abbrev pub exceeds : ℕ → Option ℕ → Bool
  exceeds n none = false
  exceeds n (some mtu) = ltb mtu n

  -- `try_send` to the channel of the address, if there is one
  abbrev pub delivered :
      SocketAddr → Envelope → ChannelTransport → Option mpsc.Channel → ChannelTransport
  delivered to e t none = t
  delivered to e t (some c) = record t {
    send_channels = Maps.insert to (mpsc.try_send e c) t.send_channels;
  }

  unfoldable pub send :
      Compressor
      → SocketAddr
      → SocketAddr
      → ChitchatMessage
      → ChannelTransport
      → Option (Sent ChannelTransport)
  unfolding record_message_len is_removed serialize_deserialize_chitchat_message
  send z from to message t = elim (serialize_deserialize_chitchat_message z message) [
    | none ↦ none
    | some m ↦
        let num_bytes = serialized_len_message m in
        let counted = record t { statistics = record_message_len num_bytes t.statistics } in
        if exceeds num_bytes t.mtu_opt
        then some Sent.exceeds_mtu
        else if is_removed from to counted
        then some (Sent.ok counted)
        else some (Sent.ok (delivered to (from, m) counted (Maps.get to counted.send_channels)))
  ]

  unfoldable pub close : SocketAddr → ChannelTransport → ChannelTransport
  close addr t = record t { send_channels = Maps.remove addr t.send_channels }

  abbrev taken :
      SocketAddr → ChannelTransport → Option (Envelope × mpsc.Channel) → Received ChannelTransport
  taken addr t none = Received.waiting
  taken addr t (some ((from, m), c)) =
      Received.received from m (record t { send_channels = Maps.insert addr c t.send_channels })

  -- `recv` of the socket that listens on the address
  unfoldable pub recv : SocketAddr → ChannelTransport → Received ChannelTransport
  recv addr t = elim (Maps.get addr t.send_channels) [
    | none ↦ Received.closed
    | some c ↦ taken addr t (mpsc.recv c)
  ]
