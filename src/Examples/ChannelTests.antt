-- ===== src/Examples/ChannelTests.antt =====
-- The theorems on the transport over channels at concrete channels:
-- chitchat/src/transport/channel.rs.
use scuttlebutt.Prelude.{
  ℕ, ◌≡◌, refl, true, not, ◌&&◌, ◌||◌, Option, none, some, List, [], ◌∷◌, ◌++◌, length,
  if◌then◌else◌, ltb, nat_ord, list_ord, pair_ord, arith,
}
use scuttlebutt.Prelude.Maps
use scuttlebutt.Ids.{SocketAddr, addr_ord}
use scuttlebutt.Message.{ChitchatMessage, serialize_message, serialize_header}
use scuttlebutt.Wire.Ints.{serialize_u16, serialize_u8, to_le_bytes}
use scuttlebutt.Channel.{
  Mpsc, Envelope, ChannelTransport, Sent, Received, with_mtu, open_socket, add_link, remove_link,
  is_removed, send, recv, exceeds,
}
use scuttlebutt.Channel.Links.{is_link, is_removed_lem}
use scuttlebutt.Channel.Delivery.{IsMpsc, inbox, send_lem, channel_recv-send}
use scuttlebutt.Examples.{no_zstd}

-- A queue, with its capacity.
abbrev Queue : Type 0
Queue = ℕ × List Envelope

abbrev push : Envelope → Queue → Queue
push e q = (q.0, if ltb (length q.1) q.0 then q.1 ++ (e ∷ []) else q.1)

abbrev pop : Queue → Option (Envelope × Queue)
pop (n, []) = none
pop (n, e ∷ es) = some (e, (n, es))

abbrev queues : Mpsc
queues = record { Channel = Queue; channel = λ n. (n, []); try_send = push; recv = pop }

pop_next :
    (e : Envelope) (es : List Envelope) (q : Queue)
    → q.1 ≡ e ∷ es
    → (d : Queue) × (pop q ≡ some (e, d)) × (d.1 ≡ es) × (d.0 ≡ q.0)
pop_next e es (n, []) h = cc
pop_next e es (n, x ∷ xs) h = ((n, xs), cc, cc, refl)

pop_empty : (q : Queue) → q.1 ≡ [] → pop q ≡ none
pop_empty (n, []) h = refl
pop_empty (n, x ∷ xs) h = cc

queues-IsMpsc : IsMpsc queues
queues-IsMpsc = record {
  queued = λ q. q.1;
  capacity = λ q. q.0;
  channel_queued = λ n. refl;
  channel_capacity = λ n. refl;
  try_send_queued = λ e q. refl;
  try_send_capacity = λ e q. refl;
  recv_empty = pop_empty;
  recv_next = pop_next;
}

abbrev addr : ℕ → SocketAddr
addr port = SocketAddr.v4 (127 ∷ 0 ∷ 0 ∷ 1 ∷ []) port

-- A socket is open on the second address, and the link from the third is cut.
abbrev opened : Option (ChannelTransport queues) → ChannelTransport queues
opened none = with_mtu queues 100
opened (some t) = t

abbrev bound : ChannelTransport queues
bound = opened (open_socket queues (addr 2) (with_mtu queues 100))

abbrev transport : ChannelTransport queues
transport = remove_link queues (addr 3) (addr 2) bound

abbrev bad_cluster : List ℕ
bad_cluster = 83 ∷ 176 ∷ 0 ∷ 3 ∷ []

serialized : serialize_message no_zstd ChitchatMessage.bad_cluster ≡ some bad_cluster
unfolding serialize_message serialize_header serialize_u16 serialize_u8 to_le_bytes
serialized = refl

is_removed_lem_example :
    (is_removed queues (addr 2) (addr 3) (remove_link queues (addr 3) (addr 2) bound)
      ≡ is_link (addr 2) (addr 3) (addr 3) (addr 2) || is_removed queues (addr 2) (addr 3) bound)
    × (is_removed queues (addr 2) (addr 3) (add_link queues (addr 3) (addr 2) bound)
        ≡ not (is_link (addr 2) (addr 3) (addr 3) (addr 2))
          && is_removed queues (addr 2) (addr 3) bound)
is_removed_lem_example = is_removed_lem queues (addr 2) (addr 3) (addr 3) (addr 2) bound

channel_recv-send_example :
    (u w : ChannelTransport queues) × (send queues no_zstd
        (addr 1)
        (addr 2)
        ChitchatMessage.bad_cluster
        transport
      ≡ some (Sent.ok u))
    × (recv queues (addr 2) u ≡ Received.received (addr 1) ChitchatMessage.bad_cluster w)
    × (inbox queues queues-IsMpsc (addr 2) w ≡ some (100, []))
unfolding remove_link open_socket Maps.get with_mtu is_removed Maps.insert addr_ord inbox
    queues-IsMpsc
channel_recv-send_example =
    channel_recv-send queues queues-IsMpsc no_zstd (addr 1) (addr 2) ChitchatMessage.bad_cluster
      bad_cluster 100 transport tt serialized refl refl refl (omega arith)

-- The cut link: the message is counted and not delivered.
send_lem_example :
    (u : ChannelTransport queues) × (send queues no_zstd
        (addr 3)
        (addr 2)
        ChitchatMessage.bad_cluster
        transport
      ≡ some (if exceeds queues 4 (some 100) then Sent.exceeds_mtu else Sent.ok u))
    × (inbox queues queues-IsMpsc (addr 2) u ≡ some (100, []))
    × (u.statistics.num_messages_total ≡ 1)
    × (u.statistics.num_bytes_total ≡ 4)
    × (is_removed queues (addr 2) (addr 3) u ≡ true)
unfolding remove_link open_socket Maps.get with_mtu is_removed Maps.insert addr_ord inbox
    queues-IsMpsc
send_lem_example =
    send_lem queues queues-IsMpsc (addr 3) (addr 2) ChitchatMessage.bad_cluster transport no_zstd
      bad_cluster (addr 2) (addr 3) tt serialized
