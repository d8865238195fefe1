-- ===== src/Channel/Delivery.antt =====
-- What the sockets of the transport over channels send and receive:
-- chitchat/src/transport/channel.rs.
use scuttlebutt.Prelude.{
  ℕ, ◌+◌, ◌%◌, ◌<◌, ◌≡◌, refl, sym, ap, ◌∙◌, false, not, ◌&&◌, ◌↔◌, Bool-cases, Option-cases,
  Option, none, some, inl, inr, List, [], ◌∷◌, ◌++◌, length, same, same→eq, same_refl,
  if◌then◌else◌, ltb, arith,
}
use mathlib.Core.List.{append-nil}
use scuttlebutt.Prelude.Maps
use scuttlebutt.Prelude.Maps.{Map}
use scuttlebutt.Ids.{SocketAddr, addr_ord}
use scuttlebutt.Types.{u64_mod}
use scuttlebutt.Stream.{Compressor}
use scuttlebutt.Message.{
  ChitchatMessage, serialize_message, serialized_len_message, deserialize_message,
}
use scuttlebutt.Message.RoundTrip.{IsMessage, deserialize_message_lem}
use scuttlebutt.Message.Length.{length-serialize_message}
use scuttlebutt.Channel.{
  Mpsc, max_message_per_channel, Envelope, ChannelTransport, Statistics, AddrSet, Sent, Received,
  record_message_len, contains, serialize_deserialize_chitchat_message, exceeds, is_removed,
  delivered, open_socket, send, close, recv,
}

-- What `tokio::sync::mpsc` documents of a bounded channel: a queue; a full one refuses what is sent.
pub record IsMpsc (mpsc : Mpsc) : Type 0 where
  pub queued : mpsc.Channel → List Envelope
  pub capacity : mpsc.Channel → ℕ
  pub channel_queued : (n : ℕ) → queued (mpsc.channel n) ≡ []
  pub channel_capacity : (n : ℕ) → capacity (mpsc.channel n) ≡ n
  pub try_send_queued :
      (e : Envelope) (c : mpsc.Channel)
      → queued (mpsc.try_send e c)
        ≡ (if ltb (length (queued c)) (capacity c) then queued c ++ (e ∷ []) else queued c)
  pub try_send_capacity :
      (e : Envelope) (c : mpsc.Channel) → capacity (mpsc.try_send e c) ≡ capacity c
  pub recv_empty : (c : mpsc.Channel) → queued c ≡ [] → mpsc.recv c ≡ none
  pub recv_next :
      (e : Envelope) (es : List Envelope) (c : mpsc.Channel)
      → queued c ≡ e ∷ es
      → (d : mpsc.Channel) × (mpsc.recv c ≡ some (e, d))
        × (queued d ≡ es)
        × (capacity d ≡ capacity c)

module _ (z : Compressor) where
  -- A message that the format can carry passes the checks of the transport.
  serialize_deserialize_lem :
      (m : ChitchatMessage) (payload : List ℕ)
      → IsMessage z m
      → serialize_message z m ≡ some payload
      → serialize_deserialize_chitchat_message z m ≡ some m
  unfolding serialize_deserialize_chitchat_message
  serialize_deserialize_lem m payload h e =
      let back : deserialize_message z payload ≡ some (m, []) =
        ap (deserialize_message z) (sym (append-nil payload))
        ∙ deserialize_message_lem z m payload [] h e in
      ground (arith, e, back, length-serialize_message z m payload h e)

-- How many messages an inbox holds at most, and those that wait in it.
abbrev pub Inbox : Type 0
Inbox = ℕ × List Envelope

unfoldable pub put : Envelope → Option Inbox → Option Inbox
put e none = none
put e (some (n, waiting)) =
    some (n, if ltb (length waiting) n then waiting ++ (e ∷ []) else waiting)

module _ (mpsc : Mpsc) (laws : IsMpsc mpsc) where
  abbrev inbox_of : Option mpsc.Channel → Option Inbox
  inbox_of none = none
  inbox_of (some c) = some (laws.capacity c, laws.queued c)

  -- The inbox of the socket on the address.
  unfoldable pub inbox : SocketAddr → ChannelTransport mpsc → Option Inbox
  inbox a t = inbox_of (Maps.get a t.send_channels)

  module _ (from to : SocketAddr) (m : ChitchatMessage) (t : ChannelTransport mpsc) where
    abbrev counted : ChannelTransport mpsc
    counted = record t { statistics = record_message_len (serialized_len_message m) t.statistics }

    abbrev passed : ChannelTransport mpsc
    passed =
        if is_removed mpsc from to t
        then counted
        else delivered mpsc to (from, m) counted (Maps.get to t.send_channels)

    inbox-passed :
        (a : SocketAddr)
        → inbox a passed ≡ (
            if same a to && not (is_removed mpsc from to t)
            then put (from, m) (inbox to t)
            else inbox a t)
    unfolding inbox put
    inbox-passed a = elim (Bool-cases (is_removed mpsc from to t)) [
      | inl cut ↦ ground (arith, cut)
      | inr linked ↦ elim (Option-cases (Maps.get to t.send_channels)) [
        | inl unbound ↦ ground (arith, linked, unbound, same→eq a to)
        | inr (c, bound) ↦ ground (
          arith,
          linked,
          bound,
          same→eq a to,
          Maps.get-insert to a (mpsc.try_send (from, m) c) t.send_channels,
          laws.try_send_queued (from, m) c,
          laws.try_send_capacity (from, m) c,
        )
      ]
    ]

    passed_same :
        (passed.statistics ≡ record_message_len (serialized_len_message m) t.statistics)
        × (passed.removed_links ≡ t.removed_links)
    passed_same = elim (Bool-cases (is_removed mpsc from to t)) [
      | inl cut ↦ rw cut (refl, refl)
      | inr linked ↦ elim (Option-cases (Maps.get to t.send_channels)) [
        | inl unbound ↦ rw (linked, unbound) (refl, refl)
        | inr (c, bound) ↦ rw (linked, bound) (refl, refl)
      ]
    ]

    -- A message that the format can carry is an error if it is longer than the `mtu`. Otherwise it is
    -- counted by the two counters, which wrap at 64 bits, and goes behind those that wait in the inbox of the address, if there is one that is
    -- not full and the link is not removed; no other inbox and no link changes.
    pub send_lem :
        (z : Compressor) (payload : List ℕ) (a b : SocketAddr)
        → IsMessage z m
        → serialize_message z m ≡ some payload
        → (u : ChannelTransport mpsc) × (send mpsc z from to m t
            ≡ some
                (if exceeds mpsc (length payload) t.mtu_opt then Sent.exceeds_mtu else Sent.ok u))
          × (inbox a u ≡ (
              if same a to && not (is_removed mpsc from to t)
              then put (from, m) (inbox to t)
              else inbox a t))
          × (u.statistics.num_messages_total ≡ (t.statistics.num_messages_total + 1) % u64_mod)
          × (u.statistics.num_bytes_total
              ≡ (t.statistics.num_bytes_total + length payload) % u64_mod)
          × (is_removed mpsc a b u ≡ is_removed mpsc a b t)
    unfolding send record_message_len is_removed
    send_lem z payload a b h e =
        let checked = serialize_deserialize_lem z m payload h e in
        let len = length-serialize_message z m payload h e in
        (
          passed,
          ground (arith, checked, len),
          inbox-passed a,
          ap (λ (s : Statistics). s.num_messages_total) passed_same.0,
          ap (λ (s : Statistics). s.num_bytes_total) passed_same.0 ∙ ground (arith, len),
          ap (λ (links : Map SocketAddr AddrSet). contains b (Maps.get a links)) passed_same.1,
        )

  -- The first message that waits is received with its sender, and the others go on waiting.
  pub recv_lem :
      (addr a from : SocketAddr) (m : ChitchatMessage) (n : ℕ) (es : List Envelope)
      (t : ChannelTransport mpsc)
      → inbox addr t ≡ some (n, (from, m) ∷ es)
      → (u : ChannelTransport mpsc) × (recv mpsc addr t ≡ Received.received from m u)
        × (inbox a u ≡ (if same a addr then some (n, es) else inbox a t))
  unfolding inbox recv
  recv_lem addr a from m n es t e = elim (Option-cases (Maps.get addr t.send_channels)) [
    | inl closed ↦ cc (closed, e)
    | inr (c, bound) ↦
        let waiting : laws.queued c ≡ (from, m) ∷ es = ground (arith, bound, e) in
        let full : laws.capacity c ≡ n = ground (arith, bound, e) in
        let next = laws.recv_next (from, m) es c waiting in
        (
          record t { send_channels = Maps.insert addr next.0 t.send_channels },
          ground (arith, bound, next.1),
          ground (arith, Maps.get-insert addr a next.0 t.send_channels, next.2, next.3, full),
        )
  ]

  -- With no message waiting in a socket that takes at least one, a message that the format can carry
  -- and that the `mtu` admits is received as it was sent, with its sender, if the link is not removed;
  -- the inbox is empty again.
  pub channel_recv-send :
      (z : Compressor) (from to : SocketAddr) (m : ChitchatMessage) (payload : List ℕ) (n : ℕ)
      (t : ChannelTransport mpsc)
      → IsMessage z m
      → serialize_message z m ≡ some payload
      → exceeds mpsc (length payload) t.mtu_opt ≡ false
      → is_removed mpsc from to t ≡ false
      → inbox to t ≡ some (n, [])
      → 0 < n
      → (u w : ChannelTransport mpsc) × (send mpsc z from to m t ≡ some (Sent.ok u))
        × (recv mpsc to u ≡ Received.received from m w)
        × (inbox to w ≡ some (n, []))
  channel_recv-send z from to m payload n t h e small linked bound pos =
      let sent = send_lem from to m t z payload to to h e in
      let waiting : inbox to sent.0 ≡ some (n, (from, m) ∷ []) =
        sent.2 ∙ (unfold put in ground (arith, linked, bound, same_refl to)) in
      let got = recv_lem to to from m n [] sent.0 waiting in
      (sent.0, got.0, sent.1 ∙ ground (arith, small), got.1, got.2 ∙ ground (arith, same_refl to))

  -- A socket is opened if and only if the address has none, and starts with an empty inbox of 100
  -- messages; after it is closed the address can be opened again.
  pub open_socket_lem :
      (addr : SocketAddr) (t : ChannelTransport mpsc)
      → ((inbox addr t ≡ none) ↔ (
          (u : ChannelTransport mpsc) × (open_socket mpsc addr t ≡ some u)
          × (inbox addr u ≡ some (100, []))))
        × (inbox addr (close mpsc addr t) ≡ none)
  unfolding inbox open_socket close
  open_socket_lem addr t =
      let c = mpsc.channel max_message_per_channel in
      (
        (
          λ free. elim (Option-cases (Maps.get addr t.send_channels)) [
            | inr (d, bound) ↦ cc (bound, free)
            | inl unbound ↦ (
              record t { send_channels = Maps.insert addr c t.send_channels },
              ground (arith, unbound),
              ground (
                arith,
                Maps.get-insert addr addr c t.send_channels,
                same_refl addr,
                laws.channel_queued 100,
                laws.channel_capacity 100,
              ),
            )
          ],
          λ opened. elim (Option-cases (Maps.get addr t.send_channels)) [
            | inl unbound ↦ rw unbound refl
            | inr (d, bound) ↦ cc (bound, opened.1)
          ],
        ),
        ground (arith, Maps.get-remove addr addr t.send_channels, same_refl addr),
      )
