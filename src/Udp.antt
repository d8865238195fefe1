-- ===== src/Udp.antt =====
-- The socket of chitchat/src/transport/udp.rs. What the operating system hands to `recv_from` is a list
-- of datagrams and errors, of which the end is a wait; the buffer cuts a datagram off.
use scuttlebutt.Prelude.{
  ℕ, zero, suc, ◌≤◌, ◌≡◌, refl, sym, ap, ◌∙◌, Option, none, some, List, [], ◌∷◌, ◌++◌, All, length,
  take, arith,
}
use mathlib.Core.List.{append-nil}
use scuttlebutt.Ids.{SocketAddr}
use scuttlebutt.Stream.{Compressor}
use scuttlebutt.Message.{ChitchatMessage, serialize_message, deserialize_message}
use scuttlebutt.Message.RoundTrip.{IsMessage, deserialize_message_lem}
use scuttlebutt.Chitchat.{max_udp_datagram_payload_size}

pub data Datagram : Type 0 where
  arrived : SocketAddr → List ℕ → Datagram
  broken : Datagram

-- `Ok(Some(..))`, `Ok(None)` and `Err(..)`
pub data ReceivedOne : Type 0 where
  valid : SocketAddr → ChitchatMessage → ReceivedOne
  invalid failed : ReceivedOne

-- What `recv` returns, with the datagrams that are left.
pub data Received : Type 0 where
  received : SocketAddr → ChitchatMessage → List Datagram → Received
  failed : List Datagram → Received
  waiting : Received

module _ (z : Compressor) where
  -- The payload that is handed to `send_to`.
  unfoldable pub send : SocketAddr → ChitchatMessage → Option (SocketAddr × List ℕ)
  send to m = elim (serialize_message z m) [ none ↦ none | some payload ↦ some (to, payload) ]

  abbrev pub decoded : SocketAddr → Option (ChitchatMessage × List ℕ) → ReceivedOne
  decoded from none = ReceivedOne.invalid
  decoded from (some (m, rest)) = ReceivedOne.valid from m

  unfoldable pub receive_one : Datagram → ReceivedOne
  receive_one Datagram.broken = ReceivedOne.failed
  receive_one (Datagram.arrived from bytes) =
      decoded from (deserialize_message z (take max_udp_datagram_payload_size bytes))

  unfoldable pub recv : List Datagram → Received
  unfolding receive_one
  recv [] = Received.waiting
  recv (d ∷ ds) = elim (receive_one d) [
    | ReceivedOne.valid from m ↦ Received.received from m ds
    | ReceivedOne.invalid ↦ recv ds
    | ReceivedOne.failed ↦ Received.failed ds
  ]

  take-all : (n : ℕ) (xs : List ℕ) → length xs ≤ n → take n xs ≡ xs
  take-all zero [] h = refl
  take-all (suc n) [] h = refl
  take-all zero (x ∷ xs) h = absurd (omega arith)
  take-all (suc n) (x ∷ xs) h = ap (λ r. x ∷ r) (take-all n xs (omega arith))

  payload-send :
      (to : SocketAddr) (m : ChitchatMessage) (payload : List ℕ)
      → send to m ≡ some (to, payload)
      → serialize_message z m ≡ some payload
  unfolding send
  payload-send to m payload e = ground arith

  receive_one-send :
      (from to : SocketAddr) (m : ChitchatMessage) (payload : List ℕ)
      → IsMessage z m
      → send to m ≡ some (to, payload)
      → length payload ≤ max_udp_datagram_payload_size
      → receive_one (Datagram.arrived from payload) ≡ ReceivedOne.valid from m
  unfolding receive_one
  receive_one-send from to m payload h e short = ap (decoded from) (
      ap (deserialize_message z)
        (take-all max_udp_datagram_payload_size payload short ∙ sym (append-nil payload))
      ∙ deserialize_message_lem z m payload [] h (payload-send to m payload e))

  -- Datagrams that are no message are passed over, and the message that is sent after them, one that the
  -- format can carry, in a datagram that the buffer holds, is what `recv` returns, with its sender and with
  -- the datagrams after it left.
  pub recv-send :
      (ds rest : List Datagram) (from to : SocketAddr) (m : ChitchatMessage) (payload : List ℕ)
      → All (λ (d : Datagram). receive_one d ≡ ReceivedOne.invalid) ds
      → IsMessage z m
      → send to m ≡ some (to, payload)
      → length payload ≤ max_udp_datagram_payload_size
      → recv (ds ++ (Datagram.arrived from payload ∷ rest)) ≡ Received.received from m rest
  unfolding recv
  recv-send (d ∷ ds) rest from to m payload junk h e short =
      rw (junk.0, recv) (recv-send ds rest from to m payload junk.1 h e short)
  recv-send [] rest from to m payload junk h e short =
      rw (receive_one-send from to m payload h e short, recv) refl
