-- ===== src/Wire/Address.antt =====
-- Socket addresses and node identifiers of chitchat/src/serialize.rs.
use scuttlebutt.Prelude.{
  ℕ, ◌+◌, ◌≡◌, refl, Option, none, some, List, ◌∷◌, ◌++◌, length, length-append, if◌then◌else◌,
  ◌==◌, arith,
}
use mathlib.Core.List.{append_assoc}
use scuttlebutt.Ids.{SocketAddr, ChitchatId}
use scuttlebutt.Wire.{Parser, ◌>>=◌, pure, fail, feed}
use scuttlebutt.Wire.Ints.{
  deserialize_array, deserialize_array_lem, deserialize_u8, deserialize_u8_lem, serialize_u16,
  deserialize_u16, IsU16, deserialize_u16_lem, length-serialize_u16, serialize_u64, deserialize_u64,
  IsU64, deserialize_u64_lem, length-serialize_u64,
}
use scuttlebutt.Wire.Text.{
  serialize_str, serialized_len_str, deserialize_str, IsStr, length-serialize_str,
  deserialize_str_lem,
}

pub data IpAddr : Type 0 where
  v4 v6 : List ℕ → IpAddr

pub data IpVersion : Type 0 where
  v4 v6 : IpVersion

abbrev pub version_of_byte : ℕ → Option IpVersion
version_of_byte b = if b == 4 then some IpVersion.v4 else if b == 6 then some IpVersion.v6 else none

unfoldable pub serialize_ip : IpAddr → List ℕ
serialize_ip (IpAddr.v4 octets) = 4 ∷ octets
serialize_ip (IpAddr.v6 octets) = 6 ∷ octets

abbrev pub serialized_len_ip : IpAddr → ℕ
serialized_len_ip (IpAddr.v4 octets) = 1 + 4
serialized_len_ip (IpAddr.v6 octets) = 1 + 16

abbrev pub ip_of_version : Option IpVersion → Parser IpAddr
ip_of_version none = fail
ip_of_version (some IpVersion.v4) = do octets ← deserialize_array 4; pure (IpAddr.v4 octets)
ip_of_version (some IpVersion.v6) = do octets ← deserialize_array 16; pure (IpAddr.v6 octets)

unfoldable pub deserialize_ip : Parser IpAddr
deserialize_ip = do byte ← deserialize_u8; ip_of_version (version_of_byte byte)

-- `ip()`, `port()` and `SocketAddr::new`; the flow label and the scope of IPv6 are not sent.
abbrev pub ip : SocketAddr → IpAddr
ip (SocketAddr.v4 octets p) = IpAddr.v4 octets
ip (SocketAddr.v6 octets p flow scope) = IpAddr.v6 octets

abbrev pub port : SocketAddr → ℕ
port (SocketAddr.v4 octets p) = p
port (SocketAddr.v6 octets p flow scope) = p

abbrev pub socket_addr : IpAddr → ℕ → SocketAddr
socket_addr (IpAddr.v4 octets) p = SocketAddr.v4 octets p
socket_addr (IpAddr.v6 octets) p = SocketAddr.v6 octets p 0 0

unfoldable pub serialize_addr : SocketAddr → List ℕ
serialize_addr a = serialize_ip (ip a) ++ serialize_u16 (port a)

abbrev pub serialized_len_addr : SocketAddr → ℕ
serialized_len_addr a = serialized_len_ip (ip a) + 2

unfoldable pub deserialize_addr : Parser SocketAddr
deserialize_addr = do address ← deserialize_ip; p ← deserialize_u16; pure (socket_addr address p)

unfoldable pub serialize_id : ChitchatId → List ℕ
serialize_id c =
    serialize_str c.node_id
    ++ (serialize_u64 c.generation_id ++ serialize_addr c.gossip_advertise_addr)

abbrev pub serialized_len_id : ChitchatId → ℕ
serialized_len_id c = serialized_len_str c.node_id + 8 + serialized_len_addr c.gossip_advertise_addr

unfoldable pub deserialize_id : Parser ChitchatId
deserialize_id = do
  node_id ← deserialize_str
  generation_id ← deserialize_u64
  addr ← deserialize_addr
  pure (record { node_id = node_id; generation_id = generation_id; gossip_advertise_addr = addr })

-- Addresses as their types guarantee them, with nothing in the fields that are not sent.
abbrev pub IsIp : IpAddr → Type 0
IsIp (IpAddr.v4 octets) = length octets ≡ 4
IsIp (IpAddr.v6 octets) = length octets ≡ 16

abbrev pub IsAddr : SocketAddr → Type 0
IsAddr (SocketAddr.v4 octets p) = (length octets ≡ 4) × IsU16 p
IsAddr (SocketAddr.v6 octets p flow scope) =
    (length octets ≡ 16) × IsU16 p × (flow ≡ 0) × (scope ≡ 0)

abbrev pub IsId : ChitchatId → Type 0
IsId c = IsStr c.node_id × IsU64 c.generation_id × IsAddr c.gossip_advertise_addr

length-serialize_ip : (a : IpAddr) → IsIp a → length (serialize_ip a) ≡ serialized_len_ip a
unfolding serialize_ip
length-serialize_ip (IpAddr.v4 octets) h = omega arith
length-serialize_ip (IpAddr.v6 octets) h = omega arith

deserialize_ip_lem :
    (a : IpAddr)
    → IsIp a
    → (rest : List ℕ) → deserialize_ip (serialize_ip a ++ rest) ≡ some (a, rest)
unfolding deserialize_ip serialize_ip
deserialize_ip_lem (IpAddr.v4 octets) h rest =
    rw (deserialize_u8_lem 4 (octets ++ rest), feed)
      (rw (deserialize_array_lem 4 octets rest h, feed))
deserialize_ip_lem (IpAddr.v6 octets) h rest =
    rw (deserialize_u8_lem 6 (octets ++ rest), feed)
      (rw (deserialize_array_lem 16 octets rest h, feed))

IsAddr-ip :
    (a : SocketAddr) → IsAddr a → IsIp (ip a) × IsU16 (port a) × (socket_addr (ip a) (port a) ≡ a)
IsAddr-ip (SocketAddr.v4 octets p) h = (h.0, h.1, refl)
IsAddr-ip (SocketAddr.v6 octets p flow scope) h = (h.0, h.1, rw (h.2, h.3))

pub length-serialize_addr :
    (a : SocketAddr) → IsAddr a → length (serialize_addr a) ≡ serialized_len_addr a
unfolding serialize_addr
length-serialize_addr a h = omega (
  arith,
  length-append {0} (serialize_ip (ip a)) (serialize_u16 (port a)),
  length-serialize_ip (ip a) (IsAddr-ip a h).0,
  length-serialize_u16 (port a),
)

pub deserialize_addr_lem :
    (a : SocketAddr)
    → IsAddr a
    → (rest : List ℕ) → deserialize_addr (serialize_addr a ++ rest) ≡ some (a, rest)
unfolding deserialize_addr serialize_addr
deserialize_addr_lem a h rest =
    let v = IsAddr-ip a h in
    rw (append_assoc, deserialize_ip_lem (ip a) v.0 (serialize_u16 (port a) ++ rest), feed)
      (rw (deserialize_u16_lem (port a) v.1 rest, feed) (rw v.2))

pub length-serialize_id : (c : ChitchatId) → IsId c → length (serialize_id c) ≡ serialized_len_id c
unfolding serialize_id
length-serialize_id c h = omega (
  arith,
  length-append {0} (serialize_str c.node_id)
      (serialize_u64 c.generation_id ++ serialize_addr c.gossip_advertise_addr),
  length-append {0} (serialize_u64 c.generation_id) (serialize_addr c.gossip_advertise_addr),
  length-serialize_str c.node_id,
  length-serialize_u64 c.generation_id,
  length-serialize_addr c.gossip_advertise_addr h.2,
)

-- A node identifier that the format can carry is read back, whatever follows it.
pub deserialize_id_lem :
    (c : ChitchatId)
    → IsId c
    → (rest : List ℕ) → deserialize_id (serialize_id c ++ rest) ≡ some (c, rest)
unfolding deserialize_id serialize_id
deserialize_id_lem c h rest = simp (
  append_assoc,
  deserialize_str_lem c.node_id h.0,
  deserialize_u64_lem c.generation_id h.1,
  deserialize_addr_lem c.gossip_advertise_addr h.2,
)
