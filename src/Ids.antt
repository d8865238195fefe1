-- ===== src/Ids.antt =====
-- Node identifiers and socket addresses: chitchat/src/types.rs, and the standard library's
-- `SocketAddr` with its derived order. A string is the list of its UTF-8 bytes.
use scuttlebutt.Prelude.{ℕ, ◌≡◌, List, Ord, nat_ord, list_ord, pair_ord, arith}
use scuttlebutt.Prelude.Order.{ord_by}

abbrev pub Str : Type 0
Str = List ℕ

-- The octets of an address, a port, and for IPv6 the flow label and the scope.
pub data SocketAddr : Type 0 where
  v4 : List ℕ → ℕ → SocketAddr
  v6 : List ℕ → ℕ → ℕ → ℕ → SocketAddr

pub record ChitchatId : Type 0 where
  pub node_id : Str
  pub generation_id : ℕ
  pub gossip_advertise_addr : SocketAddr

abbrev pub AddrKey : Type 0
AddrKey = ℕ × (List ℕ × (ℕ × (ℕ × ℕ)))

-- The variant and the fields, in the order in which they are compared.
unfoldable pub addr_key : SocketAddr → AddrKey
addr_key (SocketAddr.v4 ip port) = (4, (ip, (port, (0, 0))))
addr_key (SocketAddr.v6 ip port flow scope) = (6, (ip, (port, (flow, scope))))

pub addr_key_injective : (a b : SocketAddr) → addr_key a ≡ addr_key b → a ≡ b
unfolding addr_key
addr_key_injective (SocketAddr.v4 i p) (SocketAddr.v4 j q) h = ground arith
addr_key_injective (SocketAddr.v4 i p) (SocketAddr.v6 j q f s) h = ground arith
addr_key_injective (SocketAddr.v6 i p f s) (SocketAddr.v4 j q) h = ground arith
addr_key_injective (SocketAddr.v6 i p f s) (SocketAddr.v6 j q g t) h = ground arith

abbrev pub IdKey : Type 0
IdKey = Str × (ℕ × AddrKey)

unfoldable pub id_key : ChitchatId → IdKey
unfolding addr_key
id_key c = (c.node_id, (c.generation_id, addr_key c.gossip_advertise_addr))

pub id_key_injective : (a b : ChitchatId) → id_key a ≡ id_key b → a ≡ b
unfolding id_key
id_key_injective a b h =
    ground (arith, addr_key_injective a.gossip_advertise_addr b.gossip_advertise_addr)

-- `derive(Ord)`: the fields in their order.
instance unfoldable pub id_ord : Ord ChitchatId
unfolding id_key nat_ord list_ord pair_ord
id_ord = ord_by pair_ord id_key id_key_injective

instance unfoldable pub addr_ord : Ord SocketAddr
unfolding addr_key nat_ord list_ord pair_ord
addr_ord = ord_by pair_ord addr_key addr_key_injective
