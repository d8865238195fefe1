-- ===== src/Server/Seeds.antt =====
-- The seeds of a node and their resolution: `spawn_dns_refresh_loop`, `dns_refresh_loop` and
-- `resolve_seed_host` of chitchat/src/server.rs. The parser of addresses and the lookup of a host at an
-- instant are parameters; a lookup that fails is `none`.
use scuttlebutt.Prelude.{ℕ, Option, none, some, List, [], ◌∷◌, list_ord, nat_ord}
use scuttlebutt.Prelude.Maps
use scuttlebutt.Prelude.Maps.{Map, keys}
use scuttlebutt.Ids.{Str, SocketAddr, addr_ord}

abbrev pub Addrs : Type 0
Addrs = Map SocketAddr (Unit {0})

unfoldable pub insert_all : List SocketAddr → Addrs → Addrs
insert_all [] m = m
insert_all (a ∷ addrs) m = insert_all addrs (Maps.insert a tt m)

-- What is found is added; a failed lookup is only logged.
unfoldable pub resolve_seed_host : Option (List SocketAddr) → Addrs → Addrs
unfolding insert_all
resolve_seed_host none m = m
resolve_seed_host (some addrs) m = insert_all addrs m

pub record Seeds : Type 0 where
  pub seed_addrs_not_requiring_resolution : Addrs
  pub first_round_seed_resolution : Addrs
  pub seed_requiring_dns : Map Str (Unit {0})

unfoldable pub no_seeds : Seeds
no_seeds = record {
  seed_addrs_not_requiring_resolution = [];
  first_round_seed_resolution = [];
  seed_requiring_dns = [];
}

module _ (parse : Str → Option SocketAddr) (lookup : ℕ → Str → Option (List SocketAddr)) where
  abbrev pub add_seed : ℕ → Str → Option SocketAddr → Seeds → Seeds
  add_seed now seed (some addr) s = record s {
    seed_addrs_not_requiring_resolution = Maps.insert addr tt s.seed_addrs_not_requiring_resolution;
  }
  add_seed now seed none s = record s {
    seed_requiring_dns = Maps.insert seed tt s.seed_requiring_dns;
    first_round_seed_resolution = resolve_seed_host (lookup now seed) s.first_round_seed_resolution;
  }

  -- The loop over the seeds.
  unfoldable pub sort_seeds : ℕ → List Str → Seeds → Seeds
  sort_seeds now [] s = s
  sort_seeds now (seed ∷ seeds) s = sort_seeds now seeds (add_seed now seed (parse seed) s)

  -- The seeds, with the addresses that the node starts with.
  unfoldable pub spawn_dns_refresh_loop : ℕ → List Str → Seeds × Addrs
  unfolding sort_seeds no_seeds insert_all
  spawn_dns_refresh_loop now seeds =
      let s = sort_seeds now seeds no_seeds in
      (s, insert_all (keys s.seed_addrs_not_requiring_resolution) s.first_round_seed_resolution)

  unfoldable pub resolve_all : ℕ → List Str → Addrs → Addrs
  unfolding resolve_seed_host
  resolve_all now [] m = m
  resolve_all now (host ∷ hosts) m = resolve_all now hosts (resolve_seed_host (lookup now host) m)

  -- What a round of the refresh sends.
  unfoldable pub dns_refresh : ℕ → Seeds → Addrs
  unfolding resolve_all
  dns_refresh now s =
      resolve_all now (keys s.seed_requiring_dns) s.seed_addrs_not_requiring_resolution
