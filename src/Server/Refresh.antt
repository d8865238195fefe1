-- ===== src/Server/Refresh.antt =====
-- Which addresses the refresh of the seeds sends: chitchat/src/server.rs.
use scuttlebutt.Prelude.{
  In, ℕ, ◌≡◌, sym, ap, ◌∙◌, ◌⊎◌, inl, inr, true, Bool-cases, Option, none, some, List, [], ◌∷◌,
  same, same→eq, same_refl, Ord, list_ord, nat_ord, arith,
}
use mathlib.Core.Path.{subst}
use scuttlebutt.Prelude.Maps
use scuttlebutt.Prelude.Maps.{Map, keys}
use scuttlebutt.Ids.{Str, SocketAddr, addr_ord}
use scuttlebutt.Chitchat.Kept.{is_some}
use scuttlebutt.Server.Seeds.{
  Addrs, Seeds, no_seeds, insert_all, resolve_seed_host, add_seed, sort_seeds,
  spawn_dns_refresh_loop, resolve_all, dns_refresh,
}

module _ (parse : Str → Option SocketAddr) (lookup : ℕ → Str → Option (List SocketAddr)) where
  abbrev pub Known : SocketAddr → Addrs → Type 0
  Known a m = is_some (Maps.get a m) ≡ true

  insert-Known : (a b : SocketAddr) (m : Addrs) → Known a m → Known a (Maps.insert b tt m)
  insert-Known a b m h = ground (arith, Maps.get-insert b a tt m)

  insert-Known-self : (a : SocketAddr) (m : Addrs) → Known a (Maps.insert a tt m)
  insert-Known-self a m = ground (arith, Maps.get-insert a a tt m, same_refl a)

  insert_all-Known :
      (a : SocketAddr) (addrs : List SocketAddr) (m : Addrs)
      → Known a m
      → Known a (insert_all addrs m)
  unfolding insert_all
  insert_all-Known a [] m h = h
  insert_all-Known a (b ∷ addrs) m h = insert_all-Known a addrs _ (insert-Known a b m h)

  insert_all-In :
      (a : SocketAddr) (addrs : List SocketAddr) (m : Addrs)
      → In a addrs
      → Known a (insert_all addrs m)
  unfolding insert_all
  insert_all-In a [] m i = absurd i
  insert_all-In a (b ∷ addrs) m (inl first) =
      insert_all-Known a addrs _ (rw first (insert-Known-self b m))
  insert_all-In a (b ∷ addrs) m (inr later) = insert_all-In a addrs _ later

  resolve-Known :
      (a : SocketAddr) (o : Option (List SocketAddr)) (m : Addrs)
      → Known a m
      → Known a (resolve_seed_host o m)
  unfolding resolve_seed_host
  resolve-Known a none m h = h
  resolve-Known a (some addrs) m h = insert_all-Known a addrs m h

  resolve_all-Known :
      (a : SocketAddr) (now : ℕ) (hosts : List Str) (m : Addrs)
      → Known a m
      → Known a (resolve_all parse lookup now hosts m)
  unfolding resolve_all
  resolve_all-Known a now [] m h = h
  resolve_all-Known a now (host ∷ hosts) m h =
      resolve_all-Known a now hosts _ (resolve-Known a (lookup now host) m h)

  keys-In :
      {K : Type 0} ⦃o : Ord K⦄ (k : K) (m : Map K (Unit {0}))
      → is_some (Maps.get k m) ≡ true
      → In k (keys m)
  unfolding Maps.get
  keys-In k [] h = ground arith
  keys-In k ((j, u) ∷ m) h = elim (Bool-cases (same k j)) [
    | inl hit ↦ inl (same→eq k j hit)
    | inr miss ↦ inr (keys-In k m (ground (arith, h, miss)))
  ]

  resolve_all-In :
      (a : SocketAddr) (now : ℕ) (host : Str) (addrs : List SocketAddr) (hosts : List Str)
      (m : Addrs)
      → lookup now host ≡ some addrs
      → In a addrs
      → In host hosts
      → Known a (resolve_all parse lookup now hosts m)
  unfolding resolve_all
  resolve_all-In a now host addrs [] m found i j = absurd j
  resolve_all-In a now host addrs (h ∷ hosts) m found i (inl first) =
      resolve_all-Known a now hosts _ (
        subst (λ o. Known a (resolve_seed_host o m)) (sym (ap (lookup now) (sym first) ∙ found))
          (unfold resolve_seed_host in insert_all-In a addrs m i))
  resolve_all-In a now host addrs (h ∷ hosts) m found i (inr later) =
      resolve_all-In a now host addrs hosts _ found i later

  -- What a seed stands for at an instant: an address, or a host that is found there.
  abbrev pub Names : ℕ → Str → SocketAddr → Type 0
  Names now seed a =
      (parse seed ≡ some a)
      ⊎ ((parse seed ≡ none)
          × ((addrs : List SocketAddr) × ((lookup now seed ≡ some addrs) × In a addrs)))

  -- What the seeds that were sorted so far give at an instant.
  abbrev Given : ℕ → Seeds → Str → SocketAddr → Type 0
  Given now s seed a =
      Known a s.seed_addrs_not_requiring_resolution
      ⊎ ((is_some (Maps.get seed s.seed_requiring_dns) ≡ true)
          × ((addrs : List SocketAddr) × ((lookup now seed ≡ some addrs) × In a addrs)))

  add_seed-Given :
      (now later : ℕ) (other seed : Str) (o : Option SocketAddr) (a : SocketAddr) (s : Seeds)
      → Given later s seed a
      → Given later (add_seed parse lookup now other o s) seed a
  add_seed-Given now later other seed (some b) a s (inl known) = inl (insert-Known a b _ known)
  add_seed-Given now later other seed (some b) a s (inr host) = inr host
  add_seed-Given now later other seed none a s (inl known) = inl known
  add_seed-Given now later other seed none a s (inr (held, found)) =
      inr (ground (arith, held, Maps.get-insert other seed tt s.seed_requiring_dns), found)

  sort_seeds-keeps :
      (now later : ℕ) (seeds : List Str) (seed : Str) (a : SocketAddr) (s : Seeds)
      → Given later s seed a
      → Given later (sort_seeds parse lookup now seeds s) seed a
  unfolding sort_seeds
  sort_seeds-keeps now later [] seed a s g = g
  sort_seeds-keeps now later (other ∷ seeds) seed a s g =
      sort_seeds-keeps now later seeds seed a _
        (add_seed-Given now later other seed (parse other) a s g)

  add_seed-Names :
      (now later : ℕ) (seed : Str) (a : SocketAddr) (s : Seeds)
      → Names later seed a
      → Given later (add_seed parse lookup now seed (parse seed) s) seed a
  add_seed-Names now later seed a s (inl literal) = rw literal (inl (insert-Known-self a _))
  add_seed-Names now later seed a s (inr (host, found)) = rw host (
      inr
        (ground (arith, Maps.get-insert seed seed tt s.seed_requiring_dns, same_refl seed), found))

  sort_seeds-Names :
      (now later : ℕ) (seeds : List Str) (seed : Str) (a : SocketAddr) (s : Seeds)
      → In seed seeds
      → Names later seed a
      → Given later (sort_seeds parse lookup now seeds s) seed a
  unfolding sort_seeds
  sort_seeds-Names now later [] seed a s i n = absurd i
  sort_seeds-Names now later (other ∷ seeds) seed a s (inl first) n =
      sort_seeds-keeps now later seeds seed a _
        (rw (sym first) (add_seed-Names now later seed a s n))
  sort_seeds-Names now later (other ∷ seeds) seed a s (inr rest) n =
      sort_seeds-Names now later seeds seed a _ rest n

  -- However the seeds were looked up at the start, each round of the refresh sends every address that a
  -- seed is, and every address that is found in that round for a seed that is a host.
  pub dns_refresh-Known :
      (now later : ℕ) (seeds : List Str) (seed : Str) (a : SocketAddr)
      → In seed seeds
      → Names later seed a
      → Known a (dns_refresh parse lookup later (spawn_dns_refresh_loop parse lookup now seeds).0)
  unfolding dns_refresh spawn_dns_refresh_loop
  dns_refresh-Known now later seeds seed a i n =
      let s = sort_seeds parse lookup now seeds no_seeds in
      elim (sort_seeds-Names now later seeds seed a no_seeds i n) [
        | inl known ↦ resolve_all-Known a later (keys s.seed_requiring_dns) _ known
        | inr (held, (addrs, (found, j))) ↦
            resolve_all-In a later seed addrs (keys s.seed_requiring_dns) _ found j
              (keys-In seed s.seed_requiring_dns held)
      ]
