-- ===== src/Channel/Links.antt =====
-- The links that a test removes and adds: chitchat/src/transport/channel.rs.
use scuttlebutt.Prelude.{
  ◌≡◌, refl, Bool, not, ◌&&◌, ◌||◌, Bool-cases, Option-cases, none, [], inl, inr, same, same→eq,
  arith,
}
use scuttlebutt.Prelude.Maps
use scuttlebutt.Prelude.Maps.{Map}
use scuttlebutt.Ids.{SocketAddr, addr_ord}
use scuttlebutt.Channel.{
  Mpsc, ChannelTransport, AddrSet, contains, or_empty, cut, restore, is_removed, add_link,
  remove_link,
}

-- The pair is the other one.
abbrev is_pair : SocketAddr → SocketAddr → SocketAddr → SocketAddr → Bool
is_pair a b from to = same a from && same b to

-- The pair is the other one, in either direction.
abbrev pub is_link : SocketAddr → SocketAddr → SocketAddr → SocketAddr → Bool
is_link a b from to = is_pair a b from to || is_pair a b to from

module _ (mpsc : Mpsc) (a b : SocketAddr) where
  abbrev removed : Map SocketAddr AddrSet → Bool
  removed links = contains b (Maps.get a links)

  removed-cut :
      (from to : SocketAddr) (links : Map SocketAddr AddrSet)
      → removed (cut mpsc from to links) ≡ is_pair a b from to || removed links
  unfolding cut
  removed-cut from to links =
      let set = or_empty mpsc (Maps.get from links) in
      let outer = Maps.get-insert from a (Maps.insert to tt set) links in
      elim (Bool-cases (same a from)) [
        | inr other ↦ ground (arith, outer, other)
        | inl hit ↦ elim (Option-cases (Maps.get from links)) [
          | inl none_yet ↦ ground (
            arith,
            outer,
            hit,
            none_yet,
            same→eq a from,
            Maps.get-insert {0, 0} to b tt [],
            absent b,
          )
          | inr (old, found) ↦
              ground (arith, outer, hit, found, same→eq a from, Maps.get-insert to b tt old)
        ]
      ]
    where
      absent : (x : SocketAddr) → Maps.get {V = Unit {0}} x [] ≡ none
      absent x = unfold Maps.get in refl

  removed-restore :
      (from to : SocketAddr) (links : Map SocketAddr AddrSet)
      → removed (restore mpsc from to links) ≡ not (is_pair a b from to) && removed links
  unfolding restore
  removed-restore from to links = elim (Option-cases (Maps.get from links)) [
    | inl none_removed ↦ ground (arith, none_removed, same→eq a from)
    | inr (set, found) ↦ ground (
      arith,
      found,
      Maps.get-insert from a (Maps.remove to set) links,
      Maps.get-remove to b set,
      same→eq a from,
    )
  ]

  removed-remove_link :
      (from to : SocketAddr) (t : ChannelTransport mpsc)
      → is_removed mpsc a b (remove_link mpsc from to t)
        ≡ is_link a b from to || is_removed mpsc a b t
  unfolding is_removed remove_link
  removed-remove_link from to t = ground (
    arith,
    removed-cut from to t.removed_links,
    removed-cut to from (cut mpsc from to t.removed_links),
  )

  removed-add_link :
      (from to : SocketAddr) (t : ChannelTransport mpsc)
      → is_removed mpsc a b (add_link mpsc from to t)
        ≡ not (is_link a b from to) && is_removed mpsc a b t
  unfolding is_removed add_link
  removed-add_link from to t = ground (
    arith,
    removed-restore from to t.removed_links,
    removed-restore to from (restore mpsc from to t.removed_links),
  )

  -- Removing a link removes it in both directions and leaves every other link as it is; adding a link
  -- restores it in both directions and leaves every other link as it is.
  pub is_removed_lem :
      (from to : SocketAddr) (t : ChannelTransport mpsc)
      → (is_removed mpsc a b (remove_link mpsc from to t)
          ≡ is_link a b from to || is_removed mpsc a b t)
        × (is_removed mpsc a b (add_link mpsc from to t)
            ≡ not (is_link a b from to) && is_removed mpsc a b t)
  is_removed_lem from to t = (removed-remove_link from to t, removed-add_link from to t)
