-- ===== src/P2p/Peers/Tests.antt =====
-- Runs of the mDNS events (src/p2p.rs).
use derouter.Base.{◌≡◌, refl, true, ◌||◌, List, [], ◌∷◌, arith, text_eq}
use derouter.Base.Maps.{lookup}
use derouter.Dto.{PeerId}
use derouter.P2p.Peers.{Multiaddr, discovered, expired}
use derouter.P2p.Peers.Addresses.{
  HasAddresses, is_item, is_known, KeepsReachable, expired-KeepsReachable,
}

abbrev seen : List (PeerId × Multiaddr)
seen = ("a", "/ip4/1") ∷ ("a", "/ip4/2") ∷ []

abbrev gone : List (PeerId × Multiaddr)
gone = ("a", "/ip4/1") ∷ []

nobody : HasAddresses []
unfolding lookup
nobody p h = ground (arith, h)

was_seen :
    (p : PeerId) (x : Multiaddr)
    → is_item gone p x ≡ true
    → (is_item seen p x || is_known [] p x) ≡ true
was_seen p x h = ground (arith, h)

expired-KeepsReachable_example :
    KeepsReachable gone (discovered seen []) (expired gone (discovered seen []))
expired-KeepsReachable_example = expired-KeepsReachable seen gone [] nobody (refl, tt) was_seen
