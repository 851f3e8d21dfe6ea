-- ===== src/P2p/Peers.antt =====
-- The discovered peers of `P2pState` in src/state.rs, and the mDNS events of `handle_event` in
-- src/p2p.rs. A HashSet of addresses is a list without repetition.
pub mod Addresses
mod Tests
use derouter.Base.{
  String, Bool, Option, none, some, List, [], ◌∷◌, Outcome, ok, panic, any, select, not, ◌==◌,
  text_eq, if◌then◌else◌,
}
use derouter.Base.Maps.{Map, lookup, insert, remove}
use derouter.Dto.{PeerId}

abbrev pub Multiaddr : Type 0
Multiaddr = String

abbrev pub Peers : Type 0
Peers = Map PeerId (List Multiaddr)

-- `HashSet::insert` and `HashSet::remove`.
abbrev pub add_address : Multiaddr → List Multiaddr → List Multiaddr
add_address address set = if any (λ a. a == address) set then set else address ∷ set

abbrev pub remove_address : Multiaddr → List Multiaddr → List Multiaddr
remove_address address set = select (λ a. not (a == address)) set

-- The set of the peer, empty where it has none.
abbrev pub addresses_of : PeerId → Peers → List Multiaddr
addresses_of peer peers = elim (lookup peer peers) [ none ↦ [] | some set ↦ set ]

-- `mdns::Event::Discovered(items)`
unfoldable pub discovered : List (PeerId × Multiaddr) → Peers → Peers
discovered [] peers = peers
discovered ((peer, address) ∷ items) peers =
    discovered items (insert peer (add_address address (addresses_of peer peers)) peers)

-- What is left of the addresses of a peer is stored, or the peer removed where nothing is left.
abbrev pub store_addresses : PeerId → List Multiaddr → Peers → Peers
store_addresses peer [] peers = remove peer peers
store_addresses peer (address ∷ set) peers = insert peer (address ∷ set) peers

-- `mdns::Event::Expired(items)`: the address of a peer that is not there is a failed `unwrap`.
unfoldable pub expired : List (PeerId × Multiaddr) → Peers → Outcome ⊥ Peers
expired [] peers = ok peers
expired ((peer, address) ∷ items) peers = elim (lookup peer peers) [
  | none ↦ panic
  | some set ↦ expired items (store_addresses peer (remove_address address set) peers)
]
