-- ===== src/P2p/Peers/Addresses.antt =====
-- src/p2p.rs: the discovered peers as a set of pairs of a peer and an address.
use derouter.Base.{
  ◌≡◌, ◌↔◌, refl, subst, ◌∙◌, ◌≢◌, Bool, true, false, not, ◌&&◌, ◌||◌, Option, none, some, List, [],
  ◌∷◌, arith, Outcome, ok, any, select, ◌==◌, ==_iff, ==_refl, text_eq, if◌then◌else◌, inl, inr,
  Option-cases, Bool-cases, is_some,
}
use derouter.Base.Maps.{lookup, insert, lookup-insert, lookup-remove}
use derouter.Dto.{PeerId}
use derouter.P2p.Peers.{
  Multiaddr, Peers, add_address, remove_address, addresses_of, discovered, store_addresses, expired,
}

-- The address of the peer is there.
abbrev pub is_known : Peers → PeerId → Multiaddr → Bool
is_known peers peer address = any (λ a. a == address) (addresses_of peer peers)

-- The pair is among the items of an event.
abbrev pub is_item : List (PeerId × Multiaddr) → PeerId → Multiaddr → Bool
is_item [] peer address = false
is_item ((p, a) ∷ items) peer address =
    ((p == peer) && (a == address)) || is_item items peer address

any_same :
    (a x : Multiaddr) (set : List Multiaddr)
    → a ≡ x
    → any (λ b. b == a) set ≡ true
    → any (λ b. b == x) set ≡ true
any_same a x set e h = subst (λ (y : Multiaddr). any (λ b. b == y) set ≡ true) e h

any-add_address :
    (a x : Multiaddr) (set : List Multiaddr)
    → any (λ b. b == x) (add_address a set) ≡ ((a == x) || any (λ b. b == x) set)
unfolding any
any-add_address a x set = elim (Bool-cases (any (λ b. b == a) set)) [
  | inl e ↦ ground (arith, e, ==_iff a x, λ (s : a ≡ x). any_same a x set s e)
  | inr e ↦ ground (arith, e)
]

any-remove_address :
    (a x : Multiaddr) (set : List Multiaddr)
    → any (λ b. b == x) (remove_address a set) ≡ (not (a == x) && any (λ b. b == x) set)
unfolding any select
any-remove_address a x [] = ground arith
any-remove_address a x (b ∷ set) =
    ground (arith, any-remove_address a x set, ==_iff a x, ==_iff b a, ==_iff b x)

-- After a discovery just the addresses from before and those of the event are known.
is_known-discovered :
    (items : List (PeerId × Multiaddr)) (peers : Peers) (p : PeerId) (x : Multiaddr)
    → is_known (discovered items peers) p x ≡ (is_item items p x || is_known peers p x)
unfolding discovered
is_known-discovered [] peers p x = refl
is_known-discovered ((q, a) ∷ items) peers p x = ground (
  arith,
  is_known-discovered items (insert q (add_address a (addresses_of q peers)) peers) p x,
  lookup-insert q p (add_address a (addresses_of q peers)) peers,
  any-add_address a x (addresses_of q peers),
  ==_iff q p,
)

-- No peer is kept without an address.
abbrev pub HasAddresses : Peers → Type 0
HasAddresses peers = (p : PeerId) → lookup p peers ≢ some []

add_address-ne : (a : Multiaddr) (set : List Multiaddr) → add_address a set ≢ []
unfolding any
add_address-ne a [] h = ground (arith, h)
add_address-ne a (b ∷ set) h = ground (arith, h)

pub discovered-HasAddresses :
    (items : List (PeerId × Multiaddr)) (peers : Peers)
    → HasAddresses peers
    → HasAddresses (discovered items peers)
unfolding discovered
discovered-HasAddresses [] peers h = h
discovered-HasAddresses ((q, a) ∷ items) peers h =
    discovered-HasAddresses items (insert q (add_address a (addresses_of q peers)) peers) (λ p e.
      absurd (
        ground (
          arith,
          e,
          h p,
          lookup-insert q p (add_address a (addresses_of q peers)) peers,
          add_address-ne a (addresses_of q peers),
        )))

addresses_of-store :
    (q p : PeerId) (set : List Multiaddr) (peers : Peers)
    → addresses_of p (store_addresses q set peers) ≡ (if q == p then set else addresses_of p peers)
addresses_of-store q p [] peers = ground (arith, lookup-remove q p peers)
addresses_of-store q p (a ∷ set) peers = ground (arith, lookup-insert q p (a ∷ set) peers)

store-HasAddresses :
    (q : PeerId) (set : List Multiaddr) (peers : Peers)
    → HasAddresses peers
    → HasAddresses (store_addresses q set peers)
store-HasAddresses q [] peers h p e = absurd (ground (arith, e, h p, lookup-remove q p peers))
store-HasAddresses q (a ∷ set) peers h p e =
    absurd (ground (arith, e, h p, lookup-insert q p (a ∷ set) peers))

-- No pair comes twice.
abbrev pub AreDistinct : List (PeerId × Multiaddr) → Type 0
AreDistinct [] = Unit
AreDistinct ((p, a) ∷ items) = (is_item items p a ≡ false) × AreDistinct items

-- The event is handled, the known pairs are those from before less the items, no peer is kept without
-- an address, and a peer is kept just where one of its addresses is.
pub record Expires (items : List (PeerId × Multiaddr)) (peers : Peers) (out : Outcome ⊥ Peers)
    : Type 0 where
  pub after : Peers
  pub returns : out ≡ ok after
  pub known :
      (p : PeerId) (x : Multiaddr)
      → is_known after p x ≡ (is_known peers p x && not (is_item items p x))
  pub not_empty : HasAddresses after

known-store :
    (q p : PeerId) (a x : Multiaddr) (set : List Multiaddr) (peers : Peers)
    → lookup q peers ≡ some set
    → is_known (store_addresses q (remove_address a set) peers) p x
      ≡ (is_known peers p x && not ((q == p) && (a == x)))
known-store q p a x set peers e = ground (
  arith,
  e,
  addresses_of-store q p (remove_address a set) peers,
  any-remove_address a x set,
  ==_iff q p,
)

expired-Expires :
    (items : List (PeerId × Multiaddr)) (peers : Peers)
    → HasAddresses peers
    → AreDistinct items
    → ((p : PeerId) (x : Multiaddr) → is_item items p x ≡ true → is_known peers p x ≡ true)
    → Expires items peers (expired items peers)
unfolding expired
expired-Expires [] peers h d k = record {
  after = peers;
  returns = refl;
  known = λ p x. ground arith;
  not_empty = h;
}
expired-Expires ((q, a) ∷ items) peers h (once, d) k = elim (Option-cases (lookup q peers)) [
  | inl e ↦ unfold any in absurd (ground (arith, e, k q a, ==_refl q, ==_refl a))
  | inr (set, e) ↦
      let next = store_addresses q (remove_address a set) peers in
      let g =
        expired-Expires items next (store-HasAddresses q (remove_address a set) peers h) d (λ p x s.
          ground
            (arith, s, once, k p x, known-store q p a x set peers e, ==_iff q p, ==_iff a x)) in
      record {
        after = g.after;
        returns = ground (arith, e, g.returns);
        known = λ p x. ground (arith, g.known p x, known-store q p a x set peers e);
        not_empty = g.not_empty;
      }
]

has_first : (a : Multiaddr) (set : List Multiaddr) → any (λ b. b == a) (a ∷ set) ≡ true
unfolding any
has_first a set = ground (arith, ==_refl a)

contains_by :
    (peers : Peers) (p : PeerId) (x : Multiaddr)
    → is_known peers p x ≡ true
    → is_some (lookup p peers) ≡ true
unfolding any
contains_by peers p x h = ground (arith, h)

known_of :
    (peers : Peers) (p : PeerId) (o : Option (List Multiaddr))
    → lookup p peers ≡ o
    → HasAddresses peers
    → is_some o ≡ true
    → (x : Multiaddr) × (is_known peers p x ≡ true)
known_of peers p none e h s = absurd (ground (arith, s))
known_of peers p (some []) e h s = absurd (h p e)
known_of peers p (some (x ∷ set)) e h s = (x, ground (arith, e, has_first x set))

-- The event is handled, and a peer is kept just where an address of it was known that the event does
-- not name.
pub record KeepsReachable (items : List (PeerId × Multiaddr)) (peers : Peers)
    (out : Outcome ⊥ Peers) : Type 0 where
  pub after : Peers
  pub returns : out ≡ ok after
  pub contains :
      (p : PeerId)
      → (is_some (lookup p after) ≡ true)
        ↔ ((x : Multiaddr) × ((is_known peers p x ≡ true) × (is_item items p x ≡ false)))

-- After any discovery, an event of expired addresses is handled with no panic where it names each pair
-- of a peer and an address at most once, and only pairs that are known. After it a peer is kept just
-- where an address of it was known that the event does not name. No peer was kept without an address
-- before the discovery.
pub expired-KeepsReachable :
    (found items : List (PeerId × Multiaddr)) (peers : Peers)
    → HasAddresses peers
    → AreDistinct items
    → ((p : PeerId) (x : Multiaddr)
        → is_item items p x ≡ true
        → (is_item found p x || is_known peers p x) ≡ true)
    → KeepsReachable items (discovered found peers) (expired items (discovered found peers))
expired-KeepsReachable found items peers h d k =
    let now = discovered found peers in
    let g =
      expired-Expires items now (discovered-HasAddresses found peers h) d
        (λ p x s. is_known-discovered found peers p x ∙ k p x s) in
    record {
      after = g.after;
      returns = g.returns;
      contains = λ p. (
        λ s.
            let (x, e) = known_of g.after p (lookup p g.after) refl g.not_empty s in
            (x, (ground (arith, e, g.known p x), ground (arith, e, g.known p x))),
        λ w. let (x, (e, n)) = w in contains_by g.after p x (ground (arith, e, n, g.known p x)),
      );
    }
