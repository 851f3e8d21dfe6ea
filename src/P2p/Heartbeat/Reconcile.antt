-- ===== src/P2p/Heartbeat/Reconcile.antt =====
-- The loop of src/p2p/gossipsub/heartbeat/handle.rs over the active snapshots of the Provider.
use derouter.Base.{
  ◌≡◌, refl, ◌∙◌, true, false, inl, inr, none, some, List, [], ◌∷◌, arith, Outcome, ok,
  Option-cases, Bool-cases, subst, ◌==◌, text_eq, nat_eq, ==_refl, ==_iff, if◌then◌else◌, any,
  any_head, any_tail,
}
use derouter.Dto.{PeerId}
use derouter.Db.{OfferSnapshotRow}
use derouter.Db.Offers.{OfferKey, key_eq, key_of, active_row, set_active}
use derouter.Db.Offers.Table.{IsTable, disable-IsTable, active_row-disable}
use derouter.Db.Offers.Place.{upsert_on_payload-Places}
use derouter.P2p.Proto.{ProviderOffer, Offers, get_offer}
use derouter.P2p.Heartbeat.{Work, HeartbeatError, reconcile, reconcile_all, reported, dropped}
use derouter.P2p.Heartbeat.Announce.{payload_at, incoming, Reaches}

-- The round for `r` returns, keeps the indexes, gives the offer of `r` its incoming payload, and
-- keeps the active row of every other offer.
pub record Settles (offers : Offers) (r : OfferSnapshotRow) (w : Work)
    (out : Outcome HeartbeatError Work) : Type 0 where
  pub work : Work
  pub returns : out ≡ ok work
  pub table : IsTable work.rows
  pub own : payload_at work.rows (key_of r) ≡ incoming r.provider_peer_id offers (key_of r)
  pub others :
      (j : OfferKey) → (key_of r == j) ≡ false → active_row work.rows j ≡ active_row w.rows j

reconcile-kept :
    (offers : Offers) (r : OfferSnapshotRow) (w : Work) (o : ProviderOffer)
    → IsTable w.rows
    → active_row w.rows (key_of r) ≡ some r
    → get_offer offers r.protocol_id r.offer_id ≡ some o
    → (o.protocol_payload == r.protocol_payload) ≡ true
    → Settles offers r w (reconcile r.provider_peer_id offers r w)
unfolding reconcile
reconcile-kept offers r w o t a g e = record {
  work = w;
  returns = ground (arith, g, e);
  table = t;
  own =
      ground
        (arith, g, a, ==_refl r.provider_peer_id, ==_iff o.protocol_payload r.protocol_payload);
  others = λ j n. refl;
}

reconcile-changed :
    (offers : Offers) (r : OfferSnapshotRow) (w : Work) (o : ProviderOffer)
    → IsTable w.rows
    → active_row w.rows (key_of r) ≡ some r
    → get_offer offers r.protocol_id r.offer_id ≡ some o
    → (o.protocol_payload == r.protocol_payload) ≡ false
    → Settles offers r w (reconcile r.provider_peer_id offers r w)
unfolding reconcile
reconcile-changed offers r w o t a g e =
    let free = active_row-disable w.rows (key_of r) (key_of r) r t a in
    let p =
      upsert_on_payload-Places (set_active r.rowid false w.rows) (key_of r) o.protocol_payload
        (disable-IsTable r.rowid w.rows t) (ground (arith, free, ==_refl (key_of r))) in
    record {
      work =
          reported w r.provider_peer_id r.protocol_id r.offer_id o.protocol_payload p.row.rowid
            p.rows';
      returns = ground (arith, g, e, p.returns);
      table = p.table;
      own = ground (
        arith,
        g,
        p.actives (key_of r),
        p.payload_of,
        ==_refl r.provider_peer_id,
        ==_refl (key_of r),
      );
      others = λ j n. ground (arith, p.actives j, active_row-disable w.rows (key_of r) j r t a);
    }

reconcile-removed :
    (offers : Offers) (r : OfferSnapshotRow) (w : Work)
    → IsTable w.rows
    → active_row w.rows (key_of r) ≡ some r
    → get_offer offers r.protocol_id r.offer_id ≡ none
    → Settles offers r w (reconcile r.provider_peer_id offers r w)
unfolding reconcile
reconcile-removed offers r w t a g = record {
  work = dropped r.provider_peer_id r w;
  returns = ground (arith, g);
  table = disable-IsTable r.rowid w.rows t;
  own =
      ground (arith, g, active_row-disable w.rows (key_of r) (key_of r) r t a, ==_refl (key_of r));
  others = λ j n. ground (arith, active_row-disable w.rows (key_of r) j r t a);
}

pub reconcile-Settles :
    (offers : Offers) (r : OfferSnapshotRow) (w : Work)
    → IsTable w.rows
    → active_row w.rows (key_of r) ≡ some r
    → Settles offers r w (reconcile r.provider_peer_id offers r w)
reconcile-Settles offers r w t a = elim (Option-cases (get_offer offers r.protocol_id r.offer_id)) [
  | inl g ↦ reconcile-removed offers r w t a g
  | inr (o, g) ↦ elim (Bool-cases (o.protocol_payload == r.protocol_payload)) [
    | inl e ↦ reconcile-kept offers r w o t a g e
    | inr e ↦ reconcile-changed offers r w o t a g e
  ]
]

-- The rows that the loop has still to visit: each is the active row of its offer, all are of the
-- Provider, and no two are of one offer.
abbrev pub Ready : List OfferSnapshotRow → PeerId → List OfferSnapshotRow → Type 0
Ready rows source [] = Unit
Ready rows source (r ∷ rs) =
    (active_row rows (key_of r) ≡ some r)
    × ((r.provider_peer_id ≡ source)
        × ((any (λ s. key_of r == key_of s) rs ≡ false) × Ready rows source rs))

Ready-keeps :
    (rows rows' : List OfferSnapshotRow) (source : PeerId) (k : OfferKey)
    (rs : List OfferSnapshotRow)
    → ((j : OfferKey) → (k == j) ≡ false → active_row rows' j ≡ active_row rows j)
    → any (λ s. k == key_of s) rs ≡ false
    → Ready rows source rs
    → Ready rows' source rs
unfolding any
Ready-keeps rows rows' source k [] keep apart h = tt
Ready-keeps rows rows' source k (r ∷ rs) keep apart (a, (p, (d, h))) = (
  keep (key_of r) (any_head (λ s. k == key_of s) r rs apart) ∙ a,
  (p, (d, Ready-keeps rows rows' source k rs keep (any_tail (λ s. k == key_of s) r rs apart) h)),
)

any-same_key :
    (k j : OfferKey) (rs : List OfferSnapshotRow)
    → any (λ s. k == key_of s) rs ≡ false
    → k ≡ j
    → any (λ s. key_of s == j) rs ≡ false
unfolding any
any-same_key k j [] h e = refl
any-same_key k j (s ∷ rs) h e =
    ground (arith, ==_iff k (key_of s), ==_iff (key_of s) j, any-same_key k j rs)

pub reconcile_all-Reaches :
    (source : PeerId) (offers : Offers) (rs : List OfferSnapshotRow) (w : Work)
    → IsTable w.rows
    → Ready w.rows source rs
    → Reaches
        (reconcile_all source offers rs w)
        (λ j. if any (λ r. key_of r == j) rs then incoming source offers j else payload_at w.rows j)
unfolding reconcile_all any
reconcile_all-Reaches source offers [] w t h = record {
  work = w;
  returns = refl;
  table = t;
  payloads = λ j. refl;
}
reconcile_all-Reaches source offers (r ∷ rs) w t (a, (p, (d, h))) =
    let s =
      subst (λ x. Settles offers r w (reconcile x offers r w)) p
        (reconcile-Settles offers r w t a) in
    let rest =
      reconcile_all-Reaches source offers rs s.work s.table
        (Ready-keeps w.rows s.work.rows source (key_of r) rs s.others d h) in
    record {
      work = rest.work;
      returns = ground (arith, s.returns, rest.returns);
      table = rest.table;
      payloads = λ j. ground (
        arith,
        rest.payloads j,
        s.others j,
        s.own,
        p,
        ==_iff (key_of r) j,
        any-same_key (key_of r) j rs d,
      );
    }
