-- ===== src/Rpc/Subscriptions/Filters.antt =====
-- The filters of a subscription (src/rpc/connection.rs, `handle_event`) against those of the query
-- of the active offers (src/db/offers.rs).
use derouter.Base.{
  String, ◌≡◌, refl, ◌⊎◌, true, false, ◌&&◌, Option, none, some, List, [], ◌∷◌, arith, text_eq,
  Bool, is_some, map, select, ap,
}
use derouter.Dto.{PeerId}
use derouter.Db.{OfferSnapshotRow, Database}
use derouter.Db.Offers.{passes, to_snapshot, query_active_offers}
use derouter.State.{offer_updated}
use derouter.Rpc.Subscriptions.{
  mentions, check_against_offer_subscription, frame_for, active_offers,
}

-- With at most one filter, the two tests agree.
offer_filters_agree :
    (protocol_ids : Option (List String)) (provider_peer_ids : Option (List PeerId))
    (protocol_id : String) (provider_peer_id : PeerId)
    → (protocol_ids ≡ none) ⊎ (provider_peer_ids ≡ none)
    → check_against_offer_subscription protocol_ids provider_peer_ids protocol_id provider_peer_id
      ≡ (passes protocol_ids protocol_id && passes provider_peer_ids provider_peer_id)
unfolding check_against_offer_subscription
offer_filters_agree none none protocol_id provider_peer_id h = refl
offer_filters_agree none (some qs) protocol_id provider_peer_id h = refl
offer_filters_agree (some ps) none protocol_id provider_peer_id h = ground arith
offer_filters_agree (some ps) (some qs) protocol_id provider_peer_id h = ground (arith, h)

-- Whether a subscription to the active offers gets a frame when the offer of a row is updated.
abbrev pub gets_frame : Option (List String) → Option (List PeerId) → OfferSnapshotRow → Bool
gets_frame protocol_ids provider_peer_ids r =
    is_some
      (frame_for (offer_updated (to_snapshot r)) 0 (active_offers protocol_ids provider_peer_ids))

gets_frame-passes :
    (protocol_ids : Option (List String)) (provider_peer_ids : Option (List PeerId))
    (r : OfferSnapshotRow)
    → (protocol_ids ≡ none) ⊎ (provider_peer_ids ≡ none)
    → gets_frame protocol_ids provider_peer_ids r
      ≡ (passes protocol_ids r.protocol_id && passes provider_peer_ids r.provider_peer_id)
unfolding frame_for
gets_frame-passes ps qs r h =
    ground (arith, offer_filters_agree ps qs r.protocol_id r.provider_peer_id h)

select-active :
    (ps : Option (List String)) (qs : Option (List PeerId)) (rows : List OfferSnapshotRow)
    → (ps ≡ none) ⊎ (qs ≡ none)
    → select
        (λ (r : OfferSnapshotRow).
          r.active && (passes ps r.protocol_id && passes qs r.provider_peer_id))
        rows
      ≡ select (λ (r : OfferSnapshotRow). r.active && gets_frame ps qs r) rows
unfolding select
select-active ps qs [] h = refl
select-active ps qs (r ∷ rows) h = rw (gets_frame-passes ps qs r h, select-active ps qs rows h) refl

-- With at most one filter, the query of the active offers returns just the active snapshots of which an
-- update would send a frame to a subscription with the same filters, in the order in which SQLite visits them.
pub query_active_offers-frame_for :
    (scan : List OfferSnapshotRow → List OfferSnapshotRow) (db : Database)
    (protocol_ids : Option (List String)) (provider_peer_ids : Option (List PeerId))
    → (protocol_ids ≡ none) ⊎ (provider_peer_ids ≡ none)
    → query_active_offers scan db protocol_ids provider_peer_ids
      ≡ map to_snapshot (
          select
            (λ (r : OfferSnapshotRow). r.active && gets_frame protocol_ids provider_peer_ids r)
            (scan db.offer_snapshots))
unfolding query_active_offers
query_active_offers-frame_for scan db ps qs h =
    ap (map to_snapshot) (select-active ps qs (scan db.offer_snapshots) h)

-- With both filters set, the subscription gets the events of an offer of a protocol it names
-- although the offer's Provider is not among those that it names, and the query would leave the
-- offer out.
pub provider_filter_ignored :
    (protocol_ids : List String) (provider_peer_ids : List PeerId) (protocol_id : String)
    (provider_peer_id : PeerId)
    → mentions protocol_ids protocol_id ≡ true
    → mentions provider_peer_ids provider_peer_id ≡ false
    → (check_against_offer_subscription
          (some protocol_ids)
          (some provider_peer_ids)
          protocol_id
          provider_peer_id
        ≡ true)
      × ((passes (some protocol_ids) protocol_id
            && passes (some provider_peer_ids) provider_peer_id)
          ≡ false)
unfolding check_against_offer_subscription
provider_filter_ignored ps qs protocol_id provider_peer_id p q = (p, ground (arith, p, q))
