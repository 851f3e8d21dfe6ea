-- ===== src/P2p/Heartbeat/Sync.antt =====
-- src/p2p/gossipsub/heartbeat/handle.rs: both loops together, for a Provider that was updated.
use derouter.Base.{
  ◌≡◌, refl, Bool, true, false, List, [], ◌∷◌, ◌&&◌, arith, ◌==◌, text_eq, nat_eq, ==_refl, ==_iff,
  if◌then◌else◌, map_option, any, any_head, any_tail, select, is_some,
}
use derouter.Base.Maps.{HasUniqueKeys}
use derouter.Dto.{PeerId}
use derouter.Db.{OfferSnapshotRow, Database}
use derouter.Db.Offers.{OfferKey, key_eq, key_beq, key_of, active_row, is_active}
use derouter.Db.Offers.Table.{clash, IsTable, IsIndexed, active_row-cons, active_row-nil}
use derouter.P2p.Proto.{Offers, get_offer, payload_of}
use derouter.P2p.Heartbeat.{active_of, work_on, sync_offers}
use derouter.P2p.Heartbeat.Announce.{payload_at, Reaches, each_protocol-Reaches}
use derouter.P2p.Heartbeat.Reconcile.{Ready, reconcile_all-Reaches}

Ready-cons :
    (s : OfferSnapshotRow) (rs : List OfferSnapshotRow) (source : PeerId)
    (todo : List OfferSnapshotRow)
    → any (λ r. is_active (key_of r) s) todo ≡ false
    → Ready rs source todo
    → Ready (s ∷ rs) source todo
unfolding any
Ready-cons s rs source [] apart h = tt
Ready-cons s rs source (r ∷ todo) apart (a, (p, (d, h))) = (
  ground (
    arith,
    active_row-cons s rs (key_of r),
    any_head (λ q. is_active (key_of q) s) r todo apart,
    a,
  ),
  (p, (d, Ready-cons s rs source todo (any_tail (λ q. is_active (key_of q) s) r todo apart) h)),
)

any-active_of :
    (s : OfferSnapshotRow) (source : PeerId) (rs : List OfferSnapshotRow)
    → any (clash s) rs ≡ false
    → any (λ r. is_active (key_of r) s) (select (active_of source) rs) ≡ false
unfolding any select
any-active_of s source [] h = refl
any-active_of s source (r ∷ rs) h = ground (arith, any-active_of s source rs)

any-others :
    (s : OfferSnapshotRow) (rs : List OfferSnapshotRow)
    → s.active ≡ true
    → any (λ r. is_active (key_of r) s) rs ≡ false
    → any (λ r. key_of s == key_of r) rs ≡ false
unfolding any
any-others s [] a h = refl
any-others s (r ∷ rs) a h = ground (arith, any-others s rs)

Ready-head :
    (s : OfferSnapshotRow) (rs : List OfferSnapshotRow) (source : PeerId)
    (todo : List OfferSnapshotRow)
    → active_of source s ≡ true
    → any (λ r. is_active (key_of r) s) todo ≡ false
    → Ready (s ∷ rs) source todo
    → Ready (s ∷ rs) source (s ∷ todo)
Ready-head s rs source todo e apart h = (
  ground (arith, active_row-cons s rs (key_of s), ==_refl (key_of s), e),
  (
    ground (arith, e, ==_iff s.provider_peer_id source),
    (any-others s todo (ground (arith, e)) apart, h),
  ),
)

-- The row `s` is selected or it is not.
Ready-select :
    (s : OfferSnapshotRow) (rs : List OfferSnapshotRow) (source : PeerId)
    (todo : List OfferSnapshotRow)
    → any (λ r. is_active (key_of r) s) todo ≡ false
    → Ready (s ∷ rs) source todo
    → (b : Bool) → active_of source s ≡ b
    → Ready (s ∷ rs) source (if b then s ∷ todo else todo)
Ready-select s rs source todo apart h true e = Ready-head s rs source todo e apart h
Ready-select s rs source todo apart h false e = h

active_of-Ready :
    (source : PeerId) (rows : List OfferSnapshotRow)
    → IsIndexed rows
    → Ready rows source (select (active_of source) rows)
unfolding select
active_of-Ready source [] x = tt
active_of-Ready source (s ∷ rs) x =
    let apart = any-active_of s source rs x.0 in
    Ready-select s rs source (select (active_of source) rs) apart
      (Ready-cons s rs source (select (active_of source) rs) apart (active_of-Ready source rs x.1))
      (active_of source s) refl

any-selected :
    (source : PeerId) (j : OfferKey) (rows : List OfferSnapshotRow)
    → any (λ r. key_of r == j) (select (active_of source) rows)
      ≡ ((source == j.provider_peer_id) && is_some (active_row rows j))
unfolding any select key_beq
any-selected source j [] = ground (arith, active_row-nil j)
any-selected source j (r ∷ rows) = ground (
  arith,
  active_row-cons r rows j,
  any-selected source j rows,
  ==_iff r.provider_peer_id source,
  ==_iff r.provider_peer_id j.provider_peer_id,
  ==_iff source j.provider_peer_id,
)

-- The loops over the offers of an updated Provider return, with no failure, a table with both unique
-- indexes, in which the active snapshots of the Provider are those of the heartbeat, payload by
-- payload, and the active payloads of every other Provider are what they were. The table had the
-- indexes, and no protocol stands twice in the heartbeat.
pub sync_offers-agrees :
    (main_first : Bool) (source : PeerId) (offers : Offers) (db : Database)
    → IsTable db.offer_snapshots
    → HasUniqueKeys offers
    → Reaches (sync_offers main_first source offers db) (λ j.
      if source == j.provider_peer_id
      then map_option payload_of (get_offer offers j.protocol_id j.offer_id)
      else payload_at db.offer_snapshots j)
unfolding sync_offers
sync_offers-agrees main_first source offers db t u =
    let first =
      reconcile_all-Reaches source offers (select (active_of source) db.offer_snapshots)
        (work_on db) t (active_of-Ready source db.offer_snapshots t.indexed) in
    let second = each_protocol-Reaches main_first source offers first.work u first.table in
    record {
      work = second.work;
      returns = ground (arith, first.returns, second.returns);
      table = second.table;
      payloads = λ j.
          ground
            (arith, first.payloads j, second.payloads j, any-selected source j db.offer_snapshots);
    }
