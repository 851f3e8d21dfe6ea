-- ===== src/Rpc/Queries.antt =====
-- src/rpc/procedure/query: what a connection answers to the queries of its client. A response is what
-- stands in the frame that is sent.
pub mod Jobs
pub mod Providers
mod Tests
use derouter.Base.{
  ℕ, String, Bool, ◌||◌, Option, List, Outcome, ok, length, ltb, ◌>>=◌, if◌then◌else◌,
}
use derouter.Base.Int.{ℤ, pos, ltb_ℤ}
use derouter.Dto.{PeerId, DateTime, JobRecord, OfferSnapshot, ProviderRecord}
use derouter.Db.{PeerRow, OfferSnapshotRow, ServiceJobRow, Database}
use derouter.Db.Jobs.QueryAll.{JobFilters, query_jobs}
use derouter.Db.Offers.{query_active_offers, query_offer_snapshots_by_rowid}
use derouter.Db.Providers.{query_providers_by_peer_id, query_active_providers}

pub data JobsQueryResponse : Type 0 where
  jobs : List JobRecord → JobsQueryResponse
  invalid_limit : JobsQueryResponse

unfoldable pub handle_jobs_query_request :
    (List ServiceJobRow → List ServiceJobRow)
    → Database
    → JobFilters
    → ℤ
    → Outcome ⊥ JobsQueryResponse
handle_jobs_query_request scan db filters limit =
    if ltb_ℤ limit (pos 1) || ltb_ℤ (pos 100) limit
    then ok invalid_limit
    else (do found ← query_jobs scan db filters limit; ok (jobs found))

pub data OfferSnapshotsQueryResponse : Type 0 where
  snapshots : List OfferSnapshot → OfferSnapshotsQueryResponse
  too_many_snapshots : OfferSnapshotsQueryResponse

unfoldable pub handle_offer_snapshots_query_request :
    (List OfferSnapshotRow → List OfferSnapshotRow)
    → Database
    → List ℕ
    → OfferSnapshotsQueryResponse
handle_offer_snapshots_query_request scan db snapshot_ids =
    if ltb 100 (length snapshot_ids)
    then too_many_snapshots
    else snapshots (query_offer_snapshots_by_rowid scan db snapshot_ids)

pub data ProvidersQueryResponse : Type 0 where
  providers : List ProviderRecord → ProvidersQueryResponse
  too_many_providers : ProvidersQueryResponse

unfoldable pub handle_providers_query_request :
    (List PeerRow → List PeerRow) → Database → List PeerId → Outcome ⊥ ProvidersQueryResponse
handle_providers_query_request scan db provider_peer_ids =
    if ltb 100 (length provider_peer_ids)
    then ok too_many_providers
    else (do found ← query_providers_by_peer_id scan db provider_peer_ids; ok (providers found))

unfoldable pub handle_active_offers_query_request :
    (List OfferSnapshotRow → List OfferSnapshotRow)
    → Database
    → Option (List String)
    → Option (List PeerId)
    → List OfferSnapshot
handle_active_offers_query_request scan db protocol_ids provider_peer_ids =
    query_active_offers scan db protocol_ids provider_peer_ids

unfoldable pub handle_active_providers_query_request :
    (List PeerRow → List PeerRow) → Database → DateTime → List PeerId
handle_active_providers_query_request scan db since = query_active_providers scan db since

-- The peer ID of the node's own key pair.
unfoldable pub handle_system_query_request : PeerId → PeerId
handle_system_query_request our_peer_id = our_peer_id
