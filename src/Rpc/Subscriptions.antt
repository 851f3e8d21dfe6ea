-- ===== src/Rpc/Subscriptions.antt =====
-- src/rpc/connection.rs (`handle_event`) and src/rpc/procedure/subscription: the subscriptions of one
-- RPC connection, and the frames that an event makes the connection send. `parse` is libp2p's
-- `PeerId::from_str`. The frames stand in the order of the association list; the program's is that
-- of its HashMap.
pub mod Filters
pub mod Delivery
use derouter.Base.{
  ℕ, String, Bool, true, false, Option, none, some, List, [], ◌∷◌, ◌++◌, ◌+◌, ◌==◌, nat_eq, text_eq,
  any, if◌then◌else◌,
}
use derouter.Base.Maps.{Map, lookup, insert, remove}
use Prim.Native.Nat.{◌%◌, ◌^◌}
use derouter.Dto.{PeerId, OfferRemoved, OfferSnapshot, ProviderHeartbeat, ProviderRecord, JobRecord}
use derouter.State.{
  RpcEvent, offer_removed, offer_updated, provider_heartbeat, provider_updated, job_updated,
}

pub data Subscription : Type 0 where
  jobs : Option (List String) → Option (List PeerId) → Option (List PeerId) → Subscription
  active_offers : Option (List String) → Option (List PeerId) → Subscription
  active_providers : Subscription

pub record Connection : Type 0 where
  pub subscriptions_counter : ℕ
  pub subscriptions : Map ℕ Subscription

-- `OutboundRequestFrameData`, the events.
pub data EventFrame : Type 0 where
  event_offer_removed : ℕ → OfferRemoved → EventFrame
  event_offer_updated : ℕ → OfferSnapshot → EventFrame
  event_provider_heartbeat : ℕ → ProviderHeartbeat → EventFrame
  event_provider_updated : ℕ → ProviderRecord → EventFrame
  event_job_updated : ℕ → JobRecord → EventFrame

-- `…iter().any(|p| p == …)`
abbrev pub mentions : List String → String → Bool
mentions ts t = any (λ u. u == t) ts

unfoldable pub check_against_offer_subscription :
    Option (List String) → Option (List PeerId) → String → PeerId → Bool
check_against_offer_subscription (some protocol_ids) provider_peer_ids protocol_id
      provider_peer_id =
    mentions protocol_ids protocol_id
check_against_offer_subscription none (some provider_peer_ids) protocol_id provider_peer_id =
    mentions provider_peer_ids provider_peer_id
check_against_offer_subscription none none protocol_id provider_peer_id = true

-- The tests of the JobUpdated branch.
unfoldable pub check_against_jobs_subscription :
    Option (List String) → Option (List PeerId) → Option (List PeerId) → JobRecord → Bool
check_against_jobs_subscription (some protocol_ids) provider_peer_ids consumer_peer_ids job =
    mentions protocol_ids job.offer_protocol_id
check_against_jobs_subscription none (some provider_peer_ids) consumer_peer_ids job =
    mentions provider_peer_ids job.provider_peer_id
check_against_jobs_subscription none none (some consumer_peer_ids) job =
    mentions consumer_peer_ids job.consumer_peer_id
check_against_jobs_subscription none none none job = true

abbrev when : Bool → EventFrame → Option EventFrame
when true f = some f
when false f = none

-- The frame, if any, that one subscription makes of an event.
unfoldable pub frame_for : RpcEvent → ℕ → Subscription → Option EventFrame
unfolding check_against_offer_subscription check_against_jobs_subscription
frame_for (offer_removed offer) id (active_offers protocol_ids provider_peer_ids) =
    when
      (check_against_offer_subscription protocol_ids provider_peer_ids offer.protocol_id
        offer.provider_peer_id)
      (event_offer_removed id offer)
frame_for (offer_updated offer) id (active_offers protocol_ids provider_peer_ids) =
    when
      (check_against_offer_subscription protocol_ids provider_peer_ids offer.protocol_id
        offer.provider_peer_id)
      (event_offer_updated id offer)
frame_for (provider_heartbeat heartbeat) id active_providers =
    some (event_provider_heartbeat id heartbeat)
frame_for (provider_updated provider) id active_providers =
    some (event_provider_updated id provider)
frame_for (job_updated job) id (jobs protocol_ids provider_peer_ids consumer_peer_ids) =
    when (check_against_jobs_subscription protocol_ids provider_peer_ids consumer_peer_ids job)
      (event_job_updated id job)
frame_for event id subscription = none

abbrev pub push : Option EventFrame → List EventFrame → List EventFrame
push none fs = fs
push (some f) fs = f ∷ fs

unfoldable pub frames : RpcEvent → Map ℕ Subscription → List EventFrame
frames event [] = []
frames event ((id, subscription) ∷ m) = push (frame_for event id subscription) (frames event m)

unfoldable pub handle_event : Connection → RpcEvent → List EventFrame
handle_event connection event = frames event connection.subscriptions

-- `ActiveOffersSubscriptionResponse`, `JobsSubscriptionResponse` and
-- `ActiveProvidersSubscriptionResponse`, the last without `invalid_peer_id`.
pub data SubscriptionResponse : Type 0 where
  subscribed : ℕ → SubscriptionResponse
  invalid_peer_id : String → SubscriptionResponse

pub data CancelSubscriptionResponse : Type 0 where
  cancelled invalid_subscription_id : CancelSubscriptionResponse

-- The counter is a u32, which wraps around in a release build.
unfoldable pub subscribe : Connection → Subscription → SubscriptionResponse × Connection
subscribe connection subscription = (
  subscribed connection.subscriptions_counter,
  record {
    subscriptions_counter = (connection.subscriptions_counter + 1) % 2 ^ 32;
    subscriptions = insert connection.subscriptions_counter subscription connection.subscriptions;
  },
)

-- The peer IDs parsed in order, or the first that does not parse.
pub data Parsed : Type 0 where
  parsed : List PeerId → Parsed
  invalid : String → Parsed

unfoldable pub parse_peer_ids : (String → Option PeerId) → List String → Parsed
parse_peer_ids parse [] = parsed []
parse_peer_ids parse (raw ∷ rest) = elim (parse raw) [
  | none ↦ invalid raw
  | some id ↦ elim (parse_peer_ids parse rest) [
    | parsed ids ↦ parsed (id ∷ ids)
    | invalid t ↦ invalid t
  ]
]

-- `k` on the optional peer IDs, unless one does not parse.
abbrev with_peer_ids :
    (String → Option PeerId)
    → Option (List String)
    → Connection
    → (Option (List PeerId) → SubscriptionResponse × Connection)
    → SubscriptionResponse × Connection
with_peer_ids parse none connection k = k none
with_peer_ids parse (some raws) connection k = elim (parse_peer_ids parse raws) [
  | parsed ids ↦ k (some ids)
  | invalid raw ↦ (invalid_peer_id raw, connection)
]

unfoldable pub handle_active_offers_subscription_request :
    (String → Option PeerId)
    → Connection
    → Option (List String)
    → Option (List String)
    → SubscriptionResponse × Connection
handle_active_offers_subscription_request parse connection protocol_ids raw_provider_peer_ids =
    with_peer_ids parse raw_provider_peer_ids connection
      λ provider_peer_ids. subscribe connection (active_offers protocol_ids provider_peer_ids)

unfoldable pub handle_active_providers_subscription_request :
    Connection → SubscriptionResponse × Connection
handle_active_providers_subscription_request connection = subscribe connection active_providers

unfoldable pub handle_jobs_subscription_request :
    (String → Option PeerId)
    → Connection
    → Option (List String)
    → Option (List String)
    → Option (List String)
    → SubscriptionResponse × Connection
handle_jobs_subscription_request parse connection protocol_ids raw_provider_peer_ids
      raw_consumer_peer_ids =
    with_peer_ids parse raw_provider_peer_ids connection λ provider_peer_ids.
      with_peer_ids parse raw_consumer_peer_ids connection λ consumer_peer_ids.
        subscribe connection (jobs protocol_ids provider_peer_ids consumer_peer_ids)

unfoldable pub handle_cancel_subscription_request :
    Connection → ℕ → CancelSubscriptionResponse × Connection
handle_cancel_subscription_request connection subscription_id = (
  elim (lookup subscription_id connection.subscriptions) [
    | none ↦ invalid_subscription_id
    | some subscription ↦ cancelled
  ],
  record connection { subscriptions = remove subscription_id connection.subscriptions },
)
