-- ===== src/Rpc/Subscriptions/Delivery.antt =====
-- Which subscriptions an event reaches (src/rpc/connection.rs, src/rpc/procedure/subscription).
use derouter.Base.{
  ℕ, ◌+◌, ◌<◌, ◌≤◌, Option-cases, inl, inr, ◌≡◌, ◌↔◌, refl, false, Option, none, some, List, [],
  ◌∷◌, arith, text_eq, nat_eq, ◌==◌, select, any, Bool, Bool-cases, true, String, ap, sym, ◌∙◌,
  ==_iff, if◌then◌else◌, is_none,
}
use derouter.Base.Maps.{
  Map, lookup, HasUniqueKeys, HasUniqueKeys-insert, HasUniqueKeys-remove, lookup-insert,
  lookup-remove,
}
use derouter.State.{
  RpcEvent, offer_removed, offer_updated, provider_heartbeat, provider_updated, job_updated,
}
use Prim.Native.Nat.{◌^◌}
use derouter.Rpc.Subscriptions.{
  Connection, Subscription, jobs, active_offers, active_providers, EventFrame, event_offer_removed,
  event_offer_updated, event_provider_heartbeat, event_provider_updated, event_job_updated,
  frame_for, frames, push, handle_event, subscribed, subscribe, handle_cancel_subscription_request,
  cancelled,
}

abbrev pub subscription_of : EventFrame → ℕ
subscription_of (event_offer_removed id payload) = id
subscription_of (event_offer_updated id payload) = id
subscription_of (event_provider_heartbeat id payload) = id
subscription_of (event_provider_updated id payload) = id
subscription_of (event_job_updated id payload) = id

-- The frames that an event makes the connection send to one subscription ID.
abbrev pub delivered : Connection → RpcEvent → ℕ → List EventFrame
delivered connection event n = select (λ f. subscription_of f == n) (handle_event connection event)

-- The filters of a subscription to the kind of an event, each with what it is asked of.
abbrev pub filters : RpcEvent → Subscription → Option (List (Option (List String) × String))
filters (offer_removed o) (active_offers ps qs) =
    some ((ps, o.protocol_id) ∷ ((qs, o.provider_peer_id) ∷ []))
filters (offer_updated o) (active_offers ps qs) =
    some ((ps, o.protocol_id) ∷ ((qs, o.provider_peer_id) ∷ []))
filters (provider_heartbeat h) active_providers = some []
filters (provider_updated p) active_providers = some []
filters (job_updated j) (jobs ps qs cs) =
    some ((ps, j.offer_protocol_id) ∷ ((qs, j.provider_peer_id) ∷ ((cs, j.consumer_peer_id) ∷ [])))
filters event s = none

-- The first filter that is set decides.
abbrev pub first_set : List (Option (List String) × String) → Bool
first_set [] = true
first_set ((none, t) ∷ rest) = first_set rest
first_set ((some ts, t) ∷ rest) = any (λ u. u == t) ts

abbrev pub event_frame : RpcEvent → ℕ → EventFrame
event_frame (offer_removed o) id = event_offer_removed id o
event_frame (offer_updated o) id = event_offer_updated id o
event_frame (provider_heartbeat h) id = event_provider_heartbeat id h
event_frame (provider_updated p) id = event_provider_updated id p
event_frame (job_updated j) id = event_job_updated id j

-- The frames that a subscription asks for: the event's own, once, or none.
abbrev pub asked : RpcEvent → ℕ → Subscription → List EventFrame
asked event id s = elim (filters event s) [
  | none ↦ []
  | some fs ↦ if first_set fs then event_frame event id ∷ [] else []
]

-- What the subscription stored under an ID asks for.
abbrev pub wanted : Map ℕ Subscription → RpcEvent → ℕ → List EventFrame
wanted m event n = elim (lookup n m) [ none ↦ [] | some s ↦ asked event n s ]

frame_for-asked :
    (event : RpcEvent) (id : ℕ) (s : Subscription)
    → push (frame_for event id s) [] ≡ asked event id s
unfolding frame_for
frame_for-asked (offer_removed d) id (jobs a b c) = refl
frame_for-asked (offer_removed d) id (active_offers (some a) b) = ground arith
frame_for-asked (offer_removed d) id (active_offers none (some b)) = ground arith
frame_for-asked (offer_removed d) id (active_offers none none) = refl
frame_for-asked (offer_removed d) id active_providers = refl
frame_for-asked (offer_updated d) id (jobs a b c) = refl
frame_for-asked (offer_updated d) id (active_offers (some a) b) = ground arith
frame_for-asked (offer_updated d) id (active_offers none (some b)) = ground arith
frame_for-asked (offer_updated d) id (active_offers none none) = refl
frame_for-asked (offer_updated d) id active_providers = refl
frame_for-asked (provider_heartbeat d) id (jobs a b c) = refl
frame_for-asked (provider_heartbeat d) id (active_offers a b) = refl
frame_for-asked (provider_heartbeat d) id active_providers = refl
frame_for-asked (provider_updated d) id (jobs a b c) = refl
frame_for-asked (provider_updated d) id (active_offers a b) = refl
frame_for-asked (provider_updated d) id active_providers = refl
frame_for-asked (job_updated d) id (jobs (some a) b c) = ground arith
frame_for-asked (job_updated d) id (jobs none (some b) c) = ground arith
frame_for-asked (job_updated d) id (jobs none none (some c)) = ground arith
frame_for-asked (job_updated d) id (jobs none none none) = refl
frame_for-asked (job_updated d) id (active_offers a b) = refl
frame_for-asked (job_updated d) id active_providers = refl

frame_for-id :
    (event : RpcEvent) (id : ℕ) (s : Subscription) (f : EventFrame)
    → frame_for event id s ≡ some f
    → subscription_of f ≡ id
unfolding frame_for
frame_for-id (offer_removed d) id (jobs a b c) f h = ground (arith, h)
frame_for-id (offer_removed d) id (active_offers a b) f h = ground (arith, h)
frame_for-id (offer_removed d) id active_providers f h = ground (arith, h)
frame_for-id (offer_updated d) id (jobs a b c) f h = ground (arith, h)
frame_for-id (offer_updated d) id (active_offers a b) f h = ground (arith, h)
frame_for-id (offer_updated d) id active_providers f h = ground (arith, h)
frame_for-id (provider_heartbeat d) id (jobs a b c) f h = ground (arith, h)
frame_for-id (provider_heartbeat d) id (active_offers a b) f h = ground (arith, h)
frame_for-id (provider_heartbeat d) id active_providers f h = ground (arith, h)
frame_for-id (provider_updated d) id (jobs a b c) f h = ground (arith, h)
frame_for-id (provider_updated d) id (active_offers a b) f h = ground (arith, h)
frame_for-id (provider_updated d) id active_providers f h = ground (arith, h)
frame_for-id (job_updated d) id (jobs a b c) f h = ground (arith, h)
frame_for-id (job_updated d) id (active_offers a b) f h = ground (arith, h)
frame_for-id (job_updated d) id active_providers f h = ground (arith, h)

no_frame :
    (event : RpcEvent) (m : Map ℕ Subscription) (n : ℕ)
    → lookup n m ≡ none
    → select (λ f. subscription_of f == n) (frames event m) ≡ []
unfolding frames lookup select
no_frame event [] n h = refl
no_frame event ((id, s) ∷ m) n h = elim (Option-cases (frame_for event id s)) [
  | inl e ↦ ground (arith, e, h, no_frame event m n)
  | inr (f, e) ↦ ground (arith, e, h, frame_for-id event id s f e, no_frame event m n)
]

-- The frames of one subscription that go to an ID.
own_frames :
    (event : RpcEvent) (id n : ℕ) (s : Subscription) (rest : List EventFrame)
    → select (λ f. subscription_of f == n) (push (frame_for event id s) rest) ≡ (
        if id == n
        then push (frame_for event id s) (select (λ f. subscription_of f == n) rest)
        else select (λ f. subscription_of f == n) rest)
unfolding select
own_frames event id n s rest = elim (Option-cases (frame_for event id s)) [
  | inl e ↦ ground (arith, e)
  | inr (f, e) ↦ ground (arith, e, frame_for-id event id s f e)
]

wanted_of :
    (m : Map ℕ Subscription) (event : RpcEvent) (n : ℕ) (o : Option Subscription)
    → lookup n m ≡ o
    → wanted m event n ≡ elim o [ none ↦ [] | some s ↦ asked event n s ]
wanted_of m event n o e =
    ap (λ (r : Option Subscription). elim r [ none ↦ [] | some s ↦ asked event n s ]) e

frames-wanted :
    (event : RpcEvent) (m : Map ℕ Subscription) (n : ℕ)
    → HasUniqueKeys m
    → select (λ f. subscription_of f == n) (frames event m) ≡ wanted m event n
unfolding frames lookup
frames-wanted event [] n u = unfold select in refl
frames-wanted event ((id, s) ∷ m) n u =
    own_frames event id n s (frames event m) ∙ elim (Bool-cases (id == n)) [
      | inr other ↦ rw other (
          frames-wanted event m n u.1
          ∙ sym (wanted_of ((id, s) ∷ m) event n (lookup n m) (ground (arith, other))))
      | inl same ↦
          let here = (==_iff id n).0 same in
          let empty = no_frame event m n (ground (arith, u.0, here)) in
          rw (same, empty)
            (frame_for-asked event id s
              ∙ ap (λ (k : ℕ). asked event k s) here
              ∙ sym (wanted_of ((id, s) ∷ m) event n (some s) (ground (arith, same))))
    ]

-- The frames that an event makes the connection send to a subscription ID are just those that the
-- subscription stored under it asks for: the event's own frame, once, where the subscription is to
-- events of this kind and the first of its filters that is set names the event's protocol, Provider or
-- Consumer, and else none. An ID that is not in use gets none. No ID stands twice.
pub handle_event-exact :
    (connection : Connection) (event : RpcEvent) (n : ℕ)
    → HasUniqueKeys connection.subscriptions
    → delivered connection event n ≡ wanted connection.subscriptions event n
unfolding handle_event
handle_event-exact connection event n u = frames-wanted event connection.subscriptions n u

-- The keys are unique, and smaller than the counter.
pub record IsConnection (connection : Connection) : Type 0 where
  pub unique : HasUniqueKeys connection.subscriptions
  pub below :
      (n : ℕ) → connection.subscriptions_counter ≤ n → lookup n connection.subscriptions ≡ none

new_or_old :
    (id n : ℕ) (s : Subscription) (event : RpcEvent) (m : Map ℕ Subscription)
    → (elim (if id == n then some s else lookup n m) [ none ↦ [] | some r ↦ asked event n r ])
      ≡ (if id == n then asked event n s else wanted m event n)
new_or_old id n s event m = elim (Bool-cases (id == n)) [ inl e ↦ rw e refl | inr e ↦ rw e refl ]

-- Subscribing is answered with an ID that was not in use, and keeps the IDs unique and below the
-- counter, as long as the u32 counter does not wrap around. From then on an event reaches the ID of the
-- answer as the new subscription asks, and every other ID as before.
pub subscribe-delivers :
    (connection : Connection) (s : Subscription) (event : RpcEvent) (n : ℕ)
    → IsConnection connection
    → connection.subscriptions_counter + 1 < 2 ^ 32
    → (id : ℕ) × (((subscribe connection s).0 ≡ subscribed id)
        × ((lookup id connection.subscriptions ≡ none)
            × (IsConnection (subscribe connection s).1
                × (delivered (subscribe connection s).1 event n
                    ≡ (if id == n then asked event n s else delivered connection event n)))))
unfolding subscribe
subscribe-delivers connection s event n c small =
    let id = connection.subscriptions_counter in
    let unique = HasUniqueKeys-insert id s connection.subscriptions c.unique in
    (
      id,
      (
        refl,
        (
          c.below id (omega arith),
          (
            record {
              unique = unique;
              below = λ k h.
                  ground
                    (arith, small, h, lookup-insert id k s connection.subscriptions, c.below k);
            },
            handle_event-exact (subscribe connection s).1 event n unique
                ∙ wanted_of (subscribe connection s).1.subscriptions event n
                    (if id == n then some s else lookup n connection.subscriptions)
                    (lookup-insert id n s connection.subscriptions)
                ∙ new_or_old id n s event connection.subscriptions
                ∙ ap (λ (fs : List EventFrame). if id == n then asked event n s else fs)
                    (sym (handle_event-exact connection event n c.unique)),
          ),
        ),
      ),
    )

-- After a cancellation no event reaches the ID any more, every other ID gets what it got, and the IDs
-- stay unique and below the counter. The answer is a success just where the ID was in use.
pub cancel-delivers :
    (connection : Connection) (id : ℕ) (event : RpcEvent) (n : ℕ)
    → IsConnection connection
    → IsConnection (handle_cancel_subscription_request connection id).1
      × ((delivered (handle_cancel_subscription_request connection id).1 event n
            ≡ (if id == n then [] else delivered connection event n))
          × (((handle_cancel_subscription_request connection id).0 ≡ cancelled)
              ↔ (is_none (lookup id connection.subscriptions) ≡ false)))
unfolding handle_cancel_subscription_request
cancel-delivers connection id event n c =
    let unique = HasUniqueKeys-remove id connection.subscriptions c.unique in
    (
      record {
        unique = unique;
        below = λ k h. ground (arith, h, lookup-remove id k connection.subscriptions, c.below k);
      },
      (
        ground (
          arith,
          handle_event-exact (handle_cancel_subscription_request connection id).1 event n unique,
          handle_event-exact connection event n c.unique,
          lookup-remove id n connection.subscriptions,
        ),
        ground arith,
      ),
    )
