-- ===== src/Rpc/Queries/Providers.antt =====
-- src/rpc/procedure/query/providers.rs with src/db/providers.rs, on peers that have no times.
use derouter.Base.{
  ℕ, ◌≡◌, refl, ap, ◌∙◌, ◌↔◌, ◌≢◌, ◌≤◌, any_last, Bool, true, false, ◌&&◌, ◌||◌, String, List, [],
  ◌∷◌, arith, ok, err, panic, any, is_none, text_eq, nat_eq, ◌==◌, ==_refl, inl, inr, Bool-cases,
  length,
}
use mathlib.Core.List.{Permᴰ}
use derouter.Dto.{PeerId}
use derouter.Db.{PeerRow, Database}
use derouter.Db.Offers.{upsert, ensure_peer}
use derouter.Db.Providers.{providers_in, query_providers_by_peer_id}
use derouter.Rpc.Queries.{handle_providers_query_request}

-- A row without one of the two times.
abbrev pub has_no_times : PeerRow → Bool
has_no_times p = is_none p.our_provider_updated_at || is_none p.our_latest_heartbeat_timestamp

abbrev pub is_named : List PeerId → PeerRow → Bool
is_named ids p = any (λ id. id == p.peer_id) ids

providers_in-ne-err :
    (ids : List PeerId) (peers : List PeerRow) (e : ⊥) → providers_in ids peers ≢ err e
providers_in-ne-err ids peers e h = e

providers_in-panics :
    (ids : List PeerId) (peers : List PeerRow)
    → any (λ p. is_named ids p && has_no_times p) peers ≡ true
    → providers_in ids peers ≡ panic
unfolding providers_in any
providers_in-panics ids [] h = absurd (ground (arith, h))
providers_in-panics ids (p ∷ peers) h =
    ground (arith, h, providers_in-panics ids peers, providers_in-ne-err ids peers)

providers_in-returns :
    (ids : List PeerId) (peers : List PeerRow)
    → any (λ p. is_named ids p && has_no_times p) peers ≡ false
    → providers_in ids peers ≢ panic
unfolding providers_in any
providers_in-returns ids [] h e = absurd (ground (arith, e))
providers_in-returns ids (p ∷ peers) h e =
    absurd (ground (arith, h, e, providers_in-returns ids peers, providers_in-ne-err ids peers))

-- A query of at most 100 providers panics just where a row of one of them lacks one of the two times.
pub handle_providers_query-panics :
    (scan : List PeerRow → List PeerRow) (db : Database) (ids : List PeerId)
    → length ids ≤ 100
    → (handle_providers_query_request scan db ids ≡ panic)
      ↔ (any (λ p. is_named ids p && has_no_times p) (scan db.peers) ≡ true)
unfolding handle_providers_query_request query_providers_by_peer_id
handle_providers_query-panics scan db ids small = (
  λ h. elim (Bool-cases (any (λ p. is_named ids p && has_no_times p) (scan db.peers))) [
    | inl e ↦ e
    | inr e ↦ absurd (
        ground (
          arith,
          h,
          small,
          providers_in-returns ids (scan db.peers) e,
          providers_in-ne-err ids (scan db.peers),
        ))
  ],
  λ h. ground (arith, small, providers_in-panics ids (scan db.peers) h),
)

any-Permᴰ : {A : Type 0} (p : A → Bool) {xs ys : List A} → Permᴰ xs ys → any p xs ≡ any p ys
unfolding any
any-Permᴰ p Permᴰ.nil = refl
any-Permᴰ p (Permᴰ.cons e q) = ground (arith, ap p e, any-Permᴰ p q)
any-Permᴰ p (Permᴰ.swap d e) = ground (arith, ap p d, ap p e)
any-Permᴰ p (Permᴰ.trans q r) = any-Permᴰ p q ∙ any-Permᴰ p r

-- The row that `upsert` inserts for a peer has no times.
entered :
    (peers : List PeerRow) (me : PeerId)
    → any (λ p. p.peer_id == me) peers ≡ false
    → any (λ p. is_named (me ∷ []) p && has_no_times p) (ensure_peer me peers) ≡ true
unfolding ensure_peer any
entered peers me h =
    rw h
      (any_last (λ p. is_named (me ∷ []) p && has_no_times p) peers _ (ground (arith, ==_refl me)))

peers_after :
    (main_first : Bool) (db after : Database) (me : PeerId) (offer_id protocol_id payload : String)
    (rowid : ℕ)
    → upsert main_first db me offer_id protocol_id payload ≡ ok (rowid, after)
    → after.peers ≡ ensure_peer me db.peers
unfolding upsert
peers_after main_first db after me offer_id protocol_id payload rowid h = ground (arith, h)

-- In whatever order SQLite visits the rows: after a node that is not in its own table of peers has stored the snapshot of an offer that it
-- provides, the query of providers with the node's own peer ID panics.
pub handle_providers_query-upsert :
    (scan : List PeerRow → List PeerRow) (main_first : Bool) (db after : Database) (me : PeerId)
    (offer_id protocol_id payload : String) (rowid : ℕ)
    → any (λ p. p.peer_id == me) db.peers ≡ false
    → upsert main_first db me offer_id protocol_id payload ≡ ok (rowid, after)
    → Permᴰ (scan after.peers) after.peers
    → handle_providers_query_request scan after (me ∷ []) ≡ panic
handle_providers_query-upsert scan main_first db after me offer_id protocol_id payload rowid absent
      h order =
    (handle_providers_query-panics scan after (me ∷ []) (omega arith)).1 (
      any-Permᴰ (λ p. is_named (me ∷ []) p && has_no_times p) order
      ∙ rw (peers_after main_first db after me offer_id protocol_id payload rowid h)
          (entered db.peers me absent))
