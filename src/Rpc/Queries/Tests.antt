-- ===== src/Rpc/Queries/Tests.antt =====
-- Runs of the queries of src/rpc/procedure/query.
use mathlib.Core.List.{Permᴰ}
use derouter.Base.{
  ℕ, ◌≡◌, refl, true, false, none, some, List, [], ◌∷◌, arith, ok, panic, any, take, select,
  text_eq, nat_eq, find_first, ◌==◌,
}
use derouter.Base.Int.{pos}
use derouter.Dto.{JobRecord, polygon}
use derouter.Db.{ServiceJobRow, OfferSnapshotRow, Database, empty_database}
use derouter.Db.Jobs.{to_record}
use derouter.Db.Jobs.QueryAll.{JobFilters, query_jobs, asked_in}
use derouter.Db.Offers.{upsert, upsert_on_any, active_row, payload_row}
use derouter.Rpc.Provide.Tests.{stored}
use derouter.Rpc.Queries.{jobs, handle_jobs_query_request, handle_providers_query_request}
use derouter.Rpc.Queries.Jobs.{records, is_wanted, IsAscending, next, drop, handle_jobs_query-next}
use derouter.Rpc.Queries.Providers.{handle_providers_query-upsert}

abbrev snapshot : OfferSnapshotRow
snapshot = record {
  rowid = 1;
  provider_peer_id = "provider";
  protocol_id = "openai";
  offer_id = "gpt";
  protocol_payload = "{}";
  active = true;
}

abbrev job : ℕ → ServiceJobRow
job id = record {
  rowid = id;
  offer_snapshot_rowid = 1;
  consumer_peer_id = "consumer";
  currency = polygon;
  job_args = none;
  provider_job_id = "job";
  private_payload = none;
  reason = none;
  reason_class = none;
  created_at_local = pos 1;
  created_at_sync = pos 1;
  completed_at_local = none;
  completed_at_sync = none;
  public_payload = none;
  balance_delta = none;
  hash = none;
  consumer_signature = none;
  signature_confirmed_at_local = none;
  confirmation_error = none;
}

abbrev two_jobs : Database
two_jobs = record { peers = []; offer_snapshots = snapshot ∷ []; service_jobs = job 1 ∷ job 2 ∷ [] }

abbrev of_consumer : JobFilters
of_consumer = record {
  rowid_cursor = none;
  protocol_ids = none;
  provider_peer_ids = none;
  consumer_peer_ids = some ("consumer" ∷ []);
}

abbrev in_order : List ServiceJobRow → List ServiceJobRow
in_order rows = rows

abbrev first_job : JobRecord
first_job = to_record (job 1) snapshot

first_page :
    handle_jobs_query_request in_order two_jobs of_consumer (pos 1) ≡ ok (jobs (first_job ∷ []))
unfolding handle_jobs_query_request query_jobs asked_in find_first any
first_page = refl

ascending : IsAscending (records two_jobs (in_order two_jobs.service_jobs))
unfolding records find_first any
ascending = (refl, (refl, tt))

handle_jobs_query-next_example :
    handle_jobs_query_request in_order two_jobs (next of_consumer first_job) (pos 5)
    ≡ ok (
        jobs (
          take 5 (
            drop 1 (
              select (is_wanted of_consumer) (records two_jobs (in_order two_jobs.service_jobs))))))
handle_jobs_query-next_example =
    handle_jobs_query-next in_order two_jobs of_consumer 1 5 (first_job ∷ []) first_job ascending
      first_page refl (omega arith) (omega arith)

upserted : upsert true empty_database "me" "gpt" "openai" "new" ≡ ok (1, stored)
unfolding upsert upsert_on_any active_row find_first payload_row any
upserted = refl

absent : any (λ p. p.peer_id == "me") empty_database.peers ≡ false
unfolding any
absent = refl

handle_providers_query-upsert_example :
    handle_providers_query_request (λ rows. rows) stored ("me" ∷ []) ≡ panic
handle_providers_query-upsert_example =
    handle_providers_query-upsert (λ rows. rows) true empty_database stored "me" "gpt" "openai"
      "new" 1 absent upserted (Permᴰ.cons refl Permᴰ.nil)
