-- ===== src/P2p/Streams/Tests.antt =====
-- A run of the opening of a job connection (src/p2p/stream/job_connection.rs).
use derouter.Base.{
  ℕ, ◌≡◌, ◌≢◌, ◌⊎◌, refl, Option, some, List, [], ◌∷◌, Outcome, err, find_first, nat_eq, text_eq,
}
use derouter.Base.Maps.{lookup, nested}
use derouter.Db.Jobs.{find_by_job_id, to_record}
use derouter.Db.Jobs.Tests.{job, offer, one_job}
use derouter.Rpc.Provide.{find_offer}
use derouter.Rpc.Provide.Tests.{providing}
use derouter.Rpc.Connections.{JobConnections, register}
use derouter.P2p.Streams.{
  JobConnectionHeadResponse, prepared, opened, job_connection_response, head_answered,
  handle_consumer_open_job_connection_request,
}
use derouter.Util.Cbor.{IoError, io_error}
use derouter.P2p.Streams.Open.{Accepts, open_to, open_job_connection-Accepts}

abbrev nothing : JobConnections ℕ
nothing = record { future_connection_counter = 0; future_connections = []; opened_connections = [] }

there : find_by_job_id one_job "provider" "job" ≡ some (to_record job offer)
unfolding find_by_job_id find_first
there = refl

opens :
    handle_consumer_open_job_connection_request
      (open_to providing one_job "consumer" "provider" (prepared "nonce") 7)
      one_job
      "provider"
      "job"
      nothing
    ≡ (opened 1, (register 7 nothing).1)
unfolding handle_consumer_open_job_connection_request head_answered job_connection_response
    find_by_job_id find_first find_offer nested lookup
opens = refl

open_job_connection-Accepts_example :
    ((n : ℕ) × ((opened 1 ≡ opened n)
        × ((register 7 nothing ≡ (n, (register 7 nothing).1))
            × Accepts providing one_job "consumer" "provider"
                (to_record job offer).provider_job_id
                (prepared "nonce"))))
    ⊎ (((n : ℕ) → opened 1 ≢ opened n) × ((register 7 nothing).1 ≡ nothing))
open_job_connection-Accepts_example =
    open_job_connection-Accepts providing one_job one_job "consumer" "provider" "job"
      (prepared "nonce") 7 nothing (register 7 nothing).1 (opened 1) (to_record job offer) there
      opens

-- A stream that the Consumer has closed.
abbrev closed : ℕ → List ℕ → Outcome IoError ℕ
closed stream bytes = err io_error

abbrev one_byte : JobConnectionHeadResponse → Option (List ℕ)
one_byte response = some (1 ∷ [])
