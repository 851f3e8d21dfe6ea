-- ===== src/P2p/Scheduler.antt =====
-- src/p2p/job_confirmation_scheduler.rs: which jobs a turn of the loop sends, and the task that sends
-- one job and waits for the answer. src/p2p/gossipsub.rs: what is done with a message.
pub mod Settlement
mod Tests
use derouter.Base.{
  String, List, [], ◌∷◌, Option, none, some, select, is_some, text_eq, ◌==◌, Outcome, ok, err,
  panic, ◌>>=◌, if◌then◌else◌,
}
use derouter.Base.Maps.{lookup}
use derouter.Base.{ℕ, Bool}
use derouter.Dto.{PeerId, DateTime}
use derouter.State.{RpcEvent}
use derouter.Db.{ServiceJobRow, Database}
use derouter.Db.Jobs.Unconfirmed.{UnconfirmedJob, query_unconfirmed_jobs}
use derouter.P2p.Proto.{Heartbeat}
use derouter.P2p.Heartbeat.{handle_heartbeat}
use derouter.P2p.Peers.{Peers}
use derouter.P2p.Requests.{ConfirmJobRequest, ConfirmJobResponse, Answer, confirm_job_answered}

-- The jobs for which one turn of the loop starts a task. `scan` is SQLite's order of the rows.
unfoldable pub jobs_to_confirm :
    (List ServiceJobRow → List ServiceJobRow)
    → Database
    → PeerId
    → Peers
    → Outcome ⊥ (List UnconfirmedJob)
jobs_to_confirm scan db our_peer_id peers = do
  jobs ← query_unconfirmed_jobs scan db our_peer_id
  ok (select (λ (job : UnconfirmedJob). is_some (lookup job.provider_peer_id peers)) jobs)

abbrev pub confirm_request : UnconfirmedJob → List ℕ → ConfirmJobRequest
confirm_request job public_key = record {
  provider_job_id = job.provider_job_id;
  job_hash = job.hash;
  consumer_public_key = public_key;
  consumer_signature = job.consumer_signature;
}

-- `ask` sends the request to a peer; `db` is the database when the answer comes.
unfoldable pub confirm_job :
    (ConfirmJobResponse → String)
    → (PeerId → ConfirmJobRequest → Answer)
    → Database
    → UnconfirmedJob
    → List ℕ
    → DateTime
    → Outcome ⊥ (List RpcEvent × Database)
confirm_job debug_text ask db job public_key now =
    confirm_job_answered debug_text db job now
      (ask job.provider_peer_id (confirm_request job public_key))

-- An error of the heartbeat is only logged, and so is a message that cannot be decoded. `decode` is
-- serde_cbor's.
unfoldable pub handle_gossipsub_message :
    (List ℕ → Option Heartbeat)
    → Bool
    → String
    → Database
    → String
    → Option PeerId
    → List ℕ
    → DateTime
    → Outcome ⊥ (Database × List RpcEvent)
handle_gossipsub_message decode main_first heartbeat_topic db topic source bytes now =
    if topic == heartbeat_topic
    then (elim source [
      | none ↦ ok (db, [])
      | some peer ↦ elim (decode bytes) [
        | none ↦ ok (db, [])
        | some heartbeat ↦ elim (handle_heartbeat main_first db peer heartbeat now) [
          | ok result ↦ ok result
          | err e ↦ ok (db, [])
          | panic ↦ panic
        ]
      ]
    ])
    else ok (db, [])
