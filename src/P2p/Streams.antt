-- ===== src/P2p/Streams.antt =====
-- src/p2p/proto/stream.rs, src/p2p/stream/job_connection.rs at the Provider and
-- src/rpc/procedure/consumer/open_job_connection.rs at the Consumer: a stream of its own for a job. The
-- module's answer and what is read of the stream are arguments.
pub mod Open
pub mod Closed
mod Tests
use derouter.Base.{
  ℕ, String, Option, none, some, List, ◌==◌, text_eq, Outcome, ok, err, panic, ◌>>=◌, if◌then◌else◌,
}
use derouter.Dto.{PeerId}
use derouter.Db.{Database}
use derouter.Db.Jobs.{find_by_job_id}
use derouter.Rpc.Provide.{ProviderState, find_offer}
use derouter.Util.Cbor.{IoError, write_cbor}
use derouter.Rpc.Connections.{JobConnections, register}

pub data JobConnectionHeadResponse : Type 0 where
  accepted job_not_found job_expired busy : JobConnectionHeadResponse
  another_error : String → JobConnectionHeadResponse

-- The module's answer to ProviderPrepareJobConnection, another frame, or none.
pub data PrepareAnswer : Type 0 where
  prepared : String → PrepareAnswer
  no_such_job module_busy unexpected dropped : PrepareAnswer

abbrev pub prepare : ℕ → PrepareAnswer → JobConnectionHeadResponse × Option (ℕ × String)
prepare module_id (prepared nonce) = (accepted, some (module_id, nonce))
prepare module_id no_such_job = (job_not_found, none)
prepare module_id module_busy = (busy, none)
prepare module_id unexpected = (busy, none)
prepare module_id dropped = (busy, none)

-- The head response, and the module that the stream goes to, with its nonce.
unfoldable pub job_connection_response :
    ProviderState
    → Database
    → PeerId
    → PeerId
    → String
    → PrepareAnswer
    → Outcome ⊥ (JobConnectionHeadResponse × Option (ℕ × String))
job_connection_response provider db from_peer_id to_peer_id provider_job_id answer =
    elim (find_by_job_id db to_peer_id provider_job_id) [
      | none ↦ ok (job_not_found, none)
      | some job ↦
          if from_peer_id == job.consumer_peer_id
          then (do
            offer ← find_offer provider job.offer_protocol_id job.offer_id
            elim offer [
              | none ↦ ok (job_expired, none)
              | some (module_id, o) ↦ ok (prepare module_id answer)
            ])
          else ok (job_not_found, none)
    ]

-- The response is written to the stream; an outer error of `write_cbor` is a failed `unwrap`, an inner
-- one is logged. An accepted stream is then registered at the module, which is told its connection ID
-- and the nonce: the module, these two, and its job connections.
module _ {S : Type 0} (write_all : S → List ℕ → Outcome IoError S)
    (to_vec : JobConnectionHeadResponse → Option (List ℕ)) where
  unfoldable pub handle_job_connection_stream :
      ProviderState
      → (ℕ → JobConnections S)
      → Database
      → PeerId
      → PeerId
      → String
      → PrepareAnswer
      → S
      → Outcome ⊥ (Option (ℕ × ℕ × String × JobConnections S))
  handle_job_connection_stream provider job_connections db from_peer_id to_peer_id provider_job_id
        answer stream =
      do
        (response, payload) ←
            job_connection_response provider db from_peer_id to_peer_id provider_job_id answer
        elim (write_cbor write_all to_vec stream response) [
          | err e ↦ panic
          | panic ↦ panic
          | ok (err e) ↦ ok none
          | ok panic ↦ panic
          | ok (ok stream') ↦ elim payload [
            | none ↦ ok none
            | some (module_id, nonce) ↦
                let (connection_id, c) = register stream' (job_connections module_id) in
                ok (some (module_id, connection_id, nonce, c))
          ]
        ]

pub data ConsumerOpenJobConnectionResponse : Type 0 where
  opened : ℕ → ConsumerOpenJobConnectionResponse
  local_job_not_found provider_unreacheable provider_job_not_found provider_job_expired
        provider_busy :
      ConsumerOpenJobConnectionResponse
  other_remote_error other_local_error : String → ConsumerOpenJobConnectionResponse

-- The outbound stream: not opened, or opened, and then what `read_cbor` gave.
pub data HeadRead : Type 0 where
  not_opened eof : HeadRead
  read_error : String → HeadRead
  head : JobConnectionHeadResponse → HeadRead

module _ {S : Type 0} where
  unfoldable pub head_answered :
      S → HeadRead → JobConnections S → ConsumerOpenJobConnectionResponse × JobConnections S
  head_answered stream not_opened c = (provider_unreacheable, c)
  head_answered stream eof c = (provider_unreacheable, c)
  head_answered stream (read_error e) c = (other_local_error e, c)
  head_answered stream (head accepted) c =
      let (connection_id, c') = register stream c in (opened connection_id, c')
  head_answered stream (head job_not_found) c = (provider_job_not_found, c)
  head_answered stream (head job_expired) c = (provider_job_expired, c)
  head_answered stream (head busy) c = (provider_busy, c)
  head_answered stream (head (another_error e)) c = (other_remote_error e, c)

  -- `open` opens a stream to a peer for a job and gives what is read of it.
  unfoldable pub handle_consumer_open_job_connection_request :
      (PeerId → String → S × HeadRead)
      → Database
      → PeerId
      → String
      → JobConnections S
      → ConsumerOpenJobConnectionResponse × JobConnections S
  handle_consumer_open_job_connection_request open_stream db provider_peer_id provider_job_id c =
      elim (find_by_job_id db provider_peer_id provider_job_id) [
        | none ↦ (local_job_not_found, c)
        | some job ↦
            let (stream, read) = open_stream job.provider_peer_id job.provider_job_id in
            head_answered stream read c
      ]
