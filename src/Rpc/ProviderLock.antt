-- ===== src/Rpc/ProviderLock.antt =====
-- The lock on the provider state, between a task that asks a module (src/p2p/reqres/create_job.rs,
-- src/p2p/stream/job_connection.rs) and the connection of the module (src/rpc/connection.rs). The task
-- keeps the lock while it waits for the module's answer.
pub mod Deadlock
mod Tests
use derouter.Base.{◌≡◌, ◌≢◌, Bool, true, false}

-- The task: before `provider.lock()`, at `response_rx.await`, and after it.
pub data AskingTask : Type 0 where
  not_started waiting finished : AskingTask

-- The connection: in its loop, in `handle_provider_provide_request` before `provider.lock()`, behind
-- the loop before the `provider.lock()` of the cleanup, and returned.
pub data ConnectionTask : Type 0 where
  reading providing closing closed : ConnectionTask

-- `queued`: the envelope waits in the channel of the connection. `requested`: the sender of the answer stands in `inbound_response_txs`. `answered`: the answer is in
-- the channel.
pub record Tasks : Type 0 where
  pub asking : AskingTask
  pub connection : ConnectionTask
  pub locked : Bool
  pub queued : Bool
  pub requested : Bool
  pub answered : Bool

abbrev pub at_start : Tasks
at_start = record {
  asking = not_started;
  connection = reading;
  locked = false;
  queued = false;
  requested = false;
  answered = false;
}

pub data TaskStep : Tasks → Tasks → Type 0 where
  -- The task gets the lock, finds the module, and puts its envelope into the connection's channel.
  ask :
      {s : Tasks}
      → s.asking ≡ not_started
      → s.locked ≡ false
      → s.connection ≢ closed
      → TaskStep s (record s { asking = waiting; locked = true; queued = true })
  -- The loop takes the envelope and sends the request.
  forward :
      {s : Tasks}
      → s.connection ≡ reading
      → s.queued ≡ true
      → TaskStep s (record s { queued = false; requested = true })
  -- The answer has come, or its sender was dropped when the connection returned; the lock is released.
  finish :
      {s : Tasks}
      → s.asking ≡ waiting
      → s.answered ≡ true
      → TaskStep s (record s { asking = finished; locked = false })
  give_up :
      {s : Tasks}
      → s.asking ≡ waiting
      → s.connection ≡ closed
      → TaskStep s (record s { asking = finished; locked = false })
  -- The loop reads a response, a request that provides an offer, or the end of the stream.
  read_response :
      {s : Tasks}
      → s.connection ≡ reading
      → s.requested ≡ true
      → TaskStep s (record s { requested = false; answered = true })
  read_request :
      {s : Tasks} → s.connection ≡ reading → TaskStep s (record s { connection = providing })
  read_eof : {s : Tasks} → s.connection ≡ reading → TaskStep s (record s { connection = closing })
  -- The request and the cleanup take the lock and release it.
  provide :
      {s : Tasks}
      → s.connection ≡ providing
      → s.locked ≡ false
      → TaskStep s (record s { connection = reading })
  clean_up :
      {s : Tasks}
      → s.connection ≡ closing
      → s.locked ≡ false
      → TaskStep s (record s { connection = closed })

pub data Reachable : Tasks → Type 0 where
  start : {s : Tasks} → s ≡ at_start → Reachable s
  step : {s t : Tasks} → Reachable s → TaskStep s t → Reachable t
