-- ===== src/Rpc/ProviderLock/Tests.antt =====
-- A module that disconnects while it is asked (src/rpc/connection.rs).
use derouter.Base.{◌≡◌, ◌≢◌, ◌⊎◌, refl, true, false, arith}
use derouter.Rpc.ProviderLock.{
  Tasks, TaskStep, at_start, waiting, closing, closed, Reachable, start, step, ask, forward,
  reading, providing,
}
use derouter.Rpc.ProviderLock.Deadlock.{
  CanFinish, IsDeadlocked, waiting_finishes, unanswered_deadlocks,
}

not_closed : at_start.connection ≢ closed
not_closed h = ground (arith, h)

-- The module has been asked and has not answered.
abbrev asked : Tasks
asked = record at_start {
  asking = waiting;
  locked = true;
  queued = false;
  requested = true;
  connection = reading;
}

abbrev up_to_asked : Reachable asked
up_to_asked = step (step (start {s = at_start} refl) (ask refl refl not_closed)) (forward refl refl)

unanswered_deadlocks_example :
    ((p : Tasks) × (TaskStep asked p
        × ((p.connection ≡ providing) × (IsDeadlocked p × ((t : Tasks) → TaskStep p t → ⊥)))))
    × ((q : Tasks) × (TaskStep asked q
          × ((q.connection ≡ closing) × (IsDeadlocked q × ((t : Tasks) → TaskStep q t → ⊥)))))
unanswered_deadlocks_example = unanswered_deadlocks asked up_to_asked refl refl refl

waiting_finishes_example :
    CanFinish asked ⊎ (IsDeadlocked asked × ((t : Tasks) → TaskStep asked t → ⊥))
waiting_finishes_example = waiting_finishes asked up_to_asked refl
