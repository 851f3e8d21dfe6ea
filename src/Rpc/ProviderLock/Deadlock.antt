-- ===== src/Rpc/ProviderLock/Deadlock.antt =====
-- Where the two tasks around the lock on the provider state cannot go on.
use derouter.Base.{◌≡◌, ◌≢◌, ◌⊎◌, inl, inr, refl, Bool-cases, ◌||◌, true, false, arith}
use derouter.Rpc.ProviderLock.{
  waiting, finished, ConnectionTask, reading, providing, closing, closed, Tasks, TaskStep, ask,
  forward, finish, give_up, read_response, read_request, read_eof, provide, clean_up, Reachable,
  start, step,
}

-- The lock is held just while the task waits.
record IsLocked (s : Tasks) : Type 0 where
  waits : s.asking ≡ waiting → s.locked ≡ true
  free : s.asking ≢ waiting → s.locked ≡ false

TaskStep-IsLocked : (s t : Tasks) → TaskStep s t → IsLocked s → IsLocked t
TaskStep-IsLocked s _ (ask a l c) i = record { waits = λ h. refl; free = λ h. absurd (h refl) }
TaskStep-IsLocked s _ (finish a b) i = record {
  waits = λ h. absurd (ground (arith, h));
  free = λ h. refl;
}
TaskStep-IsLocked s _ (give_up a b) i = record {
  waits = λ h. absurd (ground (arith, h));
  free = λ h. refl;
}
TaskStep-IsLocked s _ (read_response a b) i = record { waits = i.waits; free = i.free }
TaskStep-IsLocked s _ (forward a b) i = record { waits = i.waits; free = i.free }
TaskStep-IsLocked s _ (read_request a) i = record { waits = i.waits; free = i.free }
TaskStep-IsLocked s _ (read_eof a) i = record { waits = i.waits; free = i.free }
TaskStep-IsLocked s _ (provide a b) i = record { waits = i.waits; free = i.free }
TaskStep-IsLocked s _ (clean_up a b) i = record { waits = i.waits; free = i.free }

Reachable-IsLocked : {s : Tasks} → Reachable s → IsLocked s
Reachable-IsLocked (start e) = record {
  waits = λ h. absurd (ground (arith, e, h));
  free = λ h. ground (arith, e);
}
Reachable-IsLocked (step {s} {t} r x) = TaskStep-IsLocked s t x (Reachable-IsLocked r)

-- The task waits for an answer that has not come, and the connection waits for the lock.
abbrev pub IsDeadlocked : Tasks → Type 0
IsDeadlocked s =
    (s.asking ≡ waiting)
    × ((s.answered ≡ false) × ((s.connection ≡ providing) ⊎ (s.connection ≡ closing)))

deadlocked_stays : (s t : Tasks) → TaskStep s t → IsLocked s → IsDeadlocked s → ⊥
deadlocked_stays s _ (ask a l c) i (w, (n, d)) = ground (arith, a, w)
deadlocked_stays s _ (finish a b) i (w, (n, d)) = ground (arith, b, n)
deadlocked_stays s _ (give_up a b) i (w, (n, inl d)) = ground (arith, b, d)
deadlocked_stays s _ (give_up a b) i (w, (n, inr d)) = ground (arith, b, d)
deadlocked_stays s _ (read_response a b) i (w, (n, inl d)) = ground (arith, a, d)
deadlocked_stays s _ (read_response a b) i (w, (n, inr d)) = ground (arith, a, d)
deadlocked_stays s _ (forward a b) i (w, (n, inl d)) = ground (arith, a, d)
deadlocked_stays s _ (forward a b) i (w, (n, inr d)) = ground (arith, a, d)
deadlocked_stays s _ (read_request a) i (w, (n, inl d)) = ground (arith, a, d)
deadlocked_stays s _ (read_request a) i (w, (n, inr d)) = ground (arith, a, d)
deadlocked_stays s _ (read_eof a) i (w, (n, inl d)) = ground (arith, a, d)
deadlocked_stays s _ (read_eof a) i (w, (n, inr d)) = ground (arith, a, d)
deadlocked_stays s _ (provide a b) i (w, (n, d)) = ground (arith, b, i.waits w)
deadlocked_stays s _ (clean_up a b) i (w, (n, d)) = ground (arith, b, i.waits w)

-- A request that waits for its answer is in the channel of the connection, or was sent to the module.
record IsInFlight (s : Tasks) : Type 0 where
  somewhere : s.asking ≡ waiting → s.answered ≡ false → (s.queued || s.requested) ≡ true

TaskStep-IsInFlight : (s t : Tasks) → TaskStep s t → IsInFlight s → IsInFlight t
TaskStep-IsInFlight s _ (ask a l c) i = record { somewhere = λ w n. refl }
TaskStep-IsInFlight s _ (forward a b) i = record { somewhere = λ w n. ground arith }
TaskStep-IsInFlight s _ (finish a b) i = record { somewhere = λ w n. absurd (ground (arith, w)) }
TaskStep-IsInFlight s _ (give_up a b) i = record { somewhere = λ w n. absurd (ground (arith, w)) }
TaskStep-IsInFlight s _ (read_response a b) i = record {
  somewhere = λ w n. absurd (ground (arith, n));
}
TaskStep-IsInFlight s _ (read_request a) i = record { somewhere = i.somewhere }
TaskStep-IsInFlight s _ (read_eof a) i = record { somewhere = i.somewhere }
TaskStep-IsInFlight s _ (provide a b) i = record { somewhere = i.somewhere }
TaskStep-IsInFlight s _ (clean_up a b) i = record { somewhere = i.somewhere }

Reachable-IsInFlight : {s : Tasks} → Reachable s → IsInFlight s
Reachable-IsInFlight (start e) = record { somewhere = λ w n. absurd (ground (arith, e, w)) }
Reachable-IsInFlight (step {s} {t} r x) = TaskStep-IsInFlight s t x (Reachable-IsInFlight r)

-- Steps of the two tasks.
pub data TaskSteps : Tasks → Tasks → Type 0 where
  here : {s : Tasks} → TaskSteps s s
  then_step : {s t u : Tasks} → TaskStep s t → TaskSteps t u → TaskSteps s u

-- Steps lead to a state in which the task has ended and the lock is free.
abbrev pub CanFinish : Tasks → Type 0
CanFinish s = (t : Tasks) × (TaskSteps s t × ((t.asking ≡ finished) × (t.locked ≡ false)))

when_answered : (s : Tasks) → s.asking ≡ waiting → s.answered ≡ true → CanFinish s
when_answered s w a = (_, (then_step (finish w a) here, (refl, refl)))

when_requested :
    (s : Tasks) → s.asking ≡ waiting → s.connection ≡ reading → s.requested ≡ true → CanFinish s
when_requested s w c q =
    let (t, (steps, e)) = when_answered (record s { requested = false; answered = true }) w refl in
    (t, (then_step (read_response c q) steps, e))

when_queued :
    (s : Tasks) → s.asking ≡ waiting → s.connection ≡ reading → s.queued ≡ true → CanFinish s
when_queued s w c q =
    let (t, (steps, e)) = when_requested (record s { queued = false; requested = true }) w c refl in
    (t, (then_step (forward c q) steps, e))

by_connection :
    (s : Tasks)
    → Reachable s
    → s.asking ≡ waiting
    → s.answered ≡ false
    → (c : ConnectionTask) → s.connection ≡ c
    → CanFinish s ⊎ (IsDeadlocked s × ((t : Tasks) → TaskStep s t → ⊥))
by_connection s r w n reading c = elim (Bool-cases s.queued) [
  | inl q ↦ inl (when_queued s w c q)
  | inr q ↦
      let i = (Reachable-IsInFlight r).somewhere w n in
      inl (when_requested s w c (ground (arith, i, q)))
]
by_connection s r w n providing c =
    let d : IsDeadlocked s = (w, (n, inl c)) in
    inr (d, λ t x. deadlocked_stays s t x (Reachable-IsLocked r) d)
by_connection s r w n closing c =
    let d : IsDeadlocked s = (w, (n, inr c)) in
    inr (d, λ t x. deadlocked_stays s t x (Reachable-IsLocked r) d)
by_connection s r w n closed c = inl (_, (then_step (give_up w c) here, (refl, refl)))

-- In every state that is reached and in which the task waits under the lock, one of two things holds.
-- Either steps of the two tasks lead to a state in which the task has ended and the lock is free. Or the
-- answer has not come, the connection waits for the lock, to provide an offer or to close, and no step of
-- either task is possible.
pub waiting_finishes :
    (s : Tasks)
    → Reachable s
    → s.asking ≡ waiting
    → CanFinish s ⊎ (IsDeadlocked s × ((t : Tasks) → TaskStep s t → ⊥))
waiting_finishes s r w = elim (Bool-cases s.answered) [
  | inl a ↦ inl (when_answered s w a)
  | inr n ↦ by_connection s r w n s.connection refl
]

-- While the task waits for an answer that has not come and the connection reads, the module can make
-- both wait for ever in one step: by a request that provides an offer, and by the end of its stream.
-- The state after either is deadlocked, and no step leads out of it.
pub unanswered_deadlocks :
    (s : Tasks)
    → Reachable s
    → s.asking ≡ waiting
    → s.answered ≡ false
    → s.connection ≡ reading
    → ((p : Tasks) × (TaskStep s p
          × ((p.connection ≡ providing) × (IsDeadlocked p × ((t : Tasks) → TaskStep p t → ⊥)))))
      × ((q : Tasks) × (TaskStep s q
            × ((q.connection ≡ closing) × (IsDeadlocked q × ((t : Tasks) → TaskStep q t → ⊥)))))
unanswered_deadlocks s r w n c =
    let p : Tasks = record s { connection = providing } in
    let q : Tasks = record s { connection = closing } in
    let dp : IsDeadlocked p = (w, (n, inl refl)) in
    let dq : IsDeadlocked q = (w, (n, inr refl)) in
    let ip = Reachable-IsLocked (step r (read_request c)) in
    let iq = Reachable-IsLocked (step r (read_eof c)) in
    (
      (p, (read_request c, (refl, (dp, λ t x. deadlocked_stays p t x ip dp)))),
      (q, (read_eof c, (refl, (dq, λ t x. deadlocked_stays q t x iq dq)))),
    )
