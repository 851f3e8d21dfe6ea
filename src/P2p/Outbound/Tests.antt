-- ===== src/P2p/Outbound/Tests.antt =====
-- A run of the requests of src/p2p.rs: two tasks wait, the second one gets its answer first.
use derouter.Base.{ℕ, arith, nat_eq, ◌≡◌, refl, false, List, [], ◌∷◌, any, none}
use derouter.Base.Maps.{lookup, insert, remove}
use derouter.P2p.Requests.{GetJobResponse}
use derouter.Rpc.Consumer.{Reply, outbound_failure}
use derouter.P2p.Outbound.{Outbound, OutboundEvent, requested, response, failed, run}
use derouter.P2p.Outbound.Settled.{given, starts, ending}
use derouter.P2p.Outbound.Answers.{Answers, run-requested}

abbrev idle : Outbound
idle = record { response_tx_map = []; sent = [] }

abbrev meanwhile : List OutboundEvent
meanwhile =
    requested 2 20
    ∷ (response 2 (Reply.get_job GetJobResponse.job_not_found) ∷ (failed 1 ∷ (requested 3 30 ∷ [])))

ends_with_failure : ending 1 meanwhile ≡ outbound_failure ∷ []
unfolding ending
ends_with_failure = refl

no_other : any (starts 1 10) meanwhile ≡ false
unfolding any
no_other = refl

nothing_given : given 10 [] ≡ []
unfolding given
nothing_given = refl

idle_lookup : (i : ℕ) → lookup i idle.response_tx_map ≡ none
unfolding lookup
idle_lookup i = refl

run-requested_example : Answers 1 10 meanwhile (run (requested 1 10 ∷ meanwhile) idle)
unfolding lookup insert remove
run-requested_example =
    run-requested meanwhile 1 10 idle (λ i. ground (arith, idle_lookup i)) nothing_given no_other
      (refl, (refl, (refl, (refl, (refl, tt)))))
