-- ===== src/Db/Jobs/Ambiguity.antt =====
-- What the hash of a job does not tell apart (`hash_job` of src/db/service_jobs.rs).
use derouter.Base.{String, ◌≡◌, refl, ap, sym, ◌∙◌, ℕ, List, [], ◌∷◌, ◌++◌}
use derouter.Db.Jobs.{Primitives, JobHashingPayload, hash_input, hash_job}

append_assoc : (a b c : List ℕ) → (a ++ b) ++ c ≡ a ++ (b ++ c)
append_assoc [] b c = refl
append_assoc (n ∷ a) b c = ap (λ t. n ∷ t) (append_assoc a b c)

same_bytes : (a b c d rest : List ℕ) → a ++ b ≡ c ++ d → a ++ (b ++ rest) ≡ c ++ (d ++ rest)
same_bytes a b c d rest same =
    sym (append_assoc a b rest) ∙ ap (λ t. t ++ rest) same ∙ append_assoc c d rest

-- The hash is of the fields one after another, with nothing between them: another protocol ID and
-- offer payload whose bytes together are the same bytes give the same hash.
pub hash_job_ambiguous :
    (x : Primitives) (job : JobHashingPayload) (protocol_id offer_payload : String)
    → x.bytes protocol_id ++ x.bytes offer_payload
      ≡ x.bytes job.protocol_id ++ x.bytes job.offer_payload
    → hash_job x (record job { protocol_id = protocol_id; offer_payload = offer_payload })
      ≡ hash_job x job
unfolding hash_job hash_input
hash_job_ambiguous x job protocol_id offer_payload same =
    ap
      (λ t.
        x.sha256
          (x.peer_id_bytes job.consumer_peer_id ++ (x.peer_id_bytes job.provider_peer_id ++ t)))
      (same_bytes (x.bytes protocol_id) (x.bytes offer_payload) (x.bytes job.protocol_id)
        (x.bytes job.offer_payload) _ same)
