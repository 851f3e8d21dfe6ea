-- ===== src/Db/Offers/Tests.antt =====
-- Runs of the operations on offer snapshots of src/db/offers.rs.
use derouter.Base.{
  ℕ, ◌≡◌, ◌≢◌, refl, true, false, none, some, [], ◌∷◌, ok, find_first, any, nat_eq, text_eq,
}
use derouter.Db.{OfferSnapshotRow, Database}
use derouter.Db.Offers.{active_row, payload_row, to_snapshot, key_beq}
use derouter.Db.Offers.Table.{IsTable}
use derouter.Db.Offers.Upsert.{triple, active_snapshot, upsert_then_find, upsert-find, upsert_stale}

abbrev old : OfferSnapshotRow
old = record {
  rowid = 1;
  provider_peer_id = "provider";
  protocol_id = "openai";
  offer_id = "gpt";
  protocol_payload = "old";
  active = true;
}

abbrev one_offer : Database
one_offer = record { peers = []; offer_snapshots = old ∷ []; service_jobs = [] }

-- The same offer, disabled.
abbrev disabled_offer : Database
disabled_offer = record {
  peers = [];
  offer_snapshots = record old { active = false } ∷ [];
  service_jobs = [];
}

one_offer-IsTable : IsTable one_offer.offer_snapshots
unfolding find_first any
one_offer-IsTable = record { ids = (refl, tt); indexed = (refl, tt) }

disabled_offer-IsTable : IsTable disabled_offer.offer_snapshots
unfolding find_first any
disabled_offer-IsTable = record { ids = (refl, tt); indexed = (refl, tt) }

no_active : active_row disabled_offer.offer_snapshots (triple "provider" "gpt" "openai") ≡ none
unfolding active_row find_first key_beq
no_active = refl

upsert-find_example :
    (id : ℕ) × (upsert_then_find true disabled_offer "provider" "gpt" "openai" "new"
      ≡ ok (id, some (active_snapshot id "provider" "gpt" "openai" "new")))
upsert-find_example =
    upsert-find true disabled_offer "provider" "gpt" "openai" "new" disabled_offer-IsTable no_active

old_is_active : active_row one_offer.offer_snapshots (triple "provider" "gpt" "openai") ≡ some old
unfolding active_row find_first key_beq
old_is_active = refl

none_is_new : payload_row one_offer.offer_snapshots (triple "provider" "gpt" "openai") "new" ≡ none
unfolding payload_row find_first key_beq
none_is_new = refl

upsert_stale_example :
    (upsert_then_find true one_offer "provider" "gpt" "openai" "new"
      ≡ ok (1, some (to_snapshot old)))
    × (old.protocol_payload ≢ "new")
upsert_stale_example =
    upsert_stale true one_offer "provider" "gpt" "openai" "new" old one_offer-IsTable old_is_active
      none_is_new
