-- ===== src/P2p/Heartbeat/Enter.antt =====
-- The loops of src/p2p/gossipsub/heartbeat/handle.rs that enter the offers of a new peer.
use derouter.Base.{
  String, ◌≡◌, refl, ap, sym, subst, ◌∙◌, true, false, Option, none, some, List, [], ◌∷◌, ◌++◌,
  arith, is_some, is_none, any, find_first, any-append_one, Outcome, ok, ◌>>=◌, ◌==◌, text_eq,
  nat_eq, ==_iff, if◌then◌else◌, or_else,
}
use derouter.Base.Maps.{Map, lookup, HasUniqueKeys, HasUniqueNested}
use derouter.Dto.{PeerId}
use derouter.Db.{OfferSnapshotRow}
use derouter.Db.Offers.{
  OfferKey, key_eq, key_of, active_row, payload_row, insert_snapshot, new_snapshot, next_snapshot,
}
use derouter.Db.Offers.Table.{IsTable}
use derouter.Db.Offers.Place.{insert-Places}
use derouter.P2p.Proto.{ProviderOffer, Offers, get_offer}
use derouter.P2p.Heartbeat.{
  Work, HeartbeatError, enter, each_offer, each_protocol, offer_key, reported,
}
use derouter.P2p.Heartbeat.Announce.{key_beq-fields, payload_at, offered, incoming}

-- No row of the table is of the offer.
abbrev pub Vacant : List OfferSnapshotRow → OfferKey → Type 0
Vacant rows j = any (λ r. key_of r == j) rows ≡ false

pub Vacant-active :
    (rows : List OfferSnapshotRow) (j : OfferKey) → Vacant rows j → active_row rows j ≡ none
unfolding active_row find_first any
Vacant-active [] j v = refl
Vacant-active (r ∷ rows) j v = ground (arith, v, Vacant-active rows j)

Vacant-payload :
    (rows : List OfferSnapshotRow) (j : OfferKey) (payload : String)
    → Vacant rows j
    → payload_row rows j payload ≡ none
unfolding payload_row find_first any
Vacant-payload [] j payload v = refl
Vacant-payload (r ∷ rows) j payload v = ground (arith, v, Vacant-payload rows j payload)

-- The step returns, keeps the indexes, adds the payloads `gain`, and leaves vacant what it gains
-- nothing for.
pub record Gains (w : Work) (gain : OfferKey → Option String) (out : Outcome HeartbeatError Work)
    : Type 0 where
  pub work : Work
  pub returns : out ≡ ok work
  pub table : IsTable work.rows
  pub payloads : (j : OfferKey) → payload_at work.rows j ≡ or_else (gain j) (payload_at w.rows j)
  pub vacant : (j : OfferKey) → gain j ≡ none → Vacant w.rows j → Vacant work.rows j

inserted :
    (rows : List OfferSnapshotRow) (k : OfferKey) (payload : String)
    → Vacant rows k
    → insert_snapshot rows k payload
      ≡ ok (next_snapshot rows, rows ++ new_snapshot (next_snapshot rows) k payload ∷ [])
unfolding insert_snapshot
inserted rows k payload v = ground (arith, Vacant-active rows k v, Vacant-payload rows k payload v)

enter-Gains :
    (source protocol_id offer_id : String) (offer : ProviderOffer) (w : Work)
    → IsTable w.rows
    → Vacant w.rows (offer_key source protocol_id offer_id)
    → Gains w
        (λ j.
          if offer_key source protocol_id offer_id == j then some offer.protocol_payload else none)
        (enter source protocol_id offer_id offer w)
unfolding enter
enter-Gains source protocol_id offer_id offer w t v =
    let k = offer_key source protocol_id offer_id in
    let p =
      insert-Places w.rows k offer.protocol_payload t (Vacant-active w.rows k v)
        (Vacant-payload w.rows k offer.protocol_payload v) in
    let same : p.rows'
        ≡ w.rows ++ new_snapshot (next_snapshot w.rows) k offer.protocol_payload ∷ [] =
      ground (arith, p.returns, inserted w.rows k offer.protocol_payload v) in
    record {
      work = reported w source protocol_id offer_id offer.protocol_payload p.row.rowid p.rows';
      returns = ground (arith, p.returns);
      table = p.table;
      payloads = λ j. ground (arith, p.payload_of, p.actives j);
      vacant = λ j g h.
          subst (λ rows. Vacant rows j) (sym same)
            (any-append_one (λ r. key_of r == j) w.rows
              (new_snapshot (next_snapshot w.rows) k offer.protocol_payload) h (ground (arith, g)));
    }

-- A step after a step: what the second enters, the first has left vacant.
Gains-then :
    (w : Work) (step : Work → Outcome HeartbeatError Work) (out : Outcome HeartbeatError Work)
    (gain rest : OfferKey → Option String)
    → Gains w gain out
    → ((v : Work)
        → IsTable v.rows
        → ((j : OfferKey) → gain j ≡ none → Vacant w.rows j → Vacant v.rows j)
        → Gains v rest (step v))
    → Gains w (λ j. or_else (rest j) (gain j)) (out >>= step)
Gains-then w step out gain rest a b =
    let c = b a.work a.table a.vacant in
    record {
      work = c.work;
      returns = ground (arith, a.returns, c.returns);
      table = c.table;
      payloads = λ j. ground (arith, a.payloads j, c.payloads j);
      vacant = λ j g h. c.vacant j (ground (arith, g)) (a.vacant j (ground (arith, g)) h);
    }

Gains-cong :
    (w : Work) (f g : OfferKey → Option String) (out : Outcome HeartbeatError Work)
    → ((j : OfferKey) → f j ≡ g j)
    → Gains w f out
    → Gains w g out
Gains-cong w f g out same r = record {
  work = r.work;
  returns = r.returns;
  table = r.table;
  payloads = λ j. r.payloads j ∙ ap (λ o. or_else o (payload_at w.rows j)) (same j);
  vacant = λ j e h. r.vacant j (same j ∙ e) h;
}

-- No row is of an offer that the heartbeat names.
abbrev pub Unknown : List OfferSnapshotRow → (OfferKey → Option String) → Type 0
Unknown rows gain = (j : OfferKey) → is_some (gain j) ≡ true → Vacant rows j

offered-cons :
    (source protocol_id offer_id : String) (offer : ProviderOffer) (m : Map String ProviderOffer)
    (j : OfferKey)
    → is_none (lookup offer_id m) ≡ true
    → or_else
        (offered source protocol_id m j)
        (if offer_key source protocol_id offer_id == j then some offer.protocol_payload else none)
      ≡ offered source protocol_id ((offer_id, offer) ∷ m) j
unfolding lookup
offered-cons source protocol_id offer_id offer m j u =
    ground (arith, u, key_beq-fields source protocol_id offer_id j, ==_iff offer_id j.offer_id)

-- What the rest names is not what the first entry names.
offered_apart :
    (source protocol_id offer_id : String) (offer : ProviderOffer) (m : Map String ProviderOffer)
    (j : OfferKey)
    → is_none (lookup offer_id m) ≡ true
    → is_some (offered source protocol_id m j) ≡ true
    → (if offer_key source protocol_id offer_id == j then some offer.protocol_payload else none)
      ≡ none
offered_apart source protocol_id offer_id offer m j u s =
    ground (arith, u, s, key_beq-fields source protocol_id offer_id j, ==_iff offer_id j.offer_id)

some_right : (a b : Option String) → is_some b ≡ true → is_some (or_else a b) ≡ true
some_right none b h = h
some_right (some a) b h = refl

some_left : (a b : Option String) → is_some a ≡ true → is_some (or_else a b) ≡ true
some_left (some a) b h = refl
some_left none b h = ground (arith, h)

each_offer-Gains :
    (source protocol_id : String) (m : Map String ProviderOffer) (w : Work)
    → HasUniqueKeys m
    → IsTable w.rows
    → Unknown w.rows (offered source protocol_id m)
    → Gains w (offered source protocol_id m) (each_offer (enter source) protocol_id m w)
unfolding each_offer lookup
each_offer-Gains source protocol_id [] w u t new = record {
  work = w;
  returns = refl;
  table = t;
  payloads = λ j. ground arith;
  vacant = λ j e h. h;
}
each_offer-Gains source protocol_id ((offer_id, offer) ∷ m) w u t new =
    let k = offer_key source protocol_id offer_id in
    let whole = λ (j : OfferKey). offered-cons source protocol_id offer_id offer m j u.0 in
    Gains-cong w _ _ _ whole (
      Gains-then w (each_offer (enter source) protocol_id m) _
        (λ j. if k == j then some offer.protocol_payload else none) (offered source protocol_id m)
        (enter-Gains source protocol_id offer_id offer w t (
          new k (
            ground (
              arith,
              key_beq-fields source protocol_id offer_id k,
              ==_iff source source,
              ==_iff protocol_id protocol_id,
              ==_iff offer_id offer_id,
            ))))
        (λ v s keeps. each_offer-Gains source protocol_id m v u.1 s (λ j h.
          keeps j (offered_apart source protocol_id offer_id offer m j u.0 h) (
            new j (
              subst (λ o. is_some o ≡ true) (whole j)
                (some_left (offered source protocol_id m j)
                  (if k == j then some offer.protocol_payload else none) h))))))

incoming-cons :
    (source protocol_id : String) (m : Map String ProviderOffer) (rest : Offers) (j : OfferKey)
    → is_none (lookup protocol_id rest) ≡ true
    → or_else (incoming source rest j) (offered source protocol_id m j)
      ≡ incoming source ((protocol_id, m) ∷ rest) j
unfolding lookup get_offer
incoming-cons source protocol_id m rest j u = ground (arith, u, ==_iff protocol_id j.protocol_id)

incoming_apart :
    (source protocol_id : String) (m : Map String ProviderOffer) (rest : Offers) (j : OfferKey)
    → is_none (lookup protocol_id rest) ≡ true
    → is_some (incoming source rest j) ≡ true
    → offered source protocol_id m j ≡ none
unfolding lookup get_offer
incoming_apart source protocol_id m rest j u s =
    ground (arith, u, s, ==_iff protocol_id j.protocol_id)

-- No protocol stands twice, and no offer of a protocol.
abbrev pub UniqueOffers : Offers → Type 0
UniqueOffers offers = HasUniqueNested offers

-- The loops that enter the offers of a new peer return, with no failure, a table with both unique
-- indexes, in which each offer of the heartbeat is active with its payload, and every other active
-- payload is what it was. The table had the indexes and no row of these offers, and the heartbeat
-- names no offer twice.
pub each_protocol-Gains :
    (source : PeerId) (offers : Offers) (w : Work)
    → UniqueOffers offers
    → IsTable w.rows
    → Unknown w.rows (incoming source offers)
    → Gains w (incoming source offers) (each_protocol (enter source) offers w)
unfolding each_protocol lookup get_offer
each_protocol-Gains source [] w u t new = record {
  work = w;
  returns = refl;
  table = t;
  payloads = λ j. ground arith;
  vacant = λ j e h. h;
}
each_protocol-Gains source ((protocol_id, m) ∷ rest) w u t new =
    let whole = λ (j : OfferKey). incoming-cons source protocol_id m rest j u.0 in
    Gains-cong w _ _ _ whole (
      Gains-then w (each_protocol (enter source) rest) _ (offered source protocol_id m)
        (incoming source rest)
        (each_offer-Gains source protocol_id m w u.1.0 t (λ j h. new j (
          subst (λ o. is_some o ≡ true) (whole j)
            (some_right (incoming source rest j) (offered source protocol_id m j) h))))
        (λ v s keeps. each_protocol-Gains source rest v u.1.1 s (λ j h.
          keeps j (incoming_apart source protocol_id m rest j u.0 h) (
            new j (
              subst (λ o. is_some o ≡ true) (whole j)
                (some_left (incoming source rest j) (offered source protocol_id m j) h))))))
