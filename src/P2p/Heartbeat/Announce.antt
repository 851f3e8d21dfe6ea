-- ===== src/P2p/Heartbeat/Announce.antt =====
-- The loops of src/p2p/gossipsub/heartbeat/handle.rs over the incoming offers.
use derouter.Base.{
  String, ◌≡◌, refl, ◌∙◌, Bool, true, ◌&&◌, inl, inr, Option, none, some, List, [], ◌∷◌, arith,
  is_none, Outcome, ok, ◌>>=◌, Option-cases, ◌==◌, text_eq, ==_iff, if◌then◌else◌, map_option,
  or_else,
}
use derouter.Base.Maps.{Map, lookup, HasUniqueKeys}
use derouter.Dto.{PeerId}
use derouter.Db.{OfferSnapshotRow}
use derouter.Db.Offers.{OfferKey, key_eq, key_beq, active_row}
use derouter.Db.Offers.Table.{IsTable}
use derouter.Db.Offers.Place.{upsert_on_any-Places}
use derouter.P2p.Proto.{ProviderOffer, Offers, get_offer, payload_of}
use derouter.P2p.Heartbeat.{
  Work, HeartbeatError, announce, each_offer, each_protocol, offer_key, reported,
}

-- The payload of the offer's active snapshot.
abbrev pub payload_at : List OfferSnapshotRow → OfferKey → Option String
payload_at rows j = map_option (λ (r : OfferSnapshotRow). r.protocol_payload) (active_row rows j)

-- The payload that the entries of one protocol give for the offer `j`.
abbrev pub offered : PeerId → String → Map String ProviderOffer → OfferKey → Option String
offered source protocol_id m j =
    if (source == j.provider_peer_id) && (protocol_id == j.protocol_id)
    then map_option payload_of (lookup j.offer_id m)
    else none

-- The payload that the whole heartbeat of `source` gives for the offer `j`.
abbrev pub incoming : PeerId → Offers → OfferKey → Option String
incoming source offers j =
    if source == j.provider_peer_id
    then map_option payload_of (get_offer offers j.protocol_id j.offer_id)
    else none

-- The step returns, keeps the indexes, and gives each offer the payload `after`.
pub record Reaches (out : Outcome HeartbeatError Work) (after : OfferKey → Option String)
    : Type 0 where
  pub work : Work
  pub returns : out ≡ ok work
  pub table : IsTable work.rows
  pub payloads : (j : OfferKey) → payload_at work.rows j ≡ after j

or_else_assoc : (a b c : Option String) → or_else (or_else a b) c ≡ or_else a (or_else b c)
or_else_assoc none b c = refl
or_else_assoc (some a) b c = refl

or_else-none : (a : Option String) → or_else a none ≡ a
or_else-none none = refl
or_else-none (some a) = refl

pub key_beq-fields :
    (source protocol_id offer_id : String) (j : OfferKey)
    → (offer_key source protocol_id offer_id == j) ≡ (
        (source == j.provider_peer_id)
        && ((protocol_id == j.protocol_id) && (offer_id == j.offer_id)))
unfolding key_beq
key_beq-fields source protocol_id offer_id j = refl

pub announce-Reaches :
    (main_first : Bool) (source protocol_id offer_id : String) (offer : ProviderOffer) (w : Work)
    → IsTable w.rows
    → Reaches (announce main_first source protocol_id offer_id offer w) (λ j.
      or_else
        (payload_at w.rows j)
        (if offer_key source protocol_id offer_id == j then some offer.protocol_payload else none))
unfolding announce
announce-Reaches main_first source protocol_id offer_id offer w t =
    elim (Option-cases (active_row w.rows (offer_key source protocol_id offer_id))) [
      | inr (r, e) ↦ record {
        work = w;
        returns = ground (arith, e);
        table = t;
        payloads = λ j. ground (
          arith,
          e,
          ==_iff (offer_key source protocol_id offer_id) j,
          or_else-none (payload_at w.rows j),
        );
      }
      | inl e ↦
          let p =
            upsert_on_any-Places main_first w.rows (offer_key source protocol_id offer_id)
              offer.protocol_payload t e in
          record {
            work =
                reported w source protocol_id offer_id offer.protocol_payload p.row.rowid p.rows';
            returns = ground (arith, e, p.returns);
            table = p.table;
            payloads = λ j. ground (
              arith,
              e,
              p.payload_of,
              p.actives j,
              ==_iff (offer_key source protocol_id offer_id) j,
            );
          }
    ]

-- A step after a step that gives `before`.
pub Reaches-then :
    (w : Work) (step : Work → Outcome HeartbeatError Work) (out : Outcome HeartbeatError Work)
    (gain rest : OfferKey → Option String)
    → Reaches out (λ j. or_else (payload_at w.rows j) (gain j))
    → ((v : Work) → IsTable v.rows → Reaches (step v) (λ j. or_else (payload_at v.rows j) (rest j)))
    → Reaches (out >>= step) (λ j. or_else (payload_at w.rows j) (or_else (gain j) (rest j)))
Reaches-then w step out gain rest a b =
    let c = b a.work a.table in
    record {
      work = c.work;
      returns = ground (arith, a.returns, c.returns);
      table = c.table;
      payloads = λ j. ground (
        arith,
        a.payloads j,
        c.payloads j,
        or_else_assoc (payload_at w.rows j) (gain j) (rest j),
      );
    }

Reaches-cong :
    (out : Outcome HeartbeatError Work) (f g : OfferKey → Option String)
    → ((j : OfferKey) → f j ≡ g j)
    → Reaches out f
    → Reaches out g
Reaches-cong out f g same r = record {
  work = r.work;
  returns = r.returns;
  table = r.table;
  payloads = λ j. r.payloads j ∙ same j;
}

offered-cons :
    (source protocol_id offer_id : String) (offer : ProviderOffer) (m : Map String ProviderOffer)
    (j : OfferKey)
    → or_else
        (if offer_key source protocol_id offer_id == j then some offer.protocol_payload else none)
        (offered source protocol_id m j)
      ≡ offered source protocol_id ((offer_id, offer) ∷ m) j
unfolding lookup
offered-cons source protocol_id offer_id offer m j =
    ground (arith, key_beq-fields source protocol_id offer_id j)

pub each_offer-Reaches :
    (main_first : Bool) (source protocol_id : String) (m : Map String ProviderOffer) (w : Work)
    → IsTable w.rows
    → Reaches
        (each_offer (announce main_first source) protocol_id m w)
        (λ j. or_else (payload_at w.rows j) (offered source protocol_id m j))
unfolding each_offer lookup
each_offer-Reaches main_first source protocol_id [] w t = record {
  work = w;
  returns = refl;
  table = t;
  payloads = λ j. ground (arith, or_else-none (payload_at w.rows j));
}
each_offer-Reaches main_first source protocol_id ((offer_id, offer) ∷ m) w t =
    Reaches-cong _ _ _ (λ j. rw (offered-cons source protocol_id offer_id offer m j))
      (Reaches-then w (each_offer (announce main_first source) protocol_id m) _
        (λ j.
          if offer_key source protocol_id offer_id == j then some offer.protocol_payload else none)
        (offered source protocol_id m)
        (announce-Reaches main_first source protocol_id offer_id offer w t)
        (λ v s. each_offer-Reaches main_first source protocol_id m v s))

incoming-cons :
    (source protocol_id : String) (m : Map String ProviderOffer) (rest : Offers) (j : OfferKey)
    → is_none (lookup protocol_id rest) ≡ true
    → or_else (offered source protocol_id m j) (incoming source rest j)
      ≡ incoming source ((protocol_id, m) ∷ rest) j
unfolding lookup get_offer
incoming-cons source protocol_id m rest j h =
    ground (arith, ==_iff protocol_id j.protocol_id, or_else-none (offered source protocol_id m j))

pub each_protocol-Reaches :
    (main_first : Bool) (source : String) (offers : Offers) (w : Work)
    → HasUniqueKeys offers
    → IsTable w.rows
    → Reaches
        (each_protocol (announce main_first source) offers w)
        (λ j. or_else (payload_at w.rows j) (incoming source offers j))
unfolding each_protocol lookup get_offer
each_protocol-Reaches main_first source [] w u t = record {
  work = w;
  returns = refl;
  table = t;
  payloads = λ j. ground (arith, or_else-none (payload_at w.rows j));
}
each_protocol-Reaches main_first source ((protocol_id, m) ∷ rest) w u t =
    Reaches-cong _ _ _ (λ j. rw (incoming-cons source protocol_id m rest j u.0))
      (Reaches-then w (each_protocol (announce main_first source) rest) _
        (offered source protocol_id m) (incoming source rest)
        (each_offer-Reaches main_first source protocol_id m w t)
        (λ v s. each_protocol-Reaches main_first source rest v u.1 s))
