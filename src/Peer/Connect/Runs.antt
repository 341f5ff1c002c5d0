-- ===== src/Peer/Connect/Runs.antt =====
-- Connections of src/peer/ws.rs one after another and beside each other, with what the user does in
-- between: a run is any sequence of such events.
use nexuspouch.Base.{String, ℕ, zero, suc, ℤ, List, [], ◌∷◌, ◌++◌, Bool, Option, none, some}
use nexuspouch.Peer.Peers.{remove}
use nexuspouch.Peer.Pairing.{PairingRequest, start, decide}
use nexuspouch.Peer.Connect.{Own, Hello, Contacts, Begun, waits, greet, conclude}

-- A connection that waits for the decision of the user.
pub record Offer : Type 0 where
  pub hello : Hello
  pub request : PairingRequest
  pub receiver : ℕ

pub record World : Type 0 where
  pub contacts : Contacts
  pub offers : List Offer

pub data Event : Type 0 where
  -- the user starts a pairing, with a new code
  started : String → Event
  decided : Bool → Event
  removed : String → Event
  -- a connection, with the id of its session and whether the reply arrives
  greeted : Hello → String → Bool → Event
  -- the waiting connection at a place goes on
  concluded : ℕ → String → ℤ → Bool → Event

-- The element at a place, and the others.
unfoldable pub pick {ℓ} : {A : Type ℓ} → ℕ → List A → Option (A × List A)
pick n [] = none
pick zero (x ∷ xs) = some (x, xs)
pick (suc n) (x ∷ xs) = elim (pick n xs) [
  | none ↦ none
  | some p ↦ let (y, rest) = p in some (y, x ∷ rest)
]

abbrev pub offered : Hello → Begun × Contacts → List Offer → World
offered hello (waits req n, c) os = record {
  contacts = c;
  offers = os ++ record { hello = hello; request = req; receiver = n } ∷ [];
}
offered hello (_, c) os = record { contacts = c; offers = os }

module _ (own : Own) where
  unfoldable pub step : Event → World → World
  step (started code) w = record {
    contacts = record { hub = start code w.contacts.hub; peers = w.contacts.peers };
    offers = w.offers;
  }
  step (decided accept) w = record {
    contacts = record { hub = (decide accept w.contacts.hub).1; peers = w.contacts.peers };
    offers = w.offers;
  }
  step (removed fp) w = record {
    contacts = record { hub = w.contacts.hub; peers = (remove fp w.contacts.peers).1 };
    offers = w.offers;
  }
  step (greeted hello session_id delivered) w =
      offered hello (greet own hello session_id delivered w.contacts) w.offers
  step (concluded n peer_id now delivered) w = elim (pick n w.offers) [
    | none ↦ w
    | some p ↦
        let (o, rest) = p in
        record {
          contacts = (conclude own o.hello o.request o.receiver peer_id now delivered w.contacts).1;
          offers = rest;
        }
  ]

  unfoldable pub run : List Event → World → World
  run [] w = w
  run (e ∷ es) w = run es (step e w)
