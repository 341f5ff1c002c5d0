-- ===== src/Peer/Connect/Welcome.antt =====
-- A pairing from the first message of the device to its next connection.
use nexuspouch.Base.{
  String, ℕ, ℤ, List, [], ◌∷◌, Bool, true, false, Option, none, some, ◌==◌, is_empty, ◌≡◌, refl, ap,
  ◌∙◌, eq_refl,
}
use nexuspouch.Protocol.{trust_owner}
use nexuspouch.Peer.Peers.{Peer, get}
use nexuspouch.Peer.Peers.Laws.{get-upsert}
use nexuspouch.Peer.Pairing.{
  PairingRequest, PendingRequest, set_pending, begin_accept_wait, clear_pairing,
  wait_pairing_decision, build_pairing_response, save_paired_peer, paired_peer,
}
use nexuspouch.Peer.Pairing.Decision.{
  IsWaiting, decide_all, decide_all-IsWaiting, begin_accept_wait-IsWaiting, wait_first,
}
use nexuspouch.Peer.Transport.{trust_of}
use nexuspouch.Peer.Connect.{
  Own, Hello, Contacts, Begun, serves, waits, pairing, reconnect, reconnect_ack, pairing_asked,
  greet, offer, handle_reconnect, conclude,
}

-- The user's decisions, while a connection waits.
abbrev pub after_decisions : List Bool → Contacts → Contacts
after_decisions ds c = record { hub = decide_all ds c.hub; peers = c.peers }

module _ (own : Own) (hello : Hello) (req : PairingRequest) (session_id : String)
    (c : Contacts) where
  abbrev the_pending : PendingRequest
  the_pending = record {
    device_name = req.device_name;
    device_id = req.device_id;
    fingerprint = hello.fp;
    session_id = session_id;
  }

  abbrev pub on_hold : Contacts
  on_hold = record {
    hub =
        set_pending the_pending (record { request = req; session_id = session_id })
          ((begin_accept_wait c.hub).1);
    peers = c.peers;
  }

  abbrev pub receiver : ℕ
  receiver = (begin_accept_wait c.hub).0

  on_hold-IsWaiting : IsWaiting receiver [] on_hold.hub
  on_hold-IsWaiting =
      let w = begin_accept_wait-IsWaiting c.hub in
      record { waits = w.waits; the_channel = w.the_channel }

  greet-on_hold :
      (delivered : Bool)
      → hello.request ≡ some req
      → req.pairing_code ≡ c.hub.code
      → is_empty req.pairing_code ≡ false
      → greet own hello session_id delivered c ≡ (waits req receiver, on_hold)
  unfolding greet
  greet-on_hold delivered e same some_code =
      let empty_code : is_empty c.hub.code ≡ false = rw same at some_code in
      let asked : pairing_asked c.hub.code hello.request ≡ some req =
        unfold pairing_asked in rw (e, pairing_asked, same, empty_code) refl in
      let right : (req.pairing_code == c.hub.code) ≡ true = rw same (eq_refl c.hub.code) in
      rw (greet, asked) (unfold offer in rw (offer, right) refl)

  -- What the node keeps once the first decision of the user, `true`, has been taken.
  abbrev pub welcomed : String → ℤ → List Bool → Contacts
  welcomed peer_id now ds = record {
    hub = clear_pairing ((wait_pairing_decision receiver (decide_all (true ∷ ds) on_hold.hub)).1);
    peers = save_paired_peer hello.fp hello.key req peer_id now c.peers;
  }

  abbrev pub accepting : String → Begun
  accepting peer_id = serves (
      pairing (
        build_pairing_response own.device_name own.fingerprint true peer_id own.local_endpoint
          own.channel_endpoint))

  conclude-accepts :
      (peer_id : String) (now : ℤ) (ds : List Bool)
      → conclude own hello req receiver peer_id now true (after_decisions (true ∷ ds) on_hold)
        ≡ (accepting peer_id, welcomed peer_id now ds)
  unfolding conclude
  conclude-accepts peer_id now ds =
      let w = decide_all-IsWaiting receiver [] (true ∷ ds) on_hold.hub on_hold-IsWaiting in
      rw (conclude, wait_first receiver (true ∷ ds) (decide_all (true ∷ ds) on_hold.hub) w) refl

  is_known :
      (peer_id : String) (now : ℤ) (ds : List Bool)
      → get hello.fp (welcomed peer_id now ds).peers
        ≡ some (paired_peer hello.fp hello.key req peer_id now)
  is_known peer_id now ds =
      get-upsert hello.fp (paired_peer hello.fp hello.key req peer_id now) c.peers
      ∙ rw (eq_refl hello.fp) refl

nothing_asked : (request : Option PairingRequest) → pairing_asked "" request ≡ none
unfolding pairing_asked
nothing_asked none = refl
nothing_asked (some req) = refl

greet-known :
    (own : Own) (again : Hello) (session_id : String) (c : Contacts) (p : Peer)
    → c.hub.code ≡ ""
    → get again.fp c.peers ≡ some p
    → (greet own again session_id true c).0 ≡ serves (reconnect (reconnect_ack own))
unfolding greet
greet-known own again session_id c p cleared e =
    let not_asked : pairing_asked c.hub.code again.request ≡ none =
      rw cleared (nothing_asked again.request) in
    rw (greet, not_asked) (unfold handle_reconnect in rw (handle_reconnect, e) refl)

-- A device that presents the code that has been issued, and not the empty one, waits for the user.
-- Where the first of the user's decisions accepts it and the reply arrives, it is served, whatever is
-- decided behind that; its requests are those of an owner; and when it connects once more, whatever
-- it presents then, it is served again, where that reply arrives.
pub pairing_welcomes :
    (own : Own) (hello again : Hello) (req : PairingRequest) (session_id next_id peer_id : String)
    (now : ℤ) (delivered : Bool) (ds : List Bool) (c : Contacts)
    → hello.request ≡ some req
    → req.pairing_code ≡ c.hub.code
    → is_empty req.pairing_code ≡ false
    → again.fp ≡ hello.fp
    → (c1 c2 : Contacts) × (n : ℕ) × (greet own hello session_id delivered c ≡ (waits req n, c1))
      × (conclude own hello req n peer_id now true (after_decisions (true ∷ ds) c1)
          ≡ (accepting own hello req session_id c peer_id, c2))
      × (trust_of hello.fp c2.peers ≡ trust_owner)
      × ((greet own again next_id true c2).0 ≡ serves (reconnect (reconnect_ack own)))
unfolding trust_of
pairing_welcomes own hello again req session_id next_id peer_id now delivered ds c e same some_code
      it_is =
    let c2 = welcomed own hello req session_id c peer_id now ds in
    let known : get hello.fp c2.peers ≡ some (paired_peer hello.fp hello.key req peer_id now) =
      is_known own hello req session_id c peer_id now ds in
    (
      on_hold own hello req session_id c,
      c2,
      receiver own hello req session_id c,
      greet-on_hold own hello req session_id c delivered e same some_code,
      conclude-accepts own hello req session_id c peer_id now ds,
      rw (trust_of, known) refl,
      greet-known own again next_id c2 (paired_peer hello.fp hello.key req peer_id now) refl
          (ap (λ fp. get fp c2.peers) it_is ∙ known),
    )
