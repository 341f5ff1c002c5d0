-- ===== src/Tests/Connect.antt =====
-- A phone that is paired, and a stranger.
use nexuspouch.Base.{
  String, ℕ, pos, [], ◌∷◌, true, false, Option, none, some, ◌==◌, ◌≡◌, inl, inr, refl, ap, ◌∙◌,
  false≢true,
}
use nexuspouch.Protocol.{trust_owner}
use nexuspouch.Store.Stored.{absent}
use nexuspouch.Peer.Peers.{load, find_peer}
use nexuspouch.Peer.Pairing.{PairingRequest, new_hub, start}
use nexuspouch.Peer.Transport.{trust_of}
use nexuspouch.Peer.Connect.{
  Own, Hello, Contacts, serves, waits, reconnect, reconnect_ack, greet, conclude,
}
use nexuspouch.Peer.Connect.Runs.{World, started, decided, greeted, concluded, run}
use nexuspouch.Peer.Connect.Strangers.{IsInnocent, IsUnknown, run-IsUnknown}
use nexuspouch.Peer.Connect.Welcome.{accepting, after_decisions, pairing_welcomes}
use nexuspouch.Peer.Advertise.{advertise_local_ws, parse_host_port}
use nexuspouch.Admin.Auth.{strip_start}
use nexuspouch.Store.Browse.Recycle.{split_last}
use nexuspouch.Tests.World.{laptop, phone}

abbrev node : Own
node = record {
  device_name = "node";
  fingerprint = laptop;
  local_endpoint = "ws://127.0.0.1/peer/ws";
  channel_endpoint = "";
}

abbrev asking : String → PairingRequest
asking code = record {
  pairing_code = code;
  device_name = "phone";
  device_id = phone;
  channel_endpoint = none;
  local_endpoint = none;
  timestamp = pos 1;
}

abbrev hello_with : String → Hello
hello_with code = record { fp = phone; key = "key"; request = some (asking code); fields = none }

abbrev reconnecting : Hello
reconnecting = record { fp = phone; key = "key"; request = none; fields = none }

abbrev ready : Contacts
ready = record { hub = start "ABCD2345" new_hub; peers = absent }

pairing_welcomes_example :
    (c1 c2 : Contacts) × (n : ℕ) × (greet node (hello_with "ABCD2345") "s" true ready
      ≡ (waits (asking "ABCD2345") n, c1))
    × (conclude node
          (hello_with "ABCD2345")
          (asking "ABCD2345")
          n
          "peer-1"
          (pos 5)
          true
          (after_decisions (true ∷ false ∷ []) c1)
        ≡ (accepting node (hello_with "ABCD2345") (asking "ABCD2345") "s" ready "peer-1", c2))
    × (trust_of phone c2.peers ≡ trust_owner)
    × ((greet node reconnecting "t" true c2).0 ≡ serves (reconnect (reconnect_ack node)))
pairing_welcomes_example =
    pairing_welcomes node (hello_with "ABCD2345") reconnecting (asking "ABCD2345") "s" "t" "peer-1"
      (pos 5) true (false ∷ []) ready refl refl refl refl

-- Only this code is ever issued.
abbrev TheCode : String → Type 0
TheCode code = code ≡ "ABCD2345"

abbrev quiet : World
quiet = record { contacts = record { hub = new_hub; peers = absent }; offers = [] }

quiet-IsUnknown : IsUnknown node phone TheCode quiet
unfolding load find_peer
quiet-IsUnknown = record { code_issued = inl refl; no_peer = refl; no_offer = tt }

abbrev code_of : Option PairingRequest → String
code_of none = ""
code_of (some req) = req.pairing_code

wrong_guess :
    (req : PairingRequest) → (hello_with "WRONG").request ≡ some req → ¬ TheCode req.pairing_code
wrong_guess req e h = false≢true (ap (λ s. s == "ABCD2345") (ap code_of e ∙ h))

run-IsUnknown_example : IsUnknown node phone TheCode (
    run node
      (started "ABCD2345"
        ∷ greeted (hello_with "WRONG") "s" true
        ∷ decided true
        ∷ concluded 0 "peer-1" (pos 5) true
        ∷ [])
      quiet)
run-IsUnknown_example =
    run-IsUnknown node phone TheCode
      (started "ABCD2345"
        ∷ greeted (hello_with "WRONG") "s" true
        ∷ decided true
        ∷ concluded 0 "peer-1" (pos 5) true
        ∷ [])
      quiet (unfold IsInnocent in (refl, (inr wrong_guess, (tt, (tt, tt))))) quiet-IsUnknown

in_brackets : advertise_local_ws none "[::1]:9000" ≡ "ws://[[::1]]:9000/peer/ws"
unfolding advertise_local_ws parse_host_port split_last strip_start
in_brackets = refl

any_host : advertise_local_ws (some "10.0.0.7") ":8787" ≡ "ws://10.0.0.7:8787/peer/ws"
unfolding advertise_local_ws parse_host_port split_last strip_start
any_host = refl
