-- ===== src/Peer/Peers.antt =====
-- src/peer/peers.rs: the file of paired devices, and pairing codes.
pub mod Laws
use Prim.Native.Char.{Char}
use Prim.Native.String
use nexuspouch.Base.{
  String, ℕ, zero, suc, ℤ, ◌%◌, List, [], ◌∷◌, ◌++◌, Bool, true, false, not, ◌&&◌, Option, none,
  some, if◌then◌else◌, ◌==◌, is_empty, select, any,
}
use nexuspouch.Store.Stored.{Stored, absent, broken, holds}

pub record Peer : Type 0 where
  pub fingerprint : String
  pub public_key_b64 : String
  pub device_name : String
  pub peer_id : String
  pub trust_level : String
  pub paired_at_ms : ℤ
  pub local_endpoint : Option String
  pub channel_endpoint : Option String

-- `paired_peers.json`
abbrev pub PeerFile : Type 0
PeerFile = Stored (List Peer)

-- `load` and `list`: a file that is no list of peers counts as an empty list.
unfoldable pub load : PeerFile → List Peer
load absent = []
load broken = []
load (holds peers) = peers

abbrev pub has_fingerprint : String → Peer → Bool
has_fingerprint fp p = p.fingerprint == fp

unfoldable pub upsert : Peer → PeerFile → PeerFile
upsert p file = holds (select (λ x. not (has_fingerprint p.fingerprint x)) (load file) ++ p ∷ [])

unfoldable pub find_peer : String → List Peer → Option Peer
find_peer fp [] = none
find_peer fp (p ∷ peers) = if has_fingerprint fp p then some p else find_peer fp peers

abbrev pub get : String → PeerFile → Option Peer
get fp file = find_peer fp (load file)

abbrev pub or_kept : String → Option String → Option String
or_kept new old = if is_empty new then old else some new

-- The peer with the endpoints that are given.
abbrev pub with_endpoints : String → String → Peer → Peer
with_endpoints local channel p = record {
  fingerprint = p.fingerprint;
  public_key_b64 = p.public_key_b64;
  device_name = p.device_name;
  peer_id = p.peer_id;
  trust_level = p.trust_level;
  paired_at_ms = p.paired_at_ms;
  local_endpoint = or_kept local p.local_endpoint;
  channel_endpoint = or_kept channel p.channel_endpoint;
}

abbrev merge_found : String → String → Option Peer → PeerFile → PeerFile
merge_found local channel none file = file
merge_found local channel (some p) file = upsert (with_endpoints local channel p) file

unfoldable pub merge_endpoints : String → String → String → PeerFile → PeerFile
merge_endpoints fp local channel file =
    if is_empty local && is_empty channel
    then file
    else merge_found local channel (get fp file) file

unfoldable pub remove : String → PeerFile → Bool × PeerFile
remove fp file =
    let found = any (has_fingerprint fp) (load file) in
    (found, if found then holds (select (λ x. not (has_fingerprint fp x)) (load file)) else file)

-- `PAIRING_ALPHABET`
abbrev pub pairing_alphabet : String
pairing_alphabet = "ABCDEFGHJKMNPQRSTUVWXYZ23456789"

-- The character at a place; the last one stands past the end, which no remainder reaches.
abbrev pub char_at : ℕ → String → Char
char_at n String.[] = "9"
char_at zero (String.◌∷◌ c s) = c
char_at (suc n) (String.◌∷◌ c s) = char_at n s

unfoldable pub random_code : String → List ℕ → String
random_code alphabet [] = String.[]
random_code alphabet (b ∷ bytes) =
    String.◌∷◌ (char_at (b % String.len alphabet) alphabet) (random_code alphabet bytes)

-- `generate_pairing_code`, from the random bytes
unfoldable pub generate_pairing_code : List ℕ → String
generate_pairing_code bytes = random_code pairing_alphabet bytes
