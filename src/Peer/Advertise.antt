-- ===== src/Peer/Advertise.antt =====
-- src/peer/advertise.rs: the address under which the node can be reached. The search for an address
-- of the machine is a parameter.
use Prim.Native.String.{◌++◌ as ◌<>◌}
use nexuspouch.Base.{String, ◌||◌, Option, none, some, if◌then◌else◌, ◌==◌, is_empty}
use nexuspouch.Base.Json.{unwrap_or}
use nexuspouch.Files.{is_some}
use nexuspouch.Store.Browse.Recycle.{split_last}
use nexuspouch.Admin.Auth.{strip_start}

abbrev with_no_host : Option String → Option (String × String) → Option (String × String)
with_no_host (some rest) split = some ("", rest)
with_no_host none split = split

unfoldable pub parse_host_port : String → Option (String × String)
parse_host_port listen = with_no_host (strip_start ":" listen) (split_last b':' listen)

abbrev chosen_host : Option String → String → String
chosen_host found host =
    if is_empty host || host == "0.0.0.0" || host == "::" then unwrap_or "127.0.0.1" found else host

-- An IPv6 address stands in brackets.
abbrev bracketed : String → String
bracketed host = if is_some (split_last b':' host) then "[" <> (host <> "]") else host

-- `found` is what `first_non_loopback_ipv4` gives.
unfoldable pub advertise_local_ws : Option String → String → String
advertise_local_ws found listen = elim (parse_host_port listen) [
  | none ↦ "ws://127.0.0.1:8787/peer/ws"
  | some address ↦
      let (host, port) = address in
      "ws://" <> (bracketed (chosen_host found host) <> (":" <> (port <> "/peer/ws")))
]
