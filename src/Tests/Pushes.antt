-- ===== src/Tests/Pushes.antt =====
-- Messages that the laptop pushes to the phone.
use nexuspouch.Base.{pos, [], ◌∷◌, false, some, ◌≡◌, refl, arith}
use nexuspouch.Base.Json.{Fields}
use nexuspouch.Protocol.{is_valid_device_id}
use nexuspouch.Store.ImportAuth.{ImportGrant, save_received}
use nexuspouch.Store.ImportAuth.Safety.{empty}
use nexuspouch.Store.Import.{to_map, receive_pushed_grant}
use nexuspouch.Peer.Sessions.{grant_message, parse_store_control}
use nexuspouch.Peer.Sessions.Push.{IsIssued, grant_message_reads_back}
use nexuspouch.Tests.World.{laptop, phone}

abbrev issued : ImportGrant
issued = record {
  grant_id = "ig-1";
  old_device = laptop;
  new_device = phone;
  spaces = "backups" ∷ [];
  issued_at = pos 1;
  expires_at = pos 5;
  revoked = false;
}

issued-IsIssued : IsIssued issued
unfolding is_valid_device_id
issued-IsIssued = record {
  some_id = refl;
  some_device = refl;
  old_ok = refl;
  space = "backups";
  spaces = [];
  the_spaces = refl;
  issued_fits = refl;
  expires_fits = refl;
  some_end = omega arith;
  not_revoked = refl;
}

grant_message_reads_back_example :
    (m payload : Fields) × (grant_message (to_map issued) ≡ some (phone, m))
    × (parse_store_control m ≡ some ("import.grant", "", payload))
    × (receive_pushed_grant phone laptop payload (pos 3) empty ≡ save_received issued empty)
grant_message_reads_back_example =
    grant_message_reads_back issued laptop (pos 3) empty issued-IsIssued
