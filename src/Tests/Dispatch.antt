-- ===== src/Tests/Dispatch.antt =====
-- Messages to the store of the laptop.
use nexuspouch.Base.{pos, List, [], ◌∷◌, All, false, ◌≡◌, ◌⊎◌}
use nexuspouch.Base.Json.{Fields, end, field, string, int}
use nexuspouch.Result.{ok, err, OpError}
use nexuspouch.Protocol.{Frame, from_parts, space_of}
use nexuspouch.Files.{Node, dir, file, entry, nil}
use nexuspouch.Store.Stored.{absent}
use nexuspouch.Store.Local.{Local, Moment, with_pointer}
use nexuspouch.Store.Master
use nexuspouch.Store.Dispatch.{handle}
use nexuspouch.Store.Dispatch.Guards.{Handled, handle-Handled}
use nexuspouch.Store.Dispatch.Refines.{Message, Raise, run, view, raise_all, IsFrom, run_refines}
use nexuspouch.Store.Write.Begin.{Declared, read_declared, write_begin}
use nexuspouch.Store.Write.Begin.Outcome.{Begun, write_begin-Begun}
use nexuspouch.Peer.Transport.{take_push}
use nexuspouch.Peer.Transport.Trust.{take_push-pointer}
use nexuspouch.Tests.World.{phone, place, crates}

abbrev at : Moment
at = record { now = 1700000000000; nanos = 1; instant = 5; date = "2024-01-02"; random = "r" }

-- The phone has one file.
abbrev tree : Node
tree = dir (
    entry "data"
      (dir (
        entry phone
          (dir
            (entry "files" (dir (entry "a" (dir (entry "b" (file (1 ∷ 2 ∷ []) 5) nil)) nil)) nil))
          nil))
      nil)

abbrev st : Local
st = record {
  disk = record { fs = tree; uploads = []; cursors = absent };
  pointer = absent;
  imports = record { requests = absent; grants = absent; received = absent };
  seeds = [];
}

abbrev delete_frame : Frame
delete_frame = from_parts "delete" (
    field "space" (string "files")
      (field "path" (string "a/b") (field "upto_seq" (int (pos 7)) end)))

handle-Handled_example :
    Handled crates place delete_frame phone "owner" false at st
      (handle crates place delete_frame phone "owner" false at st)
handle-Handled_example = handle-Handled crates place delete_frame phone "owner" false at st

abbrev messages : List Message
messages =
    record { frame = delete_frame; caller = phone; trust = "owner"; loopback = false; at = at } ∷ []

run_refines_example :
    (rs : List Raise) × (view (run crates place messages st) ≡ raise_all rs (view st))
    × All (IsFrom crates place messages) rs
run_refines_example = run_refines crates place messages st

abbrev begin_frame : Frame
begin_frame = from_parts "write.begin" (
    field "space" (string "files") (
      field "path" (string "a/b") (
        field "size" (int (pos 3)) (
          field "sha256" (string "00112233445566778899aabbccddeeff00112233445566778899aabbccddeeff")
            (field "upload_id" (string "u1") end)))))

write_begin-Begun_example :
    ((e : OpError) × (read_declared crates place begin_frame.payload 1 ≡ err e)
      × (write_begin crates place begin_frame phone 9 1 st.disk ≡ (err e, st.disk)))
    ⊎ ((d : Declared) × (read_declared crates place begin_frame.payload 1 ≡ ok d)
        × Begun crates place phone
            (space_of begin_frame)
            d
            9
            st.disk
            (write_begin crates place begin_frame phone 9 1 st.disk))
write_begin-Begun_example = write_begin-Begun crates place begin_frame phone 9 1 st.disk

abbrev pushed : Fields
pushed = field "master" (string phone) (field "epoch" (int (pos 7)) end)

take_push-pointer_example :
    take_push crates place absent phone at "master.pointer" pushed st
    ≡ with_pointer
        ((Master.pointer_apply place.device_id (from_parts "master.pointer" pushed) st.pointer).1)
        st
take_push-pointer_example = take_push-pointer crates place absent phone at pushed st
