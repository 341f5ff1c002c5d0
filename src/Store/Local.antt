-- ===== src/Store/Local.antt =====
-- `Local` of src/store/mod.rs: everything that the store of a node keeps.
use nexuspouch.Base.{String, ℕ, ℤ, pos}
use nexuspouch.Files.{Node}
use nexuspouch.Store.Cursors.{CursorFile}
use nexuspouch.Store.ImportAuth.{ImportFiles}
use nexuspouch.Store.Master.{PointerFile}
use nexuspouch.Store.Seeds.{Seeds}
use nexuspouch.Store.Write.{Uploads}

-- The files of the directory `.system` stand beside the tree: `cursors` in the first field, the
-- pointer and the import files.
pub record Local : Type 0 where
  pub disk : Uploads
  pub pointer : PointerFile
  pub imports : ImportFiles
  pub seeds : Seeds

abbrev pub with_disk : Uploads → Local → Local
with_disk d st = record { disk = d; pointer = st.pointer; imports = st.imports; seeds = st.seeds }

abbrev pub with_tree : Node → Local → Local
with_tree fs st = with_disk (record st.disk { fs = fs }) st

abbrev pub with_file_cursors : CursorFile → Local → Local
with_file_cursors c st = with_disk (record st.disk { cursors = c }) st

abbrev pub with_pointer : PointerFile → Local → Local
with_pointer p st = record { disk = st.disk; pointer = p; imports = st.imports; seeds = st.seeds }

abbrev pub with_imports : ImportFiles → Local → Local
with_imports i st = record { disk = st.disk; pointer = st.pointer; imports = i; seeds = st.seeds }

abbrev pub with_seeds : Seeds → Local → Local
with_seeds s st = record { disk = st.disk; pointer = st.pointer; imports = st.imports; seeds = s }

-- What a call reads off the clocks and the random source: milliseconds and nanoseconds of the wall
-- clock, seconds of the monotonic clock, the local date and a fresh random id.
pub record Moment : Type 0 where
  pub now : ℕ
  pub nanos : ℕ
  pub instant : ℕ
  pub date : String
  pub random : String

abbrev pub now_ms : Moment → ℤ
now_ms m = pos m.now
