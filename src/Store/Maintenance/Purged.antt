-- ===== src/Store/Maintenance/Purged.antt =====
-- What `purge_device` removes.
use nexuspouch.Base.{String, ℤ, false, Option, none, some, ◌==◌, ◌≡◌, ◌≢◌, ◌⊎◌, if◌then◌else◌}
use nexuspouch.Result.{Result, ok, err, OpError}
use nexuspouch.Protocol.{is_valid_device_id}
use nexuspouch.Files.{Node, dir, file, symlink, FilePath, find, alter, remove_dir_all}
use nexuspouch.Files.Laws.{Apart}
use nexuspouch.Base.Dict
use nexuspouch.Base.Dict.{Dict}
use nexuspouch.Store.Cursors
use nexuspouch.Store.Cursors.{CursorFile, load_locked}
use nexuspouch.Store.Externals.{Externals}
use nexuspouch.Store.Local.{Local}
use nexuspouch.Store.Paths.{Place}
use nexuspouch.Store.Browse.Size.{dir_size}
use nexuspouch.Store.Maintenance.{device_path}

pub remove_dir_all-alter :
    (path : FilePath) (fs fs' : Node)
    → remove_dir_all path fs ≡ some fs'
    → alter path none fs ≡ some fs'
unfolding remove_dir_all
remove_dir_all-alter path fs fs' h = removed (find path fs) h
  where
    removed :
        (o : Option Node)
        → (elim o [ some (dir es) ↦ alter path none fs | _ ↦ none ]) ≡ some fs'
        → alter path none fs ≡ some fs'
    removed (some (dir es)) e = e
    removed (some (file b m)) e = cc
    removed (some symlink) e = cc
    removed none e = cc

-- The device's cursor is gone and all others are as before; or the file cannot be read, and is kept.
abbrev pub CursorGone : String → CursorFile → CursorFile → Type 0
CursorGone device before after =
    ((m : Dict ℤ) × (m' : Dict ℤ) × (load_locked before ≡ ok m)
      × (load_locked after ≡ ok m')
      × ((j : String) → Dict.lookup j m' ≡ (if device == j then none else Dict.lookup j m)))
    ⊎ ((e : OpError) × (load_locked before ≡ err e) × (after ≡ before))

-- Why a purge may be refused.
pub data MayRefuse (place : Place) (device own : String) (fs : Node) : Type 0 where
  bad_id : is_valid_device_id device ≡ false → MayRefuse place device own fs
  is_own : device ≡ own → MayRefuse place device own fs
  no_dir : remove_dir_all (device_path place device) fs ≡ none → MayRefuse place device own fs

module _ (ext : Externals) (place : Place) (device own : String) (st : Local) where
  -- A purge as it has been carried out.
  pub record IsPurged (freed : ℤ) (st' : Local) : Type 0 where
    pub fs' : Node
    pub is_other : device ≢ own
    pub counted : freed ≡ dir_size ext (device_path place device) false st.disk.fs
    pub gone : find (device_path place device) st'.disk.fs ≡ none
    pub rest :
        (q : FilePath) → Apart (device_path place device) q → find q st'.disk.fs ≡ find q st.disk.fs
    pub cursor : CursorGone device st.disk.cursors st'.disk.cursors
    pub kept :
        (st'.disk.uploads ≡ st.disk.uploads)
        × (st'.pointer ≡ st.pointer)
        × (st'.imports ≡ st.imports)
        × (st'.seeds ≡ st.seeds)

  abbrev Answers : Result OpError ℤ × Local → Type 0
  Answers a =
      ((e : OpError) × (a ≡ (err e, st)) × MayRefuse place device own st.disk.fs)
      ⊎ ((freed : ℤ) × (st' : Local) × (a ≡ (ok freed, st')) × IsPurged freed st')
