-- ===== src/Store/Master/Laws.antt =====
-- What a pushed pointer and a migration do to the node's pointer.
use nexuspouch.Base.{
  String, ℤ, pos, negsuc, ◌+ℤ◌, wrap_i64, ltb_ℤ, eqb_ℤ, i64_max, in_i64, ◌≤ℤ◌, ◌<ℤ◌, true, false,
  ◌&&◌, if◌then◌else◌, ◌≡◌, ◌↔◌, refl, arith, eq_iff, eq_refl,
}
use nexuspouch.Result.{ok}
use nexuspouch.Store.Stored.{holds}
use nexuspouch.Store.Cursors.{CursorFile}
use nexuspouch.Store.Master.{
  MasterPointer, PointerFile, load_pointer, require_master, is_acceptable, apply_pointer,
  next_epoch, migrate,
}

-- The pointer that a node goes by after it has been told of another.
abbrev pub newer : MasterPointer → MasterPointer → MasterPointer
newer cur p = if is_acceptable p && ltb_ℤ cur.epoch p.epoch then p else cur

ltb_ℤ-trichotomy : (a b : ℤ) → ltb_ℤ a b ≡ false → eqb_ℤ a b ≡ false → ltb_ℤ b a ≡ true
ltb_ℤ-trichotomy a b h k = ground arith

load_pointer-holds :
    (device : String) (p : MasterPointer)
    → is_acceptable p ≡ true
    → load_pointer device (holds p) ≡ ok p
unfolding load_pointer
load_pointer-holds device p h = ground arith

module _ (device : String) (p : MasterPointer) (file : PointerFile) (cur : MasterPointer)
    (readable : load_pointer device file ≡ ok cur) where
  -- Where the pointer file can be read, a pushed pointer replaces the node's own exactly when it names a valid device and its epoch is
  -- positive and greater than the node's; otherwise the node goes by the pointer that it had.
  pub load_pointer-apply_pointer :
      load_pointer device (apply_pointer device p file).1 ≡ ok (newer cur p)
  unfolding apply_pointer
  load_pointer-apply_pointer = ground (arith, load_pointer-holds device p)

  -- The epoch that a node goes by never falls.
  pub newer-epoch-le : cur.epoch ≤ℤ (newer cur p).epoch
  newer-epoch-le = ground arith

-- Where the pointer file can be read and the pushed pointer is acceptable and newer, the node's
-- write path is open afterwards exactly when the pointer names the node itself.
pub require_master-apply_pointer :
    (device : String) (p : MasterPointer) (file : PointerFile) (cur : MasterPointer)
    → load_pointer device file ≡ ok cur
    → is_acceptable p ≡ true
    → cur.epoch <ℤ p.epoch
    → (require_master device (apply_pointer device p file).1 ≡ ok tt) ↔ (p.master ≡ device)
unfolding require_master
require_master-apply_pointer device p file cur readable h k =
    rw (load_pointer-apply_pointer device p file cur readable)
      (ground (arith, eq_iff p.master device))

next_epoch_grows :
    (e : ℤ) → in_i64 e ≡ true → e <ℤ i64_max → (e <ℤ next_epoch e) × (pos 1 ≤ℤ next_epoch e)
unfolding wrap_i64 ◌+ℤ◌
next_epoch_grows (pos n) f h = ground arith
next_epoch_grows (negsuc n) f h = ground arith

next_epoch-max : (e : ℤ) → e ≡ i64_max → next_epoch e ≡ pos 1
unfolding wrap_i64 ◌+ℤ◌
next_epoch-max e h = rw h

load_pointer-holds_own :
    (device : String) (e : ℤ)
    → load_pointer device (holds (record { master = device; epoch = e }))
      ≡ ok (record { master = device; epoch = e })
unfolding load_pointer
load_pointer-holds_own device e = ground arith

abbrev migrated : String → MasterPointer → MasterPointer
migrated device cur = record { master = device; epoch = next_epoch cur.epoch }

-- A pointer of epoch 1 that reaches a node at the greatest epoch leaves its file alone.
apply_pointer-kept :
    (device : String) (cur q : MasterPointer) (file : PointerFile)
    → load_pointer device file ≡ ok cur
    → cur.epoch ≡ i64_max
    → q.epoch ≡ pos 1
    → (apply_pointer device q file).1 ≡ file
unfolding apply_pointer
apply_pointer-kept device cur q file readable h k = ground arith

module _ (device : String) (cursors : CursorFile) (file : PointerFile) (cur : MasterPointer)
    (readable : load_pointer device file ≡ ok cur) where
  load_pointer-migrate :
      load_pointer device (migrate device cursors file).1 ≡ ok (migrated device cur)
  unfolding migrate
  load_pointer-migrate =
      rw (readable, migrate) (load_pointer-holds_own device (next_epoch cur.epoch))

  -- Where the pointer file can be read, a migration makes the node the master, with a greater epoch
  -- than that of the pointer it went by, and opens its write path, unless that epoch is the greatest of
  -- its type.
  pub migrate_takes_over :
      in_i64 cur.epoch ≡ true
      → cur.epoch <ℤ i64_max
      → (q : MasterPointer) × (load_pointer device (migrate device cursors file).1 ≡ ok q)
        × (q.master ≡ device)
        × (cur.epoch <ℤ q.epoch)
        × (require_master device (migrate device cursors file).1 ≡ ok tt)
  unfolding require_master
  migrate_takes_over f h = (
    migrated device cur,
    load_pointer-migrate,
    refl,
    (next_epoch_grows cur.epoch f h).0,
    rw load_pointer-migrate (ground (arith, eq_refl device)),
  )

  -- At the greatest epoch a migration falls back to epoch 1, and any node that goes by the old
  -- pointer keeps its pointer file as it is when it is told of the new one.
  pub migrate_overflow :
      (other : String) (other_file : PointerFile)
      → load_pointer other other_file ≡ ok cur
      → cur.epoch ≡ i64_max
      → (q : MasterPointer) × (load_pointer device (migrate device cursors file).1 ≡ ok q)
        × (q.epoch ≡ pos 1)
        × ((apply_pointer other q other_file).1 ≡ other_file)
  migrate_overflow other other_file goes_by h = (
    migrated device cur,
    load_pointer-migrate,
    next_epoch-max cur.epoch h,
    apply_pointer-kept other cur (migrated device cur) other_file goes_by h
        (next_epoch-max cur.epoch h),
  )
