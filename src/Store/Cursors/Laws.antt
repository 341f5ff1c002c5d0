-- ===== src/Store/Cursors/Laws.antt =====
-- A cursor only moves forward, and only by the device's own updates.
use nexuspouch.Base.{
  ap, ◌∙◌, ◌⊎◌, String, ℤ, pos, max_ℤ, in_i64, List, [], ◌∷◌, Option, none, some, true,
  if◌then◌else◌, ◌≡◌, refl, arith, eq_iff, ◌==◌, All, Option-cases, inl, inr,
}
use nexuspouch.Base.Dict
use nexuspouch.Base.Dict.{Dict}
use nexuspouch.Base.Json.{Fields, end, field, any_to_i64, any_to_i64-fits, unwrap_or}
use nexuspouch.Result.{Result, ok, err, OpError}
use nexuspouch.Store.Stored.{absent, broken, holds}
use nexuspouch.Store.Cursors.{
  CursorFile, cons_some, decode, load_locked, encode, applied_seq, advance, remove,
}

abbrev AllFit : Dict ℤ → Type 0
AllFit = All (λ e. in_i64 e.1 ≡ true)

cons_some-AllFit :
    (k : String) (o : Option ℤ) (m : Dict ℤ)
    → ((z : ℤ) → o ≡ some z → in_i64 z ≡ true)
    → AllFit m
    → AllFit (cons_some k o m)
cons_some-AllFit k none m f h = h
cons_some-AllFit k (some z) m f h = (f z refl, h)

decode-AllFit : (m : Fields) → AllFit (decode m)
unfolding decode
decode-AllFit end = tt
decode-AllFit (field k v m) =
    cons_some-AllFit k (any_to_i64 v) (decode m) (any_to_i64-fits v) (decode-AllFit m)

decode-encode : (m : Dict ℤ) → AllFit m → decode (encode m) ≡ m
unfolding decode encode any_to_i64
decode-encode [] h = refl
decode-encode ((k, n) ∷ m) (f, h) = ground (arith, decode-encode m h)

insert-AllFit :
    (k : String) (n : ℤ) (m : Dict ℤ) → in_i64 n ≡ true → AllFit m → AllFit (Dict.insert k n m)
unfolding Dict.insert
insert-AllFit k n [] f h = (f, tt)
insert-AllFit k n ((j, w) ∷ m) f h = ground (arith, insert-AllFit k n m f h.1)

ok_inj-AllFit :
    (m n : Dict ℤ) → ◌≡◌ {A = Result OpError (Dict ℤ)} (ok m) (ok n) → AllFit m → AllFit n
ok_inj-AllFit m n h f = let e : m ≡ n = cc in rw e at f

load_locked-AllFit : (file : CursorFile) (m : Dict ℤ) → load_locked file ≡ ok m → AllFit m
unfolding load_locked
load_locked-AllFit absent m h = ok_inj-AllFit [] m h tt
load_locked-AllFit broken m h = cc
load_locked-AllFit (holds x) m h = ok_inj-AllFit (decode x) m h (decode-AllFit x)

lookup-AllFit :
    (k : String) (m : Dict ℤ) → AllFit m → in_i64 (unwrap_or (pos 0) (Dict.lookup k m)) ≡ true
unfolding Dict.lookup
lookup-AllFit k [] h = refl
lookup-AllFit k ((j, w) ∷ m) h = ground (arith, lookup-AllFit k m h.1)

load_locked-encode : (m : Dict ℤ) → AllFit m → load_locked (holds (encode m)) ≡ ok m
unfolding load_locked
load_locked-encode m h = ap ok (decode-encode m h)

max_ℤ-fits_both : (a b : ℤ) → in_i64 a ≡ true → in_i64 b ≡ true → in_i64 (max_ℤ a b) ≡ true
max_ℤ-fits_both a b p q = ground arith

-- The cursor that a map records for a device.
abbrev pub cursor_of : String → Dict ℤ → ℤ
cursor_of device m = unwrap_or (pos 0) (Dict.lookup device m)

module _ (device : String) (upto : ℤ) (fits : in_i64 upto ≡ true) (file : CursorFile) (m : Dict ℤ)
    (readable : load_locked file ≡ ok m) where
  abbrev pub advanced : Dict ℤ
  advanced = Dict.insert device (max_ℤ (cursor_of device m) upto) m

  max_ℤ-fits : in_i64 (max_ℤ (cursor_of device m) upto) ≡ true
  max_ℤ-fits =
      max_ℤ-fits_both (cursor_of device m) upto
        (lookup-AllFit device m (load_locked-AllFit file m readable)) fits

  advanced-AllFit : AllFit advanced
  advanced-AllFit = insert-AllFit device _ m max_ℤ-fits (load_locked-AllFit file m readable)

  advance_lem :
      advance device upto file ≡ (ok (max_ℤ (cursor_of device m) upto), holds (encode advanced))
  unfolding advance
  advance_lem = rw (readable, advance)

  -- the file that `advance` writes is read back as the map that it wrote
  pub load_locked-advance : load_locked (advance device upto file).1 ≡ ok advanced
  load_locked-advance = rw advance_lem (load_locked-encode advanced advanced-AllFit)

  -- An update of a readable file by a number in the range of i64 moves the device's cursor to the
  -- greater of its old value and the number, reports that, and leaves the cursors of all other devices alone.
  pub applied_seq-advance :
      (j : String)
      → ((advance device upto file).0 ≡ ok (max_ℤ (cursor_of device m) upto))
        × (applied_seq j (advance device upto file).1
            ≡ (if device == j then ok (max_ℤ (cursor_of device m) upto) else applied_seq j file))
  unfolding applied_seq
  applied_seq-advance j =
      (rw advance_lem, rw (load_locked-advance, readable, Dict.lookup-insert) (ground arith))

remove-AllFit : (k : String) (m : Dict ℤ) → AllFit m → AllFit (Dict.remove k m)
unfolding Dict.remove
remove-AllFit k [] h = tt
remove-AllFit k ((j, w) ∷ m) h = ground (arith, remove-AllFit k m h.1)

-- A removed cursor is in the file no more, and every other one is as before.
pub load_locked-remove :
    (device : String) (file : CursorFile) (m : Dict ℤ)
    → load_locked file ≡ ok m
    → (after : Dict ℤ) × (load_locked (remove device file).1 ≡ ok after)
      × ((j : String) → Dict.lookup j after ≡ (if device == j then none else Dict.lookup j m))
unfolding remove
load_locked-remove device file m h = elim (Option-cases (Dict.lookup device m)) [
  | inl e ↦ (m, rw (remove, h, e) h, λ j. ground (arith, eq_iff device j))
  | inr (n, e) ↦ (
    Dict.remove device m,
    rw (remove, h, e)
        (load_locked-encode (Dict.remove device m)
          (remove-AllFit device m (load_locked-AllFit file m h))),
    λ j. Dict.lookup-remove device j m,
  )
]

-- A file that cannot be read is left alone.
pub remove_unread :
    (device : String) (file : CursorFile) (e : OpError)
    → load_locked file ≡ err e
    → (remove device file).1 ≡ file
unfolding remove
remove_unread device file e h = rw (remove, h) refl

-- `advance` for each update in turn
abbrev pub advance_all : List (String × ℤ) → CursorFile → CursorFile
advance_all [] file = file
advance_all ((device, upto) ∷ updates) file = advance_all updates (advance device upto file).1

-- The greatest of a number and the updates of one device.
abbrev pub highest : String → ℤ → List (String × ℤ) → ℤ
highest j n [] = n
highest j n ((device, upto) ∷ updates) = highest j (if device == j then max_ℤ n upto else n) updates

cursor_of-advanced :
    (device j : String) (n : ℤ) (m : Dict ℤ)
    → cursor_of j (Dict.insert device (max_ℤ (cursor_of device m) n) m)
      ≡ (if device == j then max_ℤ (cursor_of j m) n else cursor_of j m)
cursor_of-advanced device j n m = rw Dict.lookup-insert (ground (arith, eq_iff device j))

-- After any updates of a readable file by numbers in the range of i64 the cursor of a device is the greatest of its old value and
-- the numbers that were given for it, in whatever order they came.
pub applied_seq-advance_all :
    (updates : List (String × ℤ)) (file : CursorFile) (m : Dict ℤ) (j : String)
    → All (λ u. in_i64 u.1 ≡ true) updates
    → load_locked file ≡ ok m
    → applied_seq j (advance_all updates file) ≡ ok (highest j (cursor_of j m) updates)
applied_seq-advance_all [] file m j fits readable = unfold applied_seq in rw readable
applied_seq-advance_all ((device, upto) ∷ updates) file m j fits readable =
    applied_seq-advance_all updates (advance device upto file).1 _ j fits.1
      (load_locked-advance device upto fits.0 file m readable)
    ∙ ap (λ n. ok (highest j n updates)) (cursor_of-advanced device j upto m)

-- The cursors afterwards are those before, or those of an advance of the caller's own.
abbrev pub MayAdvance : String → CursorFile → CursorFile → Type 0
MayAdvance caller before after =
    (after ≡ before)
    ⊎ ((upto : ℤ) × (in_i64 upto ≡ true) × (after ≡ (advance caller upto before).1))
