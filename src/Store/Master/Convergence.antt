-- ===== src/Store/Master/Convergence.antt =====
-- Nodes that are told of the same pointers come to go by the same one.
use mathlib.Core.Path.{subst}
use nexuspouch.Base.{
  String, ℤ, ◌≤ℤ◌, true, List, [], ◌∷◌, All, Any, ◌⊎◌, inl, inr, ◌≡◌, refl, ap, sym, ◌∙◌, arith,
}
use nexuspouch.Result.{ok}
use nexuspouch.Store.Master.{MasterPointer, PointerFile, load_pointer, is_acceptable, apply_pointer}
use nexuspouch.Store.Master.Laws.{newer, load_pointer-apply_pointer}

-- `apply_pointer` for each pushed pointer in turn
abbrev pub apply_all : String → List MasterPointer → PointerFile → PointerFile
apply_all device [] file = file
apply_all device (p ∷ ps) file = apply_all device ps (apply_pointer device p file).1

abbrev pub newest : MasterPointer → List MasterPointer → MasterPointer
newest cur [] = cur
newest cur (p ∷ ps) = newest (newer cur p) ps

-- A node whose pointer file can be read, and that has been told of some pointers, goes by the newest
-- of these and its own that is acceptable.
pub load_pointer-apply_all :
    (device : String) (ps : List MasterPointer) (file : PointerFile) (cur : MasterPointer)
    → load_pointer device file ≡ ok cur
    → load_pointer device (apply_all device ps file) ≡ ok (newest cur ps)
load_pointer-apply_all device [] file cur readable = readable
load_pointer-apply_all device (p ∷ ps) file cur readable =
    load_pointer-apply_all device ps (apply_pointer device p file).1 (newer cur p)
      (load_pointer-apply_pointer device p file cur readable)

abbrev pub In : MasterPointer → List MasterPointer → Type 0
In q = Any (λ p. q ≡ p)

-- `q` was the node's own or is one of the acceptable pointers, and none of those is newer.
pub record IsNewest (cur : MasterPointer) (ps : List MasterPointer) (q : MasterPointer)
    : Type 0 where
  pub known : (q ≡ cur) ⊎ (In q ps × (is_acceptable q ≡ true))
  pub own_le : cur.epoch ≤ℤ q.epoch
  pub all_le : All (λ p. is_acceptable p ≡ true → p.epoch ≤ℤ q.epoch) ps

newer-known :
    (cur p : MasterPointer) → (newer cur p ≡ cur) ⊎ ((newer cur p ≡ p) × (is_acceptable p ≡ true))
newer-known cur p = ground arith

newer-le : (cur p : MasterPointer) → is_acceptable p ≡ true → p.epoch ≤ℤ (newer cur p).epoch
newer-le cur p h = ground arith

newer-own_le : (cur p : MasterPointer) → cur.epoch ≤ℤ (newer cur p).epoch
newer-own_le cur p = ground arith

pub newest-IsNewest :
    (cur : MasterPointer) (ps : List MasterPointer) → IsNewest cur ps (newest cur ps)
newest-IsNewest cur [] = record { known = inl refl; own_le = ground arith; all_le = tt }
newest-IsNewest cur (p ∷ ps) =
    let n = newest-IsNewest (newer cur p) ps in
    record {
      known = ground (arith, n.known, newer-known cur p);
      own_le = omega (arith, n.own_le, newer-own_le cur p);
      all_le = (λ h. omega (arith, n.own_le, newer-le cur p h), n.all_le);
    }

at_In :
    (P : MasterPointer → Type 0) (q : MasterPointer) (ps : List MasterPointer)
    → All P ps
    → In q ps
    → P q
at_In P q [] h m = absurd m
at_In P q (p ∷ ps) h (inl e) = subst P (sym e) h.0
at_In P q (p ∷ ps) h (inr m) = at_In P q ps h.1 m

-- Two pointers of one epoch are the same pointer.
abbrev pub HasNoConflict : MasterPointer → List MasterPointer → Type 0
HasNoConflict cur ps =
    (a b : MasterPointer) → (a ≡ cur) ⊎ In a ps → (b ≡ cur) ⊎ In b ps → a.epoch ≡ b.epoch → a ≡ b

newest-epoch-le :
    (cur x : MasterPointer) (ps qs : List MasterPointer)
    → ((p : MasterPointer) → In p ps → In p qs)
    → IsNewest cur ps x
    → x.epoch ≤ℤ (newest cur qs).epoch
newest-epoch-le cur x ps qs sub n =
    let m = newest-IsNewest cur qs in
    elim n.known [
      | inl e ↦ rw (ap (λ (p : MasterPointer). p.epoch) e) m.own_le
      | inr (i, a) ↦ at_In _ x qs m.all_le (sub x i) a
    ]

known-In :
    (cur x : MasterPointer) (ps : List MasterPointer) → IsNewest cur ps x → (x ≡ cur) ⊎ In x ps
known-In cur x ps n = elim n.known [ inl e ↦ inl e | inr (i, _) ↦ inr i ]

same_epoch : (a b : ℤ) → a ≤ℤ b → b ≤ℤ a → a ≡ b
same_epoch a b h k = ground arith

-- Nodes that start from one pointer and are told of the same pointers, in any order and any number
-- of times, come to go by the same pointer, if no two of these pointers have one epoch.
pub newest_converges :
    (cur : MasterPointer) (ps qs : List MasterPointer)
    → ((p : MasterPointer) → In p ps → In p qs)
    → ((p : MasterPointer) → In p qs → In p ps)
    → HasNoConflict cur ps
    → newest cur ps ≡ newest cur qs
newest_converges cur ps qs sub sup agree =
    let n = newest-IsNewest cur ps in
    let m = newest-IsNewest cur qs in
    agree (newest cur ps) (newest cur qs) (known-In cur (newest cur ps) ps n)
      (from_other (known-In cur (newest cur qs) qs m))
      (same_epoch (newest cur ps).epoch (newest cur qs).epoch
        (newest-epoch-le cur (newest cur ps) ps qs sub n)
        (newest-epoch-le cur (newest cur qs) qs ps sup m))
  where
    from_other :
        (newest cur qs ≡ cur) ⊎ In (newest cur qs) qs
        → (newest cur qs ≡ cur) ⊎ In (newest cur qs) ps
    from_other (inl e) = inl e
    from_other (inr i) = inr (sup (newest cur qs) i)

-- Two nodes that go by one pointer and are told of the same pointers, in any order and any number of
-- times, come to go by the same pointer, if no two of these pointers have one epoch.
pub load_pointer_converges :
    (device other : String) (ps qs : List MasterPointer) (file file' : PointerFile)
    (cur : MasterPointer)
    → load_pointer device file ≡ ok cur
    → load_pointer other file' ≡ ok cur
    → ((p : MasterPointer) → In p ps → In p qs)
    → ((p : MasterPointer) → In p qs → In p ps)
    → HasNoConflict cur ps
    → load_pointer device (apply_all device ps file) ≡ load_pointer other (apply_all other qs file')
load_pointer_converges device other ps qs file file' cur h h' sub sup agree =
    load_pointer-apply_all device ps file cur h
    ∙ ap ok (newest_converges cur ps qs sub sup agree)
    ∙ sym (load_pointer-apply_all other qs file' cur h')
