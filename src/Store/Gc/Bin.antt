-- ===== src/Store/Gc/Bin.antt =====
-- What the collection takes out of the recycle bin.
use nexuspouch.Base.{
  String, ℤ, pos, ltb_ℤ, ◌+ℤ◌, wrap_i64, [], ◌∷◌, ◌++◌, true, false, ◌&&◌, Option, none, some,
  Option-cases, Bool-cases, ◌==◌, eq_iff, ◌≡◌, ◌≢◌, inl, inr, refl, sym, ◌∙◌, arith, Bool,
  false≢true,
}
use nexuspouch.Base.Json.{unwrap_or}
use nexuspouch.Files
use nexuspouch.Files.{
  Node, dir, file, symlink, Entries, entry, FilePath, find, alter, is_dir, get_entry,
  remove_dir_all,
}
use nexuspouch.Files.Alter.{alter_of_find}
use nexuspouch.Files.Parents.{entry-find}
use nexuspouch.Files.Laws.{Apart, find-alter_self, find-alter-Apart}
use nexuspouch.Store.Externals.{Externals}
use nexuspouch.Store.Paths.{Place}
use nexuspouch.Store.Paths.Siblings.{Apart-under}
use nexuspouch.Store.Browse.Size.{dir_size}
use nexuspouch.Store.Browse.Prune.{bin_path}
use nexuspouch.Store.Maintenance.Purged.{remove_dir_all-alter}
use nexuspouch.Store.Gc.{is_past, sweep_bin, gc_recycle}

append_some : (b : FilePath) (name : String) → b ++ name ∷ [] ≢ []
append_some [] name e = cc
append_some (x ∷ b) name e = cc

abbrev quietly_gone : FilePath → Node → Node
quietly_gone path fs = unwrap_or fs (remove_dir_all path fs)

gone-Apart :
    (path q : FilePath) (fs : Node) → Apart path q → find q (quietly_gone path fs) ≡ find q fs
gone-Apart path q fs apart = elim (Option-cases (remove_dir_all path fs)) [
  | inl e ↦ rw e refl
  | inr (fs', e) ↦
      rw e (find-alter-Apart path q none fs fs' (remove_dir_all-alter path fs fs' e) apart)
]

find-found_of :
    (path : FilePath) (es : Entries) (fs : Node)
    → path ≢ []
    → find path fs ≡ some (dir es)
    → (fs' : Node) × (remove_dir_all path fs ≡ some fs')
unfolding remove_dir_all
find-found_of [] es fs ne h = absurd (ne refl)
find-found_of (x ∷ p) es fs ne h =
    let (fs', a) = alter_of_find x p none fs (dir es) h in (fs', rw (remove_dir_all, h) a)

gone_self :
    (path : FilePath) (es : Entries) (fs : Node)
    → path ≢ []
    → find path fs ≡ some (dir es)
    → find path (quietly_gone path fs) ≡ none
gone_self path es fs ne h =
    let (fs', e) = find-found_of path es fs ne h in
    rw e (find-alter_self path none fs fs' (remove_dir_all-alter path fs fs' e))

gone_still :
    (path : FilePath) (fs : Node) → find path fs ≡ none → find path (quietly_gone path fs) ≡ none
unfolding remove_dir_all
gone_still path fs h = rw (remove_dir_all, h) h

module _ (ext : Externals) (place : Place) (cutoff : ℤ) where
  -- A name that is a date before the cutoff.
  abbrev pub IsOver : String → Type 0
  IsOver name = (d : ℤ) × (ext.parse_date name ≡ some d) × (ltb_ℤ d cutoff ≡ true)

  past-over :
      (o : Option ℤ)
      → is_past ext place cutoff o ≡ true
      → (d : ℤ) × (o ≡ some d) × (ltb_ℤ d cutoff ≡ true)
  past-over none h = absurd (false≢true h)
  past-over (some d) h = (d, refl, h)

  over-past : (name : String) → IsOver name → is_past ext place cutoff (ext.parse_date name) ≡ true
  over-past name (d, e, h) = rw e h

  abbrev pub day : String → FilePath
  day name = bin_path place ++ name ∷ []

  abbrev sweep : Entries → ℤ → Node → ℤ × Node
  sweep es purged fs = sweep_bin ext place cutoff es purged fs

  sweep-swept :
      (name : String) (node : Node) (es : Entries) (purged : ℤ) (fs : Node)
      → (is_dir node && is_past ext place cutoff (ext.parse_date name)) ≡ true
      → sweep (entry name node es) purged fs
        ≡ sweep es
            (wrap_i64 (purged +ℤ dir_size ext (day name) false fs))
            (quietly_gone (day name) fs)
  unfolding sweep_bin
  sweep-swept name node es purged fs e = rw (sweep_bin, e) refl

  sweep-past :
      (name : String) (node : Node) (es : Entries) (purged : ℤ) (fs : Node)
      → (is_dir node && is_past ext place cutoff (ext.parse_date name)) ≡ false
      → sweep (entry name node es) purged fs ≡ sweep es purged fs
  unfolding sweep_bin
  sweep-past name node es purged fs e = rw (sweep_bin, e) refl

  sweep-nil : (purged : ℤ) (fs : Node) → sweep Files.nil purged fs ≡ (purged, fs)
  unfolding sweep_bin
  sweep-nil purged fs = refl

  over_of : (a b : Bool) → (a && b) ≡ true → b ≡ true
  over_of a b h = ground arith

  sweep-keeps :
      (q : FilePath)
      → ((name : String) → IsOver name → Apart (day name) q)
      → (es : Entries) (purged : ℤ) (fs : Node) → find q ((sweep es purged fs).1) ≡ find q fs
  sweep-keeps q apart Files.nil purged fs = rw (sweep-nil purged fs) refl
  sweep-keeps q apart (entry name node es) purged fs =
      elim (Bool-cases (is_dir node && is_past ext place cutoff (ext.parse_date name))) [
        | inr e ↦ rw (sweep-past name node es purged fs e) (sweep-keeps q apart es purged fs)
        | inl e ↦
            let over : IsOver name = past-over (ext.parse_date name) (over_of (is_dir node) _ e) in
            rw (sweep-swept name node es purged fs e) (
              sweep-keeps q apart es _ (quietly_gone (day name) fs)
              ∙ gone-Apart (day name) q fs (apart name over))
      ]

  -- Two days are apart, or the same.
  day-Apart : (n name : String) → (n == name) ≡ false → Apart (day n) (day name)
  day-Apart n name ne =
      Apart-under (bin_path place) (n ∷ []) (name ∷ [])
        (inl (λ same. false≢true (sym ne ∙ (eq_iff n name).1 same)))

  sweep-still_gone :
      (name : String) (es : Entries) (purged : ℤ) (fs : Node)
      → find (day name) fs ≡ none
      → find (day name) ((sweep es purged fs).1) ≡ none
  sweep-still_gone name Files.nil purged fs h = rw (sweep-nil purged fs) h
  sweep-still_gone name (entry n node es) purged fs h =
      elim (Bool-cases (is_dir node && is_past ext place cutoff (ext.parse_date n))) [
        | inr e ↦ rw (sweep-past n node es purged fs e) (sweep-still_gone name es purged fs h)
        | inl e ↦ rw (sweep-swept n node es purged fs e) (
            sweep-still_gone name es _ (quietly_gone (day n) fs) (elim (Bool-cases (n == name)) [
              | inl s ↦
                  let same : n ≡ name = (eq_iff n name).0 s in rw same (gone_still (day name) fs h)
              | inr ne ↦ gone-Apart (day n) (day name) fs (day-Apart n name ne) ∙ h
            ]))
      ]

  sweep-takes :
      (name : String) (inside : Entries)
      → IsOver name
      → (es : Entries) (purged : ℤ) (fs : Node) → get_entry name es ≡ some (dir inside)
      → find (day name) fs ≡ some (dir inside)
      → find (day name) ((sweep es purged fs).1) ≡ none
  unfolding get_entry
  sweep-takes name inside over Files.nil purged fs h found = absurd (ground arith)
  sweep-takes name inside over (entry n node es) purged fs h found = elim (Bool-cases (n == name)) [
    | inl s ↦
        let same : n ≡ name = (eq_iff n name).0 s in
        let is_it : node ≡ dir inside = ground arith in
        let due : (is_dir node && is_past ext place cutoff (ext.parse_date n)) ≡ true =
          rw (same, is_it) (over-past name over) in
        rw (sweep-swept n node es purged fs due) (
          sweep-still_gone name es _ (quietly_gone (day n) fs)
            (rw same (gone_self (day name) inside fs (append_some (bin_path place) name) found)))
    | inr ne ↦
        let rest : get_entry name es ≡ some (dir inside) = ground arith in
        elim (Bool-cases (is_dir node && is_past ext place cutoff (ext.parse_date n))) [
          | inr e ↦
              rw (sweep-past n node es purged fs e)
                (sweep-takes name inside over es purged fs rest found)
          | inl e ↦ rw (sweep-swept n node es purged fs e) (
              sweep-takes name inside over es _ (quietly_gone (day n) fs) rest
                (gone-Apart (day n) (day name) fs (day-Apart n name ne) ∙ found))
        ]
  ]

  gc_recycle-sweep :
      (es : Entries) (fs : Node)
      → find (bin_path place) fs ≡ some (dir es)
      → (gc_recycle ext place cutoff fs).1 ≡ (sweep es (pos 0) fs).1
  unfolding gc_recycle
  gc_recycle-sweep es fs h = rw (gc_recycle, h) refl

  -- A directory of the recycle bin whose name is a date before the cutoff is gone after the
  -- collection, and all that is apart from
  -- every name of such a date in the bin is found as it was before, in the bin or elsewhere.
  pub gc_recycle_takes :
      (fs : Node) (name : String) (inside : Entries) (q : FilePath)
      → IsOver name
      → find (day name) fs ≡ some (dir inside)
      → ((n : String) → IsOver n → Apart (day n) q)
      → (find (day name) ((gc_recycle ext place cutoff fs).1) ≡ none)
        × (find q ((gc_recycle ext place cutoff fs).1) ≡ find q fs)
  gc_recycle_takes fs name inside q over found apart =
      let (es, in_bin, here) = entry-find (bin_path place) name fs (dir inside) found in
      rw (gc_recycle-sweep es fs in_bin)
        (sweep-takes name inside over es (pos 0) fs here found, sweep-keeps q apart es (pos 0) fs)
