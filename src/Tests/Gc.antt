-- ===== src/Tests/Gc.antt =====
-- A recycle bin with an old day and a new one.
use nexuspouch.Base.{
  String, ℤ, Bool, false, ltb_ℤ, ap, sym, ◌∙◌, Option, pos, [], ◌∷◌, some, none, if◌then◌else◌,
  ◌==◌, ◌≡◌, inl, inr, refl, false≢true,
}
use nexuspouch.Files
use nexuspouch.Files.{Node, dir, file, entry, Entries, FilePath, find, get_entry}
use nexuspouch.Files.Laws.{Apart}
use nexuspouch.Store.Externals.{Externals}
use nexuspouch.Store.Gc.{gc_recycle}
use nexuspouch.Store.Gc.Bin.{IsOver, day, gc_recycle_takes}
use nexuspouch.Tests.World.{place, crates}

-- Two dates that can be read, in days.
abbrev dated : Externals
dated = record crates {
  parse_date = λ s.
      if s == "2024-01-02"
      then some (pos 19724)
      else if s == "2024-03-01"
      then some (pos 19783)
      else none;
}

abbrev one_file : Entries
one_file = entry "f" (file (1 ∷ []) 5) Files.nil

abbrev tree : Node
tree = dir (
    entry "data"
      (dir (
        entry ".recycle"
          (dir (entry "2024-01-02" (dir one_file) (entry "2024-03-01" (dir one_file) Files.nil)))
          Files.nil))
      Files.nil)

abbrev kept_file : FilePath
kept_file = "data" ∷ ".recycle" ∷ "2024-03-01" ∷ "f" ∷ []

old : IsOver dated place (pos 19780) "2024-01-02"
old = (pos 19724, refl, refl)

abbrev early_of : Option ℤ → Bool
early_of none = false
early_of (some d) = ltb_ℤ d (pos 19780)

new_day :
    (n : String)
    → IsOver dated place (pos 19780) n
    → Apart (day dated place (pos 19780) n) kept_file
new_day n (d, read, early) = inr (
    inr (
      inl (λ same.
        false≢true
          (sym (ap (λ m. early_of (dated.parse_date m)) same) ∙ (ap early_of read ∙ early)))))

there : find (day dated place (pos 19780) "2024-01-02") tree ≡ some (dir one_file)
unfolding find get_entry
there = refl

gc_recycle_takes_example :
    (find (day dated place (pos 19780) "2024-01-02") ((gc_recycle dated place (pos 19780) tree).1)
      ≡ none)
    × (find kept_file ((gc_recycle dated place (pos 19780) tree).1) ≡ find kept_file tree)
gc_recycle_takes_example =
    gc_recycle_takes dated place (pos 19780) tree "2024-01-02" one_file kept_file old there new_day
