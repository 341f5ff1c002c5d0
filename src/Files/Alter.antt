-- ===== src/Files/Alter.antt =====
-- Where a file stands, it can be written anew.
use nexuspouch.Base.{String, ◌∷◌, [], Option, some, Option-cases, ◌≡◌, inl, inr, refl, arith}
use nexuspouch.Files.{Node, dir, file, symlink, FilePath, find, alter, get_entry, assign}

pub alter_of_find :
    (x : String) (p : FilePath) (new : Option Node) (n node : Node)
    → find (x ∷ p) n ≡ some node
    → (n' : Node) × (alter (x ∷ p) new n ≡ some n')
unfolding find alter
alter_of_find x p new (file b m) node h = absurd (ground arith)
alter_of_find x p new symlink node h = absurd (ground arith)
alter_of_find x [] new (dir es) node h = (dir (assign x new es), refl)
alter_of_find x (y ∷ p) new (dir es) node h = elim (Option-cases (get_entry x es)) [
  | inl e ↦ absurd (ground arith)
  | inr (c, e) ↦
      let (c', d) = alter_of_find y p new c node (ground arith) in
      (dir (assign x (some c') es), ground arith)
]
