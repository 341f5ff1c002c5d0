-- ===== src/Files/Parents.antt =====
-- Writing below a directory that is there.
use nexuspouch.Base.{
  String, [], ◌∷◌, ◌++◌, sym, Option, some, Option-cases, ◌≡◌, inl, inr, refl, ap, ◌∙◌, arith,
}
use nexuspouch.Files.{
  Node, file, dir, symlink, Entries, FilePath, find, alter, create_dir_all, parent, get_entry,
  assign,
}
use nexuspouch.Files.Alter.{alter_of_find}
use nexuspouch.Files.Laws.{
  alter_dir, alter-under, alter-one, find-assign_self, find-cons, below-nil,
}

-- The parent of what has been written or taken away is a directory afterwards.
pub find-alter_above :
    (x : String) (p : FilePath) (o : Option Node) (n n' : Node)
    → alter (x ∷ p) o n ≡ some n'
    → (es : Entries) × (find (parent (x ∷ p)) n' ≡ some (dir es))
unfolding find
find-alter_above x [] o n n' h =
    let (es, e) = alter_dir x [] o n n' h in
    (assign x o es, ap some (alter-one x o es n' (rw e at h)))
find-alter_above x (y ∷ p) o n n' h =
    let (es, e) = alter_dir x (y ∷ p) o n n' h in
    let (c, c', f, d, same) = alter-under x y p o es n' (rw e at h) in
    let (fs, found) = find-alter_above y p o c c' d in
    (fs, rw same (find-assign_self x (parent (y ∷ p)) (some c') es ∙ found))

-- To make a directory that is there succeeds.
pub create_dir_all_of_dir :
    (p : FilePath) (n : Node) (es : Entries)
    → find p n ≡ some (dir es)
    → (n' : Node) × (create_dir_all p n ≡ some n')
unfolding find create_dir_all
create_dir_all_of_dir [] (dir fs) es h = (dir fs, refl)
create_dir_all_of_dir [] (file b m) es h = absurd (ground arith)
create_dir_all_of_dir [] symlink es h = absurd (ground arith)
create_dir_all_of_dir (x ∷ p) (file b m) es h = absurd (ground arith)
create_dir_all_of_dir (x ∷ p) symlink es h = absurd (ground arith)
create_dir_all_of_dir (x ∷ p) (dir fs) es h = elim (Option-cases (get_entry x fs)) [
  | inl e ↦ absurd (ground arith)
  | inr (c, e) ↦
      let (c', d) = create_dir_all_of_dir p c es (ground arith) in
      (dir (assign x (some c') fs), rw (create_dir_all, e, d) refl)
]

-- Below a directory that is there an entry can be written.
pub alter_of_parent :
    (x : String) (p : FilePath) (o : Option Node) (n : Node) (es : Entries)
    → find (parent (x ∷ p)) n ≡ some (dir es)
    → (n' : Node) × (alter (x ∷ p) o n ≡ some n')
unfolding find alter
alter_of_parent x [] o (dir fs) es h = (dir (assign x o fs), refl)
alter_of_parent x [] o (file b m) es h = absurd (ground arith)
alter_of_parent x [] o symlink es h = absurd (ground arith)
alter_of_parent x (y ∷ p) o (file b m) es h = absurd (ground arith)
alter_of_parent x (y ∷ p) o symlink es h = absurd (ground arith)
alter_of_parent x (y ∷ p) o (dir fs) es h = elim (Option-cases (get_entry x fs)) [
  | inl e ↦ absurd (ground arith)
  | inr (c, e) ↦
      let (c', d) = alter_of_parent y p o c es (ground arith) in
      (dir (assign x (some c') fs), ground arith)
]

pub alter_below :
    (x : String) (q p : FilePath) (o : Option Node) (n : Node) (es : Entries)
    → p ≡ x ∷ q
    → find (parent p) n ≡ some (dir es)
    → (n' : Node) × (alter p o n ≡ some n')
alter_below x q p o n es e h = let (n', k) = alter_of_parent x q o n es (rw e at h) in (n', rw e k)

pub alter_found :
    (x : String) (q p : FilePath) (o : Option Node) (n node : Node)
    → p ≡ x ∷ q
    → find p n ≡ some node
    → (n' : Node) × (alter p o n ≡ some n')
alter_found x q p o n node e h =
    let (n', k) = alter_of_find x q o n node (rw e at h) in (n', rw e k)

-- What is found one name below a directory is an entry of it.
pub entry-find :
    (b : FilePath) (name : String) (fs node : Node)
    → find (b ++ name ∷ []) fs ≡ some node
    → (es : Entries) × (find b fs ≡ some (dir es)) × (get_entry name es ≡ some node)
unfolding find
entry-find [] name (dir es) node h =
    (es, refl, sym (find-cons name [] es ∙ below-nil (get_entry name es)) ∙ h)
entry-find [] name (file c m) node h = absurd (ground arith)
entry-find [] name symlink node h = absurd (ground arith)
entry-find (x ∷ b) name (file c m) node h = absurd (ground arith)
entry-find (x ∷ b) name symlink node h = absurd (ground arith)
entry-find (x ∷ b) name (dir ds) node h = elim (Option-cases (get_entry x ds)) [
  | inl e ↦ absurd (ground arith)
  | inr (c, e) ↦
      let (es, k, l) = entry-find b name c node (rw (find, e) at h) in (es, rw (find, e) k, l)
]
