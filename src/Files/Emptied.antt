-- ===== src/Files/Emptied.antt =====
-- Taking an empty directory away takes no file away.
use nexuspouch.Base.{
  String, ℕ, List, [], ◌∷◌, Option, none, some, Bool-cases, ◌==◌, eq_iff, ◌≡◌, ◌≢◌, inl, inr, refl,
  sym, ◌∙◌, arith, false≢true,
}
use nexuspouch.Files.{Node, file, dir, symlink, Entries, nil, FilePath, find, alter, get_entry}
use nexuspouch.Files.Laws.{alter_dir, alter-under, alter-one, find-assign_ne, find-assign_self}

no_file : (q : FilePath) (b : List ℕ) (m : ℕ) → find q (dir nil) ≢ some (file b m)
unfolding find get_entry
no_file [] b m h = cc
no_file (x ∷ q) b m h = cc

at_same :
    (x z : String) (q : FilePath) (n c : Node) (o : Option Node)
    → x ≡ z
    → find (x ∷ []) n ≡ some c
    → find (z ∷ q) n ≡ o
    → find q c ≡ o
unfolding find
at_same x z q (dir es) c o e h k = ground arith
at_same x z q (file b m) c o e h k = cc
at_same x z q symlink c o e h k = cc

found_child :
    (x : String) (n c : Node) (es : Entries)
    → n ≡ dir es
    → get_entry x es ≡ some c
    → find (x ∷ []) n ≡ some c
unfolding find
found_child x (dir fs) c es e h = ground arith
found_child x (file b m) c es e h = cc
found_child x symlink c es e h = cc

-- Where an empty directory is taken away, every file is found as before.
pub find-alter_emptied :
    (d q : FilePath) (n n' : Node) (b : List ℕ) (m : ℕ)
    → find d n ≡ some (dir nil)
    → alter d none n ≡ some n'
    → find q n ≡ some (file b m)
    → find q n' ≡ some (file b m)
find-alter_emptied [] q n n' b m h a f = unfold alter in cc
find-alter_emptied (x ∷ p) [] n n' b m h a f =
    let (es, e) = alter_dir x p none n n' a in unfold find in cc
find-alter_emptied (x ∷ []) (z ∷ q) n n' b m h a f =
    let (es, e) = alter_dir x [] none n n' a in
    elim (Bool-cases (x == z)) [
      | inl d ↦ absurd (no_file q b m (at_same x z q n (dir nil) _ ((eq_iff x z).0 d) h f))
      | inr d ↦
          rw (alter-one x none es n' (rw e at a)) (
            find-assign_ne x z q none es (λ s. false≢true (sym d ∙ (eq_iff x z).1 s)) ∙ (rw e at f))
    ]
find-alter_emptied (x ∷ (y ∷ p)) (z ∷ q) n n' b m h a f =
    let (es, e) = alter_dir x (y ∷ p) none n n' a in
    let (c, c', g, d, same) = alter-under x y p none es n' (rw e at a) in
    let child = found_child x n c es e g in
    elim (Bool-cases (x == z)) [
      | inr t ↦ rw same (
          find-assign_ne x z q (some c') es (λ s. false≢true (sym t ∙ (eq_iff x z).1 s))
          ∙ (rw e at f))
      | inl t ↦
          let eq : x ≡ z = (eq_iff x z).0 t in
          let inside =
            find-alter_emptied (y ∷ p) q c c' b m (at_same x x (y ∷ p) n c _ refl child h) d
              (at_same x z q n c _ eq child f) in
          rw (same, ← eq) (find-assign_self x q (some c') es ∙ inside)
    ]
