-- ===== src/Files/Rename.antt =====
-- What `rename` moves.
use nexuspouch.Base.{true, refl, some, [], ◌∷◌, none, Option-cases, ◌≡◌, inl, inr, sym, ◌∙◌, arith}
use nexuspouch.Files.{dir, file, symlink, may_replace, Node, FilePath, find, alter, rename}
use nexuspouch.Files.Laws.{Apart, find-alter_self, find-alter-Apart}

pub Apart-sym : (p q : FilePath) → Apart p q → Apart q p
Apart-sym [] q a = absurd a
Apart-sym (x ∷ p) [] a = absurd a
Apart-sym (x ∷ p) (y ∷ q) (inl h) = inl (λ e. h (sym e))
Apart-sym (x ∷ p) (y ∷ q) (inr a) = inr (Apart-sym p q a)

-- The two writes of a successful `rename`.
pub rename-steps :
    (from to : FilePath) (root root' : Node)
    → rename from to root ≡ some root'
    → (node : Node) × (middle : Node) × (find from root ≡ some node)
      × (alter from none root ≡ some middle)
      × (alter to (some node) middle ≡ some root')
unfolding rename
rename-steps from to root root' h = elim (Option-cases (find from root)) [
  | inl e ↦ absurd (ground arith)
  | inr (node, e) ↦ elim (Option-cases (alter from none root)) [
    | inl d ↦ absurd (ground arith)
    | inr (middle, d) ↦ (node, middle, e, d, ground arith)
  ]
]

module _ (from to : FilePath) (root root' : Node) (apart : Apart from to)
    (renamed : rename from to root ≡ some root') where
  -- The node that stood at the old path stands at the new one,
  pub find-rename_to : find to root' ≡ find from root
  find-rename_to =
      let (node, middle, e, d, f) = rename-steps from to root root' renamed in
      find-alter_self to (some node) middle root' f ∙ sym e

  -- nothing is left at the old one,
  pub find-rename_from : find from root' ≡ none
  find-rename_from =
      let (node, middle, e, d, f) = rename-steps from to root root' renamed in
      find-alter-Apart to from (some node) middle root' f (Apart-sym from to apart)
      ∙ find-alter_self from none root middle d

  -- and all that is apart from both is as before.
  pub find-rename-Apart : (q : FilePath) → Apart from q → Apart to q → find q root' ≡ find q root
  find-rename-Apart q a b =
      let (node, middle, e, d, f) = rename-steps from to root root' renamed in
      find-alter-Apart to q (some node) middle root' f b
      ∙ find-alter-Apart from q none root middle d a

may_replace-none : (node : Node) → may_replace node none ≡ true
may_replace-none (dir es) = refl
may_replace-none (file bytes mtime) = refl
may_replace-none symlink = refl

-- Where nothing stands at the new path, a rename consists of two writes.
pub rename_of_steps :
    (from to : FilePath) (root middle root' node : Node)
    → find from root ≡ some node
    → find to root ≡ none
    → alter from none root ≡ some middle
    → alter to (some node) middle ≡ some root'
    → rename from to root ≡ some root'
unfolding rename
rename_of_steps from to root middle root' node a b c d =
    rw (rename, a, b, may_replace-none node, c, d) refl
