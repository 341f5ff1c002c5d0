-- ===== src/Files/Laws.antt =====
-- Looking up after writing.
use nexuspouch.Base.{
  String, [], ◌∷◌, Option, none, some, Option-cases, Bool-cases, ◌≡◌, ◌≢◌, ◌⊎◌, inl, inr, refl, sym,
  ap, ◌∙◌, arith, eq_iff, eq_refl, ◌==◌, if◌then◌else◌,
}
use nexuspouch.Files.{
  Node, file, dir, symlink, Entries, nil, entry, FilePath, get_entry, without, assign, find, alter,
  or_empty_dir, create_dir_all,
}

get_entry-without :
    (name other : String) (es : Entries)
    → get_entry other (without name es) ≡ (if name == other then none else get_entry other es)
unfolding get_entry without
get_entry-without name other nil = ground arith
get_entry-without name other (entry n node es) =
    ground
      (arith, get_entry-without name other es, eq_iff name other, eq_iff n name, eq_iff n other)

pub get_entry-assign :
    (name other : String) (o : Option Node) (es : Entries)
    → get_entry other (assign name o es) ≡ (if name == other then o else get_entry other es)
unfolding get_entry assign
get_entry-assign name other none es = get_entry-without name other es
get_entry-assign name other (some node) es = ground (arith, get_entry-without name other es)

-- Neither path leads through the other's end.
abbrev pub Apart : FilePath → FilePath → Type 0
Apart (x ∷ p) (y ∷ q) = (x ≢ y) ⊎ Apart p q
Apart _ _ = ⊥

-- `q` is not on the way to `p`.
abbrev pub IsOff : FilePath → FilePath → Type 0
IsOff [] p = ⊥
IsOff (x ∷ q) [] = Unit
IsOff (x ∷ q) (y ∷ p) = (x ≢ y) ⊎ IsOff q p

abbrev pub below : FilePath → Option Node → Option Node
below q none = none
below q (some child) = find q child

pub find-cons :
    (z : String) (q : FilePath) (es : Entries) → find (z ∷ q) (dir es) ≡ below q (get_entry z es)
unfolding find
find-cons z q es = ground arith

pub find-assign :
    (x z : String) (q : FilePath) (o : Option Node) (es : Entries)
    → find (z ∷ q) (dir (assign x o es)) ≡ below q (if x == z then o else get_entry z es)
find-assign x z q o es = find-cons z q (assign x o es) ∙ ap (below q) (get_entry-assign x z o es)

pub find-assign_self :
    (x : String) (q : FilePath) (o : Option Node) (es : Entries)
    → find (x ∷ q) (dir (assign x o es)) ≡ below q o
find-assign_self x q o es = find-assign x x q o es ∙ ground (arith, eq_refl x)

pub find-assign_ne :
    (x z : String) (q : FilePath) (o : Option Node) (es : Entries)
    → x ≢ z
    → find (z ∷ q) (dir (assign x o es)) ≡ find (z ∷ q) (dir es)
find-assign_ne x z q o es h = find-assign x z q o es ∙ ground (arith, eq_iff x z, find-cons z q es)

-- The same name on both sides.
find-assign_under :
    (x z : String) (q : FilePath) (c c' : Node) (es : Entries)
    → get_entry x es ≡ some c
    → (x ≢ z) ⊎ (find q c' ≡ find q c)
    → find (z ∷ q) (dir (assign x (some c') es)) ≡ find (z ∷ q) (dir es)
find-assign_under x z q c c' es e h =
    find-assign x z q (some c') es ∙ ground (arith, eq_iff x z, find-cons z q es)

pub below-nil : (o : Option Node) → below [] o ≡ o
unfolding find
below-nil none = refl
below-nil (some c) = refl

pub alter-one :
    (x : String) (o : Option Node) (es : Entries) (n' : Node)
    → alter (x ∷ []) o (dir es) ≡ some n'
    → n' ≡ dir (assign x o es)
unfolding alter
alter-one x o es n' h = cc

pub alter-under :
    (x y : String) (p : FilePath) (o : Option Node) (es : Entries) (n' : Node)
    → alter (x ∷ (y ∷ p)) o (dir es) ≡ some n'
    → (c : Node) × (c' : Node) × (get_entry x es ≡ some c)
      × (alter (y ∷ p) o c ≡ some c')
      × (n' ≡ dir (assign x (some c') es))
alter-under x y p o es n' h = elim (Option-cases (get_entry x es)) [
  | inl e ↦ absurd (unfold alter in ground arith)
  | inr (c, e) ↦ elim (Option-cases (alter (y ∷ p) o c)) [
    | inl d ↦ absurd (unfold alter in ground arith)
    | inr (c', d) ↦ (c, c', e, d, unfold alter in ground arith)
  ]
]

-- Only a directory can be written into.
pub alter_dir :
    (x : String) (p : FilePath) (o : Option Node) (n n' : Node)
    → alter (x ∷ p) o n ≡ some n'
    → (es : Entries) × (n ≡ dir es)
unfolding alter
alter_dir x p o (dir es) n' h = (es, refl)
alter_dir x [] o (file b m) n' h = cc
alter_dir x (y ∷ p) o (file b m) n' h = cc
alter_dir x [] o symlink n' h = cc
alter_dir x (y ∷ p) o symlink n' h = cc

map_right : {A B C : Type 0} → A ⊎ B → (B → C) → A ⊎ C
map_right (inl a) f = inl a
map_right (inr b) f = inr (f b)

-- What was written at a path is found there.
pub find-alter_self :
    (p : FilePath) (o : Option Node) (n n' : Node) → alter p o n ≡ some n' → find p n' ≡ o
find-alter_self [] o n n' h = unfold alter in cc
find-alter_self (x ∷ []) o n n' h =
    let (es, e) = alter_dir x [] o n n' h in
    rw (alter-one x o es n' (rw e at h)) (find-assign_self x [] o es ∙ below-nil o)
find-alter_self (x ∷ (y ∷ p)) o n n' h =
    let (es, e) = alter_dir x (y ∷ p) o n n' h in
    let (c, c', f, d, same) = alter-under x y p o es n' (rw e at h) in
    rw same (find-assign_self x (y ∷ p) (some c') es ∙ find-alter_self (y ∷ p) o c c' d)

-- A write leaves paths apart from it as they were.
pub find-alter-Apart :
    (p q : FilePath) (o : Option Node) (n n' : Node)
    → alter p o n ≡ some n'
    → Apart p q
    → find q n' ≡ find q n
find-alter-Apart [] q o n n' h a = absurd a
find-alter-Apart (x ∷ p) [] o n n' h a = absurd a
find-alter-Apart (x ∷ []) (z ∷ q) o n n' h (inl a) =
    let (es, e) = alter_dir x [] o n n' h in
    rw (alter-one x o es n' (rw e at h), e) (find-assign_ne x z q o es a)
find-alter-Apart (x ∷ []) (z ∷ q) o n n' h (inr a) = absurd a
find-alter-Apart (x ∷ (y ∷ p)) (z ∷ q) o n n' h a =
    let (es, e) = alter_dir x (y ∷ p) o n n' h in
    let (c, c', f, d, same) = alter-under x y p o es n' (rw e at h) in
    rw (same, e)
      (find-assign_under x z q c c' es f (map_right a (find-alter-Apart (y ∷ p) q o c c' d)))

create_dir_all-under :
    (x : String) (p : FilePath) (n n' : Node)
    → create_dir_all (x ∷ p) n ≡ some n'
    → (es : Entries) × (c : Node) × (n ≡ dir es)
      × (create_dir_all p (or_empty_dir (get_entry x es)) ≡ some c)
      × (n' ≡ dir (assign x (some c) es))
create_dir_all-under x p (file b m) n' h = absurd (unfold create_dir_all in ground arith)
create_dir_all-under x p symlink n' h = absurd (unfold create_dir_all in ground arith)
create_dir_all-under x p (dir es) n' h =
    elim (Option-cases (create_dir_all p (or_empty_dir (get_entry x es)))) [
      | inl e ↦ absurd (unfold create_dir_all in ground arith)
      | inr (c, e) ↦ (es, c, refl, e, unfold create_dir_all in ground arith)
    ]

find-empty_dir : (x : String) (q : FilePath) → find (x ∷ q) (dir nil) ≡ none
unfolding find get_entry
find-empty_dir x q = refl

-- After `create_dir_all` the path leads to a directory.
pub find-create_dir_all_self :
    (p : FilePath) (n n' : Node)
    → create_dir_all p n ≡ some n'
    → (es : Entries) × (find p n' ≡ some (dir es))
find-create_dir_all_self [] (dir es) n' h = (es, unfold create_dir_all find in cc)
find-create_dir_all_self [] (file b m) n' h = absurd (unfold create_dir_all in ground arith)
find-create_dir_all_self [] symlink n' h = absurd (unfold create_dir_all in ground arith)
find-create_dir_all_self (x ∷ p) n n' h =
    let (es, c, e, d, same) = create_dir_all-under x p n n' h in
    let (fs, found) = find-create_dir_all_self p (or_empty_dir (get_entry x es)) c d in
    (fs, rw same (find-assign_self x p (some c) es ∙ found))

below-or_empty_dir :
    (x : String) (q : FilePath) (o : Option Node) → find (x ∷ q) (or_empty_dir o) ≡ below (x ∷ q) o
below-or_empty_dir x q none = find-empty_dir x q
below-or_empty_dir x q (some c) = refl

create_dir_all-nil : (n n' : Node) → create_dir_all [] n ≡ some n' → n' ≡ n
unfolding create_dir_all
create_dir_all-nil (dir es) n' h = cc
create_dir_all-nil (file b m) n' h = cc
create_dir_all-nil symlink n' h = cc

pick :
    (x z : String) (q : FilePath) (c : Node) (es : Entries)
    → find q c ≡ below q (get_entry x es)
    → below q (if x == z then some c else get_entry z es) ≡ below q (get_entry z es)
pick x z q c es h = elim (Bool-cases (x == z)) [
  | inl e ↦ rw e (rw (← (eq_iff x z).0 e) h)
  | inr e ↦ rw e
]

-- It leaves every path that is not on its way as it was.
pub find-create_dir_all_off :
    (p q : FilePath) (n n' : Node) → create_dir_all p n ≡ some n' → IsOff q p → find q n' ≡ find q n
find-create_dir_all_off p [] n n' h a = absurd a
find-create_dir_all_off [] (z ∷ q) n n' h a = rw (create_dir_all-nil n n' h)
find-create_dir_all_off (x ∷ p) (z ∷ q) n n' h (inl a) =
    let (es, c, e, d, same) = create_dir_all-under x p n n' h in
    rw (same, e) (find-assign_ne x z q (some c) es (λ f. a (sym f)))
find-create_dir_all_off (x ∷ p) (z ∷ []) n n' h (inr a) = absurd a
find-create_dir_all_off (x ∷ p) (z ∷ (w ∷ q)) n n' h (inr a) =
    let (es, c, e, d, same) = create_dir_all-under x p n n' h in
    let kept = find-create_dir_all_off p (w ∷ q) (or_empty_dir (get_entry x es)) c d a in
    let old = kept ∙ below-or_empty_dir w q (get_entry x es) in
    rw (same, e)
      (find-assign x z (w ∷ q) (some c) es
        ∙ pick x z (w ∷ q) c es old
        ∙ sym (find-cons z (w ∷ q) es))
