-- ===== src/Store/Write/Begin/Same.antt =====
-- What `write_begin` takes an earlier upload for.
use nexuspouch.Base.{
  String, ℤ, pos, eqb_ℤ_iff, List, ℕ, [], ◌∷◌, ◌++◌, length, some, none, Option-cases, eq_iff,
  Bool-cases, ◌≡◌, ◌≢◌, ◌⊎◌, inl, inr, refl, ap, true, false, arith, ◌==◌, eqb_ℤ,
}
use nexuspouch.Protocol.Acl.{is_empty_iff}
use nexuspouch.Files.{Node, FilePath, content, create_dir_all, read_file}
use nexuspouch.Files.Laws.{IsOff, find-create_dir_all_off}
use nexuspouch.Store.Externals.{StagingMeta}
use nexuspouch.Store.Write.Begin.{Declared, conflicts, part_length}

-- The earlier upload is of the same file: hashes are compared where both are given.
pub record IsSameFile (meta : StagingMeta) (d : Declared) : Type 0 where
  pub same_path : meta.path ≡ d.norm
  pub same_size : meta.size ≡ d.size
  pub same_sha : (d.sha ≡ "") ⊎ ((meta.sha256 ≡ "") ⊎ (meta.sha256 ≡ d.sha))

pub data IsOtherFile (meta : StagingMeta) (d : Declared) : Type 0 where
  other_path : meta.path ≢ d.norm → IsOtherFile meta d
  other_size : meta.size ≢ d.size → IsOtherFile meta d
  other_sha : d.sha ≢ "" → meta.sha256 ≢ "" → meta.sha256 ≢ d.sha → IsOtherFile meta d

pub same_file : (meta : StagingMeta) (d : Declared) → conflicts meta d ≡ false → IsSameFile meta d
same_file meta d h = record {
  same_path = ground (arith, eq_iff meta.path d.norm);
  same_size = ground (arith, eqb_ℤ_iff meta.size d.size);
  same_sha = ground (arith, eq_iff meta.sha256 d.sha, is_empty_iff d.sha, is_empty_iff meta.sha256);
}

pub other_file : (meta : StagingMeta) (d : Declared) → conflicts meta d ≡ true → IsOtherFile meta d
other_file meta d h = elim (Bool-cases (meta.path == d.norm)) [
  | inr e ↦ IsOtherFile.other_path (ground (arith, eq_iff meta.path d.norm))
  | inl e ↦ elim (Bool-cases (eqb_ℤ meta.size d.size)) [
    | inr f ↦ IsOtherFile.other_size (ground (arith, eqb_ℤ_iff meta.size d.size))
    | inl f ↦
        IsOtherFile.other_sha (ground (arith, is_empty_iff d.sha))
          (ground (arith, is_empty_iff meta.sha256)) (ground (arith, eq_iff meta.sha256 d.sha))
  ]
]

-- What has arrived: the length of the part, and nothing where it cannot be read.
abbrev pub HasArrived : FilePath → Node → ℤ → Type 0
HasArrived part fs z =
    ((bytes : List ℕ) × (read_file part fs ≡ some bytes) × (z ≡ pos (length bytes)))
    ⊎ ((read_file part fs ≡ none) × (z ≡ pos 0))

pub part_length-HasArrived :
    (part : FilePath) (fs : Node) → HasArrived part fs (part_length part fs)
part_length-HasArrived part fs = elim (Option-cases (read_file part fs)) [
  | inl e ↦ inr (e, rw e refl)
  | inr (bytes, e) ↦ inl (bytes, e, rw e refl)
]

IsOff-child : (p : FilePath) (x : String) → IsOff (p ++ x ∷ []) p
IsOff-child [] x = tt
IsOff-child (y ∷ p) x = inr (IsOff-child p x)

-- Making the directory leaves what is in it.
pub read_file-create_dir_all :
    (p : FilePath) (x : String) (n n' : Node)
    → create_dir_all p n ≡ some n'
    → read_file (p ++ x ∷ []) n' ≡ read_file (p ++ x ∷ []) n
read_file-create_dir_all p x n n' h =
    ap content (find-create_dir_all_off p (p ++ x ∷ []) n n' h (IsOff-child p x))
