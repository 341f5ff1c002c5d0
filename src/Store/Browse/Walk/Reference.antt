-- ===== src/Store/Browse/Walk/Reference.antt =====
-- `walk_files`, with its limit and its early returns, against the plain list of all visible files.
use nexuspouch.Base.{
  String, ℕ, suc, ◌≤◌, ◌<◌, List, [], ◌∷◌, ◌++◌, true, false, if◌then◌else◌, leb, length, take,
  length-append, append_nil, append_assoc, take_all, take-append_exact, take-append-take,
  length-take-le, some, ◌≡◌, sym, ap, ◌∙◌, arith, Bool-cases, inl, inr,
}
use nexuspouch.Base.Float.{to_u64}
use nexuspouch.Base.Json
use nexuspouch.Base.Json.{Fields, num}
use nexuspouch.Result.{ok}
use nexuspouch.Protocol.{Frame, space_of}
use nexuspouch.Files
use nexuspouch.Files.{Node, file, dir, symlink, Entries, entry, FilePath, find, is_dir}
use nexuspouch.Store.Externals.{Externals}
use nexuspouch.Store.Paths.{Place, resolve_path}
use nexuspouch.Store.Browse.{device_or_caller, path_of}
use nexuspouch.Store.Browse.Walk.{
  Listed, is_dotted, entry_of, walk_files, walk_entries, walk_found, limit_of, list_path,
  listed_reply,
}

module _ (ext : Externals) (root : FilePath) where
  -- Every file below, but for those whose name, or a directory's on the way, begins with a dot.
  unfoldable mutual
    pub visible : FilePath → Node → List Listed
    visible path (dir es) = visible_entries path es
    visible path node = []

    pub visible_entries : FilePath → Entries → List Listed
    visible_entries path Files.nil = []
    visible_entries path (entry name node es) =
        let here = path ++ name ∷ [] in
        (if is_dotted name
          then []
          else if is_dir node
          then visible here node
          else entry_of ext root here node ∷ [])
        ++ visible_entries path es

leb-false : (n m : ℕ) → leb n m ≡ false → suc m ≤ n
leb-false n m h = ground arith

leb_full : (n m : ℕ) → m ≤ n → leb n m ≡ true → m ≡ n
leb_full n m h e = ground arith

module _ (ext : Externals) (root : FilePath) (limit : ℕ) where
  mutual
    unfolding walk_files visible

    walk_files-eq :
        (path : FilePath) (out : List Listed) (node : Node)
        → length out ≤ limit
        → walk_files ext path root limit out node ≡ take limit (out ++ visible ext root path node)
    walk_files-eq path out (file bytes mtime) h =
        sym (ap (take limit) (append_nil out) ∙ take_all limit out h)
    walk_files-eq path out symlink h = sym (ap (take limit) (append_nil out) ∙ take_all limit out h)
    walk_files-eq path out (dir es) h = elim (Bool-cases (leb limit (length out))) [
      | inl e ↦ rw e (sym (take-append_exact limit out _ (leb_full limit (length out) h e)))
      | inr e ↦ rw e (walk_entries-eq path out es h)
    ]

    walk_entries-eq :
        (path : FilePath) (out : List Listed) (es : Entries)
        → length out ≤ limit
        → walk_entries ext path root limit out es
          ≡ take limit (out ++ visible_entries ext root path es)
    walk_entries-eq path out Files.nil h =
        sym (ap (take limit) (append_nil out) ∙ take_all limit out h)
    walk_entries-eq path out (entry name node es) h =
        let here = path ++ name ∷ [] in
        let later = visible_entries ext root path es in
        let e = entry_of ext root here node in
        elim (Bool-cases (leb limit (length out))) [
          | inl full ↦
              rw full (sym (take-append_exact limit out _ (leb_full limit (length out) h full)))
          | inr room ↦ elim (Bool-cases (is_dotted name)) [
            | inl dotted ↦ rw (room, dotted) (walk_entries-eq path out es h)
            | inr plain ↦ elim (Bool-cases (is_dir node)) [
              | inr leaf ↦
                  rw (room, plain, leaf)
                    (walk_entries-eq path (out ++ e ∷ []) es (
                        omega
                          (arith, length-append out (e ∷ []), leb-false limit (length out) room))
                      ∙ ap (take limit) (append_assoc out (e ∷ []) later))
              | inl nested ↦
                  let inside = visible ext root here node in
                  let first = walk_files-eq here out node h in
                  rw (room, plain, nested, first)
                    (walk_entries-eq path (take limit (out ++ inside)) es
                        (length-take-le limit (out ++ inside))
                      ∙ take-append-take limit (out ++ inside) later
                      ∙ ap (take limit) (append_assoc out inside later))
            ]
          ]
        ]

walk_found-eq :
    (ext : Externals) (path root : FilePath) (limit : ℕ) (node : Node)
    → walk_found ext path root limit (some node) ≡ take limit (visible ext root path node)
walk_found-eq ext path root limit node = walk_files-eq ext root limit path [] node (omega arith)

-- The number that a message gives as its limit, and 0 where it gives none.
abbrev pub asked_limit : Externals → Fields → ℕ
asked_limit ext payload = to_u64 (num ext.parse_f64 (Json.get "limit" payload))

-- How many files a message may be answered with. There is no greatest limit.
pub data IsLimit (ext : Externals) (payload : Fields) (limit : ℕ) : Type 0 where
  by_default : asked_limit ext payload ≡ 0 → limit ≡ 1000 → IsLimit ext payload limit
  as_asked : asked_limit ext payload ≡ limit → 0 < limit → IsLimit ext payload limit

limit_of-IsLimit :
    (ext : Externals) (payload : Fields) (limit : ℕ)
    → IsLimit ext payload limit
    → limit_of ext payload ≡ limit
unfolding limit_of
limit_of-IsLimit ext payload limit (IsLimit.by_default e d) = rw (limit_of, e) (sym d)
limit_of-IsLimit ext payload limit (IsLimit.as_asked e some_limit) = ground arith

-- `list` answers with the visible files below the path that is asked for, in the order of the tree
-- and cut at the limit, which is the number that the message gives, however great it is, or 1000
-- where it gives none or 0: no file is left out before the limit is reached, none is listed twice,
-- and none whose name, or a directory's on the way, begins with a dot.
pub list_path-visible :
    (ext : Externals) (place : Place) (frame : Frame) (caller : String) (fs : Node)
    (root path : FilePath) (node : Node) (limit : ℕ)
    → IsLimit ext frame.payload limit
    → resolve_path ext place (space_of frame) (device_or_caller frame caller) "" fs ≡ ok root
    → resolve_path ext place (space_of frame) (device_or_caller frame caller) (path_of frame) fs
      ≡ ok path
    → find path fs ≡ some node
    → list_path ext place frame caller fs
      ≡ ok (listed_reply (take limit (visible ext root path node)))
unfolding list_path
list_path-visible ext place frame caller fs root path node limit is_limit h k found =
    rw (list_path, h, k, found)
      (ap (λ es. ok (listed_reply es))
        (rw (limit_of-IsLimit ext frame.payload limit is_limit)
          (walk_found-eq ext path root limit node)))
