-- ===== src/Store/Browse/Recycle.antt =====
-- The recycle bin in src/store/browse.rs: what `recycle_list` shows, and `recycle_empty`. A deleted
-- file stands at `.recycle/{date}/{device}/{space}/{path}`, with `~{time}` behind it where another
-- deletion of the day has taken the name.
pub mod Suffix
use Prim.Native.String.{len}
use nexuspouch.Base.{
  String, ℕ, ℤ, pos, negsuc, ltb_ℤ, ◌+◌, ◌-◌, ◌*◌, List, [], ◌∷◌, ◌++◌, Bool, true, false, ◌&&◌,
  ◌||◌, not, Option, none, some, if◌then◌else◌, ◌==◌, length, ltb, leb, is_empty, join, split_char,
  is_code, all_chars, drop,
}
use nexuspouch.Base.Json
use nexuspouch.Base.Json.{
  Value, Items, nil, cons, Fields, end, field, int, string, array, object, unwrap_or,
}
use nexuspouch.Result.{Result, ok, err, OpError}
use nexuspouch.Protocol.{slash}
use nexuspouch.Files
use nexuspouch.Files.{
  Node, file, dir, symlink, Entries, entry, FilePath, find, is_dir, create_dir_all, remove_dir_all,
  remove_dir,
}
use nexuspouch.Store.Externals.{Externals}
use nexuspouch.Store.Paths.{Place, io_error}
use nexuspouch.Store.Browse.{mtime_ms}
use nexuspouch.Store.Browse.Walk.{rel_text, is_dotted}
use nexuspouch.Store.Browse.Size.{length_of, dir_size}
use nexuspouch.Store.Browse.Prune.{bin_path, sort_by}

abbrev cons_before : Prim.Native.Char.Char → Option (String × String) → Option (String × String)
cons_before c none = none
cons_before c (some (a, b)) = some (String.◌∷◌ c a, b)

-- The parts before and behind the last such character: `rfind`, and the slices at its result.
unfoldable pub split_last : ℕ → String → Option (String × String)
split_last n String.[] = none
split_last n (String.◌∷◌ c s) =
    let later = cons_before c (split_last n s) in
    let here = if is_code n c then some (String.[], s) else none in
    elim (split_last n s) [ some p ↦ later | none ↦ here ]

abbrev pub is_digit : ℕ → Bool
is_digit c = leb b'0' c && leb c b'9'

abbrev pub is_time : String → Bool
is_time s = leb 10 (len s) && all_chars is_digit s

abbrev cut_time : String → Option (String × String) → String
cut_time name none = name
cut_time name (some (a, b)) = if is_time b then a else name

unfoldable pub strip_recycle_suffix : String → String
strip_recycle_suffix name = cut_time name (split_last b'~' name)

-- `origin_parts` once the last of them has been stripped
abbrev pub strip_last : List String → List String
strip_last [] = []
strip_last (x ∷ []) = strip_recycle_suffix x ∷ []
strip_last (x ∷ (y ∷ parts)) = x ∷ strip_last (y ∷ parts)

-- What a path of the recycle bin tells, where it has five parts or more.
pub record Origin : Type 0 where
  pub date : String
  pub device : String
  pub space : String
  pub rel : String

unfoldable pub origin_of : List String → Option Origin
origin_of (bin ∷ (date ∷ (device ∷ (space ∷ (x ∷ parts))))) = some (record {
  date = date;
  device = device;
  space = space;
  rel = join slash (strip_last (x ∷ parts));
})
origin_of _ = none

abbrev times_day : ℤ → ℤ
times_day (pos n) = pos (n * 86400000)
times_day (negsuc n) = negsuc ((n + 1) * 86400000 - 1)

pub record Recycled : Type 0 where
  pub recycle_path : String
  pub origin_device : String
  pub space : String
  pub origin_path : String
  pub size : ℤ
  pub deleted_at : ℤ

abbrev recycled_value : Recycled → Value
recycled_value r = object (
    field "recycle_path" (string r.recycle_path) (
      field "origin_device" (string r.origin_device) (
        field "space" (string r.space) (
          field "origin_path" (string r.origin_path)
            (field "size" (int r.size) (field "deleted_at" (int r.deleted_at) end))))))

unfoldable pub recycled_items : List Recycled → Items
recycled_items [] = nil
recycled_items (r ∷ rs) = cons (recycled_value r) (recycled_items rs)

-- The latest deletion comes first.
abbrev pub is_later : Recycled → Recycled → Bool
is_later a b = ltb_ℤ b.deleted_at a.deleted_at

module _ (ext : Externals) where
  abbrev millis_or : ℤ → Option ℤ → ℤ
  millis_or fallback none = fallback
  millis_or fallback (some days) = times_day days

  unfoldable pub parse_recycle_date_ms : String → ℤ → ℤ
  parse_recycle_date_ms date fallback = millis_or fallback (ext.parse_date date)

  abbrev recycled_of : String → FilePath → Node → Option Origin → List Recycled
  recycled_of rel path node none = []
  recycled_of rel path node (some o) =
      record {
        recycle_path = rel;
        origin_device = o.device;
        space = o.space;
        origin_path = o.rel;
        size = pos (length_of ext path node);
        deleted_at = parse_recycle_date_ms o.date (mtime_ms ext path node);
      }
      ∷ []

  abbrev in_bin : List String → Bool
  in_bin [] = false
  in_bin (bin ∷ parts) = bin == ".recycle"

  unfoldable pub recycled_at : FilePath → FilePath → Node → List Recycled
  recycled_at root path node =
      let rel = rel_text root path in
      let parts = split_char b'/' rel in
      if in_bin parts then recycled_of rel path node (origin_of parts) else []

  unfoldable mutual
    pub walk_recycle : FilePath → FilePath → Node → List Recycled
    walk_recycle root path (dir es) = walk_recycle_entries root path es
    walk_recycle root path node = []

    pub walk_recycle_entries : FilePath → FilePath → Entries → List Recycled
    walk_recycle_entries root path Files.nil = []
    walk_recycle_entries root path (entry name node es) =
        let here = path ++ name ∷ [] in
        let inside = walk_recycle root here node in
        let rest = walk_recycle_entries root path es in
        (if is_dir node
          then (if is_dotted name then [] else inside)
          else recycled_at root here node)
        ++ rest

  abbrev walk_bin : Place → Option Node → List Recycled
  walk_bin place none = []
  walk_bin place (some node) = walk_recycle place.root (bin_path place) node

  unfoldable pub recycle_list : Place → Node → Result OpError Fields
  recycle_list place fs = ok (
      field "entries"
        (array (recycled_items (sort_by is_later (walk_bin place (find (bin_path place) fs))))) end)

  abbrev emptied : ℤ → Option Node → Node → Result OpError Fields × Node
  emptied purged none fs = (err io_error, fs)
  emptied purged (some fs') fs = (ok (field "purged_bytes" (int purged) end), fs')

  unfoldable pub recycle_empty : Place → Node → Result OpError Fields × Node
  recycle_empty place fs =
      let purged = dir_size ext (bin_path place) false fs in
      let fs1 = unwrap_or fs (remove_dir_all (bin_path place) fs) in
      emptied purged (create_dir_all (bin_path place) fs1) fs1
