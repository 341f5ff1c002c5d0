-- ===== src/Store/Paths/Moved.antt =====
-- Where `move_to_recycle` puts what it takes.
use Prim.Native.String.{◌++◌ as ◌<>◌}
use text.Mathlib.TextLemmas.{nil-append, cons-append, append_assoc as text_append_assoc}
use nexuspouch.Base.{
  String, ℕ, [], ◌∷◌, ◌++◌, append_assoc, List, true, false, some, none, Option-cases, Bool-cases,
  split_char, Lacks, Lacks-of_contains_char, split_char-append, eq_iff, ◌==◌, false≢true, is_empty,
  ◌≡◌, ◌≢◌, inl, inr, refl, sym, ap, ◌∙◌, arith,
}
use nexuspouch.Base.Decimal.{show_ℕ}
use nexuspouch.Result.{ok, err, op_error, ok_inj, err-ne-ok}
use nexuspouch.Protocol.{is_valid_device_id, is_valid_space}
use nexuspouch.Files.{Entries, dir, Node, FilePath, find, exists, create_dir_all, rename}
use nexuspouch.Files.Laws.{Apart, IsOff, find-alter-Apart, find-create_dir_all_off}
use nexuspouch.Files.Parents.{find-alter_above}
use nexuspouch.Files.Rename.{rename-steps, find-rename_to, find-rename_from, find-rename-Apart}
use nexuspouch.Store.Externals.{Externals}
use nexuspouch.Store.Paths.{
  Place, name_segments, resolve_path, parent, names_of, joined_path, recycle_rel, choose_recycle,
  move_into, move_to_recycle,
}
use nexuspouch.Store.Paths.Inside.{base_of, resolve_path_inside}
use nexuspouch.Store.Paths.Siblings.{sibling-Apart, sibling-IsOff, parent-append}

slash_text : (s : String) → ("/" <> s) ≡ String.◌∷◌ "/" s
slash_text s = cons-append "/" String.[] s ∙ ap (String.◌∷◌ "/") (nil-append s)

pub split_char-slash :
    (p s : String) → Lacks b'/' p → split_char b'/' (p <> ("/" <> s)) ≡ p ∷ split_char b'/' s
split_char-slash p s h = rw (slash_text s) (split_char-append "/" p s h)

pub split_char-bin :
    (s : String) → split_char b'/' (".recycle/" <> s) ≡ ".recycle" ∷ split_char b'/' s
split_char-bin s =
    ap (split_char b'/') (text_append_assoc ".recycle" "/" s)
    ∙ split_char-slash ".recycle" s (Lacks-of_contains_char b'/' ".recycle" refl)

-- The names of a path of the recycle bin.
pub split_char-recycle_rel :
    (ext : Externals) (date device space rel : String)
    → Lacks b'/' date
    → Lacks b'/' device
    → Lacks b'/' space
    → split_char b'/' (recycle_rel ext date device space rel)
      ≡ ".recycle" ∷ date ∷ device ∷ space ∷ split_char b'/' rel
split_char-recycle_rel ext date device space rel a b c =
    split_char-bin _
    ∙ ap (λ p. ".recycle" ∷ p)
        (split_char-slash date _ a
          ∙ ap (λ p. date ∷ p)
              (split_char-slash device _ b ∙ ap (λ p. device ∷ p) (split_char-slash space rel c)))

names_of-bin : (s : String) → names_of (".recycle/" <> s) ≡ ".recycle" ∷ names_of s
unfolding names_of
names_of-bin s = rw (split_char-bin s) refl

valid_ne :
    (device s : String)
    → is_valid_device_id device ≡ true
    → is_valid_device_id s ≡ false
    → device ≢ s
valid_ne device s h k e = false≢true (sym k ∙ sym (ap is_valid_device_id e) ∙ h)

bad_names :
    (is_valid_device_id "" ≡ false)
    × (is_valid_device_id "." ≡ false)
    × (is_valid_device_id ".recycle" ≡ false)
unfolding is_valid_device_id
bad_names = (refl, refl, refl)

not_empty : (s : String) → s ≢ "" → is_empty s ≡ false
not_empty String.[] h = absurd (h refl)
not_empty (String.◌∷◌ c s) h = refl

not_equal : (s t : String) → s ≢ t → (s == t) ≡ false
not_equal s t h = ground (arith, eq_iff s t)

space_ne : (space s : String) → is_valid_space space ≡ true → is_valid_space s ≡ false → space ≢ s
space_ne space s h k e = false≢true (sym k ∙ sym (ap is_valid_space e) ∙ h)

no_spaces : (is_valid_space "" ≡ false) × (is_valid_space "." ≡ false)
unfolding is_valid_space
no_spaces = (refl, refl)

name_segments-space :
    (space : String) → is_valid_space space ≡ true → name_segments space ≡ space ∷ []
name_segments-space space h =
    rw
      (
        not_empty space (space_ne space "" h no_spaces.0),
        not_equal space "." (space_ne space "." h no_spaces.1),
      )
      refl

-- The directory of a device that a message names.
pub base_of_device :
    (place : Place) (space device : String)
    → is_valid_device_id device ≡ true
    → base_of place space device ≡ place.root ++ device ∷ name_segments space
base_of_device place space device h =
    rw
      (
        not_empty device (valid_ne device "" h bad_names.0),
        not_equal device "." (valid_ne device "." h bad_names.1),
        not_empty device (valid_ne device "" h bad_names.0),
      )
      refl

record IsMovedInto (full dest : FilePath) (rel : String) (fs : Node) (target : String) (fs' : Node)
    : Type 0 where
  chosen : target ≡ rel
  made : Node
  is_made : create_dir_all (parent dest) fs ≡ some made
  is_renamed : rename full dest made ≡ some fs'

move_into_sound :
    (full dest : FilePath) (rel : String) (fs : Node) (target : String) (fs' : Node)
    → move_into full dest rel fs ≡ (ok target, fs')
    → IsMovedInto full dest rel fs target fs'
unfolding move_into
move_into_sound full dest rel fs target fs' h =
    elim (Option-cases (create_dir_all (parent dest) fs)) [
      | inl e ↦ absurd (ground arith)
      | inr (made, e) ↦ elim (Option-cases (rename full dest made)) [
        | inl d ↦ absurd (ground arith)
        | inr (after, d) ↦
            let same : (ok rel, after) ≡ (ok target, fs') = rw (move_into, e, d) at h in
            record {
              chosen = sym (ok_inj rel target (ap (λ p. p.0) same));
              made = made;
              is_made = e;
              is_renamed = d ∙ ap (λ p. some (p.1)) same;
            }
      ]
    ]

pub append-cons :
    (b : FilePath) (x : String) (r : FilePath)
    → (y : String) × (q : FilePath) × (b ++ x ∷ r ≡ y ∷ q)
append-cons [] x r = (x, r, refl)
append-cons (y ∷ b) x r = (y, b ++ x ∷ r, refl)

-- What a message resolves to lies below the directory of the device and the space.
pub resolve_path_below :
    (ext : Externals) (place : Place) (space device rel : String) (fs : Node) (full : FilePath)
    → is_valid_device_id device ≡ true
    → is_valid_space space ≡ true
    → resolve_path ext place space device rel fs ≡ ok full
    → (segs : List String) × (full ≡ place.root ++ device ∷ (space ∷ segs))
resolve_path_below ext place space device rel fs full valid space_ok resolved =
    let (segs, e, safe) = resolve_path_inside ext place space device rel fs full resolved in
    (
      segs,
      e
          ∙ ap (λ b. b ++ segs) (base_of_device place space device valid)
          ∙ append_assoc place.root (device ∷ name_segments space) segs
          ∙ ap (λ q. place.root ++ device ∷ (q ++ segs)) (name_segments-space space space_ok),
    )

module _ (ext : Externals) (place : Place) (space device rel date : String) (now : ℕ)
    (fs fs' : Node) (full : FilePath) (target : String) (valid : is_valid_device_id device ≡ true)
    (resolved : resolve_path ext place space device rel fs ≡ ok full)
    (moved : move_to_recycle ext place device space rel date now fs ≡ (ok target, fs')) where
  abbrev pub target_chosen : String
  target_chosen = choose_recycle ext place (recycle_rel ext date device space rel) now fs

  abbrev pub destination : FilePath
  destination = joined_path place.root target_chosen

  move_to_recycle_sound :
      (exists full fs ≡ true) × IsMovedInto full destination target_chosen fs target fs'
  unfolding move_to_recycle
  move_to_recycle_sound = elim (Bool-cases (exists full fs)) [
    | inl e ↦ (
      e,
      move_into_sound full destination target_chosen fs target fs'
          (rw (move_to_recycle, resolved, e) at moved),
    )
    | inr e ↦
        let refused : (err (op_error "not_found" "not found"), fs) ≡ (ok target, fs') =
          rw (move_to_recycle, resolved, e) at moved in
        absurd (err-ne-ok _ target (ap (λ p. p.0) refused))
  ]

  -- The names below the root, of what is taken and of where it goes.
  pub taken : (segs : List String) × (full ≡ place.root ++ device ∷ segs)
  taken =
      let (segs, e, safe) = resolve_path_inside ext place space device rel fs full resolved in
      (
        name_segments space ++ segs,
        e
            ∙ ap (λ b. b ++ segs) (base_of_device place space device valid)
            ∙ append_assoc place.root (device ∷ name_segments space) segs,
      )

  pub in_bin : (r : List String) × (destination ≡ place.root ++ ".recycle" ∷ r)
  in_bin =
      let tail = date <> ("/" <> (device <> ("/" <> (space <> ("/" <> rel))))) in
      let rel0 = recycle_rel ext date device space rel in
      elim (Bool-cases (exists (joined_path place.root rel0) fs)) [
        | inr e ↦ (names_of tail, rw e (ap (λ p. place.root ++ p) (names_of-bin tail)))
        | inl e ↦ (
          names_of (tail <> ("~" <> show_ℕ now)),
          rw e (
              ap (λ t. place.root ++ names_of t)
                (text_append_assoc ".recycle/" tail ("~" <> show_ℕ now))
              ∙ ap (λ p. place.root ++ p) (names_of-bin (tail <> ("~" <> show_ℕ now)))),
        )
      ]

  pub other : device ≢ ".recycle"
  other = valid_ne device ".recycle" valid bad_names.2

  pub full-Apart : Apart full destination
  full-Apart =
      let (segs, e) = taken in
      let (r, d) = in_bin in rw (e, d) (sibling-Apart place.root device ".recycle" segs r other)

  full-IsOff : IsOff full (parent destination)
  full-IsOff =
      let (segs, e) = taken in
      let (r, d) = in_bin in rw (e, d) (sibling-IsOff place.root device ".recycle" segs r other)

  -- What a device's file is recycled to: where the operation succeeds there was something at the
  -- path, nothing is there any more, it stands unchanged at the path of the recycle bin that is
  -- answered, and that path is the one that `choose_recycle` picks.
  pub move_to_recycle-moves :
      (find full fs' ≡ none)
      × (find (joined_path place.root target) fs' ≡ find full fs)
      × (exists full fs ≡ true)
      × (target ≡ choose_recycle ext place (recycle_rel ext date device space rel) now fs)
  move_to_recycle-moves =
      let (found, m) = move_to_recycle_sound in
      let made = m.made in
      (
        find-rename_from full destination made fs' full-Apart m.is_renamed,
        rw m.chosen (
            find-rename_to full destination made fs' full-Apart m.is_renamed
            ∙ find-create_dir_all_off (parent destination) full fs made m.is_made full-IsOff),
        found,
        m.chosen,
      )

  pub move_to_recycle-Apart :
      (q : FilePath)
      → Apart full q
      → Apart (joined_path place.root target) q
      → IsOff q (parent (joined_path place.root target))
      → find q fs' ≡ find q fs
  move_to_recycle-Apart q a b off =
      let (found, m) = move_to_recycle_sound in
      find-rename-Apart full destination m.made fs' full-Apart m.is_renamed q a (rw m.chosen at b)
      ∙ find-create_dir_all_off (parent destination) q fs m.made m.is_made (rw m.chosen at off)

  -- The directory that the file has been taken from is still there.
  pub move_to_recycle-parent :
      (y : String) (segs : List String)
      → full ≡ place.root ++ device ∷ (y ∷ segs)
      → (es : Entries) × (find (parent full) fs' ≡ some (dir es))
  move_to_recycle-parent y segs shape =
      let (found, m) = move_to_recycle_sound in
      let (node, middle, a, b, c) = rename-steps full destination m.made fs' m.is_renamed in
      let (r, d) = in_bin in
      let (x, p, e) = append-cons place.root device (y ∷ segs) in
      let (es, is_dir) = find-alter_above x p none m.made middle (rw (shape ∙ e) at b) in
      let same : parent full ≡ place.root ++ device ∷ parent (y ∷ segs) =
        ap parent shape ∙ parent-append place.root device (y ∷ segs) in
      let apart : Apart destination (parent full) =
        rw (d, same)
          (sibling-Apart place.root ".recycle" device r (parent (y ∷ segs)) (λ f. other (sym f))) in
      (
        es,
        find-alter-Apart destination (parent full) (some node) middle fs' c apart
            ∙ rw (shape ∙ e) is_dir,
      )
