-- ===== src/Store/Write/Commit/Cursor.antt =====
-- When `commit` moves the caller's cursor.
use nexuspouch.Base.{
  String, ℕ, ℤ, List, [], ◌∷◌, ◌++◌, ◌≢◌, some, Option-cases, ◌≡◌, ◌⊎◌, inl, inr, refl, ap, ◌∙◌,
  arith,
}
use nexuspouch.Base.Json.{payload_int64}
use nexuspouch.Result.{Result, ok, err, OpError, Result-cases}
use nexuspouch.Protocol.{Frame}
use nexuspouch.Files.{Node}
use nexuspouch.Base.Dict
use nexuspouch.Store.Cursors
use nexuspouch.Store.Externals.{Externals}
use nexuspouch.Store.Paths.{Place}
use nexuspouch.Store.Write.{Uploads}
use nexuspouch.Store.Write.Commit.{
  Pending, Outcome, verify_all, commit_all, move_in, ids_of, commit, finish, advanced, with_fs,
}

module _ (ext : Externals) (place : Place) (date : String) (now : ℕ) where
  commit_all-cursors :
      (batch : List Pending) (o : Outcome) (st : Uploads)
      → ((commit_all ext place date now batch o st).1).cursors ≡ st.cursors
  unfolding commit_all
  commit_all-cursors [] o st = refl
  commit_all-cursors (p ∷ ps) o st = elim (Result-cases ((move_in ext place date now p st.fs).0)) [
    | inl (t, e) ↦ rw (commit_all, e) (commit_all-cursors ps _ _)
    | inr (f, e) ↦ rw (commit_all, e) (commit_all-cursors ps _ _)
  ]

-- Every upload of a batch has been moved into its place, one behind the other, between two trees.
abbrev pub AllMoved : Externals → Place → String → ℕ → List Pending → Node → Node → Type 0
AllMoved ext place date now [] fs fs' = fs ≡ fs'
AllMoved ext place date now (p ∷ ps) fs fs' =
    (fs1 : Node) × (move_in ext place date now p fs ≡ (ok tt, fs1))
    × AllMoved ext place date now ps fs1 fs'

last-some : (xs : List (String × String)) (x : String × String) → xs ++ x ∷ [] ≢ []
last-some [] x e = cc
last-some (y ∷ xs) x e = cc

module _ (ext : Externals) (place : Place) (date : String) (now : ℕ) where
  -- Where no failure is recorded, no move has failed.
  commit_all-AllMoved :
      (batch : List Pending) (o : Outcome) (st : Uploads)
      → (commit_all ext place date now batch o st).0.failed ≡ []
      → (o.failed ≡ [])
        × AllMoved ext place date now batch st.fs ((commit_all ext place date now batch o st).1).fs
  unfolding commit_all
  commit_all-AllMoved [] o st h = (h, refl)
  commit_all-AllMoved (p ∷ ps) o st h =
      elim (Result-cases ((move_in ext place date now p st.fs).0)) [
        | inr (f, e) ↦
            let (none_before, rest) =
              commit_all-AllMoved ps
                (record { committed = o.committed; failed = o.failed ++ (p.id, f) ∷ [] })
                (with_fs ((move_in ext place date now p st.fs).1) st) (rw (commit_all, e) at h) in
            absurd (last-some o.failed (p.id, f) none_before)
        | inl (t, e) ↦
            let (none_before, rest) =
              commit_all-AllMoved ps
                (record { committed = o.committed ++ p ∷ []; failed = o.failed })
                (record {
                  fs = (move_in ext place date now p st.fs).1;
                  uploads = Dict.remove p.id st.uploads;
                  cursors = st.cursors;
                })
                (rw (commit_all, e) at h) in
            (none_before, rw (commit_all, e) ((move_in ext place date now p st.fs).1, refl, rest))
      ]

-- What the second loop has done from a state, for the ids of a message.
pub record HasCommitted (ext : Externals) (place : Place) (date : String) (now : ℕ) (frame : Frame)
    (caller : String) (st : Uploads) (upto : ℤ) : Type 0 where
  pub batch : List Pending
  pub all_verified : verify_all ext st (ids_of frame.payload) ≡ ok batch
  pub all_moved :
      AllMoved ext place date now batch st.fs (((commit ext place date now frame caller st).1).fs)
  pub asked : payload_int64 frame.payload "upto_seq" ≡ some upto

module _ (ext : Externals) (place : Place) (date : String) (now : ℕ) (caller : String)
    (upto : ℤ) where
  advanced-cursors :
      (o : Outcome) (r : Result OpError ℤ) (c : Cursors.CursorFile) (st : Uploads)
      → ((advanced ext place date now o (r, c) st).1).cursors ≡ c
  advanced-cursors o (ok seq) c st = refl
  advanced-cursors o (err e) c st = refl

  advanced-fs :
      (o : Outcome) (r : Result OpError ℤ) (c : Cursors.CursorFile) (st : Uploads)
      → ((advanced ext place date now o (r, c) st).1).fs ≡ st.fs
  advanced-fs o (ok seq) c st = refl
  advanced-fs o (err e) c st = refl

  finish-fs :
      (done : List Pending) (failed : List (String × String)) (st : Uploads)
      → ((finish ext place date now
          (some upto)
          caller
          (record { committed = done; failed = failed })
          st).1
        ).fs
        ≡ st.fs
  unfolding finish
  finish-fs done [] st =
      advanced-fs _ ((Cursors.advance caller upto st.cursors).0)
        ((Cursors.advance caller upto st.cursors).1) st
  finish-fs done (f ∷ fs) st = refl

  finish-cursors :
      (done : List Pending) (failed : List (String × String)) (st : Uploads)
      → let after =
          ((finish ext place date now
            (some upto)
            caller
            (record { committed = done; failed = failed })
            st).1
          ).cursors in
        (after ≡ st.cursors)
        ⊎ ((failed ≡ []) × (after ≡ (Cursors.advance caller upto st.cursors).1))
  unfolding finish
  finish-cursors done [] st = inr (
    refl,
    advanced-cursors _ ((Cursors.advance caller upto st.cursors).0)
        ((Cursors.advance caller upto st.cursors).1) st,
  )
  finish-cursors done (f ∷ fs) st = inl refl

-- The cursors after `commit` are those before it, or those of an advance of the caller's cursor to
-- the sequence number of the message, and that only where every upload of the message has been
-- verified and has been moved into its place.
pub commit-cursors :
    (ext : Externals) (place : Place) (date : String) (now : ℕ) (frame : Frame) (caller : String)
    (st : Uploads)
    → (((commit ext place date now frame caller st).1).cursors ≡ st.cursors)
      ⊎ ((upto : ℤ) × HasCommitted ext place date now frame caller st upto
          × (((commit ext place date now frame caller st).1).cursors
              ≡ (Cursors.advance caller upto st.cursors).1))
unfolding commit finish
commit-cursors ext place date now frame caller st =
    elim (Result-cases (verify_all ext st (ids_of frame.payload))) [
      | inr (f, e) ↦ inl (ground arith)
      | inl (batch, e) ↦
          let start : Outcome = record { committed = []; failed = [] } in
          let o = (commit_all ext place date now batch start st).0 in
          let st' = (commit_all ext place date now batch start st).1 in
          let same = commit_all-cursors ext place date now batch start st in
          elim (Option-cases (payload_int64 frame.payload "upto_seq")) [
            | inl d ↦ inl (ground (arith, same))
            | inr (upto, d) ↦
                elim (finish-cursors ext place date now caller upto o.committed o.failed st') [
                  | inl f ↦ inl (rw (commit, e, d) (f ∙ same))
                  | inr (none_failed, f) ↦ inr (
                    upto,
                    record {
                      batch = batch;
                      all_verified = e;
                      all_moved =
                          rw (commit, e, d)
                            (rw (finish-fs ext place date now caller upto o.committed o.failed st')
                              ((commit_all-AllMoved ext place date now batch start st
                                none_failed).1));
                      asked = d;
                    },
                    rw (commit, e, d) (f ∙ ap (λ c. (Cursors.advance caller upto c).1) same),
                  )
                ]
          ]
    ]
