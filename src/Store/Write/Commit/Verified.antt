-- ===== src/Store/Write/Commit/Verified.antt =====
-- The first loop of `commit`: what it checks, and that nothing moves before all is checked.
use mathlib.Core.Path.{subst}
use nexuspouch.Base.{
  String, ℕ, ℤ, pos, negsuc, ltb_ℤ, eqb_ℤ, ◌<ℤ◌, List, [], ◌∷◌, false, ◌&&◌, not, Any, some,
  Option-cases, is_empty, ◌==◌, eq_iff, length, ◌≡◌, ◌↔◌, ◌⊎◌, inl, inr, refl, arith,
}
use nexuspouch.Base.Dict
use nexuspouch.Base.Json.{unwrap_or, ◌>>=?◌}
use nexuspouch.Result.{ok, err, OpError, Result-cases}
use nexuspouch.Protocol.{Frame}
use nexuspouch.Protocol.Acl.{is_empty_iff}
use nexuspouch.Files.{read_file}
use nexuspouch.Store.Externals.{Externals, StagingMeta}
use nexuspouch.Store.Paths.{Place}
use nexuspouch.Store.Write.{Upload, Uploads, check_upload_id}
use nexuspouch.Store.Write.Commit.{Pending, pending, meta_of, verify, verify_all, ids_of, commit}

module _ (ext : Externals) (st : Uploads) where
  -- What the staging file says of an upload, and where there is none, the registry.
  abbrev pub staged : Upload → StagingMeta
  staged u = unwrap_or (meta_of u) (read_file u.meta_path st.fs >>=? ext.decode_staging)

  -- The part has the size and the hash that the upload has declared.
  pub record IsVerified (id : String) (p : Pending) : Type 0 where
    pub id_ok : check_upload_id id ≡ ok tt
    pub known : Dict.lookup id st.uploads ≡ some p.u
    pub bytes : List ℕ
    pub is_there : read_file p.u.tmp st.fs ≡ some bytes
    pub size_ok : ((staged p.u).size <ℤ pos 0) ⊎ ((staged p.u).size ≡ pos (length bytes))
    pub hash_ok : ((staged p.u).sha256 ≡ "") ⊎ ((staged p.u).sha256 ≡ ext.sha256_hex bytes)
    pub the_pending : p ≡ pending id p.u (ext.sha256_hex bytes) (pos (length bytes))

  size_test :
      (z : ℤ) (n : ℕ)
      → ((not (ltb_ℤ z (pos 0)) && not (eqb_ℤ (pos n) z)) ≡ false) ↔ ((z <ℤ pos 0) ⊎ (z ≡ pos n))
  size_test (pos k) n = ground arith
  size_test (negsuc k) n = ground arith

  hash_test : (s t : String) → ((not (is_empty s) && not (t == s)) ≡ false) ↔ ((s ≡ "") ⊎ (s ≡ t))
  hash_test s t = ground (arith, is_empty_iff s, eq_iff t s)

  -- An upload passes the check just where its id is well-formed and registered, the part can be
  -- read, and the part's length and SHA-256 are those that the staging file declares (a negative
  -- size and an empty hash declare nothing).
  pub verify_iff : (id : String) (p : Pending) → (verify ext st id ≡ ok p) ↔ IsVerified id p
  unfolding verify
  verify_iff id p = (
    λ h. elim (Result-cases (check_upload_id id)) [
      | inr (f, e) ↦ absurd (ground arith)
      | inl (t, e1) ↦ elim (Option-cases (Dict.lookup id st.uploads)) [
        | inl e ↦ absurd (ground arith)
        | inr (u, e2) ↦ elim (Option-cases (read_file u.tmp st.fs)) [
          | inl e ↦ absurd (ground arith)
          | inr (bytes, e3) ↦ subst (IsVerified id) (ground arith) (record {
            id_ok = e1;
            known = e2;
            bytes = bytes;
            is_there = e3;
            size_ok = (size_test ((staged u).size) (length bytes)).0 (ground arith);
            hash_ok = (hash_test ((staged u).sha256) (ext.sha256_hex bytes)).0 (ground arith);
            the_pending = refl;
          })
        ]
      ]
    ],
    λ v. ground (
      arith,
      v.id_ok,
      v.known,
      v.is_there,
      v.the_pending,
      (size_test ((staged p.u).size) (length v.bytes)).1 v.size_ok,
      (hash_test ((staged p.u).sha256) (ext.sha256_hex v.bytes)).1 v.hash_ok,
    ),
  )

  verify_all_refuses :
      (ids : List String)
      → Any (λ id. (p : Pending) → ¬ IsVerified id p) ids
      → (e : OpError) × (verify_all ext st ids ≡ err e)
  unfolding verify_all
  verify_all_refuses [] h = absurd h
  verify_all_refuses (id ∷ ids) (inl bad) = elim (Result-cases (verify ext st id)) [
    | inl (p, e) ↦ absurd (bad p ((verify_iff id p).0 e))
    | inr (f, e) ↦ (f, ground arith)
  ]
  verify_all_refuses (id ∷ ids) (inr h) =
      let (f, d) = verify_all_refuses ids h in
      elim (Result-cases (verify ext st id)) [
        | inl (p, e) ↦ (f, ground arith)
        | inr (g, e) ↦ (g, ground arith)
      ]

-- One upload among those to commit that does not pass the check, and `commit` answers with an error
-- and changes nothing: no file is moved, no upload forgotten, no cursor advanced.
pub commit_refuses :
    (ext : Externals) (place : Place) (date : String) (now : ℕ) (frame : Frame) (caller : String)
    (st : Uploads)
    → Any (λ id. (p : Pending) → ¬ IsVerified ext st id p) (ids_of frame.payload)
    → (e : OpError) × (commit ext place date now frame caller st ≡ (err e, st))
unfolding commit
commit_refuses ext place date now frame caller st h =
    let (e, d) = verify_all_refuses ext st (ids_of frame.payload) h in (e, ground arith)
