-- ===== src/Store/Dispatch/Refines.antt =====
-- Seen from outside, the store is a number for each device that its own messages raise. This is the
-- abstract view of the cursors, and that any run of messages implements it.
use mathlib.Core.Path.{subst, fun_ext}
use nexuspouch.Base.{
  String, ℤ, max_ℤ, in_i64, List, [], ◌∷◌, ◌++◌, All, Any, All-append, All-map, Any-append_left,
  true, Bool, if◌then◌else◌, ◌==◌, ◌≡◌, inl, inr, refl, sym, ap, Bool-cases, ◌∙◌, eq_iff,
}
use nexuspouch.Base.Dict.{Dict}
use nexuspouch.Result.{Result, ok, err, OpError, Result-cases}
use nexuspouch.Protocol.{Frame, parse_op}
use nexuspouch.Store.Cursors.{CursorFile, advance, applied_seq, load_locked}
use nexuspouch.Store.Cursors.Laws.{MayAdvance, cursor_of, applied_seq-advance}
use nexuspouch.Store.Externals.{Externals}
use nexuspouch.Store.Local.{Local, Moment}
use nexuspouch.Store.Paths.{Place}
use nexuspouch.Store.Dispatch.{handle}
use nexuspouch.Store.Dispatch.Guards.{Handled, handle-Handled}
use nexuspouch.Store.Dispatch.Kept.{dispatch-MayAdvance}

-- A message as it comes in.
pub record Message : Type 0 where
  pub frame : Frame
  pub caller : String
  pub trust : String
  pub loopback : Bool
  pub at : Moment

-- What a device's cursor is read as; an error where the file cannot be read.
abbrev pub View : Type 0
View = String → Result OpError ℤ

abbrev pub view : Local → View
view st device = applied_seq device st.disk.cursors

-- The abstract operation: one device's number is raised.
pub record Raise : Type 0 where
  pub device : String
  pub upto : ℤ

abbrev raised : Result OpError ℤ → ℤ → Result OpError ℤ
raised (ok n) upto = ok (max_ℤ n upto)
raised (err e) upto = err e

abbrev pub raise : Raise → View → View
raise r v device = if r.device == device then raised (v device) r.upto else v device

unfoldable pub raise_all : List Raise → View → View
raise_all [] v = v
raise_all (r ∷ rs) v = raise_all rs (raise r v)

advance-raises_readable :
    (device j : String) (upto : ℤ) (file : CursorFile) (m : Dict ℤ)
    → in_i64 upto ≡ true
    → load_locked file ≡ ok m
    → applied_seq j (advance device upto file).1
      ≡ (if device == j then raised (applied_seq j file) upto else applied_seq j file)
unfolding applied_seq
advance-raises_readable device j upto file m fits e =
    (applied_seq-advance device upto fits file m e j).1 ∙ elim (Bool-cases (device == j)) [
      | inr d ↦ rw d refl
      | inl d ↦
          let same : device ≡ j = (eq_iff device j).0 d in
          rw (d, e) (ap (λ k. ok (max_ℤ (cursor_of k m) upto)) same)
    ]

-- An advance of a cursor file that cannot be read leaves it unreadable.
advance-raises :
    (device j : String) (upto : ℤ) (file : CursorFile)
    → in_i64 upto ≡ true
    → applied_seq j (advance device upto file).1
      ≡ (if device == j then raised (applied_seq j file) upto else applied_seq j file)
advance-raises device j upto file fits = elim (Result-cases (load_locked file)) [
  | inl (m, e) ↦ advance-raises_readable device j upto file m fits e
  | inr (f, e) ↦
      let same : (advance device upto file).1 ≡ file = unfold advance in rw (advance, e) refl in
      let unread : applied_seq j file ≡ err f = unfold applied_seq in rw (applied_seq, e) refl in
      rw same (
        unread ∙ elim (Bool-cases (device == j)) [
          | inl d ↦ rw (d, unread) refl
          | inr d ↦ rw (d, unread) refl
        ])
]

module _ (ext : Externals) (place : Place) where
  abbrev pub after : Message → Local → Local
  after m st = (handle ext place m.frame m.caller m.trust m.loopback m.at st).1

  unfoldable pub run : List Message → Local → Local
  run [] st = st
  run (m ∷ ms) st = run ms (after m st)

  handle-MayAdvance :
      (m : Message) (st : Local) → MayAdvance m.caller st.disk.cursors ((after m st).disk.cursors)
  handle-MayAdvance m st =
      elim (handle-Handled ext place m.frame m.caller m.trust m.loopback m.at st) [
        | Handled.by_acl v d e same ↦ inl (ap (λ a. (a.1).disk.cursors) same)
        | Handled.by_fence e permits fenced f same ↦ inl (ap (λ a. (a.1).disk.cursors) same)
        | Handled.carried_out t permits free same ↦
            subst (λ a. MayAdvance m.caller st.disk.cursors ((a.1).disk.cursors)) (sym same)
              (dispatch-MayAdvance ext place m.frame m.caller m.at st (parse_op m.frame.op))
      ]

  -- A raise is for the sender of the message.
  abbrev pub IsFrom : List Message → Raise → Type 0
  IsFrom ms r = Any (λ m. m.caller ≡ r.device) ms

  after-raises :
      (m : Message) (st : Local)
      → (rs : List Raise) × (view (after m st) ≡ raise_all rs (view st)) × All (IsFrom (m ∷ [])) rs
  unfolding raise_all
  after-raises m st = elim (handle-MayAdvance m st) [
    | inl e ↦ ([], ap (λ c j. applied_seq j c) e, tt)
    | inr (upto, fits, e) ↦ (
      record { device = m.caller; upto = upto } ∷ [],
      ap (λ c j. applied_seq j c) e
          ∙ fun_ext (λ j. advance-raises m.caller j upto st.disk.cursors fits),
      (inl refl, tt),
    )
  ]

  raise_all-append :
      (rs ss : List Raise) (v : View) → raise_all (rs ++ ss) v ≡ raise_all ss (raise_all rs v)
  unfolding raise_all
  raise_all-append [] ss v = refl
  raise_all-append (r ∷ rs) ss v = raise_all-append rs ss (raise r v)

  -- Any run of messages does to the cursors, as they are read, what some raises of single devices do,
  -- each of them for the sender of one of the messages: no message moves a cursor back, or moves
  -- the cursor of another device.
  pub run_refines :
      (ms : List Message) (st : Local)
      → (rs : List Raise) × (view (run ms st) ≡ raise_all rs (view st)) × All (IsFrom ms) rs
  unfolding run raise_all
  run_refines [] st = ([], refl, tt)
  run_refines (m ∷ ms) st =
      let (first, e, from_m) = after-raises m st in
      let (rest, f, from_ms) = run_refines ms (after m st) in
      (
        first ++ rest,
        f ∙ ap (raise_all rest) e ∙ sym (raise_all-append first rest (view st)),
        All-append (IsFrom (m ∷ ms)) first rest
            (All-map (IsFrom (m ∷ [])) (IsFrom (m ∷ ms)) (λ r. Any-append_left _ (m ∷ []) ms) first
              from_m)
            (All-map (IsFrom ms) (IsFrom (m ∷ ms)) (λ r h. inr h) rest from_ms),
      )
