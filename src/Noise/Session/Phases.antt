-- ===== src/Noise/Session/Phases.antt =====
-- The phases of a session.
use mathlib.Core.Path.{subst}
use nexuspouch.Base.{
  String, ◌+◌, List, [], ◌∷◌, length, none, some, Option-cases, Bool-cases, ◌≡◌, refl, ◌⊎◌, inl,
  inr,
}
use nexuspouch.Result.{Result, ok, err, Result-cases, ok_inj, err-ne-ok}
use nexuspouch.Noise.Session.{
  Bytes, Snow, Session, write_handshake1, read_handshake1, write_handshake2, read_handshake2,
  encrypt, decrypt, finished, taken, new_initiator, new_responder,
}

-- The calls that change a session.
pub data Call : Type 0 where
  hello_out hello_in answer_out answer_in seal open_sealed : Bytes → Call

module _ {H T : Type 0} (snow : Snow H T) where
  unfoldable pub call : Call → Session H T → Session H T
  call (Call.hello_out b) s = (write_handshake1 snow b s).1
  call (Call.hello_in b) s = (read_handshake1 snow b s).1
  call (Call.answer_out b) s = (write_handshake2 snow b s).1
  call (Call.answer_in b) s = (read_handshake2 snow b s).1
  call (Call.seal b) s = (encrypt snow b s).1
  call (Call.open_sealed b) s = (decrypt snow b s).1

  unfoldable pub run : List Call → Session H T → Session H T
  run [] s = s
  run (c ∷ cs) s = run cs (call c s)

-- A session has a handshake in progress, or a transport and the key of its peer, or neither
-- handshake nor transport.
pub data IsPhase {H T : Type 0} (s : Session H T) : Type 0 where
  shaking : (hs : H) → s.handshake ≡ some hs → s.transport ≡ none → IsPhase s
  ready :
      (t : T) (peer : Bytes)
      → s.handshake ≡ none
      → s.transport ≡ some t
      → s.peer_pub ≡ some peer
      → IsPhase s
  over : s.handshake ≡ none → s.transport ≡ none → IsPhase s

pub record IsReady {H T : Type 0} (peer : Bytes) (s : Session H T) : Type 0 where
  pub transport_of : T
  pub no_handshake : s.handshake ≡ none
  pub has_transport : s.transport ≡ some transport_of
  pub knows : s.peer_pub ≡ some peer

module _ {H T : Type 0} (snow : Snow H T) (b : Bytes) (s : Session H T) where
  write_handshake1-IsPhase :
      (hs : H)
      → s.handshake ≡ some hs
      → s.transport ≡ none
      → IsPhase ((write_handshake1 snow b s).1)
  unfolding write_handshake1
  write_handshake1-IsPhase hs e n = elim (Bool-cases s.initiator) [
    | inr i ↦ rw (write_handshake1, i) (IsPhase.shaking hs e n)
    | inl i ↦ rw (write_handshake1, i, e) (IsPhase.shaking _ refl n)
  ]

  read_handshake1-IsPhase :
      (hs : H) → s.handshake ≡ some hs → s.transport ≡ none → IsPhase ((read_handshake1 snow b s).1)
  unfolding read_handshake1
  read_handshake1-IsPhase hs e n = elim (Bool-cases s.initiator) [
    | inl i ↦ rw (read_handshake1, i) (IsPhase.shaking hs e n)
    | inr i ↦ elim (Result-cases ((snow.read_message hs b (length b)).0)) [
      | inr (f, d) ↦ rw (read_handshake1, i, e, d) (IsPhase.shaking _ refl n)
      | inl (p, d) ↦
          elim (Option-cases (snow.get_remote_static ((snow.read_message hs b (length b)).1))) [
            | inl k ↦ rw (read_handshake1, i, e, d, k) (IsPhase.shaking _ refl n)
            | inr (peer, k) ↦ rw (read_handshake1, i, e, d, k) (IsPhase.shaking _ refl n)
          ]
    ]
  ]

  finished-IsPhase :
      (r : Result String Bytes × H)
      → s.handshake ≡ none
      → s.transport ≡ none
      → IsPhase ((finished snow s r).1)
  finished-IsPhase (err e, hs) gone n = IsPhase.over gone n
  finished-IsPhase (ok bytes, hs) gone n = elim (Option-cases s.peer_pub) [
    | inl k ↦ rw k (IsPhase.over gone n)
    | inr (peer, k) ↦ elim (Result-cases (snow.into_transport_mode hs)) [
      | inr (f, d) ↦ rw (k, d) (IsPhase.over gone n)
      | inl (t, d) ↦ rw (k, d) (IsPhase.ready t peer gone refl refl)
    ]
  ]

module _ {H T : Type 0} (snow : Snow H T) (b : Bytes) (s : Session H T) where
  finished_taken-IsPhase :
      (r : Result String Bytes × H)
      → s.transport ≡ none
      → IsPhase ((finished snow (taken snow s) r).1)
  finished_taken-IsPhase r n = finished-IsPhase snow b (taken snow s) r refl n

  write_handshake2-IsPhase :
      (hs : H)
      → s.handshake ≡ some hs
      → s.transport ≡ none
      → IsPhase ((write_handshake2 snow b s).1)
  unfolding write_handshake2
  write_handshake2-IsPhase hs e n = elim (Bool-cases s.initiator) [
    | inl i ↦ rw (write_handshake2, i) (IsPhase.shaking hs e n)
    | inr i ↦
        rw (write_handshake2, i, e)
          (finished_taken-IsPhase (snow.write_message hs b (length b + 256)) n)
  ]

  read_handshake2-IsPhase :
      (hs : H) → s.handshake ≡ some hs → s.transport ≡ none → IsPhase ((read_handshake2 snow b s).1)
  unfolding read_handshake2
  read_handshake2-IsPhase hs e n = elim (Bool-cases s.initiator) [
    | inr i ↦ rw (read_handshake2, i) (IsPhase.shaking hs e n)
    | inl i ↦
        rw (read_handshake2, i, e) (finished_taken-IsPhase (snow.read_message hs b (length b)) n)
  ]

  -- Without a handshake in progress the four calls of the handshake do nothing.
  idle_handshake :
      s.handshake ≡ none
      → ((write_handshake1 snow b s).1 ≡ s)
        × ((read_handshake1 snow b s).1 ≡ s)
        × ((write_handshake2 snow b s).1 ≡ s)
        × ((read_handshake2 snow b s).1 ≡ s)
  unfolding write_handshake1 read_handshake1 write_handshake2 read_handshake2
  idle_handshake gone = elim (Bool-cases s.initiator) [
    | inl i ↦ (
      simp (write_handshake1, i, gone),
      simp (read_handshake1, i),
      simp (write_handshake2, i),
      simp (read_handshake2, i, gone),
    )
    | inr i ↦ (
      simp (write_handshake1, i),
      simp (read_handshake1, i, gone),
      simp (write_handshake2, i, gone),
      simp (read_handshake2, i),
    )
  ]

  no_transport : s.transport ≡ none → ((encrypt snow b s).1 ≡ s) × ((decrypt snow b s).1 ≡ s)
  unfolding encrypt decrypt
  no_transport n = (simp (encrypt, n), simp (decrypt, n))

  with_transport-IsReady :
      (peer : Bytes)
      → IsReady peer s
      → IsReady peer ((encrypt snow b s).1) × IsReady peer ((decrypt snow b s).1)
  unfolding encrypt decrypt
  with_transport-IsReady peer r = (
    rw (encrypt, r.has_transport)
        (record {
          transport_of = _;
          no_handshake = r.no_handshake;
          has_transport = refl;
          knows = r.knows;
        }),
    rw (decrypt, r.has_transport)
        (record {
          transport_of = _;
          no_handshake = r.no_handshake;
          has_transport = refl;
          knows = r.knows;
        }),
  )

module _ {H T : Type 0} (snow : Snow H T) where
  call-IsReady :
      (c : Call) (peer : Bytes) (s : Session H T) → IsReady peer s → IsReady peer (call snow c s)
  unfolding call
  call-IsReady (Call.hello_out b) peer s r = rw ((idle_handshake snow b s r.no_handshake).0) r
  call-IsReady (Call.hello_in b) peer s r = rw ((idle_handshake snow b s r.no_handshake).1) r
  call-IsReady (Call.answer_out b) peer s r = rw ((idle_handshake snow b s r.no_handshake).2) r
  call-IsReady (Call.answer_in b) peer s r = rw ((idle_handshake snow b s r.no_handshake).3) r
  call-IsReady (Call.seal b) peer s r = (with_transport-IsReady snow b s peer r).0
  call-IsReady (Call.open_sealed b) peer s r = (with_transport-IsReady snow b s peer r).1

  call-over :
      (c : Call) (s : Session H T) → s.handshake ≡ none → s.transport ≡ none → call snow c s ≡ s
  unfolding call
  call-over (Call.hello_out b) s gone n = (idle_handshake snow b s gone).0
  call-over (Call.hello_in b) s gone n = (idle_handshake snow b s gone).1
  call-over (Call.answer_out b) s gone n = (idle_handshake snow b s gone).2
  call-over (Call.answer_in b) s gone n = (idle_handshake snow b s gone).3
  call-over (Call.seal b) s gone n = (no_transport snow b s n).0
  call-over (Call.open_sealed b) s gone n = (no_transport snow b s n).1

  call-shaking :
      (c : Call) (s : Session H T) (hs : H)
      → s.handshake ≡ some hs
      → s.transport ≡ none
      → IsPhase (call snow c s)
  unfolding call
  call-shaking (Call.hello_out b) s hs e n = write_handshake1-IsPhase snow b s hs e n
  call-shaking (Call.hello_in b) s hs e n = read_handshake1-IsPhase snow b s hs e n
  call-shaking (Call.answer_out b) s hs e n = write_handshake2-IsPhase snow b s hs e n
  call-shaking (Call.answer_in b) s hs e n = read_handshake2-IsPhase snow b s hs e n
  call-shaking (Call.seal b) s hs e n = rw ((no_transport snow b s n).0) (IsPhase.shaking hs e n)
  call-shaking (Call.open_sealed b) s hs e n =
      rw ((no_transport snow b s n).1) (IsPhase.shaking hs e n)

  call-IsPhase : (c : Call) (s : Session H T) → IsPhase s → IsPhase (call snow c s)
  call-IsPhase c s (IsPhase.shaking hs e n) = call-shaking c s hs e n
  call-IsPhase c s (IsPhase.over gone n) = rw (call-over c s gone n) (IsPhase.over gone n)
  call-IsPhase c s (IsPhase.ready t peer gone e k) =
      let r =
        call-IsReady c peer s
          (record { transport_of = t; no_handshake = gone; has_transport = e; knows = k }) in
      IsPhase.ready r.transport_of peer r.no_handshake r.has_transport r.knows

  run-IsPhase_of : (cs : List Call) (s : Session H T) → IsPhase s → IsPhase (run snow cs s)
  unfolding run
  run-IsPhase_of [] s p = p
  run-IsPhase_of (c ∷ cs) s p = run-IsPhase_of cs (call snow c s) (call-IsPhase c s p)

  -- Once a session is ready, with the key of its peer, it stays so whatever is called, and the key
  -- stays the same.
  pub run-IsReady :
      (cs : List Call) (peer : Bytes) (s : Session H T)
      → IsReady peer s
      → IsReady peer (run snow cs s)
  unfolding run
  run-IsReady [] peer s r = r
  run-IsReady (c ∷ cs) peer s r = run-IsReady cs peer (call snow c s) (call-IsReady c peer s r)

  -- A session that has been made for either side has, after any calls in any order, a handshake in
  -- progress and no transport; or no handshake, a transport and the key of its peer; or, after a
  -- failed end of the handshake, neither of them.
  pub run-IsPhase :
      (cs : List Call) (private : Bytes) (s : Session H T)
      → (new_responder snow private ≡ ok s)
        ⊎ ((peer : Bytes) × (new_initiator snow private peer ≡ ok s))
      → IsPhase (run snow cs s)
  unfolding new_responder new_initiator
  run-IsPhase cs private s (inl made) = elim (Result-cases (snow.build_responder private)) [
    | inr (e, d) ↦ absurd (err-ne-ok e s (rw (new_responder, d) at made))
    | inl (hs, d) ↦
        let same = ok_inj _ s (rw (new_responder, d) at made) in
        run-IsPhase_of cs s (subst IsPhase same (IsPhase.shaking hs refl refl))
  ]
  run-IsPhase cs private s (inr (peer, made)) =
      elim (Result-cases (snow.build_initiator private peer)) [
        | inr (e, d) ↦ absurd (err-ne-ok e s (rw (new_initiator, d) at made))
        | inl (hs, d) ↦
            let same = ok_inj _ s (rw (new_initiator, d) at made) in
            run-IsPhase_of cs s (subst IsPhase same (IsPhase.shaking hs refl refl))
      ]
