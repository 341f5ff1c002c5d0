-- ===== src/Tests/Session.antt =====
-- A responder over a cipher that changes nothing.
use nexuspouch.Base.{[], ◌∷◌, false, some, none, ◌≡◌, inl, refl}
use nexuspouch.Result.{ok, err}
use nexuspouch.Noise.Session.{Bytes, Snow, Session, new_responder, encrypt}
use nexuspouch.Noise.Session.Phases.{Call, IsPhase, run, run-IsPhase}

abbrev plain : Snow Bytes Bytes
plain = record {
  build_initiator = λ private peer. ok peer;
  build_responder = λ private. ok private;
  write_message = λ hs m n. (ok m, hs);
  read_message = λ hs m n. (ok m, m);
  get_remote_static = λ hs. some hs;
  into_transport_mode = λ hs. ok hs;
  write_transport = λ t m n. (ok m, t);
  read_transport = λ t m n. (ok m, t);
}

abbrev responder : Session Bytes Bytes
responder = record {
  initiator = false;
  handshake = some (7 ∷ []);
  transport = none;
  peer_pub = none;
}

made : new_responder plain (7 ∷ []) ≡ ok responder
unfolding new_responder
made = refl

run-IsPhase_example : IsPhase (
    run plain
      (Call.seal (1 ∷ [])
        ∷ Call.hello_in (2 ∷ [])
        ∷ Call.answer_out (3 ∷ [])
        ∷ Call.seal (4 ∷ [])
        ∷ [])
      responder)
run-IsPhase_example =
    run-IsPhase plain
      (Call.seal (1 ∷ [])
        ∷ Call.hello_in (2 ∷ [])
        ∷ Call.answer_out (3 ∷ [])
        ∷ Call.seal (4 ∷ [])
        ∷ [])
      (7 ∷ []) responder (inl made)

too_early : (encrypt plain (1 ∷ []) responder).0 ≡ err "session not ready"
unfolding encrypt
too_early = refl
