-- ===== src/Peer/Connect/Strangers.antt =====
-- Who stays unknown to the node in a run of connections.
use mathlib.Core.Path.{subst}
use nexuspouch.Base.{
  String, ℕ, zero, suc, ℤ, List, [], ◌∷◌, All, All-append, Bool, true, false, not, ◌&&◌, Option,
  none, some, Option-cases, Bool-cases, if◌then◌else◌, ◌==◌, is_empty, ◌≡◌, ◌≢◌, ◌⊎◌, inl, inr,
  refl, sym, ap, ◌∙◌, arith, eq_iff,
}
use nexuspouch.Base.Json.{Fields, str_or_empty}
use nexuspouch.Peer.Peers.{Peer, PeerFile, get, upsert}
use nexuspouch.Peer.Peers.Laws.{get-upsert, get-remove, get-merge_endpoints}
use nexuspouch.Peer.Pairing.{
  PairingRequest, Hub, decide, wait_pairing_decision, channel_at, begin_accept_wait, paired_peer,
}
use nexuspouch.Peer.Connect.{
  Own, Hello, Contacts, greet, offer, handle_reconnect, conclude, pairing_asked, merged,
}
use nexuspouch.Peer.Connect.Runs.{
  Offer, World, Event, started, decided, removed, greeted, concluded, pick, offered, step, run,
}

pick-All :
    {A : Type 0} (P : A → Type 0) (n : ℕ) (xs rest : List A) (x : A)
    → All P xs
    → pick n xs ≡ some (x, rest)
    → P x × All P rest
unfolding pick
pick-All P n [] rest x ps e = absurd (ground arith)
pick-All P zero (y ∷ xs) rest x (p, ps) e =
    subst (λ o. elim o [ none ↦ P x × All P rest | some q ↦ P (q.0) × All P (q.1) ]) e (p, ps)
pick-All P (suc n) (y ∷ xs) rest x (p, ps) e = elim (Option-cases (pick n xs)) [
  | inl d ↦ absurd (ground arith)
  | inr ((z, zs), d) ↦
      let (q, qs) = pick-All P n xs zs z ps d in
      let same : some (z, y ∷ zs) ≡ some (x, rest) = rw (pick, d) at e in
      subst (λ o. elim o [ none ↦ P x × All P rest | some r ↦ P (r.0) × All P (r.1) ]) same
        (q, (p, qs))
]

decide-code : (accept : Bool) (hub : Hub) → ((decide accept hub).1).code ≡ hub.code
unfolding decide
decide-code accept hub = elim (Option-cases hub.wait_accept) [
  | inl e ↦ rw (decide, e) refl
  | inr (n, e) ↦ elim (Option-cases (channel_at n hub.channels)) [
    | inl d ↦ rw (decide, e, d) refl
    | inr (c, d) ↦ elim (Bool-cases c.is_open) [
      | inl o ↦ rw (decide, e, d, o) refl
      | inr o ↦ rw (decide, e, d, o) refl
    ]
  ]
]

either_none : {A : Type 0} (b : Bool) (o : Option A) → o ≡ none → (if b then none else o) ≡ none
either_none true o h = refl
either_none false o h = h

module _ (own : Own) (fp : String) (IsIssued : String → Type 0) where
  -- A code that has been issued is one of those in question.
  abbrev pub Covers : Hub → Type 0
  Covers hub = (is_empty hub.code ≡ true) ⊎ IsIssued hub.code

  -- What the device in question, and the user, do not do.
  unfoldable pub IsInnocent : Event → Type 0
  IsInnocent (started code) = IsIssued code
  IsInnocent (decided accept) = Unit
  IsInnocent (removed other) = Unit
  IsInnocent (greeted hello session_id delivered) =
      (hello.fp ≢ fp)
      ⊎ ((req : PairingRequest) → hello.request ≡ some req → ¬ IsIssued req.pairing_code)
  IsInnocent (concluded n peer_id now delivered) = Unit

  abbrev IsOther : Offer → Type 0
  IsOther o = o.hello.fp ≢ fp

  pub record IsUnknown (w : World) : Type 0 where
    pub code_issued : Covers w.contacts.hub
    pub no_peer : get fp w.contacts.peers ≡ none
    pub no_offer : All IsOther w.offers

  other_upsert :
      (p : Peer) (peers : PeerFile) → p.fingerprint ≢ fp → get fp (upsert p peers) ≡ get fp peers
  other_upsert p peers ne = get-upsert fp p peers ∙ ground (arith, eq_iff p.fingerprint fp)

  conclude-IsUnknown :
      (hello : Hello) (req : PairingRequest) (n : ℕ) (peer_id : String) (now : ℤ) (delivered : Bool)
      (c : Contacts)
      → hello.fp ≢ fp
      → get fp c.peers ≡ none
      → (((conclude own hello req n peer_id now delivered c).1).hub.code ≡ "")
        × (get fp ((conclude own hello req n peer_id now delivered c).1).peers ≡ none)
  unfolding conclude
  conclude-IsUnknown hello req n peer_id now delivered c ne h =
      elim (Bool-cases ((wait_pairing_decision n c.hub).0 && delivered)) [
        | inl e ↦
            rw (conclude, e)
              (refl, other_upsert (paired_peer hello.fp hello.key req peer_id now) c.peers ne ∙ h)
        | inr e ↦ rw (conclude, e) (refl, h)
      ]

  merged_unknown :
      (other : String) (fields : Option Fields) (peers : PeerFile)
      → other ≢ fp
      → get fp peers ≡ none
      → get fp (merged own other fields peers) ≡ none
  merged_unknown other none peers ne h = h
  merged_unknown other (some m) peers ne h =
      get-merge_endpoints fp other (str_or_empty "local_endpoint" m)
        (str_or_empty "channel_endpoint" m) peers
      ∙ ground (arith, eq_iff other fp)

  -- What a greeting leaves.
  record KeepsUnknown (c : Contacts) (w : World) : Type 0 where
    same_code : w.contacts.hub.code ≡ c.hub.code
    no_peer : get fp w.contacts.peers ≡ none
    no_offer : All IsOther w.offers

  reconnect-KeepsUnknown :
      (hello : Hello) (delivered : Bool) (c : Contacts) (os : List Offer)
      → get fp c.peers ≡ none
      → All IsOther os
      → KeepsUnknown c (offered hello (handle_reconnect own hello delivered c) os)
  unfolding handle_reconnect
  reconnect-KeepsUnknown hello delivered c os h others =
      elim (Option-cases (get hello.fp c.peers)) [
        | inl e ↦
            rw (handle_reconnect, e) (record { same_code = refl; no_peer = h; no_offer = others })
        | inr (p, e) ↦
            let ne : hello.fp ≢ fp = λ same. ground (arith, h, e) in
            elim (Bool-cases delivered) [
              | inl d ↦
                  rw (handle_reconnect, e, d)
                    (record {
                      same_code = refl;
                      no_peer = merged_unknown hello.fp hello.fields c.peers ne h;
                      no_offer = others;
                    })
              | inr d ↦
                  rw (handle_reconnect, e, d)
                    (record {
                      same_code = refl;
                      no_peer = merged_unknown hello.fp hello.fields c.peers ne h;
                      no_offer = others;
                    })
            ]
      ]

  offer-KeepsUnknown :
      (hello : Hello) (req : PairingRequest) (session_id : String) (c : Contacts) (os : List Offer)
      → (hello.fp ≢ fp) ⊎ (req.pairing_code ≢ c.hub.code)
      → get fp c.peers ≡ none
      → All IsOther os
      → KeepsUnknown c (offered hello (offer own hello req session_id c) os)
  unfolding offer begin_accept_wait
  offer-KeepsUnknown hello req session_id c os innocent h others =
      elim (Bool-cases (req.pairing_code == c.hub.code)) [
        | inr e ↦ rw (offer, e) (record { same_code = refl; no_peer = h; no_offer = others })
        | inl e ↦
            let same : req.pairing_code ≡ c.hub.code = (eq_iff req.pairing_code c.hub.code).0 e in
            let ne : hello.fp ≢ fp = elim innocent [ inl ne ↦ ne | inr d ↦ absurd (d same) ] in
            rw (offer, e)
              (record {
                same_code = refl;
                no_peer = h;
                no_offer = All-append IsOther os _ others (ne, tt);
              })
      ]

  greet-asked :
      (hello : Hello) (session_id : String) (delivered : Bool) (c : Contacts) (req : PairingRequest)
      → pairing_asked c.hub.code hello.request ≡ some req
      → greet own hello session_id delivered c ≡ offer own hello req session_id c
  unfolding greet
  greet-asked hello session_id delivered c req e = rw (greet, e) refl

  greet-not_asked :
      (hello : Hello) (session_id : String) (delivered : Bool) (c : Contacts)
      → pairing_asked c.hub.code hello.request ≡ none
      → greet own hello session_id delivered c ≡ handle_reconnect own hello delivered c
  unfolding greet
  greet-not_asked hello session_id delivered c e = rw (greet, e) refl

  wrong_code :
      (code : String) (hub : Hub)
      → Covers hub
      → ¬ IsIssued code
      → is_empty hub.code ≡ false
      → code ≢ hub.code
  wrong_code code hub covers none_issued some_code same = elim covers [
    | inl e ↦ absurd (ground arith)
    | inr issued ↦ none_issued (subst IsIssued (sym same) issued)
  ]

  greet-KeepsUnknown :
      (hello : Hello) (session_id : String) (delivered : Bool) (c : Contacts) (os : List Offer)
      → IsInnocent (greeted hello session_id delivered)
      → Covers c.hub
      → get fp c.peers ≡ none
      → All IsOther os
      → KeepsUnknown c (offered hello (greet own hello session_id delivered c) os)
  unfolding pairing_asked IsInnocent
  greet-KeepsUnknown hello session_id delivered c os innocent covers h others =
      elim (Option-cases hello.request) [
        | inl e ↦
            rw (greet-not_asked hello session_id delivered c (rw e refl))
              (reconnect-KeepsUnknown hello delivered c os h others)
        | inr (req, e) ↦
            elim (Bool-cases (not (is_empty c.hub.code) && not (is_empty req.pairing_code))) [
              | inr d ↦
                  rw (greet-not_asked hello session_id delivered c (rw (e, pairing_asked, d) refl))
                    (reconnect-KeepsUnknown hello delivered c os h others)
              | inl d ↦
                  let some_code : is_empty c.hub.code ≡ false = ground arith in
                  rw (greet-asked hello session_id delivered c req (rw (e, pairing_asked, d) refl))
                    (offer-KeepsUnknown hello req session_id c os
                      (elim innocent [
                        | inl ne ↦ inl ne
                        | inr f ↦ inr (wrong_code req.pairing_code c.hub covers (f req e) some_code)
                      ])
                      h others)
            ]
      ]

  step-IsUnknown : (e : Event) (w : World) → IsInnocent e → IsUnknown w → IsUnknown (step own e w)
  unfolding step IsInnocent
  step-IsUnknown (started code) w innocent u = record {
    code_issued = inr innocent;
    no_peer = u.no_peer;
    no_offer = u.no_offer;
  }
  step-IsUnknown (decided accept) w innocent u = record {
    code_issued = rw (decide-code accept w.contacts.hub) (u.code_issued);
    no_peer = u.no_peer;
    no_offer = u.no_offer;
  }
  step-IsUnknown (removed other) w innocent u = record {
    code_issued = u.code_issued;
    no_peer = (get-remove fp other w.contacts.peers).1 ∙ either_none (other == fp) _ u.no_peer;
    no_offer = u.no_offer;
  }
  step-IsUnknown (greeted hello session_id delivered) w innocent u =
      let k =
        greet-KeepsUnknown hello session_id delivered w.contacts w.offers innocent u.code_issued
          u.no_peer u.no_offer in
      record {
        code_issued = rw k.same_code u.code_issued;
        no_peer = k.no_peer;
        no_offer = k.no_offer;
      }
  step-IsUnknown (concluded n peer_id now delivered) w innocent u =
      elim (Option-cases (pick n w.offers)) [
        | inl e ↦ rw (step, e) u
        | inr ((o, rest), e) ↦
            let (other, others) = pick-All IsOther n w.offers rest o u.no_offer e in
            let (cleared, unknown) =
              conclude-IsUnknown o.hello o.request o.receiver peer_id now delivered w.contacts other
                u.no_peer in
            rw (step, e)
              (record {
                code_issued = inl (ap is_empty cleared);
                no_peer = unknown;
                no_offer = others;
              })
      ]

  -- A device that the node does not know, that has no connection waiting, and that presents at each
  -- of its connections no code or none of those that have been issued, is not known after any run
  -- of connections, decisions and removals either, whatever the user decides and whatever other
  -- devices do.
  pub run-IsUnknown :
      (es : List Event) (w : World) → All IsInnocent es → IsUnknown w → IsUnknown (run own es w)
  unfolding run
  run-IsUnknown [] w innocent u = u
  run-IsUnknown (e ∷ es) w (i, is) u = run-IsUnknown es (step own e w) is (step-IsUnknown e w i u)
