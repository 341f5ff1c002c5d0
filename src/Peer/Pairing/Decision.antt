-- ===== src/Peer/Pairing/Decision.antt =====
-- Which decision a pairing that waits gets.
use nexuspouch.Base.{
  ℕ, zero, suc, List, [], ◌∷◌, ◌++◌, append_nil, append_assoc, length, Bool, true, false, some, ◌≡◌,
  refl, sym,
}
use nexuspouch.Result.{err}
use nexuspouch.Peer.Pairing.{
  Hub, Channel, channel_at, set_channel, decide, begin_accept_wait, wait_pairing_decision,
}

-- The decisions of the user, one behind the other.
unfoldable pub decide_all : List Bool → Hub → Hub
decide_all [] hub = hub
decide_all (d ∷ ds) hub = decide_all ds ((decide d hub).1)

abbrev pub first_decision : List Bool → Bool
first_decision [] = false
first_decision (d ∷ ds) = d

channel_at-last : (cs : List Channel) (c : Channel) → channel_at (length cs) (cs ++ c ∷ []) ≡ some c
unfolding channel_at
channel_at-last [] c = refl
channel_at-last (x ∷ cs) c = channel_at-last cs c

channel_at-set :
    (n : ℕ) (new c : Channel) (cs : List Channel)
    → channel_at n cs ≡ some c
    → channel_at n (set_channel n new cs) ≡ some new
unfolding channel_at set_channel
channel_at-set n new c [] h = cc
channel_at-set zero new c (x ∷ cs) h = refl
channel_at-set (suc n) new c (x ∷ cs) h = channel_at-set n new c cs h

-- A pairing that waits for its user, with the decisions that have come.
pub record IsWaiting (n : ℕ) (bs : List Bool) (hub : Hub) : Type 0 where
  pub waits : hub.wait_accept ≡ some n
  pub the_channel : channel_at n hub.channels ≡ some (record { sent = bs; is_open = true })

decide-IsWaiting :
    (n : ℕ) (bs : List Bool) (d : Bool) (hub : Hub)
    → IsWaiting n bs hub
    → IsWaiting n (bs ++ d ∷ []) ((decide d hub).1)
unfolding decide
decide-IsWaiting n bs d hub w =
    let new : Channel = record { sent = bs ++ d ∷ []; is_open = true } in
    record {
      waits = rw (decide, w.waits, w.the_channel) w.waits;
      the_channel =
          rw (decide, w.waits, w.the_channel)
            (channel_at-set n new (record { sent = bs; is_open = true }) hub.channels
              w.the_channel);
    }

pub decide_all-IsWaiting :
    (n : ℕ) (bs ds : List Bool) (hub : Hub)
    → IsWaiting n bs hub
    → IsWaiting n (bs ++ ds) (decide_all ds hub)
unfolding decide_all
decide_all-IsWaiting n bs [] hub w = rw (append_nil bs) w
decide_all-IsWaiting n bs (d ∷ ds) hub w =
    rw (sym (append_assoc bs (d ∷ []) ds))
      (decide_all-IsWaiting n (bs ++ d ∷ []) ds ((decide d hub).1) (decide-IsWaiting n bs d hub w))

pub begin_accept_wait-IsWaiting :
    (hub : Hub) → IsWaiting ((begin_accept_wait hub).0) [] ((begin_accept_wait hub).1)
unfolding begin_accept_wait
begin_accept_wait-IsWaiting hub = record {
  waits = refl;
  the_channel = channel_at-last hub.channels (record { sent = []; is_open = true });
}

pub wait_first :
    (n : ℕ) (bs : List Bool) (hub : Hub)
    → IsWaiting n bs hub
    → (wait_pairing_decision n hub).0 ≡ first_decision bs
unfolding wait_pairing_decision
wait_first n [] hub w = rw w.the_channel refl
wait_first n (b ∷ bs) hub w = rw w.the_channel refl

decide_closed :
    (n : ℕ) (bs : List Bool) (hub : Hub) (late : Bool)
    → hub.wait_accept ≡ some n
    → channel_at n hub.channels ≡ some (record { sent = bs; is_open = false })
    → (decide late hub).0 ≡ err "decision already sent"
unfolding decide
decide_closed n bs hub late a b = rw (decide, a, b) refl

decide_late :
    (n : ℕ) (bs : List Bool) (hub : Hub) (late : Bool)
    → IsWaiting n bs hub
    → (decide late ((wait_pairing_decision n hub).1)).0 ≡ err "decision already sent"
unfolding wait_pairing_decision
decide_late n bs hub late w =
    decide_closed n [] ((wait_pairing_decision n hub).1) late
      (rw (wait_pairing_decision, w.the_channel) w.waits)
      (rw (wait_pairing_decision, w.the_channel)
        (channel_at-set n (record { sent = []; is_open = false })
          (record { sent = bs; is_open = true }) hub.channels w.the_channel))

-- However many decisions are sent to a pairing that waits, it gets the first, and `false` where none
-- is sent; once it has got it, a further decision is refused.
pub wait_pairing_decision_first :
    (ds : List Bool) (hub : Hub) (late : Bool)
    → let n = (begin_accept_wait hub).0 in
      let after = decide_all ds ((begin_accept_wait hub).1) in
      ((wait_pairing_decision n after).0 ≡ first_decision ds)
      × ((decide late ((wait_pairing_decision n after).1)).0 ≡ err "decision already sent")
wait_pairing_decision_first ds hub late =
    let n = (begin_accept_wait hub).0 in
    let start_hub = (begin_accept_wait hub).1 in
    let w = decide_all-IsWaiting n [] ds start_hub (begin_accept_wait-IsWaiting hub) in
    (wait_first n ds (decide_all ds start_hub) w, decide_late n ds (decide_all ds start_hub) late w)
