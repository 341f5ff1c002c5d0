-- ===== src/Store/Seeds.antt =====
-- `seed_auth` of `Local` in src/store/mod.rs: callers that may read everything to seed a mirror.
-- An `Instant` is a number of seconds on the node's monotonic clock.
use nexuspouch.Base.{
  String, ℕ, ◌+◌, ◌*◌, ◌<◌, Bool, true, false, none, some, ltb, if◌then◌else◌, is_empty,
  Option-cases, inl, inr, ◌≡◌, ◌↔◌, arith, ◌==◌,
}
use nexuspouch.Base.Dict
use nexuspouch.Base.Dict.{Dict}

abbrev pub Seeds : Type 0
Seeds = Dict ℕ

unfoldable pub authorize_seed : String → ℕ → Seeds → Seeds
authorize_seed caller now seeds =
    if is_empty caller then seeds else Dict.insert caller (now + 15 * 60) seeds

-- An entry that has run out is dropped.
unfoldable pub is_seed_authorized : String → ℕ → Seeds → Bool × Seeds
is_seed_authorized caller now seeds = elim (Dict.lookup caller seeds) [
  | none ↦ (false, seeds)
  | some exp ↦ if ltb now exp then (true, seeds) else (false, Dict.remove caller seeds)
]

-- A caller is let through exactly while its last authorisation is less than 15 minutes old; another
-- caller's authorisation does not matter.
pub is_seed_authorized-authorize_seed :
    (caller other : String) (now later : ℕ) (seeds : Seeds)
    → is_empty caller ≡ false
    → (is_seed_authorized other later (authorize_seed caller now seeds)).0 ≡ (
        if caller == other
        then ltb later (now + 15 * 60)
        else (is_seed_authorized other later seeds).0)
unfolding is_seed_authorized authorize_seed
is_seed_authorized-authorize_seed caller other now later seeds h =
    ground (arith, Dict.lookup-insert caller other (now + 15 * 60) seeds)

pub is_seed_authorized_iff :
    (caller : String) (now : ℕ) (seeds : Seeds)
    → ((is_seed_authorized caller now seeds).0 ≡ true)
      ↔ ((exp : ℕ) × (Dict.lookup caller seeds ≡ some exp) × (now < exp))
unfolding is_seed_authorized
is_seed_authorized_iff caller now seeds = elim (Option-cases (Dict.lookup caller seeds)) [
  | inl e ↦ (λ h. absurd (ground arith), λ (x, f, g). ground arith)
  | inr (exp, e) ↦ (λ h. (exp, e, ground arith), λ (x, f, g). ground arith)
]
