-- ===== src/Result.antt =====
-- Results of fallible code. What a failed operation has already written stays written, so an
-- operation on a state returns the state beside the error too.
use nexuspouch.Base.{String, Bool, true, false, Option, none, some, ◌≡◌, ◌⊎◌, inl, inr, refl}

pub data Result {ℓ κ} (E : Type κ) (A : Type ℓ) : Type (ℓ ⊔ κ) where
  ok : A → Result E A
  err : E → Result E A

-- `OpError` of store/mod.rs
pub record OpError : Type 0 where
  pub code : String
  pub msg : String

abbrev pub op_error : String → String → OpError
op_error code msg = record { code = code; msg = msg }

infixl 5 ◌>>=◌ ◌>>◌
abbrev pub ◌>>=◌ {ℓ κ} :
    {E : Type 0} {A : Type ℓ} {B : Type κ} → Result E A → (A → Result E B) → Result E B
ok a >>= f = f a
err e >>= f = err e

abbrev pub ◌>>◌ {ℓ κ} :
    {E : Type 0} {A : Type ℓ} {B : Type κ} → Result E A → Result E B → Result E B
m >> n = m >>= λ _. n

-- `r.map_err(f)`
abbrev pub map_err {ℓ} : {E F : Type 0} {A : Type ℓ} → (E → F) → Result E A → Result F A
map_err f (ok a) = ok a
map_err f (err e) = err (f e)

-- `o.ok_or_else(e)`
abbrev pub ok_or {ℓ} : {E : Type 0} {A : Type ℓ} → E → Option A → Result E A
ok_or e none = err e
ok_or e (some a) = ok a

pub ok_inj {ℓ} : {E : Type 0} {A : Type ℓ} (a b : A) → ◌≡◌ {A = Result E A} (ok a) (ok b) → a ≡ b
ok_inj a b h = cc

pub err-ne-ok {ℓ} :
    {E : Type 0} {A : Type ℓ} (e : E) (a : A) → ¬ (◌≡◌ {A = Result E A} (err e) (ok a))
err-ne-ok e a h = cc

pub Result-cases {ℓ} :
    {E : Type 0} {A : Type ℓ} (r : Result E A) → ((a : A) × (r ≡ ok a)) ⊎ ((e : E) × (r ≡ err e))
Result-cases (ok a) = inl (a, refl)
Result-cases (err e) = inr (e, refl)

-- `if b { return Err(e); }`
abbrev pub fail_if : {E : Type 0} → Bool → E → Result E (Unit {0})
fail_if true e = err e
fail_if false e = ok tt
