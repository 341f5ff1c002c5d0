-- ===== src/Admin/Auth.antt =====
-- src/admin/auth.rs, and `auth_json` and `store_handler` of src/admin/mod.rs.
use Prim.Native.Char.{code}
use nexuspouch.Base.{
  String, ℕ, Bool, true, false, ◌&&◌, ◌||◌, not, Option, none, some, if◌then◌else◌, ◌==◌, is_empty,
  is_code, leb, eqb, ◌≡◌, ◌↔◌, ◌⊎◌, refl, sym, ap, ◌∙◌, arith, eq_iff, eq_refl, false≢true, inl,
  inr, Option-cases, Bool-cases,
}
use nexuspouch.Base.Dict
use nexuspouch.Base.Dict.{Dict}
use nexuspouch.Base.Json.{Fields, ◌>>=?◌, unwrap_or}
use nexuspouch.Result.{Result, ok, err, OpError, op_error}
use nexuspouch.Protocol.{from_parts, trust_owner}
use nexuspouch.Store.Externals.{Externals}
use nexuspouch.Store.Local.{Local, Moment}
use nexuspouch.Store.Paths.{Place}
use nexuspouch.Store.Dispatch.{handle}
use nexuspouch.Store.Browse.Recycle.{split_last}

-- The headers whose values can be read as texts, under their lower-case names.
abbrev pub HeaderMap : Type 0
HeaderMap = Dict String

-- `s.strip_prefix(p)` of a text
unfoldable pub strip_start : String → String → Option String
strip_start String.[] s = some s
strip_start (String.◌∷◌ c p) String.[] = none
strip_start (String.◌∷◌ c p) (String.◌∷◌ d s) =
    let rest = strip_start p s in if is_code (code c) d then rest else none

module _ (drop_it : ℕ → Bool) where
  unfoldable pub trim_left : String → String
  trim_left String.[] = String.[]
  trim_left (String.◌∷◌ c s) =
      let rest = trim_left s in if drop_it (code c) then rest else String.◌∷◌ c s

  unfoldable pub trim_right : String → String
  trim_right String.[] = String.[]
  trim_right (String.◌∷◌ c s) =
      let rest = trim_right s in
      if is_empty rest && drop_it (code c) then String.[] else String.◌∷◌ c rest

  abbrev pub trim_matches : String → String
  trim_matches s = trim_right (trim_left s)

-- A header holds visible characters, spaces and tabs.
abbrev is_space : ℕ → Bool
is_space c = (leb 9 c && leb c 13) || eqb c 32

abbrev or_else : Option String → Option String → Option String
or_else none b = b
or_else (some a) b = some a

unfoldable pub bearer_token : HeaderMap → Option String
bearer_token headers = Dict.lookup "authorization" headers >>=? λ h.
    or_else (strip_start "Bearer " h) (strip_start "bearer " h) >>=? λ rest.
    some (trim_matches is_space rest)

unfoldable pub authorize_headers : String → HeaderMap → Option String → Bool
authorize_headers token headers query_token =
    if not (is_empty token)
    then unwrap_or ""
        (or_else (or_else (bearer_token headers) (Dict.lookup "x-admin-token" headers)) query_token)
      == token
    else true

abbrev host_of : String → Option (String × String) → String
host_of addr none = addr
host_of addr (some (h, port)) = h

unfoldable pub is_loopback : String → Bool
is_loopback addr =
    let host = trim_matches (λ c. eqb c b'[' || eqb c b']') (host_of addr (split_last b':' addr)) in
    host == "127.0.0.1" || host == "::1" || host == "localhost"

-- What a request over HTTP is answered with.
pub data Response : Type 0 where
  json : Fields → Response
  -- 400, with the message of the error
  bad_request : String → Response
  -- 401
  unauthorized : Response

abbrev pub to_response : Result OpError Fields → Response
to_response (ok v) = json v
to_response (err e) = bad_request e.msg

-- A handler that changes the state runs only where the token is right.
unfoldable pub auth_json {ℓ} :
    {S : Type ℓ}
    → String
    → HeaderMap
    → Option String
    → (S → Result OpError Fields × S)
    → S
    → Response × S
auth_json token headers query_token f st =
    let (r, st') = f st in
    if not (authorize_headers token headers query_token)
    then (unauthorized, st)
    else (to_response r, st')

module _ (ext : Externals) (place : Place) where
  -- Without a right token it is for a caller on the same machine only.
  unfoldable pub store_handler :
      String → HeaderMap → Bool → String → Fields → Moment → Local → Result OpError Fields × Local
  store_handler token headers remote_loopback op payload at st =
      if not (authorize_headers token headers none) && not remote_loopback
      then (err (op_error "unauthorized" "unauthorized"), st)
      else handle ext place (from_parts op payload) place.device_id trust_owner remote_loopback at
          st

-- What the client has presented: the bearer token, or else the header of its own, or else the
-- token of the query.
pub data Presents (headers : HeaderMap) (query_token : Option String) (token : String)
    : Type 0 where
  bearer : bearer_token headers ≡ some token → Presents headers query_token token
  own_header :
      bearer_token headers ≡ none
      → Dict.lookup "x-admin-token" headers ≡ some token
      → Presents headers query_token token
  in_query :
      bearer_token headers ≡ none
      → Dict.lookup "x-admin-token" headers ≡ none
      → query_token ≡ some token
      → Presents headers query_token token

is_empty_iff_eq : (s : String) → is_empty s ≡ true → s ≡ ""
is_empty_iff_eq String.[] h = refl
is_empty_iff_eq (String.◌∷◌ c s) h = absurd (ground arith)

either : (b : Bool) → (if b then true else true) ≡ true
either true = refl
either false = refl

module _ (token : String) (headers : HeaderMap) (query_token : Option String) where
  authorize_headers_sound :
      is_empty token ≡ false
      → authorize_headers token headers query_token ≡ true
      → Presents headers query_token token
  unfolding authorize_headers
  authorize_headers_sound some_token h = elim (Option-cases (bearer_token headers)) [
    | inr (t, e) ↦
        Presents.bearer
          (e ∙ ap some ((eq_iff t token).0 (rw (authorize_headers, some_token, e) at h)))
    | inl e ↦ elim (Option-cases (Dict.lookup "x-admin-token" headers)) [
      | inr (t, d) ↦
          Presents.own_header e
            (d ∙ ap some ((eq_iff t token).0 (rw (authorize_headers, some_token, e, d) at h)))
      | inl d ↦ elim (Option-cases query_token) [
        | inr (t, c) ↦
            Presents.in_query e d
              (c ∙ ap some ((eq_iff t token).0 (rw (authorize_headers, some_token, e, d, c) at h)))
        | inl c ↦ absurd (
            false≢true (
              sym some_token
              ∙ ap is_empty
                  (sym ((eq_iff "" token).0 (rw (authorize_headers, some_token, e, d, c) at h)))))
      ]
    ]
  ]

  authorize_headers_complete :
      Presents headers query_token token → authorize_headers token headers query_token ≡ true
  unfolding authorize_headers
  authorize_headers_complete (Presents.bearer e) =
      rw (authorize_headers, e, eq_refl token) (either (not (is_empty token)))
  authorize_headers_complete (Presents.own_header e d) =
      rw (authorize_headers, e, d, eq_refl token) (either (not (is_empty token)))
  authorize_headers_complete (Presents.in_query e d c) =
      rw (authorize_headers, e, d, c, eq_refl token) (either (not (is_empty token)))

  -- A request is let through exactly when no token is set, or when the token is what the client
  -- presents: its bearer token, or where there is none its `x-admin-token` header, or where there is
  -- neither the token of the query.
  pub authorize_headers_iff :
      (authorize_headers token headers query_token ≡ true)
      ↔ ((token ≡ "") ⊎ Presents headers query_token token)
  unfolding authorize_headers
  authorize_headers_iff = (
    λ h. elim (Bool-cases (is_empty token)) [
      | inl e ↦ inl (is_empty_iff_eq token e)
      | inr e ↦ inr (authorize_headers_sound e h)
    ],
    elim [ inl e ↦ rw e refl | inr p ↦ authorize_headers_complete p ],
  )
