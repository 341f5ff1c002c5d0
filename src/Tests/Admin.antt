-- ===== src/Tests/Admin.antt =====
-- A client of the administration interface.
use nexuspouch.Base.{String, true, false, none, some, [], ◌∷◌, ◌≡◌, ◌↔◌, ◌⊎◌, refl}
use nexuspouch.Base.Dict
use nexuspouch.Admin.Auth.{
  HeaderMap, Presents, authorize_headers, authorize_headers_iff, bearer_token, strip_start,
  is_loopback, trim_left, trim_right,
}
use nexuspouch.Store.Browse.Recycle.{split_last}

abbrev headers : HeaderMap
headers = ("authorization", "Bearer  secret ") ∷ []

authorize_headers_iff_example :
    (authorize_headers "secret" headers none ≡ true)
    ↔ ((◌≡◌ {A = String} "secret" "") ⊎ Presents headers none "secret")
authorize_headers_iff_example = authorize_headers_iff "secret" headers none

lets_through : authorize_headers "secret" headers none ≡ true
unfolding authorize_headers bearer_token strip_start Dict.lookup trim_left trim_right
lets_through = refl

keeps_out : authorize_headers "other" headers (some "other") ≡ false
unfolding authorize_headers bearer_token strip_start Dict.lookup trim_left trim_right
keeps_out = refl

is_local : is_loopback "[::1]:8765" ≡ true
unfolding is_loopback split_last trim_left trim_right
is_local = refl
