-- ===== src/Guard/Examples.antt =====
-- A server that is reached as localhost, with one client.
use arodonata.Common.{String, true, false, none, some, List, [], ◌∷◌, ◌≡◌, ◌⊎◌, refl}
use arodonata.Common.Text.{strip, lower}
use arodonata.Guard.{
  passes, rejected, OriginGuard, HttpRequest, check_origin, User, granted, invalid_token,
  passed_through, authenticate, token_pairs,
}
use arodonata.Guard.Allowed.{IsAllowed, check_origin-IsAllowed}
use arodonata.Guard.Tokens.{IsAuthorized, authenticate-IsAuthorized}

abbrev guard : OriginGuard
guard = record {
  allowed_hosts = "localhost:*" ∷ [];
  allowed_origins = "http://localhost" ∷ [];
  enabled = true;
}

abbrev request : HttpRequest
request = record {
  is_http = true;
  host = some "LocalHost:8080";
  origin = none;
  authorization = some "Bearer s3cret ";
}

let_in : check_origin guard request ≡ passes
unfolding check_origin
let_in = refl

rebound : check_origin guard (record request { host = some "localhost:8080.evil" }) ≡ rejected 421
unfolding check_origin
rebound = refl

cross_origin : check_origin guard (record request { origin = some "http://evil" }) ≡ rejected 403
unfolding check_origin
cross_origin = refl

check_origin-IsAllowed_example :
    ((h : String) × (request.host ≡ some h) × IsAllowed (lower (strip h)) guard.allowed_hosts)
    × ((o : String)
        → request.origin ≡ some o
        → (strip o ≡ "") ⊎ IsAllowed (lower (strip o)) guard.allowed_origins)
check_origin-IsAllowed_example = check_origin-IsAllowed guard request refl refl let_in

-- Each text is its own digest.
abbrev digest : String → String
digest s = s

abbrev clients : List (String × String)
clients = (" TEAM_A ", "s3cret") ∷ []

abbrev team_a : User
team_a = record { user_id = "TEAM_A"; client_id = "TEAM_A" }

authenticated : authenticate digest (token_pairs digest clients) none request ≡ granted team_a
unfolding authenticate token_pairs
authenticated = refl

wrong_token :
    authenticate digest
      (token_pairs digest clients)
      none
      (record request { authorization = some "bearer other" })
    ≡ invalid_token
unfolding authenticate token_pairs
wrong_token = refl

no_http :
    authenticate digest (token_pairs digest clients) none (record request { is_http = false })
    ≡ passed_through
unfolding authenticate token_pairs
no_http = refl

authenticate-IsAuthorized_example :
    IsAuthorized digest clients request
      (authenticate digest (token_pairs digest clients) none request)
authenticate-IsAuthorized_example = authenticate-IsAuthorized digest clients none request
