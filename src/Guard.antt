-- ===== src/Guard.antt =====
-- mcp/security.py: the checks of a request to the MCP server: its host, its origin and its bearer
-- token. The digest of a text is SHA-256 of the standard library, a parameter here, and two digests are
-- compared for equality. A response is the status that is sent; a request that passes goes to the server.
pub mod Texts
pub mod Allowed
pub mod Tokens
pub mod Examples
use Prim.Native.String.{◌++◌ as append}
use arodonata.Common.{
  ℕ, String, Bool, true, false, not, ◌&&◌, ◌||◌, Option, none, some, List, [], ◌∷◌, if◌then◌else◌,
  leb, str_eq,
}
use arodonata.Common.Text.{strip, lower}
use arodonata.Matching.Texts.{is_digit, int_of}
use Texts.{without_wildcard, after, split_space}

-- `_is_valid_port_suffix`.
pub is_valid_port_suffix : String → Bool
unfolding is_digit int_of
is_valid_port_suffix port = is_digit port && leb 1 (int_of port) && leb (int_of port) 65535

pub matches_port : String → Option String → Bool
unfolding is_valid_port_suffix
matches_port base none = false
matches_port base (some port) = is_valid_port_suffix port

pub matches_wildcard : String → Option String → Bool
unfolding after matches_port
matches_wildcard clean none = false
matches_wildcard clean (some base) =
    str_eq clean base || matches_port base (after (append base ":") clean)

-- One entry of the allowed ones.
pub matches_entry : String → String → Bool
unfolding matches_wildcard without_wildcard
matches_entry clean allowed =
    not (str_eq allowed "")
    && (str_eq allowed "*"
        || str_eq clean allowed
        || matches_wildcard clean (without_wildcard allowed))

pub matches_any : String → List String → Bool
unfolding matches_entry strip lower
matches_any clean [] = false
matches_any clean (a ∷ more) = matches_entry clean (lower (strip a)) || matches_any clean more

pub host_matches_allowed : Option String → List String → Bool
unfolding matches_any strip lower
host_matches_allowed none allowed = false
host_matches_allowed (some host) allowed =
    not (str_eq (lower (strip host)) "") && matches_any (lower (strip host)) allowed

pub origin_matches_allowed : Option String → List String → Bool
unfolding matches_any strip lower
origin_matches_allowed none allowed = true
origin_matches_allowed (some origin) allowed =
    str_eq (strip origin) "" || matches_any (lower (strip origin)) allowed

pub data Verdict : Type 0 where
  passes : Verdict
  rejected : ℕ → Verdict

-- `MCPOriginHostGuardMiddleware`, with its settings.
pub record OriginGuard : Type 0 where
  pub allowed_hosts : List String
  pub allowed_origins : List String
  pub enabled : Bool

-- The parts of a request that are read.
pub record HttpRequest : Type 0 where
  pub is_http : Bool
  pub host : Option String
  pub origin : Option String
  pub authorization : Option String

pub check_origin : OriginGuard → HttpRequest → Verdict
unfolding host_matches_allowed origin_matches_allowed
check_origin g r =
    if not r.is_http || not g.enabled
    then passes
    else if not (host_matches_allowed r.host g.allowed_hosts)
    then rejected 421
    else if not (origin_matches_allowed r.origin g.allowed_origins)
    then rejected 403
    else passes

-- A configured token: its client and the digest of its secret.
pub record TokenPair : Type 0 where
  pub client_id : String
  pub expected_digest : String

-- `StaticTokenVerifier.__init__`.
pub token_pairs : (String → String) → List (String × String) → List TokenPair
unfolding strip
token_pairs digest [] = []
token_pairs digest ((client_id, secret) ∷ more) =
    let rest = token_pairs digest more in
    if str_eq (strip client_id) "" || str_eq secret ""
    then rest
    else record { client_id = strip client_id; expected_digest = digest secret } ∷ rest

-- The loop over all pairs, of which the first match counts.
pub match_digest : String → List TokenPair → Option String → Option String
match_digest candidate [] matched = matched
match_digest candidate (p ∷ ps) (some client) = match_digest candidate ps (some client)
match_digest candidate (p ∷ ps) none =
    match_digest candidate ps
      (if str_eq candidate p.expected_digest then some p.client_id else none)

-- `verify_token`: the client of a token.
pub verify_token : (String → String) → List TokenPair → String → Option String
unfolding match_digest
verify_token digest pairs token =
    if str_eq token "" then none else match_digest (digest token) pairs none

-- The user that the context of a request has.
pub record User : Type 0 where
  pub user_id : String
  pub client_id : String

-- The application behind the middleware is called for `passed_through` and `granted`.
pub data Access : Type 0 where
  passed_through : Access
  unauthorized : Access
  invalid_token : Access
  granted : User → Access

pub user_of : Option User → String → User
user_of none client = record { user_id = client; client_id = client }
user_of (some u) client = record {
  user_id = if str_eq u.user_id "" then client else u.user_id;
  client_id = client;
}

pub bearer_token : Option (String × String) → Option String
unfolding strip lower
bearer_token none = none
bearer_token (some (scheme, rest)) =
    if str_eq (lower scheme) "bearer" && not (str_eq (strip rest) "")
    then some (strip rest)
    else none

pub header : Option String → String
header none = ""
header (some h) = h

pub access_for : Option User → Option String → Access
unfolding user_of
access_for existing none = invalid_token
access_for existing (some client) = granted (user_of existing client)

-- `MCPBearerAuthMiddleware`.
pub authenticate : (String → String) → List TokenPair → Option User → HttpRequest → Access
unfolding bearer_token split_space header access_for verify_token
authenticate digest pairs existing r =
    if not r.is_http
    then passed_through
    else elim (bearer_token (split_space (header r.authorization))) [
      | none ↦ unauthorized
      | some token ↦ access_for existing (verify_token digest pairs token)
    ]
