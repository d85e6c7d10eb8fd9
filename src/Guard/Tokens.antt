-- ===== src/Guard/Tokens.antt =====
-- Whom a bearer token lets in.
use arodonata.Common.{
  String, true, false, ◌||◌, Option, none, some, List, [], ◌∷◌, ◌≡◌, ◌⊎◌, inl, inr, refl, sym,
  str_eq, str_eq_iff, arith, Bool-cases, Option-cases,
}
use arodonata.Common.Text.{strip}
use arodonata.Guard.Texts.{split_space}
use arodonata.Guard.{
  TokenPair, token_pairs, match_digest, verify_token, User, Access, passed_through, unauthorized,
  invalid_token, granted, user_of, bearer_token, header, access_for, authenticate, HttpRequest,
}

-- A client that is configured with a secret whose digest is the token's.
abbrev pub IsConfigured : (String → String) → String → String → List (String × String) → Type 0
IsConfigured digest client token [] = ⊥
IsConfigured digest client token ((c, s) ∷ more) =
    ((strip c ≡ client)
      × (digest s ≡ digest token)
      × (str_eq client "" ≡ false)
      × (str_eq s "" ≡ false))
    ⊎ IsConfigured digest client token more

match_digest-some :
    (candidate : String) (ps : List TokenPair) (c : String)
    → match_digest candidate ps (some c) ≡ some c
unfolding match_digest
match_digest-some candidate [] c = refl
match_digest-some candidate (p ∷ ps) c = match_digest-some candidate ps c

match_digest-IsConfigured :
    (digest : String → String)
    → (configured : List (String × String)) (token client : String)
    → match_digest (digest token) (token_pairs digest configured) none ≡ some client
    → IsConfigured digest client token configured
unfolding match_digest token_pairs
match_digest-IsConfigured digest [] token client h = cc
match_digest-IsConfigured digest ((c, s) ∷ more) token client h =
    elim (Bool-cases (str_eq (strip c) "" || str_eq s "")) [
      | inl skips ↦ inr (
          match_digest-IsConfigured digest more token client
            (rw (skips, match_digest, token_pairs) at h))
      | inr counts ↦ elim (Bool-cases (str_eq (digest token) (digest s))) [
        | inr other ↦ inr (
            match_digest-IsConfigured digest more token client
              (rw (counts, match_digest, token_pairs, other) at h))
        | inl same ↦
            let found = rw (counts, match_digest, token_pairs, same) at h in
            let named : strip c ≡ client = ground (
              arith,
              found,
              match_digest-some (digest token) (token_pairs digest more) (strip c),
            ) in
            let equal : digest token ≡ digest s = (str_eq_iff (digest token) (digest s)).0 same in
            inl (named, sym equal, rw named at (blank counts), ground (arith, counts))
      ]
    ]
  where
    blank : (str_eq (strip c) "" || str_eq s "") ≡ false → str_eq (strip c) "" ≡ false
    blank e = ground arith

verify_token-IsConfigured :
    (digest : String → String)
    → (configured : List (String × String)) (token client : String)
    → verify_token digest (token_pairs digest configured) token ≡ some client
    → IsConfigured digest client token configured
unfolding verify_token
verify_token-IsConfigured digest configured token client h = elim (Bool-cases (str_eq token "")) [
  | inl blank ↦ absurd (ground arith)
  | inr full ↦ match_digest-IsConfigured digest configured token client (rw full at h)
]

-- Who is let in: what is not HTTP, or a client whose secret has the digest of the bearer token.
abbrev pub IsAuthorized : (String → String) → List (String × String) → HttpRequest → Access → Type 0
IsAuthorized digest configured r passed_through = r.is_http ≡ false
IsAuthorized digest configured r unauthorized =
    bearer_token (split_space (header r.authorization)) ≡ none
IsAuthorized digest configured r invalid_token =
    (token : String) × (bearer_token (split_space (header r.authorization)) ≡ some token)
IsAuthorized digest configured r (granted u) =
    (r.is_http ≡ true)
    × (token : String) × (bearer_token (split_space (header r.authorization)) ≡ some token)
    × IsConfigured digest u.client_id token configured

access_for-IsAuthorized :
    (digest : String → String) (configured : List (String × String)) (existing : Option User)
    (r : HttpRequest) (token : String) (o : Option String)
    → r.is_http ≡ true
    → bearer_token (split_space (header r.authorization)) ≡ some token
    → verify_token digest (token_pairs digest configured) token ≡ o
    → IsAuthorized digest configured r (access_for existing o)
unfolding access_for user_of
access_for-IsAuthorized digest configured existing r token none http bears e = (token, bears)
access_for-IsAuthorized digest configured none r token (some client) http bears e =
    (http, token, bears, verify_token-IsConfigured digest configured token client e)
access_for-IsAuthorized digest configured (some u) r token (some client) http bears e =
    (http, token, bears, verify_token-IsConfigured digest configured token client e)

-- A request is passed on without a token only if it is no HTTP request; one that is passed on with a user
-- is an HTTP request whose header has a bearer token, and the user's client is configured with a secret
-- that is not empty and has the digest of this token. A request is refused for want of a token only if
-- its header has none.
pub authenticate-IsAuthorized :
    (digest : String → String) (configured : List (String × String)) (existing : Option User)
    (r : HttpRequest)
    → IsAuthorized digest configured r
        (authenticate digest (token_pairs digest configured) existing r)
unfolding authenticate
authenticate-IsAuthorized digest configured existing r = elim (Bool-cases r.is_http) [
  | inr other ↦ rw other refl
  | inl http ↦ elim (Option-cases (bearer_token (split_space (header r.authorization)))) [
    | inl absent ↦ simp (http, absent) refl
    | inr (token, bears) ↦
        simp (http, bears)
          (access_for-IsAuthorized digest configured existing r token
            (verify_token digest (token_pairs digest configured) token) http bears refl)
  ]
]
