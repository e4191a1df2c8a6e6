-- ===== src/Image/Tokens/Requests.antt =====
-- What a request for a token asks for, how long the token is kept, and what the cache's key tells.
use agentdocker_lite.Base.{
  ℕ, ◌+◌, ◌≤◌, ◌<◌, ◌≡◌, ◌≢◌, refl, sym, ap, ◌∙◌, ℤ, pos, negsuc, false, ◌==◌, Option, none, some,
  [], ◌∷◌, ◌++◌, arith, append_assoc, Bool-cases, Option-cases, ◌⊎◌, inl, inr,
}
use agentdocker_lite.Text.{Text, codes, text_eq, text_eq_iff, occurs, split_once, split_once_found}
use agentdocker_lite.Image.Reference.{docker_hub}
use agentdocker_lite.Image.Tokens.Header.{Quotes, search_quoted-Quotes}
use agentdocker_lite.Image.Tokens.{
  Probe, http, accepted, unreachable, Request, lifetime, expiry_or_default, search_quoted,
  text_or_empty, challenged, token_request, cache_key,
}

-- The address asks the service at a realm for a token to pull the repository.
abbrev pub IsPullUrl : Text → Text → Text → Text → Type 0
IsPullUrl realm service repo url =
    url
    ≡ realm ++ codes "?service=" ++ service ++ codes "&scope=repository:" ++ repo ++ codes ":pull"

-- The registry's answer had a header with a realm, from which the address was made.
abbrev pub IsChallenged : Text → Text → Request → Type 0
IsChallenged registry repo r =
    (realm : Text) × ((service : Text) × ((header : Text) × (IsPullUrl realm service repo r.url
          × (r.challenge ≡ some (codes "https://" ++ registry ++ codes "/v2/", header))
          × Quotes (codes "realm=\"") realm header)))

-- The request asks to pull this repository of this registry: of Docker Hub at its own address, of any
-- other registry at the realm that this registry named.
abbrev pub AsksFor : Text → Text → Request → Type 0
AsksFor registry repo r =
    ((registry ≡ codes "registry-1.docker.io")
      × IsPullUrl (codes "https://auth.docker.io/token") (codes "registry.docker.io") repo r.url)
    ⊎ ((registry ≢ codes "registry-1.docker.io") × IsChallenged registry repo r)

-- How long a token that came in at a time is kept: for 270 seconds if nothing was said, to 30 seconds
-- before its end if it lasts 90 seconds or more, and otherwise for 60 seconds, however short it lasts.
abbrev pub Lasts : Option ℤ → ℕ → ℕ → Type 0
Lasts none at expiry = expiry ≡ at + 270
Lasts (some (pos n)) at expiry =
    ((90 ≤ n) × (expiry + 30 ≡ at + n)) ⊎ ((n < 90) × (expiry ≡ at + 60))
Lasts (some (negsuc n)) at expiry = expiry ≡ at + 60

pub lifetime-Lasts : (e : Option ℤ) (at : ℕ) → Lasts e at (at + lifetime (expiry_or_default e))
unfolding lifetime
lifetime-Lasts none at = omega arith
lifetime-Lasts (some (pos n)) at = ground arith
lifetime-Lasts (some (negsuc n)) at = refl

pub lifetime_least : (n : ℤ) → 60 ≤ lifetime n
unfolding lifetime
lifetime_least (pos n) = ground arith
lifetime_least (negsuc n) = ground arith

AsksFor-some :
    (registry repo : Text) (q r : Request)
    → AsksFor registry repo q
    → some q ≡ some r
    → AsksFor registry repo r
AsksFor-some registry repo q r h e = let same : q ≡ r = ground arith in rw (← same) h

challenged-AsksFor :
    (registry repo : Text) (answer : Probe) (r : Request)
    → text_eq registry docker_hub ≡ false
    → challenged (codes "https://" ++ registry ++ codes "/v2/") repo answer ≡ some r
    → AsksFor registry repo r
unfolding challenged
challenged-AsksFor registry repo accepted r h e = absurd (ground arith)
challenged-AsksFor registry repo unreachable r h e = absurd (ground arith)
challenged-AsksFor registry repo (http code header) r h e =
    let other : registry ≢ docker_hub =
      λ same. ground (arith, (text_eq_iff registry docker_hub).1) in
    elim (Bool-cases (code == 401)) [
      | inr accepted_otherwise ↦ absurd (ground arith)
      | inl asked ↦ elim (Option-cases (search_quoted (codes "realm=\"") header)) [
        | inl no_realm ↦ absurd (ground arith)
        | inr (realm, found) ↦
            AsksFor-some registry repo _ r
              (inr (
                other,
                (
                  realm,
                  (
                    text_or_empty (search_quoted (codes "service=\"") header),
                    (
                      header,
                      (refl, refl, search_quoted-Quotes (codes "realm=\"") header realm found),
                    ),
                  ),
                ),
              ))
              (rw (challenged, asked, found) at e)
      ]
    ]

pub token_request-AsksFor :
    (registry repo : Text) (probe : Text → Probe) (r : Request)
    → token_request registry repo probe ≡ some r
    → AsksFor registry repo r
unfolding token_request
token_request-AsksFor registry repo probe r e = elim (Bool-cases (text_eq registry docker_hub)) [
  | inl hub ↦
      AsksFor-some registry repo _ r (inl ((text_eq_iff registry docker_hub).0 hub, refl))
        (rw (token_request, hub) at e)
  | inr other ↦
      challenged-AsksFor registry repo (probe (codes "https://" ++ registry ++ codes "/v2/")) r
        other (rw (token_request, other) at e)
]

-- The key tells registry and repository apart.
pub cache_key-injective :
    (a b c d : Text)
    → occurs b'/' a ≡ false
    → occurs b'/' c ≡ false
    → cache_key a b ≡ cache_key c d
    → (a ≡ c) × (b ≡ d)
cache_key-injective a b c d h k e =
    let left : split_once (b'/' ∷ []) (a ++ b'/' ∷ b) ≡ some (a, b) = split_once_found b'/' a b h in
    let right : split_once (b'/' ∷ []) (c ++ b'/' ∷ d) ≡ some (c, d) =
      split_once_found b'/' c d k in
    let same : a ++ b'/' ∷ b ≡ c ++ b'/' ∷ d =
      sym (append_assoc a (codes "/") b) ∙ e ∙ append_assoc c (codes "/") d in
    let parts : ◌≡◌ {A = Option (Text × Text)} (some (a, b)) (some (c, d)) =
      sym left ∙ ap (split_once (b'/' ∷ [])) same ∙ right in
    (ground arith, ground arith)
