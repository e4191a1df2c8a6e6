-- ===== src/Image/Tokens/Grants.antt =====
-- Every token comes from a request for its registry and repository, and is kept for a known time.
use agentdocker_lite.Base.{
  ℕ, ◌+◌, ◌≤◌, ◌<◌, ◌≡◌, refl, sym, ap, ◌∙◌, ℤ, false, Option, none, some, List, [], ◌∷◌, ◌++◌,
  arith, Bool-cases, Option-cases, ◌⊎◌, inl, inr,
}
use agentdocker_lite.Text.{Text, codes, text_eq, text_eq_iff, occurs}
use agentdocker_lite.Dict.{get, put, get-put}
use agentdocker_lite.Image.Tokens.{
  Probe, TokenReply, fields, failed, Request, Grant, Tokens, lifetime, expiry_or_default,
  token_request, store_token, use_reply, send_request, token_of, cache_key, valid_token, get_token,
}
use agentdocker_lite.Image.Tokens.Requests.{
  AsksFor, Lasts, lifetime-Lasts, lifetime_least, token_request-AsksFor, cache_key-injective,
}

-- One of the requests for this repository gave the token, which is kept until the expiry.
abbrev pub Granted : Text → Text → Text → ℕ → List Grant → Type 0
Granted registry repo token expiry [] = ⊥
Granted registry repo token expiry (g ∷ grants) =
    (AsksFor registry repo g.request × (g.token ≡ token) × Lasts g.expires_in g.at expiry)
    ⊎ Granted registry repo token expiry grants

-- Each token that is cached for a registry, whose name has no slash, was granted for its repository.
abbrev pub IsBacked : Tokens → Type 0
IsBacked s =
    (registry repo token : Text) (expiry : ℕ)
    → occurs b'/' registry ≡ false
    → get (registry ++ codes "/" ++ repo) s.cache ≡ some (token, expiry)
    → Granted registry repo token expiry s.grants

module _ (registry repo : Text) (plain : occurs b'/' registry ≡ false) (request : Request)
    (asks : AsksFor registry repo request) (later : ℕ) where
  abbrev key : Text
  key = cache_key registry repo

  store-IsBacked :
      (token : Text) (e : Option ℤ) (s : Tokens)
      → IsBacked s
      → IsBacked (record {
        cache = put key (token, later + lifetime (expiry_or_default e)) s.cache;
        grants = record { request = request; token = token; at = later; expires_in = e } ∷ s.grants;
      })
  store-IsBacked token e s h c d t expiry slashless found =
      let entry : Text × ℕ = (token, later + lifetime (expiry_or_default e)) in
      let law = get-put key (cache_key c d) entry s.cache in
      elim (Bool-cases (text_eq key (cache_key c d))) [
        | inl same ↦
            let pair : some entry ≡ some (t, expiry) = rw same at (sym law ∙ found) in
            let kept : later + lifetime (expiry_or_default e) ≡ expiry = ground arith in
            let given : token ≡ t = ground arith in
            let (c_is, d_is) =
              cache_key-injective registry repo c d plain slashless
                ((text_eq_iff key (cache_key c d)).0 same) in
            inl (rw (← c_is, ← d_is) asks, given, rw (← kept) (lifetime-Lasts e later))
        | inr other ↦
            let before : get (cache_key c d) s.cache ≡ some (t, expiry) =
              rw other at (sym law ∙ found) in
            inr (h c d t expiry slashless before)
      ]

  store_token-IsBacked :
      (e : Option ℤ) (token : Option Text) (s : Tokens)
      → IsBacked s
      → IsBacked (store_token key later request e token s).1
  unfolding store_token
  store_token-IsBacked e none s h = h
  store_token-IsBacked e (some []) s h = h
  store_token-IsBacked e (some (c ∷ token)) s h = store-IsBacked (c ∷ token) e s h

  use_reply-IsBacked :
      (r : TokenReply) (s : Tokens) → IsBacked s → IsBacked (use_reply key later request r s).1
  unfolding use_reply
  use_reply-IsBacked failed s h = h
  use_reply-IsBacked (fields token access e) s h =
      store_token-IsBacked e (token_of token access) s h

  abbrev pub Fresh : Text → Tokens → Type 0
  Fresh token s =
      (expiry : ℕ) × (Granted registry repo token expiry s.grants × (later + 60 ≤ expiry))

  store_token-Fresh :
      (e : Option ℤ) (o : Option Text) (s : Tokens) (c : ℕ) (t : Text)
      → (store_token key later request e o s).0 ≡ some (c ∷ t)
      → Fresh (c ∷ t) (store_token key later request e o s).1
  unfolding store_token
  store_token-Fresh e none s c t got = absurd (ground arith)
  store_token-Fresh e (some []) s c t got = absurd (ground arith)
  store_token-Fresh e (some (d ∷ token)) s c t got =
      let least = lifetime_least (expiry_or_default e) in
      (
        later + lifetime (expiry_or_default e),
        (inl (asks, ground arith, lifetime-Lasts e later), omega (arith, least)),
      )

  use_reply-Fresh :
      (r : TokenReply) (s : Tokens) (c : ℕ) (t : Text)
      → (use_reply key later request r s).0 ≡ some (c ∷ t)
      → Fresh (c ∷ t) (use_reply key later request r s).1
  unfolding use_reply
  use_reply-Fresh failed s c t got = absurd (ground arith)
  use_reply-Fresh (fields token access e) s c t got =
      store_token-Fresh e (token_of token access) s c t got

-- A token with its expiry: unexpired when the cache was asked, or new and kept for a minute.
abbrev pub Usable : Text → Text → Text → ℕ → ℕ → Tokens → Type 0
Usable registry repo token now later s =
    (expiry : ℕ) × (Granted registry repo token expiry s.grants
      × ((now < expiry) ⊎ (later + 60 ≤ expiry)))

Usable-Fresh :
    (registry repo token : Text) (now later : ℕ) (s : Tokens)
    → ((expiry : ℕ) × (Granted registry repo token expiry s.grants × (later + 60 ≤ expiry)))
    → Usable registry repo token now later s
Usable-Fresh registry repo token now later s (expiry, (grant, long)) = (expiry, (grant, inr long))

valid_token-cached :
    (now : ℕ) (o : Option (Text × ℕ)) (t : Text)
    → valid_token now o ≡ some t
    → (expiry : ℕ) × ((o ≡ some (t, expiry)) × (now < expiry))
unfolding valid_token
valid_token-cached now none t valid = absurd (ground arith)
valid_token-cached now (some (token, expiry)) t valid =
    let live : now < expiry = ground arith in
    let same : token ≡ t = ground arith in (expiry, (ap (λ u. some (u, expiry)) same, live))

module _ (registry repo : Text) (plain : occurs b'/' registry ≡ false) (now later : ℕ)
    (probe : Text → Probe) (reply : Text → TokenReply) (s : Tokens) (h : IsBacked s) where
  send_request-IsBacked :
      (o : Option Request)
      → token_request registry repo probe ≡ o
      → IsBacked (send_request (cache_key registry repo) later o reply s).1
  unfolding send_request
  send_request-IsBacked none e = h
  send_request-IsBacked (some r) e =
      use_reply-IsBacked registry repo plain r (token_request-AsksFor registry repo probe r e) later
        (reply r.url) s h

  send_request-Usable :
      (o : Option Request) (c : ℕ) (t : Text)
      → token_request registry repo probe ≡ o
      → (send_request (cache_key registry repo) later o reply s).0 ≡ some (c ∷ t)
      → Usable registry repo
          (c ∷ t)
          now
          later
          (send_request (cache_key registry repo) later o reply s).1
  unfolding send_request
  send_request-Usable none c t e got = absurd (ground arith)
  send_request-Usable (some r) c t e got =
      Usable-Fresh registry repo (c ∷ t) now later
        (send_request (cache_key registry repo) later (some r) reply s).1
        (use_reply-Fresh registry repo plain r (token_request-AsksFor registry repo probe r e) later
          (reply r.url) s c t got)

  -- If each cached token has a grant, then this holds of the cache behind `_get_token` too.
  pub get_token-IsBacked : IsBacked (get_token registry repo now later probe reply s).1
  unfolding get_token
  get_token-IsBacked =
      elim (Option-cases (valid_token now (get (cache_key registry repo) s.cache))) [
        | inl e ↦ rw (get_token, e) (send_request-IsBacked (token_request registry repo probe) refl)
        | inr (t, e) ↦ rw (get_token, e) h
      ]

  -- For a registry without a slash in its name: if each cached token has a grant, then a token
  -- that `_get_token` returns, and that is not empty, came from a request to pull this
  -- repository, sent to Docker Hub's address for Docker Hub and otherwise to a realm that a
  -- header of this registry named; it is kept for 270 seconds if the answer did not say how long
  -- it lasts, to 30 seconds before its end if it lasts 90 seconds or more, and for 60 seconds
  -- otherwise, be it shorter; and either that time had not passed when the cache was asked, or it
  -- ends a minute or more after the token came in.
  pub get_token-Usable :
      (c : ℕ) (t : Text)
      → (get_token registry repo now later probe reply s).0 ≡ some (c ∷ t)
      → Usable registry repo (c ∷ t) now later (get_token registry repo now later probe reply s).1
  unfolding get_token
  get_token-Usable c t =
      let key = cache_key registry repo in
      elim (Option-cases (valid_token now (get key s.cache))) [
        | inl e ↦
            rw (get_token, e) (send_request-Usable (token_request registry repo probe) c t refl)
        | inr (u, e) ↦
            rw (get_token, e)
              (λ same.
                let shown : valid_token now (get key s.cache) ≡ some (c ∷ t) = e ∙ same in
                let (expiry, (found, live)) =
                  valid_token-cached now (get key s.cache) (c ∷ t) shown in
                (expiry, (h registry repo (c ∷ t) expiry plain found, inl live)))
      ]
