-- ===== src/Image/Tokens.antt =====
-- `_get_token` of image/registry.py: bearer tokens with their cache. The clock is read when the
-- cache is asked and again when a token comes in. What the servers answer to a URL is a parameter
-- of each call; `failed` is an answer whose error the function catches, and errors that it does not
-- are left out. The state keeps, besides the cache, the request behind each token that came in.
pub mod Header
pub mod Requests
pub mod Grants
mod Tests
use Prim.Native.Nat.{max}
use agentdocker_lite.Base.{
  ℕ, ◌+◌, ◌-◌, ℤ, pos, negsuc, Bool, true, false, not, Option, none, some, List, [], ◌∷◌, ◌++◌,
  ◌==◌, ltb, if◌then◌else◌,
}
use agentdocker_lite.Text.{Text, codes, text_eq, strip_prefix, span}
use agentdocker_lite.Dict.{Dict, get, put}
use agentdocker_lite.Image.Reference.{docker_hub}

-- What a request of https://registry/v2/ ends in, with the header WWW-Authenticate.
pub data Probe : Type 0 where
  accepted : Probe
  http : ℕ → Text → Probe
  unreachable : Probe

-- What the token endpoint answers: its fields, or an error.
pub data TokenReply : Type 0 where
  fields : Option Text → Option Text → Option ℤ → TokenReply
  failed : TokenReply

-- The request for a token: its URL, and for a registry other than Docker Hub the URL that was probed
-- with the header that it answered.
pub record Request : Type 0 where
  pub url : Text
  pub challenge : Option (Text × Text)

-- What was asked, the token that came back, when, and for how many seconds if that was said.
pub record Grant : Type 0 where
  pub request : Request
  pub token : Text
  pub at : ℕ
  pub expires_in : Option ℤ

pub record Tokens : Type 0 where
  pub cache : Dict (Text × ℕ)
  pub grants : List Grant

abbrev pub not_quote : ℕ → Bool
not_quote c = not (c == b'"')

-- [^"]+ in front of a quote
unfoldable pub quoted_value : Text × Text → Option Text
quoted_value ([], rest) = none
quoted_value (c ∷ value, []) = none
quoted_value (c ∷ value, q ∷ rest) = some (c ∷ value)

-- re.search(r'name="([^"]+)"', header), with the name and the equals sign and quote in `prefix`
unfoldable pub search_quoted : Text → Text → Option Text
unfolding strip_prefix span quoted_value
search_quoted prefix [] = none
search_quoted prefix (c ∷ header) =
    let later = search_quoted prefix header in
    elim (strip_prefix prefix (c ∷ header)) [
      | none ↦ later
      | some rest ↦ elim (quoted_value (span not_quote rest)) [
        | none ↦ later
        | some value ↦ some value
      ]
    ]

abbrev pub text_or_empty : Option Text → Text
text_or_empty none = []
text_or_empty (some t) = t

-- The answer of https://registry/v2/, as the request that it leads to.
unfoldable pub challenged : Text → Text → Probe → Option Request
unfolding search_quoted
challenged probed repo accepted = none
challenged probed repo unreachable = none
challenged probed repo (http code header) =
    if not (code == 401) then none else elim (search_quoted (codes "realm=\"") header) [
      | none ↦ none
      | some realm ↦ some (record {
        url =
            realm
            ++ codes "?service="
            ++ text_or_empty (search_quoted (codes "service=\"") header)
            ++ codes "&scope=repository:"
            ++ repo
            ++ codes ":pull";
        challenge = some (probed, header);
      })
    ]

unfoldable pub token_request : Text → Text → (Text → Probe) → Option Request
unfolding text_eq challenged
token_request registry repo probe =
    let v2 = codes "https://" ++ registry ++ codes "/v2/" in
    if text_eq registry docker_hub
    then some (record {
      url =
          codes "https://auth.docker.io/token?service=registry.docker.io&scope=repository:"
          ++ repo
          ++ codes ":pull";
      challenge = none;
    })
    else challenged v2 repo (probe v2)

-- max(int(expires_in) - 30, 60)
unfoldable pub lifetime : ℤ → ℕ
lifetime (pos n) = max (n - 30) 60
lifetime (negsuc n) = 60

-- data.get("token") or data.get("access_token")
unfoldable pub token_of : Option Text → Option Text → Option Text
token_of (some (c ∷ token)) access = some (c ∷ token)
token_of _ access = access

abbrev pub expiry_or_default : Option ℤ → ℤ
expiry_or_default none = pos 300
expiry_or_default (some n) = n

-- A token that is not empty goes into the cache.
unfoldable pub store_token :
    Text → ℕ → Request → Option ℤ → Option Text → Tokens → Option Text × Tokens
unfolding put lifetime
store_token key later request expires_in (some (c ∷ token)) s = (
  some (c ∷ token),
  record {
    cache = put key (c ∷ token, later + lifetime (expiry_or_default expires_in)) s.cache;
    grants =
        record { request = request; token = c ∷ token; at = later; expires_in = expires_in }
        ∷ s.grants;
  },
)
store_token key later request expires_in token s = (token, s)

unfoldable pub use_reply : Text → ℕ → Request → TokenReply → Tokens → Option Text × Tokens
unfolding token_of store_token
use_reply key later request failed s = (none, s)
use_reply key later request (fields token access expires_in) s =
    store_token key later request expires_in (token_of token access) s

unfoldable pub send_request :
    Text → ℕ → Option Request → (Text → TokenReply) → Tokens → Option Text × Tokens
unfolding use_reply
send_request key later none reply s = (none, s)
send_request key later (some request) reply s = use_reply key later request (reply request.url) s

abbrev pub cache_key : Text → Text → Text
cache_key registry repo = registry ++ codes "/" ++ repo

-- The cached token, if there is one that has not expired.
unfoldable pub valid_token : ℕ → Option (Text × ℕ) → Option Text
valid_token now none = none
valid_token now (some (token, expiry)) = if ltb now expiry then some token else none

unfoldable pub get_token :
    Text → Text → ℕ → ℕ → (Text → Probe) → (Text → TokenReply) → Tokens → Option Text × Tokens
unfolding get valid_token token_request send_request
get_token registry repo now later probe reply s =
    elim (valid_token now (get (cache_key registry repo) s.cache)) [
      | some token ↦ (some token, s)
      | none ↦
          send_request (cache_key registry repo) later (token_request registry repo probe) reply s
    ]
