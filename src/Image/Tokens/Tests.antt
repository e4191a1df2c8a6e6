-- ===== src/Image/Tokens/Tests.antt =====
-- A token for a private registry, granted for 300 seconds at the time 100 and used again at 200.
use agentdocker_lite.Base.{◌≡◌, refl, pos, none, some, [], Option, arith}
use agentdocker_lite.Text.{Text, codes, occurs}
use agentdocker_lite.Dict.{get}
use agentdocker_lite.Image.Tokens.{Probe, http, TokenReply, fields, failed, Tokens, get_token}
use agentdocker_lite.Image.Tokens.Grants.{IsBacked, Usable, get_token-IsBacked, get_token-Usable}

abbrev empty : Tokens
empty = record { cache = []; grants = [] }

empty-IsBacked : IsBacked empty
unfolding get
empty-IsBacked registry repo token expiry plain h = absurd (ground arith)

abbrev probe : Text → Probe
probe url = http 401 (codes "Bearer realm=\"https://auth\",service=\"r\"")

abbrev reply : Text → TokenReply
reply url = fields (some (codes "tk")) none (some (pos 300))

abbrev first : Option Text × Tokens
first = get_token (codes "reg") (codes "app") 100 101 probe reply empty

abbrev second : Option Text × Tokens
second = get_token (codes "reg") (codes "app") 200 201 probe (λ url. failed) first.1

cached : second.0 ≡ some (codes "tk")
unfolding get_token
cached = refl

first-IsBacked : IsBacked first.1
unfolding occurs
first-IsBacked =
    get_token-IsBacked (codes "reg") (codes "app") refl 100 101 probe reply empty empty-IsBacked

get_token-Usable_example : Usable (codes "reg") (codes "app") (codes "tk") 200 201 second.1
unfolding occurs
get_token-Usable_example =
    get_token-Usable (codes "reg") (codes "app") refl 200 201 probe (λ url. failed) first.1
      first-IsBacked b't' (codes "k") cached
