-- ===== src/Compose/Network/Tests.antt =====
-- Durations in milliseconds, and the lines that pasta prints.
use agentdocker_lite.Base.{ℕ, ◌+◌, ◌*◌, ◌≡◌, refl, Bool, ◌&&◌, none, some, [], ◌∷◌, leb}
use agentdocker_lite.Text.{Text, codes}
use agentdocker_lite.Config.Sample.{blank, natural}
use agentdocker_lite.Compose.Network.{parse_duration, parse_pasta_dns, parse_pasta_guest_ip, terms}

abbrev is_digit : ℕ → Bool
is_digit c = leb 48 c && leb c 57

abbrev whole : Text → ℕ
whole s = elim (natural s) [ none ↦ 0 | some n ↦ n ]

abbrev milliseconds : Text → ℕ
milliseconds = parse_duration is_digit blank whole (λ a b. a + b) (λ a n. a * n) 0 30000

compound : milliseconds (codes "1h2m30s5ms") ≡ 3750005
unfolding parse_duration
compound = refl

spaced : milliseconds (codes "1 m 30s") ≡ 90000
unfolding parse_duration
spaced = refl

plain : milliseconds (codes "15") ≡ 15
unfolding parse_duration
plain = refl

-- A unit that is not known gives the default of 30 seconds.
nanoseconds : milliseconds (codes "5000000000ns") ≡ 30000
unfolding parse_duration
nanoseconds = refl

fraction : terms is_digit blank 0 (codes "1.5h") ≡ (codes "1.5", 3600000) ∷ []
unfolding terms
fraction = refl

dns :
    parse_pasta_dns is_digit blank
      (codes "DNS:" ∷ (codes "  10.0.2.3" ∷ (codes "NAT" ∷ (codes "1.1.1.1" ∷ []))))
    ≡ codes "10.0.2.3" ∷ []
unfolding parse_pasta_dns
dns = refl

guest :
    parse_pasta_guest_ip is_digit blank (codes "DHCP:" ∷ (codes " assign: 10.0.2.15" ∷ []))
    ≡ some (codes "10.0.2.15")
unfolding parse_pasta_guest_ip
guest = refl
