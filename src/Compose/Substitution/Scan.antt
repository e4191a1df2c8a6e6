-- ===== src/Compose/Substitution/Scan.antt =====
-- `_substitute` on a whole text, against a grammar of templates.
use agentdocker_lite.Base.{
  ℕ, zero, suc, ◌-◌, ◌≡◌, refl, ◌∙◌, some, none, Bool, true, false, not, ◌&&◌, List, [], ◌∷◌, ◌++◌,
  ◌==◌, if◌then◌else◌, arith, length, Result, ok, ◌>>=◌, all, inl, inr, Bool-cases, append_assoc,
}
use agentdocker_lite.Text.{Text, span}
use agentdocker_lite.Dict.{Dict}
use agentdocker_lite.Compose.Substitution.{
  Missing, expand, is_start, not_close, match_braced, match_at, replacement, scan, substitute,
}

-- The parts of a template: a character that is no dollar, `$$`, `${NAME}`, `$NAME`, and a dollar that
-- opens none of these.
pub data Piece : Type 0 where
  literal : ℕ → Piece
  escaped : Piece
  braced : Text → Piece
  bare : Text → Piece
  lone : Piece

abbrev pub render : List Piece → Text
render [] = []
render (literal c ∷ ps) = c ∷ render ps
render (escaped ∷ ps) = b'$' ∷ b'$' ∷ render ps
render (braced name ∷ ps) = b'$' ∷ b'{' ∷ (name ++ b'}' ∷ render ps)
render (bare name ∷ ps) = b'$' ∷ (name ++ render ps)
render (lone ∷ ps) = b'$' ∷ render ps

-- The first character, if there is one, passes the test.
abbrev pub Starts : (ℕ → Bool) → Text → Type 0
Starts p [] = Unit
Starts p (c ∷ s) = p c ≡ true

-- No second character of a match.
abbrev pub is_inert : ℕ → Bool
is_inert c = not (c == b'$') && (not (c == b'{') && not (is_start c))

abbrev pub IsName : (ℕ → Bool) → Text → Type 0
IsName is_word [] = ⊥
IsName is_word (c ∷ s) = (is_start c ≡ true) × (all is_word s ≡ true)

abbrev pub IsBody : Text → Type 0
IsBody [] = ⊥
IsBody (c ∷ s) = all not_close (c ∷ s) ≡ true

module _ (is_word : ℕ → Bool) where
  abbrev pub IsTemplate : List Piece → Type 0
  IsTemplate [] = Unit
  IsTemplate (literal c ∷ ps) = (c == b'$' ≡ false) × IsTemplate ps
  IsTemplate (escaped ∷ ps) = IsTemplate ps
  IsTemplate (braced name ∷ ps) = IsBody name × IsTemplate ps
  IsTemplate (bare name ∷ ps) =
      IsName is_word name × Starts (λ c. not (is_word c)) (render ps) × IsTemplate ps
  IsTemplate (lone ∷ ps) = Starts is_inert (render ps) × IsTemplate ps

abbrev pub piece_value : Dict Text → Piece → Result Missing Text
piece_value env (literal c) = ok (c ∷ [])
piece_value env escaped = ok (b'$' ∷ [])
piece_value env (braced name) = expand env name
piece_value env (bare name) = expand env name
piece_value env lone = ok (b'$' ∷ [])

-- The pieces' values from left to right; the first error ends it.
abbrev pub evaluate : Dict Text → List Piece → Result Missing Text
evaluate env [] = ok []
evaluate env (p ∷ ps) =
    piece_value env p >>= λ value. evaluate env ps >>= λ rest. ok (value ++ rest)

span-append :
    (p : ℕ → Bool) (s rest : Text)
    → all p s ≡ true
    → Starts (λ c. not (p c)) rest
    → span p (s ++ rest) ≡ (s, rest)
unfolding span
span-append p [] [] h k = refl
span-append p [] (c ∷ rest) h k = ground arith
span-append p (c ∷ s) rest h k = ground (arith, span-append p s rest)

length_pred : (w : Text) → suc (length w) - 1 ≡ length w
length_pred w = omega arith

module _ (is_word : ℕ → Bool) (env : Dict Text) where
  scan-append :
      (s rest : Text) → scan is_word env (length s) (s ++ rest) ≡ scan is_word env zero rest
  unfolding scan
  scan-append [] [] = refl
  scan-append [] (c ∷ rest) = refl
  scan-append (c ∷ s) rest = scan-append s rest

  -- The scan over a match and what follows it.
  scan_match :
      (c : ℕ) (w name rest : Text)
      → match_at is_word (c ∷ (w ++ rest)) ≡ some (record { whole = c ∷ w; name = name })
      → scan is_word env zero (c ∷ (w ++ rest)) ≡ (
          replacement env (record { whole = c ∷ w; name = name }) >>= λ value.
          scan is_word env zero rest >>= λ r. ok (value ++ r))
  unfolding scan
  scan_match c w name rest e = ground (arith, e, length_pred w, scan-append w rest)

  match_at-braced :
      (c : ℕ) (name rest : Text)
      → IsBody (c ∷ name)
      → match_at is_word (b'$' ∷ b'{' ∷ ((c ∷ name) ++ b'}' ∷ rest))
        ≡ some (record { whole = b'$' ∷ b'{' ∷ ((c ∷ name) ++ b'}' ∷ []); name = c ∷ name })
  unfolding match_at
  match_at-braced c name rest h =
      rw (span-append not_close (c ∷ name) (b'}' ∷ rest) h (unfold not_close in refl), match_braced)
        refl

  match_at-bare :
      (c : ℕ) (name rest : Text)
      → IsName is_word (c ∷ name)
      → Starts (λ x. not (is_word x)) rest
      → match_at is_word (b'$' ∷ ((c ∷ name) ++ rest))
        ≡ some (record { whole = b'$' ∷ c ∷ name; name = c ∷ name })
  unfolding match_at
  match_at-bare c name rest h k = ground (arith, span-append is_word name rest h.1 k)

  match_at-lone : (rest : Text) → Starts is_inert rest → match_at is_word (b'$' ∷ rest) ≡ none
  unfolding match_at
  match_at-lone [] h = refl
  match_at-lone (c ∷ rest) h = ground arith

  scan_literal :
      (c : ℕ) (rest : Text)
      → c == b'$' ≡ false
      → scan is_word env zero (c ∷ rest) ≡ (scan is_word env zero rest >>= λ r. ok (c ∷ r))
  unfolding scan
  scan_literal c rest h = ground arith

  scan_lone :
      (rest : Text)
      → Starts is_inert rest
      → scan is_word env zero (b'$' ∷ rest) ≡ (scan is_word env zero rest >>= λ r. ok (b'$' ∷ r))
  unfolding scan
  scan_lone rest h = ground (arith, match_at-lone rest h)

  scan_escaped :
      (rest : Text)
      → scan is_word env zero (b'$' ∷ b'$' ∷ rest)
        ≡ (scan is_word env zero rest >>= λ r. ok (b'$' ∷ r))
  unfolding scan replacement
  scan_escaped rest = ground arith

  scan_braced :
      (name rest : Text)
      → IsBody name
      → scan is_word env zero (b'$' ∷ b'{' ∷ (name ++ b'}' ∷ rest))
        ≡ (expand env name >>= λ value. scan is_word env zero rest >>= λ r. ok (value ++ r))
  unfolding replacement
  scan_braced [] rest h = elim h [ ]
  scan_braced (c ∷ name) rest h = rw (← append_assoc (c ∷ name) (b'}' ∷ []) rest) (
      rw
        (scan_match b'$' (b'{' ∷ ((c ∷ name) ++ b'}' ∷ [])) (c ∷ name) rest
          (rw (append_assoc (c ∷ name) (b'}' ∷ []) rest) (match_at-braced c name rest h)))
        refl)

  scan_bare :
      (name rest : Text)
      → IsName is_word name
      → Starts (λ x. not (is_word x)) rest
      → scan is_word env zero (b'$' ∷ (name ++ rest))
        ≡ (expand env name >>= λ value. scan is_word env zero rest >>= λ r. ok (value ++ r))
  unfolding replacement is_start
  scan_bare [] rest h k = elim h [ ]
  scan_bare (c ∷ name) rest h k =
      scan_match b'$' (c ∷ name) (c ∷ name) rest (match_at-bare c name rest h k) ∙ ground arith

  scan-render :
      (ps : List Piece)
      → IsTemplate is_word ps
      → scan is_word env zero (render ps) ≡ evaluate env ps
  scan-render [] h = unfold scan in refl
  scan-render (literal c ∷ ps) h =
      rw (scan_literal c (render ps) h.0) (rw (scan-render ps h.1) refl)
  scan-render (escaped ∷ ps) h = rw (scan_escaped (render ps)) (rw (scan-render ps h) refl)
  scan-render (braced name ∷ ps) h =
      rw (scan_braced name (render ps) h.0) (rw (scan-render ps h.1) refl)
  scan-render (bare name ∷ ps) h =
      rw (scan_bare name (render ps) h.0 h.1) (rw (scan-render ps h.2) refl)
  scan-render (lone ∷ ps) h = rw (scan_lone (render ps) h.0) (rw (scan-render ps h.1) refl)

-- Whatever template a text renders, `_substitute` replaces each part by its value, from left to
-- right, and raises the first error: `$$` gives a dollar, `${NAME}` and `$NAME` their expansion, and
-- all other characters stay.
pub substitute-render :
    (is_word : ℕ → Bool) (env : Dict Text) (ps : List Piece)
    → IsTemplate is_word ps
    → substitute is_word env (render ps) ≡ evaluate env ps
unfolding substitute
substitute-render is_word env ps h = scan-render is_word env ps h

-- Each dollar doubled.
unfoldable pub escape : Text → Text
escape [] = []
escape (c ∷ s) = let rest = escape s in if c == b'$' then b'$' ∷ b'$' ∷ rest else c ∷ rest

-- A text whose dollars are all doubled comes out as it was, in every environment.
pub substitute-escape :
    (is_word : ℕ → Bool) (env : Dict Text) (s : Text) → substitute is_word env (escape s) ≡ ok s
unfolding substitute escape
substitute-escape is_word env [] = unfold scan in refl
substitute-escape is_word env (c ∷ s) = elim (Bool-cases (c == b'$')) [
  | inl dollar ↦ rw dollar (
      rw (scan_escaped is_word env (escape s))
        (rw (substitute-escape is_word env s) (ground arith)))
  | inr other ↦
      rw other (
        rw (scan_literal is_word env c (escape s) other)
          (rw (substitute-escape is_word env s) refl))
]
