-- ===== src/Image/Tokens/Header.antt =====
-- What the search for a quoted value in a header finds.
use agentdocker_lite.Base.{
  ℕ, ◌≡◌, refl, sym, ap, ◌∙◌, Bool, ◌==◌, some, [], ◌∷◌, ◌++◌, arith, Bool-cases, Option-cases, inl,
  inr,
}
use agentdocker_lite.Text.{Text, strip_prefix, span}
use agentdocker_lite.Image.Tokens.{not_quote, quoted_value, search_quoted}

-- The header has the prefix, the value and a quote in a row.
abbrev pub Quotes : Text → Text → Text → Type 0
Quotes prefix value header =
    (before : Text) × ((after : Text) × (header ≡ before ++ (prefix ++ (value ++ b'"' ∷ after))))

strip_prefix-inverse : (p s r : Text) → strip_prefix p s ≡ some r → s ≡ p ++ r
unfolding strip_prefix
strip_prefix-inverse [] s r e = ground arith
strip_prefix-inverse (c ∷ p) [] r e = absurd (ground arith)
strip_prefix-inverse (c ∷ p) (d ∷ s) r e = elim (Bool-cases (c == d)) [
  | inr other ↦ absurd (ground arith)
  | inl same ↦
      let found : strip_prefix p s ≡ some r = ground arith in
      let heads : d ≡ c = ground arith in
      rw heads (ap (λ t. c ∷ t) (strip_prefix-inverse p s r found))
]

span-parts : (p : ℕ → Bool) (s : Text) → (span p s).0 ++ (span p s).1 ≡ s
unfolding span
span-parts p [] = refl
span-parts p (c ∷ s) = elim (Bool-cases (p c)) [
  | inl on ↦ rw (span, on) (ap (λ t. c ∷ t) (span-parts p s))
  | inr off ↦ rw (span, off) refl
]

-- A rest that is not empty starts with the quote.
StartsWithQuote : Text → Type 0
StartsWithQuote [] = Unit
StartsWithQuote (q ∷ rest) = q ≡ b'"'

span-StartsWithQuote : (s : Text) → StartsWithQuote (span not_quote s).1
unfolding span StartsWithQuote
span-StartsWithQuote [] = tt
span-StartsWithQuote (c ∷ s) = elim (Bool-cases (not_quote c)) [
  | inl on ↦ rw on (span-StartsWithQuote s)
  | inr off ↦ rw off (ground (arith, off))
]

value_quoted :
    (a b value : Text)
    → StartsWithQuote b
    → quoted_value (a, b) ≡ some value
    → (after : Text) × (a ++ b ≡ value ++ b'"' ∷ after)
unfolding quoted_value StartsWithQuote
value_quoted [] b value h e = absurd (ground arith)
value_quoted (c ∷ a) [] value h e = absurd (ground arith)
value_quoted (c ∷ a) (q ∷ b) value h e =
    let same : c ∷ a ≡ value = ground arith in (b, rw (h, ← same) refl)

span-quoted :
    (s value : Text)
    → quoted_value (span not_quote s) ≡ some value
    → (after : Text) × (s ≡ value ++ b'"' ∷ after)
span-quoted s value e =
    let (after, parts) =
      value_quoted (span not_quote s).0 (span not_quote s).1 value (span-StartsWithQuote s) e in
    (after, sym (span-parts not_quote s) ∙ parts)

Quotes-later :
    (prefix value header : Text) (c : ℕ)
    → Quotes prefix value header
    → Quotes prefix value (c ∷ header)
Quotes-later prefix value header c (before, (after, e)) = (c ∷ before, (after, ap (λ t. c ∷ t) e))

-- The search finds a value that the header has behind the prefix, with a quote at its end.
pub search_quoted-Quotes :
    (prefix header value : Text)
    → search_quoted prefix header ≡ some value
    → Quotes prefix value header
unfolding search_quoted
search_quoted-Quotes prefix [] value e = absurd (ground arith)
search_quoted-Quotes prefix (c ∷ header) value e =
    elim (Option-cases (strip_prefix prefix (c ∷ header))) [
      | inl absent ↦
          let later : search_quoted prefix header ≡ some value = ground arith in
          Quotes-later prefix value header c (search_quoted-Quotes prefix header value later)
      | inr (rest, found) ↦ elim (Option-cases (quoted_value (span not_quote rest))) [
        | inl unquoted ↦
            let later : search_quoted prefix header ≡ some value = ground arith in
            Quotes-later prefix value header c (search_quoted-Quotes prefix header value later)
        | inr (here, quoted) ↦
            let same : here ≡ value = ground arith in
            let (after, parts) = span-quoted rest value (quoted ∙ ap (λ v. some v) same) in
            (
              [],
              (
                after,
                strip_prefix-inverse prefix (c ∷ header) rest found ∙ ap (λ t. prefix ++ t) parts,
              ),
            )
      ]
    ]
