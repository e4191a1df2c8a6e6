-- ===== src/Compose/Ports/Ranges.antt =====
-- What a range of ports stands for.
use agentdocker_lite.Base.{
  ℕ, zero, suc, ◌+◌, ◌-◌, ◌≡◌, refl, ap, ==_iff, Bool, true, false, Option, none, some, List, [],
  ◌∷◌, ◌++◌, ◌==◌, arith,
}
use agentdocker_lite.Text.{
  Text, occurs, occurs-append, split_once_found, rsplit_once_found, rsplit_once_absent,
}
use agentdocker_lite.Compose.Yaml.{Value}
use agentdocker_lite.Compose.Ports.{
  chomp, PortRange, number, span_of, is_address, host_part, match_range, mapping, mappings,
  short_form,
}

pub chomp_absent : (s : Text) → occurs b'\n' s ≡ false → chomp s ≡ s
unfolding chomp occurs
chomp_absent [] h = refl
chomp_absent (c ∷ []) h = ground arith
chomp_absent (c ∷ (d ∷ s)) h = ap (λ t. c ∷ t) (chomp_absent (d ∷ s) (ground arith))

-- "a-b"
abbrev pub span_text : Text → Text → Text
span_text a b = a ++ b'-' ∷ b

-- "address:a-b:c-d"
abbrev pub range_text : Text → Text → Text → Text → Text → Text
range_text address a b c d = (address ++ b':' ∷ span_text a b) ++ b':' ∷ span_text c d

-- [f(from), ..., f(from + count - 1)]
abbrev pub tabulate : (ℕ → Text) → ℕ → ℕ → List Text
tabulate f from zero = []
tabulate f from (suc count) = f from ∷ tabulate f (from + 1) count

module _ (digit : ℕ → Option ℕ) (is_space : ℕ → Bool) (show : Value → Text) where
  -- A text that the pattern reads as a number.
  pub record IsNumeral (t : Text) (n : ℕ) : Type 0 where
    pub value : number digit is_space show t ≡ some n
    pub no_colon : occurs b':' t ≡ false
    pub no_dash : occurs b'-' t ≡ false
    pub no_newline : occurs b'\n' t ≡ false

  pub record IsAddress (t : Text) : Type 0 where
    pub address : is_address digit is_space show t ≡ true
    pub no_newline : occurs b'\n' t ≡ false

  span_of-span_text :
      (a b : Text) (m n : ℕ)
      → IsNumeral a m
      → IsNumeral b n
      → span_of digit is_space show (span_text a b) ≡ some (m, n)
  unfolding span_of
  span_of-span_text a b m n x y =
      rw (span_of, split_once_found b'-' a b x.no_dash, x.value, y.value) refl

  without :
      (c : ℕ) (s t : Text) (sep : ℕ)
      → occurs c s ≡ false
      → (sep == c) ≡ false
      → occurs c t ≡ false
      → occurs c (s ++ sep ∷ t) ≡ false
  unfolding occurs
  without c s t sep x y z = ground (arith, occurs-append c s (sep ∷ t))

  -- The mapping at an offset of two ranges.
  abbrev pub mapped : Text → ℕ → ℕ → ℕ → Text
  mapped address host cont i = mapping digit is_space show (some address) (host + i) (cont + i)

  module _ (address a b c d : Text) (h0 h1 c0 c1 : ℕ) (at : IsAddress address) (x : IsNumeral a h0)
      (y : IsNumeral b h1) (z : IsNumeral c c0) (w : IsNumeral d c1) where
    abbrev found : PortRange
    found = record {
      bind_addr = some address;
      host_start = h0;
      host_end = h1;
      cont_start = c0;
      cont_end = c1;
    }

    host_part-range :
        host_part digit is_space show (address ++ b':' ∷ span_text a b)
        ≡ some (some address, (h0, h1))
    unfolding host_part
    host_part-range =
        rw
          (
            host_part,
            rsplit_once_found b':' address (span_text a b)
                (without b':' a b b'-' x.no_colon refl y.no_colon),
            span_of-span_text a b h0 h1 x y,
            at.address,
          )
          refl

    chomp-range : chomp (range_text address a b c d) ≡ range_text address a b c d
    chomp-range = chomp_absent (range_text address a b c d) (
        without b'\n' (address ++ b':' ∷ span_text a b) (span_text c d) b':'
          (without b'\n' address (span_text a b) b':' at.no_newline refl
            (without b'\n' a b b'-' x.no_newline refl y.no_newline))
          refl (without b'\n' c d b'-' z.no_newline refl w.no_newline))

    pub match_range-range :
        match_range digit is_space show (range_text address a b c d) ≡ some found
    unfolding match_range
    match_range-range =
        rw
          (
            match_range,
            chomp-range,
            rsplit_once_found b':' (address ++ b':' ∷ span_text a b) (span_text c d)
                (without b':' c d b'-' z.no_colon refl w.no_colon),
            host_part-range,
            span_of-span_text c d c0 c1 z w,
          )
          refl

    mappings-tabulate :
        (count offset : ℕ)
        → mappings digit is_space show found count offset
          ≡ tabulate (mapped address h0 c0) offset count
    unfolding mappings
    mappings-tabulate zero offset = refl
    mappings-tabulate (suc count) offset =
        ap (λ ms. mapped address h0 c0 offset ∷ ms) (mappings-tabulate count (offset + 1))

    -- An entry "address:a-b:c-d", whose two ranges have the same width, stands for one mapping of the
    -- address for each offset of the first range from 0 to its width.
    pub short_form-range :
        (width : ℕ)
        → h1 ≡ h0 + width
        → c1 ≡ c0 + width
        → short_form digit is_space show (range_text address a b c d)
          ≡ tabulate (mapped address h0 c0) 0 (suc width)
    unfolding short_form
    short_form-range width e k =
        let same : (h1 + c0 == c1 + h0) ≡ true = (==_iff _ _).1 (omega (arith, e, k)) in
        let count : h1 + 1 - h0 ≡ suc width = omega (arith, e) in
        rw (short_form, match_range-range, same, count) (mappings-tabulate (suc width) 0)

    range_backwards :
        (width : ℕ)
        → h0 ≡ h1 + suc width
        → c0 ≡ c1 + suc width
        → short_form digit is_space show (range_text address a b c d) ≡ []
    unfolding short_form mappings
    range_backwards width e k =
        let same : (h1 + c0 == c1 + h0) ≡ true = (==_iff _ _).1 (omega (arith, e, k)) in
        let count : h1 + 1 - h0 ≡ 0 = omega (arith, e) in
        rw (short_form, match_range-range, same, count) refl

  -- "a-b:c-d" or "address:a-b:c-d"
  abbrev pub entry_text : Option Text → Text → Text → Text → Text → Text
  entry_text none a b c d = span_text a b ++ b':' ∷ span_text c d
  entry_text (some address) a b c d = range_text address a b c d

  abbrev pub IsHost : Option Text → Type 0
  IsHost none = Unit
  IsHost (some address) = IsAddress address

  host_part-span_text :
      (a b : Text) (m n : ℕ)
      → IsNumeral a m
      → IsNumeral b n
      → host_part digit is_space show (span_text a b) ≡ some (none, (m, n))
  unfolding host_part
  host_part-span_text a b m n x y =
      rw
        (
          host_part,
          rsplit_once_absent b':' (span_text a b)
              (without b':' a b b'-' x.no_colon refl y.no_colon),
          span_of-span_text a b m n x y,
        )
        refl

  match_range-without_address :
      (a b c d : Text) (h0 h1 c0 c1 : ℕ)
      → IsNumeral a h0
      → IsNumeral b h1
      → IsNumeral c c0
      → IsNumeral d c1
      → match_range digit is_space show (entry_text none a b c d)
        ≡ some (record {
          bind_addr = none;
          host_start = h0;
          host_end = h1;
          cont_start = c0;
          cont_end = c1;
        })
  unfolding match_range
  match_range-without_address a b c d h0 h1 c0 c1 x y z w =
      let plain : chomp (entry_text none a b c d) ≡ entry_text none a b c d = chomp_absent _ (
        without b'\n' (span_text a b) (span_text c d) b':'
          (without b'\n' a b b'-' x.no_newline refl y.no_newline) refl
          (without b'\n' c d b'-' z.no_newline refl w.no_newline)) in
      rw
        (
          match_range,
          plain,
          rsplit_once_found b':' (span_text a b) (span_text c d)
              (without b':' c d b'-' z.no_colon refl w.no_colon),
          host_part-span_text a b h0 h1 x y,
          span_of-span_text c d c0 c1 z w,
        )
        refl

  -- An entry "a-b:c-d" or "address:a-b:c-d", whose two ranges of numerals run backwards by the same
  -- width, adds no mapping at all.
  pub short_form_backwards :
      (address : Option Text) (a b c d : Text) (h0 h1 c0 c1 width : ℕ)
      → IsHost address
      → IsNumeral a h0
      → IsNumeral b h1
      → IsNumeral c c0
      → IsNumeral d c1
      → h0 ≡ h1 + suc width
      → c0 ≡ c1 + suc width
      → short_form digit is_space show (entry_text address a b c d) ≡ []
  unfolding short_form mappings
  short_form_backwards none a b c d h0 h1 c0 c1 width at x y z w e k =
      let same : (h1 + c0 == c1 + h0) ≡ true = (==_iff _ _).1 (omega (arith, e, k)) in
      let count : h1 + 1 - h0 ≡ 0 = omega (arith, e) in
      rw (short_form, match_range-without_address a b c d h0 h1 c0 c1 x y z w, same, count) refl
  short_form_backwards (some address) a b c d h0 h1 c0 c1 width at x y z w e k =
      range_backwards address a b c d h0 h1 c0 c1 at x y z w width e k
