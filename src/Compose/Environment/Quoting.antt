-- ===== src/Compose/Environment/Quoting.antt =====
-- Values that are written into an env file in double quotes.
use agentdocker_lite.Base.{
  append_assoc, ℕ, ◌≡◌, refl, sym, ap, ◌∙◌, Bool, false, some, List, [], ◌∷◌, ◌++◌, ◌==◌,
}
use agentdocker_lite.Text.{Text, split_last-append, strip, strip_solid, occurs, split_once_found}
use agentdocker_lite.Dict.{Dict, put, update}
use agentdocker_lite.Compose.Yaml.{Value}
use agentdocker_lite.Compose.Environment.{
  unquote, put_assignment, put_line, put_lines, parse_env_file,
}

-- "v", in double quotes
abbrev pub quoted : Text → Text
quoted v = b'"' ∷ (v ++ b'"' ∷ [])

unquote-quoted : (v : Text) → unquote (quoted v) ≡ v
unfolding unquote
unquote-quoted v = rw (unquote, split_last-append v b'"') refl

module _ (environ : Dict Text) (is_space : ℕ → Bool) (show : Value → Text) where
  -- A name that can stand in front of the equals sign.
  pub record IsName (k : Text) : Type 0 where
    pub head : ℕ
    pub tail : Text
    pub nonempty : k ≡ head ∷ tail
    pub visible : is_space head ≡ false
    pub no_comment : (head == b'#') ≡ false
    pub no_equals : occurs b'=' k ≡ false
    pub stripped : strip is_space k ≡ k

  abbrev pub env_line : Text × Text → Text
  env_line (k, v) = k ++ b'=' ∷ quoted v

  abbrev pub env_lines : Dict Text → List Text
  env_lines [] = []
  env_lines (binding ∷ env) = env_line binding ∷ env_lines env

  module _ (quote_visible : is_space b'"' ≡ false) where
    strip-quoted : (v : Text) → strip is_space (quoted v) ≡ quoted v
    strip-quoted v = strip_solid is_space b'"' v b'"' quote_visible quote_visible

    strip-env_line : (k v : Text) → IsName k → strip is_space (env_line (k, v)) ≡ env_line (k, v)
    strip-env_line k v h =
        let shape : env_line (k, v) ≡ h.head ∷ ((h.tail ++ b'=' ∷ (b'"' ∷ v)) ++ b'"' ∷ []) =
          rw (h.nonempty, append_assoc h.tail (b'=' ∷ (b'"' ∷ v)) (b'"' ∷ [])) refl in
        ap (strip is_space) shape
        ∙ (strip_solid is_space h.head (h.tail ++ b'=' ∷ (b'"' ∷ v)) b'"' h.visible quote_visible
            ∙ sym shape)

    put_assignment-env_line :
        (k v : Text) (env : Dict Text)
        → IsName k
        → put_assignment environ is_space show (env_line (k, v)) env ≡ put k v env
    unfolding put_assignment
    put_assignment-env_line k v env h =
        rw
          (
            put_assignment,
            split_once_found b'=' k (quoted v) h.no_equals,
            strip-quoted v,
            unquote-quoted v,
            h.stripped,
          )
          refl

    put_line_visible :
        (c : ℕ) (line : Text) (env : Dict Text)
        → (c == b'#') ≡ false
        → put_line environ is_space show (c ∷ line) env
          ≡ put_assignment environ is_space show (c ∷ line) env
    unfolding put_line
    put_line_visible c line env h = rw h refl

    put_line-env_line :
        (k v : Text) (env : Dict Text)
        → IsName k
        → put_line environ is_space show (strip is_space (env_line (k, v))) env ≡ put k v env
    put_line-env_line k v env h =
        let place : Text → Dict Text = λ s. put_line environ is_space show s env in
        let shape : env_line (k, v) ≡ h.head ∷ (h.tail ++ b'=' ∷ quoted v) =
          ap (λ t. t ++ b'=' ∷ quoted v) h.nonempty in
        ap place (strip-env_line k v h)
        ∙ (ap place shape
            ∙ (put_line_visible h.head (h.tail ++ b'=' ∷ quoted v) env h.no_comment
                ∙ (ap (λ s. put_assignment environ is_space show s env) (sym shape)
                    ∙ put_assignment-env_line k v env h)))

    abbrev pub AllNames : Dict Text → Type 0
    AllNames [] = Unit
    AllNames ((k, v) ∷ env) = IsName k × AllNames env

    put_lines-env_lines :
        (env start : Dict Text)
        → AllNames env
        → put_lines environ is_space show (env_lines env) start ≡ update start env
    unfolding put_lines update
    put_lines-env_lines [] start h = refl
    put_lines-env_lines ((k, v) ∷ env) start (h, hs) =
        ap (λ e. put_lines environ is_space show (env_lines env) e) (put_line-env_line k v start h)
        ∙ put_lines-env_lines env (put k v start) hs

    -- An env file with a line `KEY="VALUE"` for each binding is read back as these bindings, a later
    -- one of the same name winning, if each name starts with neither white space nor `#`, has no
    -- equals sign, and has no white space to strip. The values are any text that a line can hold.
    pub parse_env_file-env_lines :
        (env : Dict Text)
        → AllNames env
        → parse_env_file environ is_space show (some (env_lines env)) ≡ update [] env
    unfolding parse_env_file
    parse_env_file-env_lines env h = put_lines-env_lines env [] h
