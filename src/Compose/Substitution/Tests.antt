-- ===== src/Compose/Substitution/Tests.antt =====
-- `_substitute` on small templates; `\w` is taken for the ASCII word characters.
use agentdocker_lite.Base.{ℕ, ◌≡◌, refl, Bool, ◌||◌, ◌&&◌, [], ◌∷◌, ◌++◌, leb, ok, err}
use agentdocker_lite.Text.{Text, codes, text_eq, split_once, span, occurs}
use agentdocker_lite.Dict.{Dict, get}
use agentdocker_lite.Compose.Substitution.{expand, is_start, substitute}
use agentdocker_lite.Compose.Substitution.Expand.{
  required_full, required_set, meaning, symbol, expand-meaning, expand-hyphen_never_raises,
}
use agentdocker_lite.Compose.Substitution.Scan.{
  literal, escaped, bare, lone, render, evaluate, substitute-render,
}

abbrev ascii_word : ℕ → Bool
ascii_word c = is_start c || (leb b'0' c && leb c b'9')

abbrev env : Dict Text
env = (codes "TAG", codes "v1") ∷ (codes "EMPTY", []) ∷ []

image_line : substitute ascii_word env (codes "img:${TAG:-x}$$$TAG") ≡ ok (codes "img:v1$v1")
unfolding substitute text_eq span is_start split_once get
image_line = refl

missing :
    substitute ascii_word env (codes "a${EMPTY:?no}")
    ≡ err (record { variable = codes "EMPTY"; message = codes "no" })
unfolding substitute text_eq span is_start split_once get
missing = refl

expand-meaning_example :
    expand env (codes "EMPTY" ++ (symbol required_full ++ codes "no"))
    ≡ meaning required_full (codes "EMPTY") (get (codes "EMPTY") env) (codes "no")
unfolding occurs
expand-meaning_example =
    expand-meaning env required_full (codes "EMPTY") (codes "no")
      (record { no_colon = refl; no_minus = refl; no_plus = refl; no_question = refl }) (refl, refl)

expand-hyphen_never_raises_example :
    (value : Text) × (expand env (codes "UNSET" ++ (symbol required_set ++ codes "must-be-set"))
      ≡ ok value)
unfolding occurs
expand-hyphen_never_raises_example =
    expand-hyphen_never_raises env required_set (codes "UNSET") (codes "must-be-set") refl

substitute-render_example :
    substitute ascii_word env (render (literal b'a' ∷ escaped ∷ bare (codes "TAG") ∷ lone ∷ []))
    ≡ evaluate env (literal b'a' ∷ escaped ∷ bare (codes "TAG") ∷ lone ∷ [])
unfolding is_start
substitute-render_example =
    substitute-render ascii_word env (literal b'a' ∷ escaped ∷ bare (codes "TAG") ∷ lone ∷ [])
      (refl, ((refl, refl), refl, (tt, tt)))
