-- ===== src/Compose/Yaml.antt =====
-- What `yaml.safe_load` returns (compose/_parse.py): a value of Python's dynamic types. Mapping keys
-- are texts. A float is kept as the text that `str` shows for it.
use agentdocker_lite.Base.{
  ℤ, is_zero, Bool, true, false, not, ◌||◌, Option, none, some, List, [], ◌∷◌, if◌then◌else◌,
}
use agentdocker_lite.Text.{Text, codes, text_eq}

mutual
  pub data Value : Type 0 where
    null : Value
    bool : Bool → Value
    int : ℤ → Value
    float : Text → Value
    str : Text → Value
    list : Items → Value
    dict : Fields → Value

  pub data Items : Type 0 where
    nil : Items
    cons : Value → Items → Items

  pub data Fields : Type 0 where
    end : Fields
    field : Text → Value → Fields → Fields

abbrev pub items : Items → List Value
items nil = []
items (cons v vs) = v ∷ items vs

-- d.get(k), the key absent being `none`
unfoldable pub get_field : Text → Fields → Option Value
get_field k end = none
get_field k (field j v fs) = if text_eq j k then some v else get_field k fs

-- d[k] = v
unfoldable pub put_field : Text → Value → Fields → Fields
put_field k v end = field k v end
put_field k v (field j w fs) = if text_eq j k then field j v fs else field j w (put_field k v fs)

-- bool(v)
unfoldable pub truthy : Value → Bool
unfolding text_eq
truthy null = false
truthy (bool b) = b
truthy (int n) = not (is_zero n)
truthy (float x) = not (text_eq x (codes "0.0") || text_eq x (codes "-0.0"))
truthy (str []) = false
truthy (str (c ∷ s)) = true
truthy (list nil) = false
truthy (list (cons v vs)) = true
truthy (dict end) = false
truthy (dict (field k v fs)) = true

-- v == s, for a string s
unfoldable pub is_text : Text → Value → Bool
unfolding text_eq
is_text s (str t) = text_eq t s
is_text s _ = false

-- str(v), by the text of a value that is no string
abbrev pub text_of : (Value → Text) → Value → Text
text_of show (str s) = s
text_of show v = show v
