-- ===== src/Compose/Substitution/Values.antt =====
-- `_sub_value` of compose/_parse.py: the substitution in every text of a value.
use agentdocker_lite.Base.{ℕ, Bool, Result, ok, ◌>>=◌}
use agentdocker_lite.Text.{Text}
use agentdocker_lite.Dict.{Dict}
use agentdocker_lite.Compose.Yaml.{
  Value, null, bool, int, float, str, list, dict, Items, nil, cons, Fields, end, field,
}
use agentdocker_lite.Compose.Substitution.{Missing, substitute}

module _ (is_word : ℕ → Bool) (env : Dict Text) where
  unfoldable mutual
    unfolding substitute

    pub sub_value : Value → Result Missing Value
    sub_value (str s) = (substitute is_word env s >>= λ t. ok (str t))
    sub_value (list vs) = (sub_items vs >>= λ ws. ok (list ws))
    sub_value (dict fs) = (sub_fields fs >>= λ gs. ok (dict gs))
    sub_value null = ok null
    sub_value (bool b) = ok (bool b)
    sub_value (int n) = ok (int n)
    sub_value (float x) = ok (float x)

    pub sub_items : Items → Result Missing Items
    sub_items nil = ok nil
    sub_items (cons v vs) = (sub_value v >>= λ w. sub_items vs >>= λ ws. ok (cons w ws))

    pub sub_fields : Fields → Result Missing Fields
    sub_fields end = ok end
    sub_fields (field k v fs) = (sub_value v >>= λ w. sub_fields fs >>= λ gs. ok (field k w gs))
