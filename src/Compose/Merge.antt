-- ===== src/Compose/Merge.antt =====
-- `_deep_merge` of compose/_parse.py. The recursion is on the override: the loop over its items
-- puts each merged value into the copy of the base.
pub mod Lookup
mod Tests
use agentdocker_lite.Base.{Bool, true, false, Option, none, some, List, [], ◌∷◌}
use agentdocker_lite.Text.{Text, text_eq}
use agentdocker_lite.Compose.Yaml.{
  Value, null, bool, int, float, str, list, dict, Items, Fields, end, field, get_field, put_field,
}

unfoldable mutual
  unfolding get_field put_field

  -- What stands at a key: the override's value, or the merge if both are mappings.
  pub merge_value : Value → Option Value → Value
  merge_value (dict o) (some (dict b)) = dict (merge_fields o b)
  merge_value v _ = v

  pub merge_fields : Fields → Fields → Fields
  merge_fields end merged = merged
  merge_fields (field key val rest) merged =
      merge_fields rest (put_field key (merge_value val (get_field key merged)) merged)

unfoldable pub deep_merge : Fields → Fields → Fields
unfolding merge_fields
deep_merge base override = merge_fields override base
