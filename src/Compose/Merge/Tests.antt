-- ===== src/Compose/Merge/Tests.antt =====
-- `_deep_merge` on two layers of a compose file.
use agentdocker_lite.Base.{◌≡◌, refl, some, [], ◌∷◌, inl, inr}
use agentdocker_lite.Text.{codes, text_eq}
use agentdocker_lite.Compose.Yaml.{Fields, end, field, dict, str, get_field}
use agentdocker_lite.Compose.Merge.{deep_merge}
use agentdocker_lite.Compose.Merge.Lookup.{IsProperFields, at_path, override_wins, base_kept}

abbrev base : Fields
base =
    field (codes "web")
      (dict
        (field (codes "image") (str (codes "a")) (field (codes "user") (str (codes "root")) end)))
      end

abbrev override : Fields
override = field (codes "web") (dict (field (codes "image") (str (codes "b")) end)) end

override-IsProper : IsProperFields override
unfolding IsProperFields get_field
override-IsProper = (refl, (refl, tt, tt), tt)

merged :
    deep_merge base override
    ≡ field
        (codes "web")
        (dict
          (field (codes "image") (str (codes "b")) (field (codes "user") (str (codes "root")) end)))
        end
unfolding deep_merge text_eq
merged = refl

override_wins_example :
    at_path (codes "web" ∷ codes "image" ∷ []) (dict (deep_merge base override))
    ≡ some (str (codes "b"))
unfolding get_field text_eq
override_wins_example =
    override_wins base override (codes "web" ∷ codes "image" ∷ []) (str (codes "b"))
      override-IsProper refl refl

base_kept_example :
    at_path (codes "web" ∷ codes "user" ∷ []) (dict (deep_merge base override))
    ≡ at_path (codes "web" ∷ codes "user" ∷ []) (dict base)
unfolding get_field text_eq
base_kept_example = base_kept base override (codes "web" ∷ codes "user" ∷ []) override-IsProper (
    inr (
      field (codes "image") (str (codes "b")) end,
      field (codes "image") (str (codes "a")) (field (codes "user") (str (codes "root")) end),
      refl,
      refl,
      inl refl,
    ))
