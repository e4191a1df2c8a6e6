-- ===== src/Compose/Merge/Lookup.antt =====
-- What stands where in a merged mapping.
use agentdocker_lite.Base.{
  ◌≡◌, refl, sym, ◌∙◌, ap, Bool, true, false, ◌⊎◌, inl, inr, Option, none, some, List, [], ◌∷◌,
  arith, if◌then◌else◌, Bool-cases, Option-cases,
}
use agentdocker_lite.Text.{Text, text_eq, text_eq_iff}
use agentdocker_lite.Compose.Yaml.{Value, null, dict, Fields, end, field, get_field, put_field}
use agentdocker_lite.Compose.Merge.{merge_value, merge_fields, deep_merge}

-- No key stands twice in a mapping, nor in one below it: what every Python dict satisfies.
unfoldable mutual
  pub IsProper : Value → Type 0
  IsProper (dict fs) = IsProperFields fs
  IsProper _ = Unit

  pub IsProperFields : Fields → Type 0
  IsProperFields end = Unit
  IsProperFields (field k v fs) = (get_field k fs ≡ none) × IsProper v × IsProperFields fs

get-put_field :
    (k j : Text) (v : Value) (fs : Fields)
    → get_field j (put_field k v fs) ≡ (if text_eq k j then some v else get_field j fs)
unfolding get_field put_field
get-put_field k j v end = refl
get-put_field k j v (field i w fs) =
    ground (arith, get-put_field k j v fs, text_eq_iff i k, text_eq_iff i j, text_eq_iff k j)

abbrev pub combined : Option Value → Option Value → Option Value
combined base none = base
combined base (some v) = some (merge_value v base)

get-merge_fields :
    (o b : Fields) (j : Text)
    → IsProperFields o
    → get_field j (merge_fields o b) ≡ combined (get_field j b) (get_field j o)
unfolding get_field merge_fields IsProperFields
get-merge_fields end b j h = refl
get-merge_fields (field k v rest) b j (fresh, _, h) = elim (Bool-cases (text_eq k j)) [
  | inl same ↦
      let e : k ≡ j = (text_eq_iff k j).0 same in
      get-merge_fields rest (put_field k (merge_value v (get_field k b)) b) j h
      ∙ ground (arith, e, get-put_field k j (merge_value v (get_field k b)) b)
  | inr other ↦
      get-merge_fields rest (put_field k (merge_value v (get_field k b)) b) j h
      ∙ ground (arith, other, get-put_field k j (merge_value v (get_field k b)) b)
]

-- At each key the merge holds what the override has there, itself merged if both have mappings; and
-- what the base has there, where the override has nothing.
pub get-deep_merge :
    (base override : Fields) (key : Text)
    → IsProperFields override
    → get_field key (deep_merge base override)
      ≡ combined (get_field key base) (get_field key override)
unfolding deep_merge
get-deep_merge base override key h = get-merge_fields override base key h

-- What stands at the end of a path of keys.
abbrev pub at_path : List Text → Value → Option Value
at_path [] v = some v
at_path (k ∷ ks) (dict fs) = elim (get_field k fs) [ none ↦ none | some v ↦ at_path ks v ]
at_path (k ∷ ks) _ = none

abbrev pub is_dict : Value → Bool
is_dict (dict fs) = true
is_dict _ = false

IsProper-get :
    (fs : Fields) (k : Text) (v : Value) → IsProperFields fs → get_field k fs ≡ some v → IsProper v
unfolding get_field IsProperFields
IsProper-get end k v h e = cc
IsProper-get (field j w fs) k v (_, hw, h) e = elim (Bool-cases (text_eq j k)) [
  | inl same ↦ let p : w ≡ v = ground arith in rw p at hw
  | inr other ↦ IsProper-get fs k v h (ground arith)
]

at_path-some :
    (fs : Fields) (k : Text) (ks : List Text) (v : Value)
    → get_field k fs ≡ some v
    → at_path (k ∷ ks) (dict fs) ≡ at_path ks v
at_path-some fs k ks v e = rw (e, at_path) refl

at_path-none :
    (fs : Fields) (k : Text) (ks : List Text)
    → get_field k fs ≡ none
    → at_path (k ∷ ks) (dict fs) ≡ none
at_path-none fs k ks e = rw (e, at_path) refl

merge_value-scalar : (v : Value) (b : Option Value) → is_dict v ≡ false → merge_value v b ≡ v
unfolding merge_value
merge_value-scalar (dict fs) b h = cc
merge_value-scalar null b h = refl
merge_value-scalar _ b h = refl

at_path-merge_value :
    (ks : List Text) (w v : Value) (b : Option Value)
    → IsProper w
    → at_path ks w ≡ some v
    → is_dict v ≡ false
    → at_path ks (merge_value w b) ≡ some v
unfolding merge_value IsProper
at_path-merge_value [] w v b h e leaf =
    let same : w ≡ v = ground arith in rw same (ap some (merge_value-scalar v b leaf))
at_path-merge_value (k ∷ ks) (dict o) v (some (dict f)) h e leaf =
    elim (Option-cases (get_field k o)) [
      | inl q ↦ cc (at_path-none o k ks q)
      | inr (u, q) ↦
          let merged : get_field k (merge_fields o f) ≡ some (merge_value u (get_field k f)) =
            get-merge_fields o f k h ∙ ap (combined (get_field k f)) q in
          at_path-some (merge_fields o f) k ks _ merged
          ∙ at_path-merge_value ks u v (get_field k f) (IsProper-get o k u h q)
              (sym (at_path-some o k ks u q) ∙ e) leaf
    ]
at_path-merge_value (k ∷ ks) (dict o) v b h e leaf = e
at_path-merge_value (k ∷ ks) w v b h e leaf = cc

-- What the override holds at the end of a path, other than a mapping, stands there in the merge,
-- whatever the base has.
pub override_wins :
    (base override : Fields) (path : List Text) (v : Value)
    → IsProperFields override
    → at_path path (dict override) ≡ some v
    → is_dict v ≡ false
    → at_path path (dict (deep_merge base override)) ≡ some v
unfolding deep_merge merge_value
override_wins base override path v h e leaf =
    at_path-merge_value path (dict override) v (some (dict base)) (unfold IsProper in h) e leaf

-- The path leaves the override where the mappings of both still go together.
abbrev pub Untouched : List Text → Fields → Fields → Type 0
Untouched [] override base = ⊥
Untouched (k ∷ ks) override base =
    (get_field k override ≡ none)
    ⊎ ((o b : Fields) × (get_field k override ≡ some (dict o))
        × (get_field k base ≡ some (dict b))
        × Untouched ks o b)

both :
    (base override : Fields) (k : Text) (o b : Fields)
    → get_field k override ≡ some (dict o)
    → get_field k base ≡ some (dict b)
    → combined (get_field k base) (get_field k override) ≡ some (dict (deep_merge b o))
unfolding merge_value deep_merge
both base override k o b p q = rw (p, q) refl

dict-IsProper : (o : Fields) → IsProper (dict o) → IsProperFields o
unfolding IsProper
dict-IsProper o h = h

-- Where the override has nothing, the merge holds what the base has.
pub base_kept :
    (base override : Fields) (path : List Text)
    → IsProperFields override
    → Untouched path override base
    → at_path path (dict (deep_merge base override)) ≡ at_path path (dict base)
base_kept base override [] h u = elim u [ ]
base_kept base override (k ∷ ks) h (inl absent) =
    let same : get_field k (deep_merge base override) ≡ get_field k base =
      get-deep_merge base override k h ∙ ap (combined (get_field k base)) absent in
    ap (λ at. elim at [ none ↦ none | some v ↦ at_path ks v ]) same
base_kept base override (k ∷ ks) h (inr (o, b, in_override, in_base, u)) =
    let merged : get_field k (deep_merge base override) ≡ some (dict (deep_merge b o)) =
      get-deep_merge base override k h ∙ both base override k o b in_override in_base in
    at_path-some (deep_merge base override) k ks _ merged
    ∙ base_kept b o ks (dict-IsProper o (IsProper-get override k (dict o) h in_override)) u
    ∙ sym (at_path-some base k ks (dict b) in_base)
