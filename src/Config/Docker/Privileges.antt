-- ===== src/Config/Docker/Privileges.antt =====
-- What `from_docker` makes of `privileged` and `cap_add`: which steps keep an argument or a field, and
-- what is left at the end.
use agentdocker_lite.Base.{
  ◌≡◌, refl, sym, ap, ◌∙◌, arith, ℤ, true, false, Option, none, some, List, [], ◌∷◌, Result, ok,
  ◌>>=◌, >>=-eq-ok, all, not, Result-cases, Option-cases, inl, inr,
}
use agentdocker_lite.Text.{Text, codes, text_eq, text_eq_iff}
use agentdocker_lite.Compose.Yaml.{
  Value, bool, str, list, Fields, end, field, get_field, put_field, truthy,
}
use agentdocker_lite.Config.{Failure}
use agentdocker_lite.Config.Capabilities.{cap_names}
use agentdocker_lite.Config.Docker.Convert.{from_list, texts, iterated}
use agentdocker_lite.Config.Docker.{
  State, Move, adding, moved, move_all, set_to, remove_field, set_privileged, basic_fields,
  limit_fields, last_fields, from_docker,
}

get_field-put_same : (k : Text) (v : Value) (fs : Fields) → get_field k (put_field k v fs) ≡ some v
unfolding get_field put_field
get_field-put_same k v end = ground (arith, text_eq_iff k k)
get_field-put_same k v (field j w fs) = ground (arith, get_field-put_same k v fs)

get_field-put_other :
    (q k : Text) (v : Value) (fs : Fields)
    → text_eq k q ≡ false
    → get_field q (put_field k v fs) ≡ get_field q fs
unfolding get_field put_field
get_field-put_other q k v end h = ground arith
get_field-put_other q k v (field j w fs) h =
    ground (arith, text_eq_iff j k, text_eq_iff k q, get_field-put_other q k v fs h)

get_field-remove_other :
    (q k : Text) (fs : Fields)
    → text_eq k q ≡ false
    → get_field q (remove_field k fs) ≡ get_field q fs
unfolding get_field remove_field
get_field-remove_other q k end h = refl
get_field-remove_other q k (field j w fs) h =
    ground (arith, text_eq_iff j k, text_eq_iff k q, get_field-remove_other q k fs h)

abbrev Step : Type 0
Step = State → Result Failure State

abbrev argument : Text → State → Option Value
argument q (kwargs, cfg) = get_field q kwargs

abbrev setting : Text → State → Option Value
setting q (kwargs, cfg) = get_field q cfg

-- A step that returns leaves what `look` sees.
abbrev Keeps : (State → Option Value) → Step → Type 0
Keeps look f = (s s' : State) → f s ≡ ok s' → look s' ≡ look s

get_field-set_to_other :
    (q name : Text) (set : Option Value) (fs : Fields)
    → text_eq name q ≡ false
    → get_field q (set_to name set fs) ≡ get_field q fs
get_field-set_to_other q name none fs h = refl
get_field-set_to_other q name (some v) fs h = get_field-put_other q name v fs h

moved-Keeps_argument :
    (q : Text) (m : Move) → text_eq m.argument q ≡ false → Keeps (argument q) (moved m)
unfolding moved
moved-Keeps_argument q m other (kwargs, cfg) (kwargs', cfg') h =
    ground (arith, get_field-remove_other q m.argument kwargs other)

moved-Keeps_setting :
    (q : Text) (m : Move) → text_eq m.setting q ≡ false → Keeps (setting q) (moved m)
unfolding moved
moved-Keeps_setting q m other (kwargs, cfg) (kwargs', cfg') h =
    elim (Option-cases (get_field m.argument kwargs)) [
      | inl absent ↦ ground arith
      | inr (v, given) ↦ elim (Result-cases (m.convert v)) [
        | inl (set, made) ↦ ground (arith, get_field-set_to_other q m.setting set cfg other)
        | inr (e, failed) ↦ ground arith
      ]
    ]

move_all-Keeps_argument :
    (q : Text) (ms : List Move)
    → all (λ m. not (text_eq m.argument q)) ms ≡ true
    → Keeps (argument q) (move_all ms)
unfolding move_all
move_all-Keeps_argument q [] hs s s' h = ground arith
move_all-Keeps_argument q (m ∷ ms) others s s' h =
    let (mid, first, second) = >>=-eq-ok (moved m s) (move_all ms) h in
    move_all-Keeps_argument q ms (ground arith) mid s' second
    ∙ moved-Keeps_argument q m (ground arith) s mid first

move_all-Keeps_setting :
    (q : Text) (ms : List Move)
    → all (λ m. not (text_eq m.setting q)) ms ≡ true
    → Keeps (setting q) (move_all ms)
unfolding move_all
move_all-Keeps_setting q [] hs s s' h = ground arith
move_all-Keeps_setting q (m ∷ ms) others s s' h =
    let (mid, first, second) = >>=-eq-ok (moved m s) (move_all ms) h in
    move_all-Keeps_setting q ms (ground arith) mid s' second
    ∙ moved-Keeps_setting q m (ground arith) s mid first

abbrev cap_add : Text
cap_add = codes "cap_add"

abbrev seccomp : Text
seccomp = codes "seccomp"

set_privileged-Keeps_argument : Keeps (argument cap_add) set_privileged
unfolding set_privileged text_eq
set_privileged-Keeps_argument (kwargs, cfg) (kwargs', cfg') h =
    ground (arith, get_field-remove_other cap_add (codes "privileged") kwargs refl)

set_privileged-seccomp :
    (s s' : State) (v : Value)
    → argument (codes "privileged") s ≡ some v
    → truthy v ≡ true
    → set_privileged s ≡ ok s'
    → setting seccomp s' ≡ some (bool false)
unfolding set_privileged text_eq
set_privileged-seccomp (kwargs, cfg) (kwargs', cfg') v given on h =
    let before = get_field-put_same seccomp (bool false) cfg in
    let after =
      get_field-put_other seccomp cap_add (list (texts cap_names))
        (put_field seccomp (bool false) cfg) refl in
    ground (arith, before, after)

moved-sets :
    (m : Move) (s s' : State) (v w : Value)
    → argument m.argument s ≡ some v
    → m.convert v ≡ ok (some w)
    → moved m s ≡ ok s'
    → setting m.setting s' ≡ some w
unfolding moved
moved-sets m (kwargs, cfg) (kwargs', cfg') v w given made h =
    ground (arith, get_field-put_same m.setting w cfg)

module _ (show : Value → Text) (as_int : Value → Result Failure ℤ) where
  -- With `privileged` true and a list of capabilities to add, the configuration is without seccomp,
  -- and adds the capabilities of the list and no others.
  pub from_docker_privileged :
      (image : Text) (kwargs rest cfg : Fields) (v caps : Value) (names : List Value)
      → from_docker show as_int image kwargs ≡ ok (rest, cfg)
      → get_field (codes "privileged") kwargs ≡ some v
      → truthy v ≡ true
      → get_field cap_add kwargs ≡ some caps
      → iterated caps ≡ ok names
      → (get_field seccomp cfg ≡ some (bool false))
        × (get_field cap_add cfg ≡ some (list (from_list names)))
  unfolding from_docker text_eq
  from_docker_privileged image kwargs rest cfg v caps names h privileged on given listed =
      let start : State = (kwargs, field (codes "image") (str image) end) in
      let (s1, e1, h1) = >>=-eq-ok (move_all (basic_fields show as_int) start) _ h in
      let (s2, e2, h2) = >>=-eq-ok (set_privileged s1) _ h1 in
      let (s3, e3, h3) = >>=-eq-ok (move_all (limit_fields show as_int) s2) _ h2 in
      let (s4, e4, h4) = >>=-eq-ok (moved adding s3) _ h3 in
      let (s5, e5, h5) = >>=-eq-ok (move_all (last_fields show as_int) s4) _ h4 in
      let at_the_end : s5.1 ≡ cfg = ground arith in
      let privileged1 : argument (codes "privileged") s1 ≡ some v =
        move_all-Keeps_argument (codes "privileged") (basic_fields show as_int) refl start s1 e1
        ∙ privileged in
      let seccomp2 = set_privileged-seccomp s1 s2 v privileged1 on e2 in
      let seccomp3 = move_all-Keeps_setting seccomp (limit_fields show as_int) refl s2 s3 e3 in
      let seccomp4 = moved-Keeps_setting seccomp adding refl s3 s4 e4 in
      let seccomp5 = move_all-Keeps_setting seccomp (last_fields show as_int) refl s4 s5 e5 in
      let caps1 = move_all-Keeps_argument cap_add (basic_fields show as_int) refl start s1 e1 in
      let caps2 = set_privileged-Keeps_argument s1 s2 e2 in
      let caps3 = move_all-Keeps_argument cap_add (limit_fields show as_int) refl s2 s3 e3 in
      let caps4 =
        moved-sets adding s3 s4 caps (list (from_list names)) (caps3 ∙ caps2 ∙ caps1 ∙ given)
          (ap (λ r. r >>= λ vs. ok (some (list (from_list vs)))) listed) e4 in
      let caps5 = move_all-Keeps_setting cap_add (last_fields show as_int) refl s4 s5 e5 in
      (
        ap (get_field seccomp) (sym at_the_end) ∙ seccomp5 ∙ seccomp4 ∙ seccomp3 ∙ seccomp2,
        ap (get_field cap_add) (sym at_the_end) ∙ caps5 ∙ caps4,
      )
