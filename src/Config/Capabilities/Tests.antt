-- ===== src/Config/Capabilities/Tests.antt =====
-- Names of capabilities, in each spelling.
use agentdocker_lite.Base.{◌≡◌, refl, [], ◌∷◌}
use agentdocker_lite.Text.{codes}
use agentdocker_lite.Config.Sample.{sample_python}
use agentdocker_lite.Config.Capabilities.{cap_names_to_numbers, cap_names_to_numbers_bounds}

cap_names_to_numbers-mixed :
    cap_names_to_numbers sample_python
      (codes "CAP_NET_RAW" ∷ (codes "sys_admin" ∷ (codes "NO_SUCH" ∷ [])))
    ≡ 13 ∷ (21 ∷ [])
unfolding cap_names_to_numbers agentdocker_lite.Config.Capabilities.cap_number
    agentdocker_lite.Dict.get agentdocker_lite.Config.Capabilities.cap_name_to_num
    agentdocker_lite.Text.text_eq agentdocker_lite.Config.Capabilities.remove_cap
cap_names_to_numbers-mixed = refl
