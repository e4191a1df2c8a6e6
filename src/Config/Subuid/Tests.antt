-- ===== src/Config/Subuid/Tests.antt =====
-- A user with a range of subordinate ids.
use agentdocker_lite.Base.{◌≡◌, refl, pos, true, false, some, [], ◌∷◌, ok, err}
use agentdocker_lite.Text.{codes}
use agentdocker_lite.Config.Sample.{sample_python}
use agentdocker_lite.Config.Subuid.{
  System, undetected, detect_subuid_range, IsConsistent, Settles, detect_subuid_range-Settles,
}

abbrev host : System
host = record {
  has_newuidmap = true;
  has_newgidmap = true;
  username = some (codes "ann");
  uid = pos 1000;
  subuid_lines =
      some (codes "# ids" ∷ (codes "bob:100000:65536" ∷ (codes "1000:165536:65536" ∷ [])));
}

detect_subuid_range-host :
    (detect_subuid_range sample_python host undetected).0
    ≡ ok (some (pos 1000, pos 165536, pos 65536))
unfolding detect_subuid_range
detect_subuid_range-host = refl

abbrev bare : System
bare = record host { has_newgidmap = false }

detect_subuid_range-bare :
    detect_subuid_range sample_python bare undetected
    ≡ (err (codes "newuidmap/newgidmap not found"), undetected)
unfolding detect_subuid_range
detect_subuid_range-bare = refl

detect_subuid_range-Settles_example :
    IsConsistent sample_python (detect_subuid_range sample_python host undetected).1
    × Settles sample_python bare undetected
        (detect_subuid_range sample_python host undetected).0
        (detect_subuid_range sample_python host undetected).1
detect_subuid_range-Settles_example =
    detect_subuid_range-Settles sample_python host bare undetected (λ off. refl)
