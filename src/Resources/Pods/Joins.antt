-- ===== src/Resources/Pods/Joins.antt =====
-- internal/resources/pods.go: the sources of credentials for joining a domain.
use samba_operator.Base.{String, ℕ, zero, suc, Option, none, some, List, [], ◌∷◌}
use samba_operator.Base.Panics.{Run, returns, ◌>>=◌, deref}
use samba_operator.Api.SmbSecurityConfig.{SmbSecurityJoinSpec, SmbSecurityUserJoinSpec}
use samba_operator.Planner.Instance.{Planner}
use samba_operator.Planner.Paths.{join_json_source}
use samba_operator.Resources.Volumes.{VolMount}
use samba_operator.Resources.Volumes.Sources.{join_json_file_volume_and_mount}

pub record JoinSources : Type 0 where
  pub volumes : List VolMount
  pub paths : List String

abbrev pub no_joins : JoinSources
no_joins = record { volumes = []; paths = [] }

-- One pass of the loop, with what the later ones collect.
unfoldable pub with_join :
    Planner → ℕ → Option SmbSecurityUserJoinSpec → Run JoinSources → Run JoinSources
unfolding join_json_file_volume_and_mount join_json_source
with_join pl i none later = later
with_join pl i (some u) later = do
  vm ← join_json_file_volume_and_mount pl i
  src ← later
  returns (record { volumes = vm ∷ src.volumes; paths = join_json_source i ∷ src.paths })

-- The loop over the sources from the one with the given index on.
unfoldable pub collect_joins : Planner → ℕ → List SmbSecurityJoinSpec → Run JoinSources
unfolding with_join
collect_joins pl i [] = returns no_joins
collect_joins pl i (js ∷ rest) = with_join pl i js.user_join (collect_joins pl (suc i) rest)

unfoldable pub get_join_sources : Planner → Run JoinSources
unfolding collect_joins
get_join_sources pl = do c ← deref pl.security_config; collect_joins pl zero c.spec.join_sources
