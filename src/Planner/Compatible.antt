-- ===== src/Planner/Compatible.antt =====
-- internal/planner/compatible.go
pub mod Agrees
use samba_operator.Base.{String, ◌<>◌, ◌!=◌, Option, none, some, if◌then◌else◌}
use samba_operator.Base.Panics.{Run, returns, ◌>>=◌, deref}
use samba_operator.Api.SmbShare.{SmbShare}
use samba_operator.Api.SmbSecurityConfig.{SmbSecurityConfig}
use samba_operator.Api.SmbCommonConfig.{SmbCommonConfig}
use samba_operator.Planner.Instance.{InstanceConfiguration}

pub record IncompatibleInstanceError : Type 0 where
  pub current : String
  pub existing : String
  pub reason : String

unfoldable pub error_text : IncompatibleInstanceError → String
error_text e =
    "Share resource " <> e.current <> " is incompatible with " <> e.existing <> ": " <> e.reason

abbrev pub name_or_invalid : Option SmbShare → String
name_or_invalid none = "<invalid>"
name_or_invalid (some s) = s.metadata.name

abbrev pub incompatible : SmbShare → SmbShare → String → Option IncompatibleInstanceError
incompatible current existing reason =
    some (record {
      current = current.metadata.name;
      existing = existing.metadata.name;
      reason = reason;
    })

abbrev pub security_uid : Option SmbSecurityConfig → String
security_uid none = ""
security_uid (some c) = c.metadata.uid

abbrev pub common_uid : Option SmbCommonConfig → String
common_uid none = ""
common_uid (some c) = c.metadata.uid

-- The checks after those that read the PVC.
check_configs :
    InstanceConfiguration
    → InstanceConfiguration
    → SmbShare
    → SmbShare
    → Option IncompatibleInstanceError
check_configs current existing c e =
    if c.spec.security_config != e.spec.security_config
    then incompatible c e "security config name mismatch"
    else if c.spec.common_config != e.spec.common_config
    then incompatible c e "common config name mismatch"
    else if security_uid current.security_config != security_uid existing.security_config
    then incompatible c e "security configuration resources differ"
    else if common_uid current.common_config != common_uid existing.common_config
    then incompatible c e "common configuration resources differ"
    else none

check_shares :
    InstanceConfiguration
    → InstanceConfiguration
    → SmbShare
    → SmbShare
    → Run (Option IncompatibleInstanceError)
unfolding check_configs
check_shares current existing c e =
    let names = (do
      p ← deref c.spec.storage.pvc
      q ← deref e.spec.storage.pvc
      returns (
          if p.name != q.name
          then incompatible c e "PersistentVolumeClaim name mismatch"
          else check_configs current existing c e)) in
    if c.metadata.namespace != e.metadata.namespace
    then returns (incompatible c e "namespaces differ")
    else names

-- Where one of the two has no share.
abbrev missing_share : Option SmbShare → Option SmbShare → Option IncompatibleInstanceError
missing_share current existing = some (record {
  current = name_or_invalid current;
  existing = name_or_invalid existing;
  reason = "instance configuration missing SmbShare";
})

check_both :
    InstanceConfiguration
    → InstanceConfiguration
    → Option SmbShare
    → Option SmbShare
    → Run (Option IncompatibleInstanceError)
unfolding check_shares
check_both current existing (some c) (some e) = check_shares current existing c e
check_both current existing none e = returns (missing_share none e)
check_both current existing (some c) none = returns (missing_share (some c) none)

-- `none` means that the two may share one server.
unfoldable pub check_compatible :
    InstanceConfiguration → InstanceConfiguration → Run (Option IncompatibleInstanceError)
unfolding check_both
check_compatible current existing = check_both current existing current.smb_share existing.smb_share
