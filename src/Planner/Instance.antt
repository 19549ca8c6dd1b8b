-- ===== src/Planner/Instance.antt =====
-- internal/planner/instance.go
use samba_operator.Base.{Option}
use samba_operator.Api.SmbShare.{SmbShare}
use samba_operator.Api.SmbSecurityConfig.{SmbSecurityConfig}
use samba_operator.Api.SmbCommonConfig.{SmbCommonConfig}
use samba_operator.Conf.{OperatorConfig}

pub record InstanceConfiguration : Type 0 where
  pub smb_share : Option SmbShare
  pub security_config : Option SmbSecurityConfig
  pub common_config : Option SmbCommonConfig
  pub global_config : OperatorConfig

-- The instance of a planner, whose share is not nil. `ConfigState` is passed to the functions that
-- read or write it.
pub record Planner : Type 0 where
  pub smb_share : SmbShare
  pub security_config : Option SmbSecurityConfig
  pub common_config : Option SmbCommonConfig
  pub global_config : OperatorConfig
