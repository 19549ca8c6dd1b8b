-- ===== src/Conf/Validated.antt =====
-- Which settings `Validate` accepts.
use samba_operator.Base.{◌≡◌, ◌≢◌, ◌↔◌, eq_iff, false, none, arith}
use samba_operator.Base.Int.{le_zero}
use samba_operator.Conf.{OperatorConfig, validate}

-- `Validate` finds no fault exactly where a working namespace is named and both ports are positive.
pub validate_iff :
    (oc : OperatorConfig)
    → (validate oc ≡ none) ↔ (
        (oc.working_namespace ≢ "")
        × (le_zero oc.smb_service_port ≡ false)
        × (le_zero oc.smbd_port ≡ false))
unfolding validate
validate_iff oc = ground (arith, eq_iff oc.working_namespace "")
