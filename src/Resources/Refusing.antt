-- ===== src/Resources/Refusing.antt =====
-- How the API server answers the creation of the objects for OpenShift, for every kind of them.
use samba_operator.Resources.Platform.{Platform}
use samba_operator.Resources.Ensure.{Refuses}

-- A creation that is refused because an object of the name exists leaves the cluster as it is.
pub record Refusing {W : Type 0} (p : Platform W) : Type 0 where
  pub service_accounts : Refuses p.is_already_exists p.service_accounts
  pub roles : Refuses p.is_already_exists p.roles
  pub role_bindings : Refuses p.is_already_exists p.role_bindings
  pub services : Refuses p.is_already_exists p.services
  pub service_monitors : Refuses p.is_already_exists p.service_monitors
