-- ===== src/Api/Meta.antt =====
-- The parts of Kubernetes' object metadata that the operator reads or writes.
use samba_operator.Base.{String, Bool, Option, List}
use samba_operator.Base.Dict.{Dict}

-- metav1.OwnerReference
pub record OwnerReference : Type 0 where
  pub api_version : String
  pub kind : String
  pub name : String
  pub uid : String
  pub controller : Option Bool
  pub block_owner_deletion : Option Bool

-- metav1.ObjectMeta. A deletion timestamp is set when the object is being deleted.
pub record ObjectMeta : Type 0 where
  pub name : String
  pub namespace : String
  pub uid : String
  pub labels : Dict String
  pub annotations : Dict String
  pub owner_references : List OwnerReference
  pub finalizers : List String
  pub deletion_timestamp : Option String

-- types.NamespacedName
pub record NamespacedName : Type 0 where
  pub namespace : String
  pub name : String
