-- ===== src/Resources/Outcome.antt =====
-- internal/resources/result.go, and the errors that the code passes on.
use samba_operator.Base.{String, Bool, true, false, ◌||◌, Option, none, some, is_some}

-- Errors of the Kubernetes client; `errors.IsNotFound` tells the first from all others.
pub data Error : Type 0 where
  not_found : Error
  failed : String → Error

-- type Result
pub record Result : Type 0 where
  pub err : Option Error
  pub requeue : Bool

abbrev pub done : Result
done = record { err = none; requeue = false }

abbrev pub requeued : Result
requeued = record { err = none; requeue = true }

-- `Result{err: err}`
abbrev pub stopped : Error → Result
stopped e = record { err = some e; requeue = false }

-- Whether current processing should be discontinued.
abbrev pub yields : Result → Bool
yields r = r.requeue || is_some r.err
