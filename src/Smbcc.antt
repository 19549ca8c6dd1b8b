-- ===== src/Smbcc.antt =====
-- internal/smbcc/container_config.go: the configuration that the samba containers read, kept as
-- JSON in a config map. A map of the state is never nil here: `New` makes the three that the
-- planner writes to, and every section that it writes has options.
use samba_operator.Base.{ℕ, String, ◌<>◌, Bool, true, none, some, List, [], ◌∷◌}
use samba_operator.Base.{if◌then◌else◌}
use samba_operator.Base.Dict.{Dict, lookup, insert}
use samba_operator.Base.Int.{ℤ, pos, itoa}

abbrev pub Key : Type 0
Key = String

abbrev pub FeatureFlag : Type 0
FeatureFlag = String

abbrev pub SmbOptions : Type 0
SmbOptions = Dict String

abbrev pub ctdb : FeatureFlag
ctdb = "ctdb"

abbrev pub default_smb_port : ℤ
default_smb_port = pos 445

pub record GlobalOptions : Type 0 where
  pub add_vfs_fileid : Bool
  pub smb_port : ℤ

pub record PermissionsConfig : Type 0 where
  pub method : String
  pub status_xattr : String
  pub mode : String

pub record ConfigSection : Type 0 where
  pub shares : List Key
  pub globals : List Key
  pub instance_name : String
  pub instance_features : List FeatureFlag
  pub permissions : PermissionsConfig

pub record ShareConfig : Type 0 where
  pub options : SmbOptions

pub record GlobalConfig : Type 0 where
  pub options : SmbOptions

pub record UserEntry : Type 0 where
  pub name : String
  pub uid : ℕ
  pub gid : ℕ
  pub nt_hash : String
  pub password : String

pub record GroupEntry : Type 0 where
  pub name : String
  pub gid : ℕ

pub record SambaContainerConfig : Type 0 where
  pub scc_version : String
  pub configs : Dict ConfigSection
  pub shares : Dict ShareConfig
  pub globals : Dict GlobalConfig
  pub users : Dict (List UserEntry)
  pub groups : Dict (List GroupEntry)

abbrev pub version0 : String
version0 = "v0"

abbrev pub globals_key : Key
globals_key = "globals"

abbrev pub all_entries_key : Key
all_entries_key = "all_entries"

abbrev pub browseable_param : String
browseable_param = "browseable"

abbrev pub read_only_param : String
read_only_param = "read only"

-- The option values "yes" and "no".
abbrev pub yes_value : String
yes_value = "yes"

abbrev pub no_value : String
no_value = "no"

abbrev pub new_global_options : GlobalOptions
new_global_options = record { add_vfs_fileid = true; smb_port = default_smb_port }

abbrev pub new : SambaContainerConfig
new = record {
  scc_version = version0;
  configs = [];
  shares = [];
  globals = [];
  users = [];
  groups = [];
}

-- `"vfs objects"` is appended to where it is set already.
add_fileid : SmbOptions → SmbOptions
unfolding lookup insert
add_fileid o =
    let objects : String = elim (lookup "vfs objects" o) [
      | none ↦ "fileid"
      | some v ↦ v <> " fileid"
    ] in
    insert "fileid:algorithm" "fsid" (insert "vfs objects" objects o)

unfoldable pub new_globals : GlobalOptions → GlobalConfig
unfolding add_fileid itoa
new_globals opts =
    let base : SmbOptions =
      ("load printers", no_value)
      ∷ ("printing", "bsd")
      ∷ ("printcap name", "/dev/null")
      ∷ ("disable spoolss", yes_value)
      ∷ ("dos charset", "ascii")
      ∷ ("smb ports", itoa opts.smb_port)
      ∷ [] in
    record { options = if opts.add_vfs_fileid then add_fileid base else base }

unfoldable pub new_simple_share : String → ShareConfig
new_simple_share path = record { options = ("path", path) ∷ ("read only", no_value) ∷ [] }

abbrev pub new_permissions_config : PermissionsConfig
new_permissions_config = record {
  method = "initialize-share-perms";
  status_xattr = "user.share-perms-status";
  mode = "0777";
}

unfoldable pub new_config_section : String → ConfigSection
new_config_section name = record {
  shares = [];
  globals = [];
  instance_name = name;
  instance_features = [];
  permissions = record { method = ""; status_xattr = ""; mode = "" };
}

abbrev pub new_default_users : Dict (List UserEntry)
new_default_users =
    (
      all_entries_key,
      record { name = "sambauser"; uid = 0; gid = 0; nt_hash = ""; password = "samba" } ∷ [],
    )
    ∷ []
