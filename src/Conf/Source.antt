-- ===== src/Conf/Source.antt =====
-- internal/conf/config.go and global.go: where the settings come from. Viper, which collects them from
-- the defaults, a file, the environment and the flags, is a parameter.
pub mod Defaults
use samba_operator.Base.{String, Bool, true, false, Option, none, some, List, [], ◌∷◌}
use samba_operator.Base.Dict.{Dict}
use samba_operator.Base.Int.{ℤ}
use samba_operator.Conf.{OperatorConfig}

pub data Setting : Type 0 where
  text : String → Setting
  number : ℤ → Setting

-- What reading the configuration file ends with, where it fails.
pub data FileError : Type 0 where
  file_not_found : FileError
  unreadable_file : String → FileError

pub data Loaded : Type 0 where
  loaded : OperatorConfig → Loaded
  refused : String → Loaded

-- The source's viper holds the defaults; the flags are bound by their names.
pub record Viper : Type 0 where
  -- The keys of the defaults, in no order of theirs.
  pub all_keys : Dict Setting → List String
  pub read_in_config : Option FileError
  pub bind_flags : List String → Option String
  -- The values under the keys, from the most significant source that has one.
  pub collect : Dict Setting → Option (List String) → Dict Setting
  -- The decoding into the struct, field by field, of the values under the tags of the fields.
  pub unmarshal : Dict Setting → Loaded

-- type Source
pub record Source : Type 0 where
  pub defaults : Dict Setting
  pub flag_names : Option (List String)

unfoldable pub default_settings : OperatorConfig → Dict Setting
default_settings c =
    ("smbd-container-image", text c.smbd_container_image)
    ∷ ("smbd-metrics-container-image", text c.smbd_metrics_container_image)
    ∷ ("smbd-container-name", text c.smbd_container_name)
    ∷ ("winbind-container-name", text c.winbind_container_name)
    ∷ ("working-namespace", text c.working_namespace)
    ∷ ("svc-watch-container-image", text c.svc_watch_container_image)
    ∷ ("samba-debug-level", text c.samba_debug_level)
    ∷ ("state-pvc-size", text c.state_pvc_size)
    ∷ ("cluster-support", text c.cluster_support)
    ∷ ("smb-service-port", number c.smb_service_port)
    ∷ ("smbd-port", number c.smbd_port)
    ∷ ("service-account-name", text c.service_account_name)
    ∷ ("metrics-exporter-mode", text c.metrics_exporter_mode)
    ∷ ("pod-name", text c.pod_name)
    ∷ ("pod-namespace", text c.pod_namespace)
    ∷ ("pod-ip", text c.pod_ip)
    ∷ ("image-pull-policy", text c.image_pull_policy)
    ∷ ("default-node-selector", text c.default_node_selector)
    ∷ ("cluster-type", text c.cluster_type)
    ∷ []

-- The keys under which the struct's tags look for the fields.
unfoldable pub tagged : OperatorConfig → Dict Setting
tagged c =
    ("smbd-container-image", text c.smbd_container_image)
    ∷ ("smbd-metrics-container-image", text c.smbd_metrics_container_image)
    ∷ ("svc-watch-container-image", text c.svc_watch_container_image)
    ∷ ("smbd-container-name", text c.smbd_container_name)
    ∷ ("winbind-container-name", text c.winbind_container_name)
    ∷ ("working-namespace", text c.working_namespace)
    ∷ ("samba-debug-level", text c.samba_debug_level)
    ∷ ("state-pvc-size", text c.state_pvc_size)
    ∷ ("cluster-support", text c.cluster_support)
    ∷ ("smb-service-port", number c.smb_service_port)
    ∷ ("smbd-port", number c.smbd_port)
    ∷ ("service-account-name", text c.service_account_name)
    ∷ ("metrics-exporter-mode", text c.metrics_exporter_mode)
    ∷ ("pod-name", text c.pod_name)
    ∷ ("pod-namespace", text c.pod_namespace)
    ∷ ("pod-ip", text c.pod_ip)
    ∷ ("image-pull-policy", text c.image_pull_policy)
    ∷ ("default-node-selector", text c.default_node_selector)
    ∷ ("cluster-type", text c.cluster_type)
    ∷ []

unfoldable pub new_source : OperatorConfig → Source
unfolding default_settings
new_source c = record { defaults = default_settings c; flag_names = none }

module _ (v : Viper) where
  -- The names of the flags, and the source, which keeps them.
  unfoldable pub flags : Source → List String × Source
  flags s = elim s.flag_names [
    | none ↦ (v.all_keys s.defaults, record s { flag_names = some (v.all_keys s.defaults) })
    | some names ↦ (names, s)
  ]

  unfoldable pub collected : Source → Loaded
  collected s = v.unmarshal (v.collect s.defaults s.flag_names)

  unless_refused : Option String → Loaded → Loaded
  unless_refused none rest = rest
  unless_refused (some e) rest = refused e

  unfoldable pub bound : Source → Option (List String) → Loaded
  unfolding collected unless_refused
  bound s none = collected s
  bound s (some names) = unless_refused (v.bind_flags names) (collected s)

  unfoldable pub after_file : Source → Option FileError → Loaded
  unfolding bound
  after_file s none = bound s s.flag_names
  after_file s (some file_not_found) = bound s s.flag_names
  after_file s (some (unreadable_file e)) = refused e

  unfoldable pub read : Source → Loaded
  unfolding after_file
  read s = after_file s v.read_in_config

-- `Load` puts the settings into the global variable, whose value `Get` returns.
unfoldable pub keep_loaded : Option OperatorConfig → Loaded → Option OperatorConfig × Option String
keep_loaded kept (loaded c) = (some c, none)
keep_loaded kept (refused e) = (kept, some e)

unfoldable pub load : Viper → Option OperatorConfig → Source → Option OperatorConfig × Option String
unfolding keep_loaded read
load v kept s = keep_loaded kept (read v s)
