-- ===== src/Tests/Settings.antt =====
-- The theorems on the settings and the start, with a viper that has the environment in a list.
use samba_operator.Base.{String, ◌≡◌, refl, ◌↔◌, Option, none, some, List, [], ◌∷◌}
use samba_operator.Base.Int.{ℤ, pos}
use samba_operator.Base.Dict.{Dict, lookup, insert}
use samba_operator.Conf.{OperatorConfig, default_operator_config}
use samba_operator.Conf.Source.{
  Setting, text, number, Viper, file_not_found, loaded, tagged, default_settings, new_source, flags,
  read,
}
use samba_operator.Conf.Source.Defaults.{Holds, DefaultsOnly, read-new_source}
use samba_operator.Controllers.{Runtime, exits, started, main}
use samba_operator.Controllers.Started.{Ready, main_iff}

abbrev text_of : Option Setting → String
text_of (some (text s)) = s
text_of (some (number n)) = ""
text_of none = ""

abbrev number_of : Option Setting → ℤ
number_of (some (number n)) = n
number_of (some (text s)) = pos 0
number_of none = pos 0

abbrev decoded : Dict Setting → OperatorConfig
decoded m = record {
  smbd_container_image = text_of (lookup "smbd-container-image" m);
  smbd_metrics_container_image = text_of (lookup "smbd-metrics-container-image" m);
  svc_watch_container_image = text_of (lookup "svc-watch-container-image" m);
  smbd_container_name = text_of (lookup "smbd-container-name" m);
  winbind_container_name = text_of (lookup "winbind-container-name" m);
  working_namespace = text_of (lookup "working-namespace" m);
  samba_debug_level = text_of (lookup "samba-debug-level" m);
  state_pvc_size = text_of (lookup "state-pvc-size" m);
  cluster_support = text_of (lookup "cluster-support" m);
  smb_service_port = number_of (lookup "smb-service-port" m);
  smbd_port = number_of (lookup "smbd-port" m);
  service_account_name = text_of (lookup "service-account-name" m);
  metrics_exporter_mode = text_of (lookup "metrics-exporter-mode" m);
  pod_name = text_of (lookup "pod-name" m);
  pod_namespace = text_of (lookup "pod-namespace" m);
  pod_ip = text_of (lookup "pod-ip" m);
  image_pull_policy = text_of (lookup "image-pull-policy" m);
  default_node_selector = text_of (lookup "default-node-selector" m);
  cluster_type = text_of (lookup "cluster-type" m);
}

abbrev key_names : Dict Setting → List String
key_names [] = []
key_names ((k, x) ∷ m) = k ∷ key_names m

abbrev set_in : Dict Setting → Dict Setting → Dict Setting
set_in [] m = m
set_in ((k, x) ∷ environment) m = set_in environment (insert k x m)

abbrev viper : Dict Setting → Viper
viper environment = record {
  all_keys = key_names;
  read_in_config = some file_not_found;
  bind_flags = (λ names. none);
  collect = (λ m names. set_in environment m);
  unmarshal = (λ m. loaded (decoded m));
}

decoded_tagged :
    (m : Dict Setting) (c : OperatorConfig) → Holds (tagged c) m → loaded (decoded m) ≡ loaded c
unfolding tagged
decoded_tagged m c
      (
        a,
        (
          b,
          (d, (e, (f, (g, (h, (i, (j, (k, (l, (n, (o, (p, (q, (r, (s, (t, (u, all))))))))))))))))),
        ),
      ) =
    rw (a, b, d, e, f, g, h, i, j, k, l, n, o, p, q, r, s, t, u) refl

viper-DefaultsOnly : DefaultsOnly (viper [])
viper-DefaultsOnly = record {
  no_file = refl;
  binds = (λ names. refl);
  collects = (λ m names. refl);
  decodes = decoded_tagged;
}

read-new_source_example :
    (read (viper []) (new_source default_operator_config) ≡ loaded default_operator_config)
    × (read (viper []) (flags (viper []) (new_source default_operator_config)).1
        ≡ loaded default_operator_config)
read-new_source_example = read-new_source (viper []) viper-DefaultsOnly default_operator_config

abbrev environment : Dict Setting
environment = ("working-namespace", text "samba") ∷ []

abbrev in_samba : OperatorConfig
in_samba = record default_operator_config { working_namespace = "samba" }

abbrev undecoded : String → Option (Dict String)
undecoded s = none

-- The manager stops with an error once it runs.
abbrev runtime : Runtime
runtime = record {
  parse_flags = none;
  get_config = none;
  new_manager = none;
  set_up_shares = none;
  set_up_security_configs = none;
  set_up_common_configs = none;
  start = some "problem running manager";
}

main_starts :
    main undecoded runtime (viper environment) default_operator_config
    ≡ started in_samba runtime.start
unfolding main new_source flags default_settings lookup insert
main_starts = refl

main_exits :
    main undecoded runtime (viper []) default_operator_config
    ≡ exits "WorkingNamespace value [] invalid"
unfolding main new_source flags default_settings lookup insert
main_exits = refl

main_iff_example :
    (main undecoded runtime (viper environment) default_operator_config
      ≡ started in_samba runtime.start)
    ↔ ((runtime.parse_flags ≡ none)
        × (read
              (viper environment)
              (flags (viper environment) (new_source default_operator_config)).1
            ≡ loaded in_samba)
        × Ready undecoded runtime in_samba
        × (runtime.start ≡ runtime.start))
main_iff_example =
    main_iff undecoded runtime (viper environment) default_operator_config in_samba runtime.start
