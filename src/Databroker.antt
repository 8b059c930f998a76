-- ===== src/Databroker.antt =====
-- pomerium/sync_databroker.go: the reconcilers that keep a configuration in the databroker. The
-- databroker's client is a parameter on a state of its own; an operation returns its result and the
-- state that it leaves. A configuration is generic in its routes, since the routes of ingresses
-- and those of gateways are built with different fields.
pub mod Saving
pub mod Ingresses
pub mod Covered
pub mod Stored
pub mod Requests
pub mod Replaced
use ingress_controller.Annotations.Mcp.Modes.{client}
use ingress_controller.Certs.{CertError, CertTools, domain_key_eq, remove_unused_certs}
use ingress_controller.Externals.{route_id_eq}
use ingress_controller.Gateway.RefKey.{ref_key_eq}
use ingress_controller.Prelude.{
  Bool, List, Option, Result, String, [], err, false, if◌then◌else◌, map, map_option, nat_eq, none,
  ok, some, string_eq, true, wrap, ◌==◌, ◌>>=◌, ◌>>◌, ◌∷◌,
}
use ingress_controller.Prelude.Map.{Map}
use ingress_controller.Prelude.Set.{remove}
use ingress_controller.Prelude.Sort.{sort, str_lt}
use ingress_controller.Prelude.Text.{char_eq}
use ingress_controller.RouteList.{RouteListError}
use ingress_controller.Settings.{Settings, SettingsError}
use ingress_controller.Settings.Apply.{or_new}
use ingress_controller.Settings.Groups.{add_tls_cert}
use ingress_controller.Types.{
  NamespacedName, Secret, key_eq, namespaced_name_eq, secret_type_eq, tls,
}

-- pb.Config
pub record Configuration (R : Type 0) : Type 0 where
  pub routes : List R
  pub settings : Option Settings

abbrev pub empty_configuration : {R : Type 0} → Configuration R
empty_configuration = record { routes = []; settings = none }

pub data GetError : Type 0 where
  not_found : GetError
  get_failed cannot_unmarshal : String → GetError

-- databroker.DataBrokerServiceClient, for records of the type of a configuration; a record without
-- data is one that has DeletedAt.
pub record Client (S R : Type 0) : Type 0 where
  pub get : S → String → Result GetError (Configuration R)
  pub put : S → String → Option (Configuration R) → Result String (Unit {0}) × S

-- What the reconcilers ask of the routes: the order, the address, and the libraries that validate
-- a configuration (validate.go) and compare two messages (proto.Equal).
pub record Checks (R : Type 0) : Type 0 where
  pub less : R → R → Bool
  pub address : R → String
  pub certificates : CertTools
  pub validate : Configuration R → String → Result String (Unit {0})
  pub is_same : Configuration R → Configuration R → Bool

pub data DatabrokerError : Type 0 where
  cannot_get : GetError → DatabrokerError
  cannot_convert : RouteListError → DatabrokerError
  cannot_apply : SettingsError → DatabrokerError
  cannot_remove_certs : CertError → DatabrokerError
  is_invalid : String → DatabrokerError
  cannot_put : String → DatabrokerError

-- DataBrokerReconciler
pub record Reconciler : Type 0 where
  pub config_id : String
  pub remove_unreferenced_certs : Bool

abbrev pub ingress_controller_config_id : String
ingress_controller_config_id = "ingress-controller"

abbrev pub gateway_controller_config_id : String
gateway_controller_config_id = "gateway-controller"

abbrev pub shared_settings_config_id : String
shared_settings_config_id = "pomerium-crd"

-- NewDataBrokerReconciler
abbrev pub ingress_reconciler : Reconciler
ingress_reconciler = record {
  config_id = ingress_controller_config_id;
  remove_unreferenced_certs = true;
}

abbrev pub config_reconciler : Reconciler
config_reconciler = record {
  config_id = shared_settings_config_id;
  remove_unreferenced_certs = false;
}

abbrev pub gateway_reconciler : Reconciler
gateway_reconciler = record {
  config_id = gateway_controller_config_id;
  remove_unreferenced_certs = false;
}

-- addCerts, on settings that are there
unfoldable pub add_tls_certs : Settings → Map NamespacedName Secret → Settings
unfolding add_tls_cert
add_tls_certs s [] = s
add_tls_certs s ((name, secret) ∷ secrets) =
    add_tls_certs (if secret.secret_type == tls then add_tls_cert s secret else s) secrets

abbrev pub sort_certificates : Settings → Settings
sort_certificates s = record s { certificates = sort (λ a b. str_lt a.id b.id) s.certificates }

abbrev pub after_put : {S : Type 0} → Result String (Unit {0}) × S → Result DatabrokerError Bool × S
after_put (ok u, s) = (ok true, s)
after_put (err e, s) = (err (cannot_put e), s)

module _ {R : Type 0} where
  -- addCerts
  unfoldable pub add_certs : Configuration R → Map NamespacedName Secret → Configuration R
  unfolding add_tls_certs
  add_certs cfg secrets = record cfg {
    settings = some (add_tls_certs (or_new cfg.settings) secrets);
  }

  -- ensureDeterministicConfigOrder
  unfoldable pub ensure_config_order : (R → R → Bool) → Configuration R → Configuration R
  ensure_config_order less cfg = record {
    routes = sort less cfg.routes;
    settings = map_option sort_certificates cfg.settings;
  }

  abbrev pub drop_certs_of :
      Checks R → Configuration R → Option Settings → Result CertError (Configuration R)
  drop_certs_of x cfg none = ok cfg
  drop_certs_of x cfg (some s) = do
    certs ←
        remove_unused_certs x.certificates (map x.address cfg.routes) s.authenticate_service_url
          s.certificates
    ok (record cfg { settings = some (record s { certificates = certs }) })

  -- removeUnusedCerts
  unfoldable pub drop_unused_certs : Checks R → Configuration R → Result CertError (Configuration R)
  drop_unused_certs x cfg = drop_certs_of x cfg cfg.settings

  abbrev pub drop_certs_if : Bool → Checks R → Configuration R → Result CertError (Configuration R)
  drop_certs_if true x cfg = drop_unused_certs x cfg
  drop_certs_if false x cfg = ok cfg

  -- The part of saveConfig that makes the configuration that is stored
  unfoldable pub prepare :
      Checks R → Bool → Configuration R → String → Result DatabrokerError (Configuration R)
  unfolding drop_unused_certs ensure_config_order
  prepare x remove next id = do
    kept ← wrap cannot_remove_certs (drop_certs_if remove x next)
    wrap is_invalid (x.validate (ensure_config_order x.less kept) id)
    ok (ensure_config_order x.less kept)

  abbrev pub or_empty : Result GetError (Configuration R) → Result DatabrokerError (Configuration R)
  or_empty (ok cfg) = ok cfg
  or_empty (err not_found) = ok empty_configuration
  or_empty (err e) = err (cannot_get e)

module _ {S R : Type 0} (client : Client S R) (x : Checks R) (r : Reconciler) where
  -- getConfig
  unfoldable pub get_config : S → Result DatabrokerError (Configuration R)
  get_config s = or_empty (client.get s r.config_id)

  -- The part of saveConfig that stores a configuration
  unfoldable pub put_if_changed :
      Configuration R → Configuration R → S → Result DatabrokerError Bool × S
  put_if_changed prev final s =
      if x.is_same prev final
      then (ok false, s)
      else after_put (client.put s r.config_id (some final))

  -- saveConfig
  unfoldable pub save_config :
      Configuration R → Configuration R → String → S → Result DatabrokerError Bool × S
  unfolding prepare put_if_changed
  save_config prev next id s = elim (prepare x r.remove_unreferenced_certs next id) [
    | err e ↦ (err e, s)
    | ok final ↦ put_if_changed prev final s
  ]

  -- The course of the operations: the configuration is read, the next one is made of it, and that
  -- is saved.
  unfoldable pub reconcile :
      (Configuration R → Result DatabrokerError (Configuration R))
      → String
      → S
      → Result DatabrokerError Bool × S
  unfolding get_config save_config
  reconcile make id s = elim (get_config s) [
    | err e ↦ (err e, s)
    | ok prev ↦ elim (make prev) [ err e ↦ (err e, s) | ok next ↦ save_config prev next id s ]
  ]

  -- DeleteAll
  unfoldable pub delete_all : S → Result String (Unit {0}) × S
  delete_all s = client.put s ingress_controller_config_id none
