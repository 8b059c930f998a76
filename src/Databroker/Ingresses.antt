-- ===== src/Databroker/Ingresses.antt =====
-- The operations of the reconcilers: each with the configuration that it makes of the stored one.
use ingress_controller.Certs.{domain_key_eq}
use ingress_controller.Crd.{Config}
use ingress_controller.Databroker.{
  Checks, Client, Configuration, DatabrokerError, Reconciler, add_certs, cannot_apply,
  cannot_convert, empty_configuration, reconcile,
}
use ingress_controller.Externals.{Externals, route_id_eq}
use ingress_controller.Gateway.RefKey.{ref_key_eq}
use ingress_controller.Gateway.Translate.{ProxyRoute, RouteConfig, translate_routes}
use ingress_controller.IngressConfig.{IngressConfig}
use ingress_controller.Prelude.{
  Bool, List, Result, [], err, if◌then◌else◌, nat_eq, none, ok, some, string_eq, wrap, ◌++◌, ◌>>=◌,
  ◌∷◌,
}
use ingress_controller.Prelude.Text.{char_eq, ◌<>◌}
use ingress_controller.Route.{Route}
use ingress_controller.RouteList.{delete_routes, upsert_routes}
use ingress_controller.Settings.{Settings, SettingsTools, new_settings}
use ingress_controller.Settings.Apply.{apply_config}
use ingress_controller.Settings.Groups.{add_tls_cert}
use ingress_controller.Types.{NamespacedName, Secret, key_eq, namespaced_name_eq, secret_type_eq}

-- Upsert's next configuration
unfoldable pub upsert_next :
    Externals → IngressConfig → Configuration Route → Result DatabrokerError (Configuration Route)
unfolding add_certs
upsert_next e ic prev = do
  routes ← wrap cannot_convert (upsert_routes e prev.routes ic)
  ok (add_certs (record prev { routes = routes }) ic.secrets)

-- Delete's next configuration
unfoldable pub delete_next :
    Externals → NamespacedName → Configuration Route → Result DatabrokerError (Configuration Route)
delete_next e name prev = do
  routes ← wrap cannot_convert (delete_routes e prev.routes name)
  ok (record prev { routes = routes })

-- A step of the loop of Set: an ingress that cannot be converted, or whose configuration is not
-- valid, is skipped.
unfoldable pub set_step :
    Externals → Checks Route → Configuration Route → IngressConfig → Configuration Route
unfolding add_certs
set_step e x next ic = elim (upsert_routes e next.routes ic) [
  | err _ ↦ next
  | ok routes ↦
      let cfg : Configuration Route = record next { routes = routes } in
      elim (x.validate cfg ic.ingress.uid) [ err _ ↦ next | ok _ ↦ add_certs cfg ic.secrets ]
]

-- The loop of Set
unfoldable pub set_next :
    Externals → Checks Route → Configuration Route → List IngressConfig → Configuration Route
unfolding set_step
set_next e x next [] = next
set_next e x next (ic ∷ ics) = set_next e x (set_step e x next ic) ics

-- SetConfig's next configuration
unfoldable pub config_next :
    {R : Type 0} → SettingsTools → Config → Result DatabrokerError (Configuration R)
config_next t c = elim (apply_config t c none).0 [
  | err e ↦ err (cannot_apply e)
  | ok settings ↦ ok (record { routes = []; settings = some settings })
]

-- A route of model.GatewayConfig, with whether the HTTPRoute has a DeletionTimestamp
abbrev pub GatewayRoute : Type 0
GatewayRoute = RouteConfig × Bool

-- model.GatewayConfig; the extension filters stand in the routes.
pub record GatewayConfig : Type 0 where
  pub routes : List GatewayRoute
  pub certificates : List Secret

-- The loop of SetGatewayConfig over the routes
unfoldable pub gateway_routes :
    (RouteConfig → List ProxyRoute) → List GatewayRoute → List ProxyRoute
gateway_routes translate [] = []
gateway_routes translate ((rc, deleted) ∷ routes) =
    let rest = gateway_routes translate routes in if deleted then rest else translate rc ++ rest

-- The loop of SetGatewayConfig over the certificates
unfoldable pub add_gateway_certs : Settings → List Secret → Settings
unfolding add_tls_cert
add_gateway_certs s [] = s
add_gateway_certs s (cert ∷ certs) = add_gateway_certs (add_tls_cert s cert) certs

-- SetGatewayConfig's next configuration
unfoldable pub gateway_next :
    Externals → (ProxyRoute → Bool) → GatewayConfig → Configuration ProxyRoute
unfolding gateway_routes add_gateway_certs
gateway_next e is_valid config = record {
  routes = gateway_routes (translate_routes e is_valid) config.routes;
  settings = some (add_gateway_certs new_settings config.certificates);
}

module _ {S : Type 0} (client : Client S Route) (x : Checks Route) (r : Reconciler)
    (e : Externals) where
  -- Upsert
  unfoldable pub upsert : IngressConfig → S → Result DatabrokerError Bool × S
  unfolding reconcile upsert_next
  upsert ic s = reconcile client x r (upsert_next e ic) (r.config_id <> "-" <> ic.ingress.uid) s

  -- Delete
  unfoldable pub delete_ingress : NamespacedName → S → Result DatabrokerError Bool × S
  unfolding reconcile delete_next
  delete_ingress name s =
      reconcile client x r (delete_next e name) (name.namespace <> "-" <> name.name) s

  -- Set
  unfoldable pub set_ingresses : List IngressConfig → S → Result DatabrokerError Bool × S
  unfolding reconcile set_next
  set_ingresses ics s =
      reconcile client x r (λ prev. ok (set_next e x empty_configuration ics)) r.config_id s

module _ {S R : Type 0} (client : Client S R) (x : Checks R) (r : Reconciler) where
  -- SetConfig
  unfoldable pub set_config : SettingsTools → Config → S → Result DatabrokerError Bool × S
  unfolding reconcile config_next
  set_config t c s = reconcile client x r (λ prev. config_next t c) r.config_id s

module _ {S : Type 0} (client : Client S ProxyRoute) (x : Checks ProxyRoute) (r : Reconciler)
    (e : Externals) (is_valid : ProxyRoute → Bool) where
  -- SetGatewayConfig
  unfoldable pub set_gateway_config : GatewayConfig → S → Result DatabrokerError Bool × S
  unfolding reconcile gateway_next
  set_gateway_config config s =
      reconcile client x r (λ prev. ok (gateway_next e is_valid config)) r.config_id s
