-- ===== src/Examples/Classes.antt =====
-- The theorem on ingress classes at a concrete ingress.
use ingress_controller.Certs.{domain_key_eq}
use ingress_controller.Examples.Stored.{cart}
use ingress_controller.Externals.{route_id_eq}
use ingress_controller.Gateway.RefKey.{ref_key_eq}
use ingress_controller.IngressClass.{ClassConfig, IngressClass, is_managing, is_watched}
use ingress_controller.IngressClass.Managed.{is_class_of, is_managed, is_managed-is_managing}
use ingress_controller.Prelude.{[], any, is_ok, nat_eq, ok, string_eq, true, ◌&&◌, ◌∷◌, ◌≡◌}
use ingress_controller.Prelude.Text.{char_eq}
use ingress_controller.Types.{key_eq, namespaced_name_eq, secret_type_eq}

abbrev our_class : IngressClass
our_class = record {
  name = "pomerium";
  controller = "pomerium.io/ingress-controller";
  annotations = ("ingressclass.kubernetes.io/is-default-class", "true") ∷ [];
}

abbrev other_class : IngressClass
other_class = record { name = "nginx"; controller = "k8s.io/nginx"; annotations = [] }

abbrev our_controller : ClassConfig
our_controller = record {
  namespaces = ("ns", true) ∷ [];
  controller_name = "pomerium.io/ingress-controller";
}

is_managed-is_managing_example :
    (is_ok (is_managing our_controller (ok (other_class ∷ our_class ∷ [])) cart.ingress) ≡ true)
    × (is_managed (is_managing our_controller (ok (other_class ∷ our_class ∷ [])) cart.ingress) ≡ (
        is_watched our_controller cart.ingress.namespaced_name.namespace
        && any (is_class_of our_controller cart.ingress) (other_class ∷ our_class ∷ [])))
is_managed-is_managing_example =
    is_managed-is_managing our_controller (other_class ∷ our_class ∷ []) cart.ingress
