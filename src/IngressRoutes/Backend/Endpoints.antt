-- ===== src/IngressRoutes/Backend/Endpoints.antt =====
-- The hosts of the endpoints of a service, by membership.
use ingress_controller.Certs.{domain_key_eq}
use ingress_controller.Externals.{route_id_eq}
use ingress_controller.Gateway.RefKey.{ref_key_eq}
use ingress_controller.IngressRoutes.Backend.{
  find_target, get_endpoint_port_matcher, get_endpoints_urls, hosts_of_addresses, hosts_of_ports,
  hosts_of_subsets,
}
use ingress_controller.Kube.{
  EndpointPort, EndpointSubset, IntOrString, ServiceBackendPort, ServicePort, int, int_val, str,
}
use ingress_controller.Prelude.{
  Bool, Bool-cases, List, Option, Option-cases, String, [], any, ap, arith, false, if◌then◌else◌,
  inl, inr, nat_eq, none, refl, some, string_eq, ℕ, ◌&&◌, ◌==◌, ◌∙◌, ◌∷◌, ◌≡◌,
}
use ingress_controller.Prelude.Number.{itoa}
use ingress_controller.Prelude.Set.{contains, contains-append}
use ingress_controller.Prelude.Text.{char_eq, ◌<>◌}
use ingress_controller.Types.{key_eq, namespaced_name_eq, secret_type_eq}
use mathlib.Core.Path.{fun_ext}

-- The service's ports of a number
abbrev ports_of : ℕ → List ServicePort → List ServicePort
ports_of number [] = []
ports_of number (p ∷ ps) =
    let rest = ports_of number ps in if p.port == number then p ∷ rest else rest

-- A target is the port of its number. A target that is a name is not looked up, and counts as the
-- port 0, which no endpoint has.
abbrev is_target : IntOrString → ℕ → Bool
is_target (int n) port = port == n
is_target (str s) port = port == 0

abbrev is_target_of_first : List ServicePort → ℕ → Bool
is_target_of_first [] port = false
is_target_of_first (p ∷ ps) port = is_target p.target_port port

-- The port of an endpoint has the name that the ingress states or, where it states a number, is
-- the target of the first of the service's ports of that number.
abbrev pub asked_for : ServiceBackendPort → List ServicePort → EndpointPort → Bool
asked_for backend_port service_ports q =
    if backend_port.name == ""
    then is_target_of_first (ports_of backend_port.number service_ports) q.port
    else q.name == backend_port.name

is_target_lem : (target : IntOrString) (port : ℕ) → (port == int_val target) ≡ is_target target port
is_target_lem (int n) port = refl
is_target_lem (str s) port = refl

-- The target that the look-up finds, where it finds one.
has_target : Option ServicePort → ℕ → Bool
has_target none port = false
has_target (some p) port = port == int_val p.target_port

has_target-find_target :
    (number : ℕ) (service_ports : List ServicePort) (port : ℕ)
    → has_target (find_target number service_ports) port
      ≡ is_target_of_first (ports_of number service_ports) port
unfolding find_target has_target
has_target-find_target number [] port = refl
has_target-find_target number (p ∷ ps) port =
    ground (arith, has_target-find_target number ps port, is_target_lem p.target_port port)

-- A subset has the address and an accepted port that the host is made of.
abbrev pub offers : (EndpointPort → Bool) → String → EndpointSubset → Bool
offers accepts host s =
    any (λ ip. any (λ q. accepts q && (ip <> ":" <> itoa q.port) == host) s.ports) s.addresses

contains-hosts_of_ports :
    (accepts : EndpointPort → Bool) (host ip : String) (ports : List EndpointPort)
    → contains host (hosts_of_ports accepts ip ports)
      ≡ any (λ q. accepts q && (ip <> ":" <> itoa q.port) == host) ports
unfolding hosts_of_ports contains
contains-hosts_of_ports accepts host ip [] = refl
contains-hosts_of_ports accepts host ip (q ∷ qs) =
    ground (arith, contains-hosts_of_ports accepts host ip qs)

contains-hosts_of_addresses :
    (accepts : EndpointPort → Bool) (host : String) (ips : List String) (ports : List EndpointPort)
    → contains host (hosts_of_addresses accepts ips ports)
      ≡ any (λ ip. any (λ q. accepts q && (ip <> ":" <> itoa q.port) == host) ports) ips
unfolding hosts_of_addresses contains
contains-hosts_of_addresses accepts host [] ports = refl
contains-hosts_of_addresses accepts host (ip ∷ ips) ports = ground (
  arith,
  contains-hosts_of_addresses accepts host ips ports,
  contains-hosts_of_ports accepts host ip ports,
  contains-append host (hosts_of_ports accepts ip ports) (hosts_of_addresses accepts ips ports),
)

contains-hosts_of_subsets :
    (accepts : EndpointPort → Bool) (host : String) (subsets : List EndpointSubset)
    → contains host (hosts_of_subsets accepts subsets) ≡ any (offers accepts host) subsets
unfolding hosts_of_subsets contains
contains-hosts_of_subsets accepts host [] = refl
contains-hosts_of_subsets accepts host (s ∷ subsets) = ground (
  arith,
  contains-hosts_of_subsets accepts host subsets,
  contains-hosts_of_addresses accepts host s.addresses s.ports,
  contains-append host (hosts_of_addresses accepts s.addresses s.ports)
      (hosts_of_subsets accepts subsets),
)

-- A test that accepts no port selects nothing.
none_of_ports :
    (host ip : String) (ports : List EndpointPort)
    → any (λ q. false && (ip <> ":" <> itoa q.port) == host) ports ≡ false
none_of_ports host ip [] = refl
none_of_ports host ip (q ∷ qs) = none_of_ports host ip qs

none_of_addresses :
    (host : String) (ips : List String) (ports : List EndpointPort)
    → any (λ ip. any (λ q. false && (ip <> ":" <> itoa q.port) == host) ports) ips ≡ false
none_of_addresses host [] ports = refl
none_of_addresses host (ip ∷ ips) ports =
    ground (arith, none_of_ports host ip ports, none_of_addresses host ips ports)

none_of_subsets :
    (host : String) (subsets : List EndpointSubset) → any (offers (λ q. false) host) subsets ≡ false
none_of_subsets host [] = refl
none_of_subsets host (s ∷ subsets) =
    ground (arith, none_of_addresses host s.addresses s.ports, none_of_subsets host subsets)

-- The port passes the test that the code makes.
matched : ServiceBackendPort → List ServicePort → EndpointPort → Bool
unfolding find_target
matched backend_port service_ports =
    if backend_port.name == ""
    then elim (find_target backend_port.number service_ports) [
      | none ↦ λ q. false
      | some p ↦ λ q. q.port == int_val p.target_port
    ]
    else λ q. q.name == backend_port.name

contains-matched :
    (host : String) (backend_port : ServiceBackendPort) (service_ports : List ServicePort)
    (subsets : List EndpointSubset)
    → contains host (get_endpoints_urls backend_port service_ports subsets)
      ≡ any (offers (matched backend_port service_ports) host) subsets
unfolding get_endpoints_urls get_endpoint_port_matcher matched contains
contains-matched host backend_port service_ports subsets =
    elim (Bool-cases (backend_port.name == "")) [
      | inl e ↦ elim (Option-cases (find_target backend_port.number service_ports)) [
        | inl n ↦ ground (arith, none_of_subsets host subsets)
        | inr (p, at) ↦
            ground
              (arith, contains-hosts_of_subsets (λ q. q.port == int_val p.target_port) host subsets)
      ]
      | inr e ↦
          ground (arith, contains-hosts_of_subsets (λ q. q.name == backend_port.name) host subsets)
    ]

matched-asked_for :
    (backend_port : ServiceBackendPort) (service_ports : List ServicePort) (q : EndpointPort)
    → matched backend_port service_ports q ≡ asked_for backend_port service_ports q
unfolding matched has_target
matched-asked_for backend_port service_ports q =
    let found = has_target-find_target backend_port.number service_ports q.port in
    elim (Bool-cases (backend_port.name == "")) [
      | inl e ↦ elim (Option-cases (find_target backend_port.number service_ports)) [
        | inl n ↦ ground (arith, found)
        | inr (p, at) ↦ ground (arith, found)
      ]
      | inr e ↦ ground arith
    ]

-- A host is among those of the endpoints exactly if some subset has its address, and with it a
-- port that has the name that the ingress states or, where it states a number, is the target of
-- the first of the service's ports of that number; a target that is a name counts as the port 0.
pub contains-get_endpoints_urls :
    (host : String) (backend_port : ServiceBackendPort) (service_ports : List ServicePort)
    (subsets : List EndpointSubset)
    → contains host (get_endpoints_urls backend_port service_ports subsets)
      ≡ any (offers (asked_for backend_port service_ports) host) subsets
contains-get_endpoints_urls host backend_port service_ports subsets =
    contains-matched host backend_port service_ports subsets
    ∙ ap (λ accepts. any (offers accepts host) subsets)
        (fun_ext (λ q. matched-asked_for backend_port service_ports q))
