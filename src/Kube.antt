-- ===== src/Kube.antt =====
-- The Kubernetes objects that the code reads, with the fields that it reads. Ports are natural
-- numbers: the API server admits no others.
use ingress_controller.Externals.{route_id_eq}
use ingress_controller.Gateway.RefKey.{ref_key_eq}
use ingress_controller.Prelude.{Bool, List, Option, String, nat_eq, string_eq, ℕ}
use ingress_controller.Prelude.Map.{Map}
use ingress_controller.Prelude.Text.{char_eq}
use ingress_controller.Types.{NamespacedName, key_eq, namespaced_name_eq, secret_type_eq}

-- intstr.IntOrString; the IntVal of a string is 0
pub data IntOrString : Type 0 where
  int : ℕ → IntOrString
  str : String → IntOrString

abbrev pub int_val : IntOrString → ℕ
int_val (int n) = n
int_val (str s) = 0

pub data ServiceType : Type 0 where
  cluster_ip_type node_port load_balancer external_name_type : ServiceType

pub record ServicePort : Type 0 where
  pub name : String
  pub port : ℕ
  pub target_port : IntOrString

-- corev1.LoadBalancerIngress; the statuses of its ports are a list of protocol, port and error
pub record PortStatus : Type 0 where
  pub protocol : String
  pub port : ℕ
  pub port_error : Option String

pub record LoadBalancerIngress : Type 0 where
  pub hostname : String
  pub ip : String
  pub ports : List PortStatus

pub record Service : Type 0 where
  pub service_type : ServiceType
  pub external_name : String
  pub cluster_ip : String
  pub ports : List ServicePort
  pub load_balancer : List LoadBalancerIngress

pub record EndpointPort : Type 0 where
  pub name : String
  pub port : ℕ

pub record EndpointSubset : Type 0 where
  pub addresses : List String
  pub ports : List EndpointPort

-- corev1.Endpoints
abbrev pub Endpoints : Type 0
Endpoints = List EndpointSubset

pub data PathType : Type 0 where
  implementation_specific path_exact path_prefix : PathType
  unknown_path_type : String → PathType

pub record ServiceBackendPort : Type 0 where
  pub name : String
  pub number : ℕ

pub record ServiceBackend : Type 0 where
  pub name : String
  pub port : ServiceBackendPort

-- networkingv1.IngressBackend; `none` is a backend that is no service
pub record IngressBackend : Type 0 where
  pub service : Option ServiceBackend

pub record HttpIngressPath : Type 0 where
  pub path : String
  pub path_type : Option PathType
  pub backend : IngressBackend

-- networkingv1.IngressRule; `http` is `none` where `rule.HTTP` is nil
pub record IngressRule : Type 0 where
  pub host : String
  pub http : Option (List HttpIngressPath)

pub record IngressTls : Type 0 where
  pub hosts : List String
  pub secret_name : String

pub record Ingress : Type 0 where
  pub namespaced_name : NamespacedName
  pub uid : String
  pub labels : Map String String
  pub annotations : Map String String
  pub deleted : Bool
  pub ingress_class_name : Option String
  pub tls : List IngressTls
  pub default_backend : Option IngressBackend
  pub rules : List IngressRule
