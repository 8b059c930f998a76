-- ===== src/Types.antt =====
-- The names by which the parts refer to Kubernetes objects: `types.NamespacedName` and the
-- registry key (model/registry.go).
use ingress_controller.Prelude.{
  Bool, Eq, String, arith, false, nat_eq, string_eq, true, ◌&&◌, ◌==◌, ◌↔◌, ◌≡◌,
}
use ingress_controller.Prelude.Map.{Map}
use ingress_controller.Prelude.Text.{char_eq}
use text.Mathlib.TextEquality.{eq_iff}

pub record NamespacedName : Type 0 where
  pub namespace : String
  pub name : String

abbrev namespaced_name_beq : NamespacedName → NamespacedName → Bool
namespaced_name_beq a b = a.namespace == b.namespace && a.name == b.name

pub namespaced_name_beq_iff : (a b : NamespacedName) → (namespaced_name_beq a b ≡ true) ↔ (a ≡ b)
namespaced_name_beq_iff a b = ground (arith, eq_iff a.namespace b.namespace, eq_iff a.name b.name)

instance abbrev pub namespaced_name_eq : Eq NamespacedName
namespaced_name_eq = record { beq = namespaced_name_beq; beq_iff = namespaced_name_beq_iff }

-- The dependency key: the kind of an object and its name.
pub record Key : Type 0 where
  pub kind : String
  pub namespaced_name : NamespacedName

abbrev key_beq : Key → Key → Bool
key_beq a b = a.kind == b.kind && a.namespaced_name == b.namespaced_name

pub key_beq_iff : (a b : Key) → (key_beq a b ≡ true) ↔ (a ≡ b)
key_beq_iff a b = ground (
  arith,
  eq_iff a.kind b.kind,
  eq_iff a.namespaced_name.namespace b.namespaced_name.namespace,
  eq_iff a.namespaced_name.name b.namespaced_name.name,
)

instance abbrev pub key_eq : Eq Key
key_eq = record { beq = key_beq; beq_iff = key_beq_iff }

-- corev1.SecretType, with the values that the code tells apart.
pub data SecretType : Type 0 where
  tls opaque service_account_token ssh_auth : SecretType
  other : String → SecretType

abbrev secret_type_beq : SecretType → SecretType → Bool
secret_type_beq tls tls = true
secret_type_beq opaque opaque = true
secret_type_beq service_account_token service_account_token = true
secret_type_beq ssh_auth ssh_auth = true
secret_type_beq (other s) (other t) = s == t
secret_type_beq _ _ = false

pub secret_type_beq_iff : (a b : SecretType) → (secret_type_beq a b ≡ true) ↔ (a ≡ b)
secret_type_beq_iff (other s) (other t) = ground (arith, eq_iff s t)
secret_type_beq_iff a b = ground arith

instance abbrev pub secret_type_eq : Eq SecretType
secret_type_eq = record { beq = secret_type_beq; beq_iff = secret_type_beq_iff }

-- What the code reads of a corev1.Secret. A byte slice is the text of its bytes.
pub record Secret : Type 0 where
  pub namespaced_name : NamespacedName
  pub secret_type : SecretType
  pub contents : Map String String
  pub annotations : Map String String
