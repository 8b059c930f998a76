-- ===== src/Gateway/RefKey.antt =====
-- controllers/gateway/refkey.go: references to objects with their defaults made explicit.
use ingress_controller.Prelude.{
  Bool, Eq, Option, String, arith, nat_eq, none, some, string_eq, true, ◌&&◌, ◌==◌, ◌↔◌, ◌≡◌,
}
use ingress_controller.Prelude.Text.{char_eq}
use ingress_controller.Types.{key_eq, namespaced_name_eq, secret_type_eq}
use text.Mathlib.TextEquality.{eq_iff}

pub record RefKey : Type 0 where
  pub group : String
  pub kind : String
  pub namespace : String
  pub name : String

abbrev ref_key_beq : RefKey → RefKey → Bool
ref_key_beq a b =
    a.group == b.group && a.kind == b.kind && a.namespace == b.namespace && a.name == b.name

pub ref_key_beq_iff : (a b : RefKey) → (ref_key_beq a b ≡ true) ↔ (a ≡ b)
ref_key_beq_iff a b = ground (
  arith,
  eq_iff a.group b.group,
  eq_iff a.kind b.kind,
  eq_iff a.namespace b.namespace,
  eq_iff a.name b.name,
)

instance abbrev pub ref_key_eq : Eq RefKey
ref_key_eq = record { beq = ref_key_beq; beq_iff = ref_key_beq_iff }

-- A reference as the Gateway API states it, with what it leaves out.
pub record Reference : Type 0 where
  pub group : Option String
  pub kind : Option String
  pub namespace : Option String
  pub name : String

-- What the code reads of an object that refers: its group, kind, namespace and name.
abbrev pub Object : Type 0
Object = RefKey

abbrev pub gateway_group : String
gateway_group = "gateway.networking.k8s.io"

abbrev or_default : Option String → String → String
or_default none d = d
or_default (some s) d = s

-- refKeyForObject
unfoldable pub ref_key_for_object : Object → RefKey
ref_key_for_object obj = obj

-- The body that the functions for references share, at the default group and kind of each.
pub ref_key_with : String → String → Object → Reference → RefKey
ref_key_with group kind obj ref = record {
  group = or_default ref.group group;
  kind = or_default ref.kind kind;
  namespace = or_default ref.namespace obj.namespace;
  name = ref.name;
}

-- refKeyForParentRef
pub ref_key_for_parent_ref : Object → Reference → RefKey
unfolding ref_key_with
ref_key_for_parent_ref = ref_key_with gateway_group "Gateway"

-- refKeyForCertificateRef; the core group is ""
pub ref_key_for_certificate_ref : Object → Reference → RefKey
unfolding ref_key_with
ref_key_for_certificate_ref = ref_key_with "" "Secret"

-- refKeyForBackendRef
pub ref_key_for_backend_ref : Object → Reference → RefKey
unfolding ref_key_with
ref_key_for_backend_ref = ref_key_with "" "Service"

pub record ReferenceGrantFrom : Type 0 where
  pub group : String
  pub kind : String
  pub namespace : String

pub record ReferenceGrantTo : Type 0 where
  pub group : String
  pub kind : String
  pub name : Option String

-- refKeyForReferenceGrantFrom
unfoldable pub ref_key_for_reference_grant_from : ReferenceGrantFrom → RefKey
ref_key_for_reference_grant_from from = record {
  group = from.group;
  kind = from.kind;
  namespace = from.namespace;
  name = "";
}

-- refKeyForReferenceGrantTo
unfoldable pub ref_key_for_reference_grant_to : String → ReferenceGrantTo → RefKey
ref_key_for_reference_grant_to namespace to = record {
  group = to.group;
  kind = to.kind;
  namespace = namespace;
  name = or_default to.name "";
}
