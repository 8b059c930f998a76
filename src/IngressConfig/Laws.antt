-- ===== src/IngressConfig/Laws.antt =====
-- What the checks and look-ups of model/ingress_config.go establish.
use ingress_controller.Certs.{domain_key_eq}
use ingress_controller.Externals.{route_id_eq}
use ingress_controller.Gateway.RefKey.{ref_key_eq}
use ingress_controller.IngressConfig.{
  DeepCopies, IngressConfig, SshSecrets, clone, copy_objects, if_present, is_ssh_auth,
  validate_host_keys, validate_ssh_secrets,
}
use ingress_controller.Prelude.{
  >>=-eq-ok, All, List, Option, [], arith, nat_eq, none, ok, refl, some, string_eq, ◌↔◌, ◌∷◌, ◌≡◌,
}
use ingress_controller.Prelude.Map.{Map, lookup, lookup-insert}
use ingress_controller.Prelude.Text.{char_eq}
use ingress_controller.Types.{
  NamespacedName, Secret, key_eq, namespaced_name_eq, secret_type_beq_iff, secret_type_eq, ssh_auth,
}

-- A copy is the object that it is a copy of.
abbrev pub Copies : {V : Type 0} → (V → V) → Type 0
Copies {V} deep_copy = (v : V) → deep_copy v ≡ v

lookup-copy_objects :
    {V : Type 0} (deep_copy : V → V) (n : NamespacedName) (src : Map NamespacedName V)
    → Copies deep_copy
    → lookup n (copy_objects deep_copy src) ≡ lookup n src
unfolding copy_objects lookup
lookup-copy_objects deep_copy n [] same = refl
lookup-copy_objects deep_copy n ((k, v) ∷ src) same = ground (
  arith,
  lookup-insert k n (deep_copy v) (copy_objects deep_copy src),
  lookup-copy_objects deep_copy n src same,
  same v,
)

-- Where the methods DeepCopy copy their objects, a clone has the ingress, the prefix and, under
-- each name, the secret and the service of the configuration, and it has no endpoints, whatever
-- the configuration has.
pub clone_lem :
    (x : DeepCopies)
    → Copies x.ingress
    → Copies x.secret
    → Copies x.service
    → (ic : IngressConfig)
    → ((clone x ic).annotation_prefix ≡ ic.annotation_prefix)
      × ((clone x ic).ingress ≡ ic.ingress)
      × ((n : NamespacedName) → lookup n (clone x ic).secrets ≡ lookup n ic.secrets)
      × ((n : NamespacedName) → lookup n (clone x ic).services ≡ lookup n ic.services)
      × ((n : NamespacedName) → lookup n (clone x ic).endpoints ≡ none)
unfolding clone lookup
clone_lem x ingress secret service ic = (
  refl,
  ingress ic.ingress,
  λ n. lookup-copy_objects x.secret n ic.secrets secret,
  λ n. lookup-copy_objects x.service n ic.services service,
  λ n. refl,
)

All-host_keys :
    (ks : List Secret) → (validate_host_keys ks ≡ ok tt) ↔ All (λ k. k.secret_type ≡ ssh_auth) ks
unfolding validate_host_keys
All-host_keys [] = (λ h. tt, λ h. refl)
All-host_keys (k ∷ ks) =
    ground (arith, All-host_keys ks, secret_type_beq_iff k.secret_type ssh_auth)

-- The element of an option, as a list.
abbrev pub present : Option Secret → List Secret
present none = []
present (some s) = s ∷ []

All-present :
    (o : Option Secret)
    → (if_present is_ssh_auth o ≡ ok tt) ↔ All (λ s. s.secret_type ≡ ssh_auth) (present o)
All-present none = (λ h. tt, λ h. refl)
All-present (some s) = ground (arith, secret_type_beq_iff s.secret_type ssh_auth)

-- The SSH secrets are valid exactly if every host key, and the user CA key where there is one, has
-- the type of an SSH secret.
pub validate_ssh_secrets_iff :
    (s : SshSecrets)
    → (validate_ssh_secrets s ≡ ok tt) ↔ (
        All (λ k. k.secret_type ≡ ssh_auth) s.host_keys
        × All (λ k. k.secret_type ≡ ssh_auth) (present s.user_ca_key))
unfolding validate_ssh_secrets
validate_ssh_secrets_iff s = (
  λ h.
      let (u, keys, user) =
        >>=-eq-ok (validate_host_keys s.host_keys) (λ _. if_present is_ssh_auth s.user_ca_key) h in
      ((All-host_keys s.host_keys).0 keys, (All-present s.user_ca_key).0 user),
  λ p. rw ((All-host_keys s.host_keys).1 p.0) ((All-present s.user_ca_key).1 p.1),
)
