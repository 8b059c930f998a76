-- ===== src/SecretsMap/Calls.antt =====
-- The maps of TLSSecretsMap after any sequence of calls.
use ingress_controller.Externals.{route_id_eq}
use ingress_controller.Gateway.RefKey.{ref_key_eq}
use ingress_controller.Prelude.{List, [], nat_eq, refl, string_eq, ◌∷◌}
use ingress_controller.Prelude.Map.{lookup}
use ingress_controller.Prelude.Set.{contains}
use ingress_controller.Prelude.Text.{char_eq}
use ingress_controller.SecretsMap.{
  TlsSecretsMap, add_secret, new_tls_secrets_map, remove_entity, update_entity,
}
use ingress_controller.SecretsMap.Consistent.{
  IsConsistent, add_secret-IsConsistent, deps_of, remove_entity-IsConsistent,
  update_entity-IsConsistent, users_of,
}
use ingress_controller.Types.{Key, NamespacedName, key_eq, namespaced_name_eq, secret_type_eq}

-- A call of a method that changes the maps. UpdateIngress, UpdateConfig and UpdateGatewayConfig are
-- calls of UpdateEntity.
pub data Call : Type 0 where
  update_call : Key → List NamespacedName → Call
  remove_call : Key → Call
  add_call : Key → NamespacedName → Call
  reset_call : Call

abbrev pub apply_call : Call → TlsSecretsMap → TlsSecretsMap
apply_call (update_call n new) m = (update_entity n new m).0
apply_call (remove_call n) m = (remove_entity n m).0
apply_call (add_call entity secret) m = add_secret entity secret m
apply_call reset_call m = new_tls_secrets_map

-- The maps after the calls, the latest at the head.
pub after_calls : List Call → TlsSecretsMap
after_calls [] = new_tls_secrets_map
after_calls (c ∷ cs) = apply_call c (after_calls cs)

new_tls_secrets_map-IsConsistent : IsConsistent new_tls_secrets_map
unfolding new_tls_secrets_map deps_of users_of lookup contains
new_tls_secrets_map-IsConsistent n s = refl

-- After any sequence of calls an entity has a secret among its dependencies exactly if it is among
-- the secret's users.
pub after_calls-IsConsistent : (cs : List Call) → IsConsistent (after_calls cs)
unfolding after_calls
after_calls-IsConsistent [] = new_tls_secrets_map-IsConsistent
after_calls-IsConsistent (update_call n new ∷ cs) =
    update_entity-IsConsistent n new (after_calls cs) (after_calls-IsConsistent cs)
after_calls-IsConsistent (remove_call n ∷ cs) =
    remove_entity-IsConsistent n (after_calls cs) (after_calls-IsConsistent cs)
after_calls-IsConsistent (add_call entity secret ∷ cs) =
    add_secret-IsConsistent entity secret (after_calls cs) (after_calls-IsConsistent cs)
after_calls-IsConsistent (reset_call ∷ cs) = new_tls_secrets_map-IsConsistent
