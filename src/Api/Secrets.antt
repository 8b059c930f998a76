-- ===== src/Api/Secrets.antt =====
-- pomerium/sync_api.go: the key pairs of the TLS secrets.
use ingress_controller.Api.{
  ApiObject, Clients, ClusterError, KeyPairBody, KeyPairMetadata, absent,
  api_key_pair_id_annotation, cluster_error, delete_by_id, empty_to_nil, find_by_name,
  key_pair_kind, originator_id, upsert_object,
}
use ingress_controller.Api.Steps.{
  ApiError, Step, api_failed, cluster_failed, code_not_found, read_state, return, ◌>>=◌, ◌>>◌,
}
use ingress_controller.Certs.{domain_key_eq}
use ingress_controller.Externals.{Externals, route_id_eq}
use ingress_controller.Gateway.RefKey.{ref_key_eq}
use ingress_controller.IngressConfig.Names.{ca_key}
use ingress_controller.Prelude.{
  Bool, List, Option, Result, String, [], err, false, if◌then◌else◌, nat_eq, none, ok, some,
  string_eq, true, ◌==◌, ◌||◌, ◌∷◌,
}
use ingress_controller.Prelude.Map.{Map, delete, get_text, insert, lookup}
use ingress_controller.Prelude.Text.{char_eq, ◌<>◌}
use ingress_controller.RouteList.{text_or_empty}
use ingress_controller.Types.{
  NamespacedName, Secret, key_eq, namespaced_name_eq, secret_type_eq, tls,
}

abbrev as_cluster : {S : Type 0} → Result String (Unit {0}) × S → Result ApiError (Unit {0}) × S
as_cluster (ok u, s) = (ok tt, s)
as_cluster (err e, s) = (err (cluster_failed e), s)

-- The certificate of a key pair: the TLS certificate of a secret, or else its CA.
abbrev certificate_text : Secret → String
certificate_text secret = elim (lookup "tls.crt" secret.contents) [
  | some t ↦ t
  | none ↦ get_text ca_key secret.contents
]

abbrev with_key_pair_id : Option String → Secret → Secret
with_key_pair_id id secret = record secret {
  annotations = insert api_key_pair_id_annotation (text_or_empty id) secret.annotations;
}

-- keyPairName
unfoldable pub key_pair_name : Externals → NamespacedName → String
key_pair_name x n = x.slug (n.namespace <> " " <> n.name)

module _ {S : Type 0} (c : Clients S) (x : Externals) where
  -- The key pair of syncOneSecret
  unfoldable pub key_pair_for : Secret → ApiObject KeyPairBody KeyPairMetadata
  unfolding key_pair_name
  key_pair_for secret = record {
    id = empty_to_nil (get_text api_key_pair_id_annotation secret.annotations);
    namespace_id = c.namespace_id;
    originator_id = some originator_id;
    name = some (key_pair_name x secret.namespaced_name);
    body = record {
      certificate = certificate_text secret;
      key = get_text "tls.key" secret.contents;
    };
    metadata = record {
      created_at = none;
      modified_at = none;
      certificate_info = [];
      origin = 0;
      status = 0;
    };
  }

  abbrev patch_if : Bool → Option String → Secret → Step S (Bool × Secret)
  patch_if false id secret = return (false, secret)
  patch_if true id secret = do
    (λ s. as_cluster (c.patch_secret s (with_key_pair_id id secret) true))
    return (true, with_key_pair_id id secret)

  -- syncOneSecret, with the secret as it leaves it
  unfoldable pub sync_one_secret : Secret → Step S (Bool × Secret)
  unfolding key_pair_for upsert_object
  sync_one_secret secret = do
    synced ← upsert_object (key_pair_kind c) (key_pair_for secret)
    patch_if synced.0 synced.1 secret

  -- syncSecrets, on the entries of a map that are TLS secrets
  unfoldable pub sync_secrets :
      Map NamespacedName Secret → Step S (Bool × Map NamespacedName Secret)
  unfolding sync_one_secret
  sync_secrets [] = return (false, [])
  sync_secrets ((n, secret) ∷ secrets) =
      if secret.secret_type == tls
      then (do
        synced ← sync_one_secret secret
        rest ← sync_secrets secrets
        return (synced.0 || rest.0, (n, synced.1) ∷ rest.1))
      else (do rest ← sync_secrets secrets; return (rest.0, (n, secret) ∷ rest.1))

  -- The secret that deleteKeyPairsForSecrets reads
  abbrev found_secret : Result ClusterError Secret → Result ApiError (Option Secret)
  found_secret (ok secret) = ok (some secret)
  found_secret (err absent) = ok none
  found_secret (err (cluster_error e)) = err (cluster_failed e)

  abbrev annotated_id : Option Secret → String
  annotated_id none = ""
  annotated_id (some secret) = get_text api_key_pair_id_annotation secret.annotations

  abbrev id_or_none :
      Result ApiError (ApiObject KeyPairBody KeyPairMetadata) → Result ApiError String
  id_or_none (ok o) = ok (text_or_empty o.id)
  id_or_none (err (api_failed code_not_found)) = ok ""
  id_or_none (err e) = err e

  -- The id of the key pair of a secret: its annotation's, or that found by the name.
  unfoldable pub key_pair_id_of : NamespacedName → Option Secret → Step S String
  unfolding key_pair_name find_by_name
  key_pair_id_of n secret s =
      if annotated_id secret == ""
      then (let (found, t) = find_by_name (key_pair_kind c) (some (key_pair_name x n)) s in
          (id_or_none found, t))
      else (ok (annotated_id secret), s)

  abbrev clear_secret : Option Secret → Step S (Unit {0})
  clear_secret none s = (ok tt, s)
  clear_secret (some secret) s = as_cluster (
      c.patch_secret s
        (record secret { annotations = delete api_key_pair_id_annotation secret.annotations })
        false)

  abbrev delete_if_any : String → Step S (Unit {0})
  delete_if_any id = if id == "" then return tt else delete_by_id (key_pair_kind c) id

  -- deleteKeyPairsForSecrets
  unfoldable pub delete_key_pairs_for_secrets : List NamespacedName → Step S Bool
  unfolding key_pair_id_of delete_by_id
  delete_key_pairs_for_secrets [] = return false
  delete_key_pairs_for_secrets (n ∷ names) = do
    secret ← read_state (λ s. found_secret (c.get_secret s n))
    id ← key_pair_id_of n secret
    delete_if_any id
    clear_secret secret
    delete_key_pairs_for_secrets names
    return true
