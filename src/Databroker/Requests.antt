-- ===== src/Databroker/Requests.antt =====
-- Sequences of the operations of a databroker's reconciler, DeleteAll included.
use ingress_controller.Certs.{domain_key_eq}
use ingress_controller.Crd.{Config}
use ingress_controller.Databroker.{
  Checks, Client, Configuration, DatabrokerError, Reconciler, delete_all, empty_configuration,
  ingress_controller_config_id, reconcile,
}
use ingress_controller.Databroker.Ingresses.{
  config_next, delete_ingress, delete_next, set_config, set_ingresses, set_next, upsert,
  upsert_next,
}
use ingress_controller.Databroker.Saving.{Laws, after_put-state, reconcile-IsPut}
use ingress_controller.Externals.{Externals, route_id_eq}
use ingress_controller.Gateway.RefKey.{ref_key_eq}
use ingress_controller.IngressConfig.{IngressConfig}
use ingress_controller.Prelude.{
  List, Result, String, [], all, ap, false, inl, inr, is_ok, nat_eq, none, ok, refl, some,
  string_eq, true, ◌==◌, ◌∙◌, ◌∷◌, ◌≡◌, ◌⊎◌,
}
use ingress_controller.Prelude.Text.{char_eq, ◌<>◌}
use ingress_controller.Route.{Route}
use ingress_controller.Settings.{SettingsTools}
use ingress_controller.Types.{NamespacedName, key_eq, namespaced_name_eq, secret_type_eq}

-- What the controllers ask of a reconciler of routes
pub data Request : Type 0 where
  upsert_one : IngressConfig → Request
  set_all : List IngressConfig → Request
  set_settings : Config → Request
  delete_one : NamespacedName → Request
  delete_everything : Request

module _ {S : Type 0} (client : Client S Route) (x : Checks Route) (r : Reconciler) (e : Externals)
    (t : SettingsTools) where
  -- The state that a request leaves
  unfoldable pub after_request : Request → S → S
  unfolding upsert set_ingresses set_config delete_ingress delete_all
  after_request (upsert_one ic) s = (upsert client x r e ic s).1
  after_request (set_all ics) s = (set_ingresses client x r e ics s).1
  after_request (set_settings c) s = (set_config client x r t c s).1
  after_request (delete_one name) s = (delete_ingress client x r e name s).1
  after_request delete_everything s = (delete_all client x r s).1

  unfoldable pub after_requests : List Request → S → S
  unfolding after_request
  after_requests [] s = s
  after_requests (q ∷ qs) s = after_requests qs (after_request q s)

  -- The id that a request validates its configuration under
  abbrev pub validation_id : Request → String
  validation_id (upsert_one ic) = r.config_id <> "-" <> ic.ingress.uid
  validation_id (delete_one name) = name.namespace <> "-" <> name.name
  validation_id _ = r.config_id

  -- The request puts a configuration that passes the validation, under the id of the reconciler.
  abbrev pub IsSaved : String → S → S → Type 0
  IsSaved id s u =
      (final : Configuration Route) × (is_ok (x.validate final id) ≡ true)
      × (u ≡ (client.put s r.config_id (some final)).1)

  -- The request removes the record of the ingress controller.
  abbrev pub IsCleared : S → S → Type 0
  IsCleared s u = u ≡ (client.put s ingress_controller_config_id none).1

  reconcile-IsSaved :
      (make : Configuration Route → Result DatabrokerError (Configuration Route)) (id : String)
      (s : S)
      → ((reconcile client x r make id s).1 ≡ s) ⊎ IsSaved id s (reconcile client x r make id s).1
  reconcile-IsSaved make id s = elim (reconcile-IsPut client x r make id s) [
    | inl kept ↦ inl kept
    | inr (final, (valid, stored)) ↦ inr (
      final,
      valid,
      ap (λ o. o.1) stored ∙ after_put-state (client.put s r.config_id (some final)),
    )
  ]

  pub after_request-IsSaved :
      (q : Request) (s : S)
      → ((after_request q s ≡ s) ⊎ IsSaved (validation_id q) s (after_request q s))
        ⊎ ((q ≡ delete_everything) × IsCleared s (after_request q s))
  unfolding after_request upsert set_ingresses set_config delete_ingress delete_all
  after_request-IsSaved (upsert_one ic) s =
      inl (reconcile-IsSaved (upsert_next e ic) (r.config_id <> "-" <> ic.ingress.uid) s)
  after_request-IsSaved (set_all ics) s =
      inl (reconcile-IsSaved (λ prev. ok (set_next e x empty_configuration ics)) r.config_id s)
  after_request-IsSaved (set_settings c) s =
      inl (reconcile-IsSaved (λ prev. config_next t c) r.config_id s)
  after_request-IsSaved (delete_one name) s =
      inl (reconcile-IsSaved (delete_next e name) (name.namespace <> "-" <> name.name) s)
  after_request-IsSaved delete_everything s = inr (refl, refl)

  get-after_request :
      (l : Laws client x) (q : Request) (elsewhere : String) (s : S)
      → r.config_id == elsewhere ≡ false
      → ingress_controller_config_id == elsewhere ≡ false
      → client.get (after_request q s) elsewhere ≡ client.get s elsewhere
  get-after_request l q elsewhere s h i = elim (after_request-IsSaved q s) [
    | inl (inl kept) ↦ ap (λ u. client.get u elsewhere) kept
    | inl (inr (final, valid, put)) ↦
        ap (λ u. client.get u elsewhere) put
        ∙ l.put_elsewhere s r.config_id elsewhere (some final) h
    | inr (all, cleared) ↦
        ap (λ u. client.get u elsewhere) cleared
        ∙ l.put_elsewhere s ingress_controller_config_id elsewhere none i
  ]

  -- Where the databroker obeys its laws, no sequence of requests touches what the databroker holds
  -- under another id than that of the reconciler and that of the ingress controller, which
  -- DeleteAll removes.
  pub get-after_requests :
      (l : Laws client x) (qs : List Request) (elsewhere : String) (s : S)
      → r.config_id == elsewhere ≡ false
      → ingress_controller_config_id == elsewhere ≡ false
      → client.get (after_requests qs s) elsewhere ≡ client.get s elsewhere
  unfolding after_requests
  get-after_requests l [] elsewhere s h i = refl
  get-after_requests l (q ∷ qs) elsewhere s h i =
      get-after_requests l qs elsewhere (after_request q s) h i
      ∙ get-after_request l q elsewhere s h i
