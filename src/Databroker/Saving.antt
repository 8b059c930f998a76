-- ===== src/Databroker/Saving.antt =====
-- What saving a configuration does to the databroker.
use ingress_controller.Certs.{domain_key_eq, remove_unused_certs}
use ingress_controller.Databroker.{
  Checks, Client, Configuration, DatabrokerError, Reconciler, after_put, cannot_put,
  cannot_remove_certs, drop_certs_if, drop_certs_of, drop_unused_certs, ensure_config_order,
  get_config, is_invalid, or_empty, prepare, put_if_changed, reconcile, save_config,
}
use ingress_controller.Externals.{route_id_eq}
use ingress_controller.Gateway.RefKey.{ref_key_eq}
use ingress_controller.Prelude.{
  >>=-eq-ok, Bool, Bool-cases, Option, Result, Result-cases, String, ap, err, false, if◌then◌else◌,
  inl, inr, is_ok, map, nat_eq, none, ok, ok_injective, refl, some, string_eq, sym, true, wrap,
  wrap-eq-ok, ◌==◌, ◌∙◌, ◌≡◌, ◌⊎◌,
}
use ingress_controller.Prelude.Text.{char_eq}
use ingress_controller.Settings.{Settings}
use ingress_controller.Types.{key_eq, namespaced_name_eq, secret_type_eq}
use mathlib.Core.Bool.{false≢true}

-- What the databroker documents of its records, and that proto.Equal is the equality of the model:
-- the maps of equal messages are the same list here.
pub record Laws {S R : Type 0} (client : Client S R) (x : Checks R) : Type 0 where
  pub get-put :
      (s t : S) (id : String) (c : Configuration R)
      → client.put s id (some c) ≡ (ok tt, t)
      → client.get t id ≡ ok c
  pub put_elsewhere :
      (s : S) (id other : String) (c : Option (Configuration R))
      → id == other ≡ false
      → client.get (client.put s id c).1 other ≡ client.get s other
  pub is_same-eq : (a b : Configuration R) → x.is_same a b ≡ true → a ≡ b

drop_certs_of-routes :
    {R : Type 0} (x : Checks R) (next kept : Configuration R) (o : Option Settings)
    → drop_certs_of x next o ≡ ok kept
    → kept.routes ≡ next.routes
drop_certs_of-routes x next kept none h = ap (λ c. c.routes) (sym (ok_injective h))
drop_certs_of-routes x next kept (some s) h =
    let (certs, removed, built) =
      >>=-eq-ok
        (remove_unused_certs x.certificates (map x.address next.routes) s.authenticate_service_url
          s.certificates)
        _ h in
    ap (λ c. c.routes) (sym (ok_injective built))

pub drop_certs_if-routes :
    {R : Type 0} (x : Checks R) (remove : Bool) (next kept : Configuration R)
    → drop_certs_if remove x next ≡ ok kept
    → kept.routes ≡ next.routes
unfolding drop_unused_certs
drop_certs_if-routes x false next kept h = ap (λ c. c.routes) (sym (ok_injective h))
drop_certs_if-routes x true next kept h = drop_certs_of-routes x next kept next.settings h

abbrev pub is_put_error : {A : Type 0} → Result DatabrokerError A → Bool
is_put_error (err (cannot_put e)) = true
is_put_error _ = false

after_put-ok :
    {S : Type 0} (p : Result String (Unit {0}) × S) (b : Bool) (t : S)
    → after_put p ≡ (ok b, t)
    → (p ≡ (ok tt, t)) × (b ≡ true)
after_put-ok (ok u, s) b t h = (cc, cc)
after_put-ok (err e, s) b t h = cc

pub after_put-state : {S : Type 0} (p : Result String (Unit {0}) × S) → (after_put p).1 ≡ p.1
after_put-state (ok u, s) = refl
after_put-state (err e, s) = refl

after_put-error :
    {S : Type 0} (p : Result String (Unit {0}) × S)
    → is_put_error (after_put p).0 ≡ false
    → (after_put p).0 ≡ ok true
after_put-error (ok u, s) h = refl
after_put-error (err e, s) h = cc

module _ {S R : Type 0} (client : Client S R) (x : Checks R) (r : Reconciler) where
  put_if_changed-ok :
      (l : Laws client x) (prev final : Configuration R) (s t : S) (changed : Bool)
      → get_config client x r s ≡ ok prev
      → put_if_changed client x r prev final s ≡ (ok changed, t)
      → (get_config client x r t ≡ ok final) × (changed ≡ false → t ≡ s)
  unfolding put_if_changed get_config
  put_if_changed-ok l prev final s t changed g h = elim (Bool-cases (x.is_same prev final)) [
    | inl same ↦ let equal = l.is_same-eq prev final same in (cc, λ q. cc)
    | inr differs ↦
        let out = after_put-ok (client.put s r.config_id (some final)) changed t (
          ap (λ b. if b then (ok false, s) else after_put (client.put s r.config_id (some final)))
            (sym differs)
          ∙ h) in
        (ap or_empty (l.get-put s t r.config_id final out.0), λ q. cc)
  ]

  -- Where saveConfig succeeds, the databroker has the prepared configuration, changed or not, and a
  -- change that it does not report leaves the state.
  pub save_config-ok :
      (l : Laws client x) (prev next : Configuration R) (id : String) (s t : S) (changed : Bool)
      → get_config client x r s ≡ ok prev
      → save_config client x r prev next id s ≡ (ok changed, t)
      → (final : Configuration R) × (prepare x r.remove_unreferenced_certs next id ≡ ok final)
        × (get_config client x r t ≡ ok final)
        × (changed ≡ false → t ≡ s)
  unfolding save_config
  save_config-ok l prev next id s t changed g h =
      elim (Result-cases (prepare x r.remove_unreferenced_certs next id)) [
        | inr (e, failed) ↦ cc
        | inl (final, made) ↦
            let saved : put_if_changed client x r prev final s ≡ (ok changed, t) = cc in
            let (stored, kept) = put_if_changed-ok l prev final s t changed g saved in
            (final, made, stored, kept)
      ]

  -- What reconcile does where it succeeds.
  pub reconcile-ok :
      (l : Laws client x) (make : Configuration R → Result DatabrokerError (Configuration R))
      (id : String) (s t : S) (changed : Bool)
      → reconcile client x r make id s ≡ (ok changed, t)
      → (prev next final : Configuration R) × (get_config client x r s ≡ ok prev)
        × (make prev ≡ ok next)
        × (prepare x r.remove_unreferenced_certs next id ≡ ok final)
        × (get_config client x r t ≡ ok final)
        × (changed ≡ false → t ≡ s)
  unfolding reconcile
  reconcile-ok l make id s t changed h = elim (Result-cases (get_config client x r s)) [
    | inr (e, failed) ↦ cc
    | inl (prev, got) ↦ elim (Result-cases (make prev)) [
      | inr (e, failed) ↦ cc
      | inl (next, made) ↦
          let saved : save_config client x r prev next id s ≡ (ok changed, t) = cc in
          let (final, prepared, stored, kept) =
            save_config-ok l prev next id s t changed got saved in
          (prev, next, final, got, made, prepared, stored, kept)
    ]
  ]

  -- The operation puts a configuration that passes the validation.
  abbrev pub IsPut :
      (Configuration R → Result DatabrokerError (Configuration R))
      → String
      → S
      → Configuration R
      → Type 0
  IsPut make id s final =
      (is_ok (x.validate final id) ≡ true)
      × (reconcile client x r make id s ≡ after_put (client.put s r.config_id (some final)))

  prepare-valid :
      (next final : Configuration R) (id : String)
      → prepare x r.remove_unreferenced_certs next id ≡ ok final
      → is_ok (x.validate final id) ≡ true
  unfolding prepare
  prepare-valid next final id h =
      let (kept, dropped, h1) =
        >>=-eq-ok (wrap cannot_remove_certs (drop_certs_if r.remove_unreferenced_certs x next)) _
          h in
      let (u, valid, h2) =
        >>=-eq-ok (wrap is_invalid (x.validate (ensure_config_order x.less kept) id)) _ h1 in
      ap is_ok (wrap-eq-ok is_invalid (x.validate final id) (cc))

  -- The course that the operations share either leaves the state or puts one configuration, which
  -- passes the validation, under the id of the reconciler.
  pub reconcile-IsPut :
      (make : Configuration R → Result DatabrokerError (Configuration R)) (id : String) (s : S)
      → ((reconcile client x r make id s).1 ≡ s)
        ⊎ ((final : Configuration R) × IsPut make id s final)
  unfolding reconcile save_config put_if_changed
  reconcile-IsPut make id s = elim (Result-cases (get_config client x r s)) [
    | inr (e, failed) ↦ inl cc
    | inl (prev, got) ↦ elim (Result-cases (make prev)) [
      | inr (e, failed) ↦ inl cc
      | inl (next, made) ↦ elim (Result-cases (prepare x r.remove_unreferenced_certs next id)) [
        | inr (e, failed) ↦ inl cc
        | inl (final, prepared) ↦ elim (Bool-cases (x.is_same prev final)) [
          | inl same ↦ inl cc
          | inr changed ↦ inr (final, (prepare-valid next final id prepared, cc))
        ]
      ]
    ]
  ]

  -- Where the course that Upsert, Set, SetConfig, SetGatewayConfig and Delete share fails, it leaves
  -- the state, unless it failed because the databroker refused to put the configuration.
  pub reconcile-error :
      (make : Configuration R → Result DatabrokerError (Configuration R)) (id : String) (s : S)
      → is_ok (reconcile client x r make id s).0 ≡ false
      → is_put_error (reconcile client x r make id s).0 ≡ false
      → (reconcile client x r make id s).1 ≡ s
  reconcile-error make id s h q = elim (reconcile-IsPut make id s) [
    | inl kept ↦ kept
    | inr (final, (valid, stored)) ↦
        let accepted =
          after_put-error (client.put s r.config_id (some final))
            (ap (λ o. is_put_error o.0) (sym stored) ∙ q) in
        elim (false≢true (sym h ∙ ap (λ o. is_ok o.0) stored ∙ ap is_ok accepted)) [ ]
  ]
