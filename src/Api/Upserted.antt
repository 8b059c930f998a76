-- ===== src/Api/Upserted.antt =====
-- What the API holds after an object is created or updated.
use ingress_controller.Api.{
  ApiObject, Kind, after_create, create_new, drop_moved, find_by_name, find_existing, first_object,
  found_object, is_moved, originator_id, update_existing, upsert_found, upsert_kept, upsert_object,
  visible,
}
use ingress_controller.Api.Steps.{
  ApiError, Code, Step, api_failed, as_api, attempt, bind_out, call, code_already_exists,
  code_failed_precondition, code_not_found, code_other, fail, return, ◌>>=◌, ◌>>◌,
}
use ingress_controller.Certs.{domain_key_eq}
use ingress_controller.Externals.{route_id_eq}
use ingress_controller.Gateway.RefKey.{ref_key_eq}
use ingress_controller.Prelude.{
  Bool, Bool-cases, List, Option, Result, String, [], ap, err, false, if◌then◌else◌, inl, inr,
  nat_eq, none, ok, refl, some, string_eq, sym, true, ◌==◌, ◌∙◌, ◌∷◌, ◌≡◌,
}
use ingress_controller.Prelude.Text.{char_eq}
use ingress_controller.RouteList.{text_or_empty}
use ingress_controller.Types.{key_eq, namespaced_name_eq, secret_type_eq}
use mathlib.Core.Path.{subst}

-- What the API documents of its objects, and proto.Equal of messages.
pub record ApiLaws {S B M : Type 0} (k : Kind S B M) : Type 0 where
  pub is_same-eq : (a b : ApiObject B M) → k.client.is_same a b ≡ true → a ≡ b
  pub id_of_get :
      (s : S) (i : String) (e : ApiObject B M) → k.client.get_object s i ≡ ok e → e.id ≡ some i
  pub get_of_list :
      (s : S) (originator name : String) (e : ApiObject B M) (es : List (ApiObject B M))
      → k.client.list_by_name s originator name ≡ ok (e ∷ es)
      → (i : String) × (e.id ≡ some i) × (k.client.get_object s i ≡ ok e)
  pub get-create :
      (s t : S) (o new : ApiObject B M)
      → k.client.create_object s o ≡ (ok new, t)
      → (i : String) × (e : ApiObject B M) × (new.id ≡ some i)
        × (k.client.get_object t i ≡ ok e)
        × (visible k o.namespace_id e ≡ visible k o.namespace_id (record o { id = some i }))
  pub get-update :
      (s t : S) (o : ApiObject B M) (i : String)
      → o.id ≡ some i
      → k.client.update_object s o ≡ (ok tt, t)
      → (e : ApiObject B M) × (k.client.get_object t i ≡ ok e)
        × (visible k o.namespace_id e ≡ visible k o.namespace_id o)

pub bind_out-ok :
    {S A B : Type 0} (out : Result ApiError A × S) (f : A → Step S B) {b : B} {t : S}
    → bind_out out f ≡ (ok b, t)
    → (a : A) × (s : S) × (out ≡ (ok a, s)) × (f a s ≡ (ok b, t))
bind_out-ok (ok a, s) f h = (a, s, refl, h)
bind_out-ok (err e, s) f h = cc

with_id :
    {B M : Type 0} (o : ApiObject B M) (i : String) → o.id ≡ some i → record o { id = some i } ≡ o
with_id o i h = ap (λ j. record o { id = j }) (sym h)

-- A change of the API that succeeds and is reported
call-ok :
    {S : Type 0} (out : Result Code (Unit {0}) × S) (new : Option String) {b : Bool}
    {m : Option String} {t : S}
    → bind_out {A = Unit {0}} {B = Bool × Option String}
        (as_api out.0, out.1)
        (λ u. return (true, new))
      ≡ (ok (b, m), t)
    → (out ≡ (ok tt, t)) × (m ≡ new)
call-ok (ok u, s) new h = (cc, cc)
call-ok (err e, s) new h = cc

first_object-ok :
    {S B M : Type 0} (k : Kind S B M) (r : Result Code (List (ApiObject B M))) {e : ApiObject B M}
    → first_object k r ≡ ok e
    → (es : List (ApiObject B M)) × (r ≡ ok (e ∷ es))
first_object-ok k (ok []) h = cc
first_object-ok k (ok (o ∷ os)) h = (os, cc)
first_object-ok k (err c) h = cc

attempt-ok :
    {S A : Type 0} (out : Result Code A × S) {r : Result Code A} {t : S}
    → ◌≡◌ {A = Result ApiError (Result Code A) × S} (ok out.0, out.1) (ok r, t)
    → out ≡ (r, t)
attempt-ok (a, s) h = cc

found_object-ok :
    {S B M : Type 0} (k : Kind S B M) (r : Result Code (ApiObject B M)) {e : ApiObject B M}
    → found_object k r ≡ ok (some e)
    → r ≡ ok e
found_object-ok k (ok o) h = cc
found_object-ok k (err code_not_found) h = cc
found_object-ok k (err code_already_exists) h = cc
found_object-ok k (err code_failed_precondition) h = cc
found_object-ok k (err (code_other m)) h = cc

visible-id :
    {S B M : Type 0} (k : Kind S B M) (n : Option String) (e : ApiObject B M) (j : Option String)
    → visible k n (record e { id = j }) ≡ record (visible k n e) { id = j }
visible-id k none e j = refl
visible-id k (some n) e j = refl

text_or_empty-some :
    (o : Option String) → (text_or_empty o == "") ≡ false → o ≡ some (text_or_empty o)
text_or_empty-some none h = cc
text_or_empty-some (some t) h = refl

module _ {S B M : Type 0} (k : Kind S B M) (l : ApiLaws k) where
  -- The API holds under the id an object that looks like the wanted one, with the id.
  abbrev pub Holds : S → ApiObject B M → Option String → Type 0
  Holds t o new =
      (i : String) × (e : ApiObject B M) × (new ≡ some i)
      × (k.client.get_object t i ≡ ok e)
      × (visible k o.namespace_id e ≡ record o { id = some i })

  -- The wanted object has no fields that a comparison ignores.
  abbrev pub IsClear : ApiObject B M → Type 0
  IsClear o = visible k o.namespace_id o ≡ o

  IsClear-id : (o : ApiObject B M) (j : Option String) → IsClear o → IsClear (record o { id = j })
  IsClear-id o j clear =
      visible-id k o.namespace_id o j ∙ ap {A = ApiObject B M} (λ c. record c { id = j }) clear

  update_existing-Holds :
      (o e : ApiObject B M) (i : String) (changed changed' : Bool) (new : Option String) (s t : S)
      → IsClear o
      → o.id ≡ some i
      → k.client.get_object s i ≡ ok e
      → update_existing k o changed e s ≡ (ok (changed', new), t)
      → Holds t o new
  unfolding update_existing
  update_existing-Holds o e i changed changed' new s t clear named got h =
      elim (Bool-cases (k.client.is_same (visible k o.namespace_id e) o)) [
        | inl same ↦
            let equal = l.is_same-eq (visible k o.namespace_id e) o same in
            let out : ◌≡◌ {A = Result ApiError (Bool × Option String) × S} (ok (changed, o.id), s)
                (ok (changed', new), t) =
              cc in
            (i, e, cc, cc, equal ∙ sym (with_id o i named))
        | inr differs ↦
            let out : ((call (λ q. k.client.update_object q o)) >> return (true, o.id)) s
                ≡ (ok (changed', new), t) =
              cc in
            let sent = call-ok (k.client.update_object s o) o.id out in
            let (e', stored, looks) = l.get-update s t o i named sent.0 in
            (i, e', cc, stored, looks ∙ clear ∙ sym (with_id o i named))
      ]

  find_by_name-ok :
      (name : Option String) (e : ApiObject B M) (s t : S)
      → find_by_name k name s ≡ (ok e, t)
      → (s ≡ t) × ((i : String) × (e.id ≡ some i) × (k.client.get_object s i ≡ ok e))
  unfolding find_by_name
  find_by_name-ok name e s t h =
      let (es, listed) =
        first_object-ok k (k.client.list_by_name s originator_id (text_or_empty name))
          (ap (λ p. p.0) h) in
      (ap (λ p. p.1) h, l.get_of_list s originator_id (text_or_empty name) e es listed)

  looked_up-Holds :
      (o : ApiObject B M) (changed : Bool) (new : Option String) (s t : S)
      → IsClear o
      → bind_out
          (find_by_name k o.name s)
          (λ e. update_existing k (record o { id = e.id }) k.counts_found e)
        ≡ (ok (changed, new), t)
      → Holds t o new
  looked_up-Holds o changed new s t clear h =
      let (e, s', found, updated) =
        bind_out-ok (find_by_name k o.name s)
          (λ e. update_existing k (record o { id = e.id }) k.counts_found e) h in
      let (same, (i, named, got)) = find_by_name-ok o.name e s s' found in
      let there : k.client.get_object s' i ≡ ok e =
        ap (λ q. k.client.get_object q i) (sym same) ∙ got in
      update_existing-Holds (record o { id = e.id }) e i k.counts_found changed new s' t
        (IsClear-id o e.id clear) named there updated

  after_create-Holds :
      (o : ApiObject B M) (r : Result Code (ApiObject B M)) (changed : Bool) (new : Option String)
      (s₀ s t : S)
      → IsClear o
      → k.client.create_object s₀ o ≡ (r, s)
      → after_create k o r s ≡ (ok (changed, new), t)
      → Holds t o new
  after_create-Holds o (ok made) changed new s₀ s t clear created h =
      let (i, e, named, got, looks) = l.get-create s₀ s o made created in
      let state : s ≡ t = ap (λ p. p.1) h in
      let id : made.id ≡ new = cc in
      (
        i,
        e,
        sym id ∙ named,
        ap (λ q. k.client.get_object q i) (sym state) ∙ got,
        looks ∙ IsClear-id o (some i) clear,
      )
  after_create-Holds o (err c) changed new s₀ s t clear created h =
      let found : Step S (Bool × Option String) = find_by_name k o.name >>= λ e.
      update_existing k (record o { id = e.id }) k.counts_found e in
      elim (Bool-cases (k.is_recoverable c)) [
        | inl again ↦
            looked_up-Holds o changed new s t clear
              (ap (λ b. (if b then found else fail (api_failed c)) s) (sym again) ∙ h)
        | inr lost ↦ cc
      ]

  create_new-Holds :
      (o : ApiObject B M) (changed : Bool) (new : Option String) (s t : S)
      → IsClear o
      → create_new k o s ≡ (ok (changed, new), t)
      → Holds t o new
  unfolding create_new
  create_new-Holds o changed new s t clear h =
      let (r, s', created, after) =
        bind_out-ok (attempt (λ q. k.client.create_object q o) s) (after_create k o) h in
      after_create-Holds o r changed new s s' t clear
        (attempt-ok (k.client.create_object s o) created) after

  find_existing-ok :
      (id : String) (found : Option (ApiObject B M)) (s t : S)
      → find_existing k id s ≡ (ok found, t)
      → (s ≡ t)
        × ((e : ApiObject B M)
            → found ≡ some e
            → ((id == "") ≡ false) × (k.client.get_object s id ≡ ok e))
  unfolding find_existing
  find_existing-ok id found s t h = elim (Bool-cases (id == "")) [
    | inl blank ↦ (cc, λ e q. cc)
    | inr given ↦ (cc, λ e q. (given, found_object-ok k (k.client.get_object s id) cc))
  ]

  upsert_found-Holds :
      (o : ApiObject B M) (found : Option (ApiObject B M)) (changed : Bool) (new : Option String)
      (s t : S)
      → IsClear o
      → ((e : ApiObject B M)
          → found ≡ some e
          → ((text_or_empty o.id == "") ≡ false)
            × (k.client.get_object s (text_or_empty o.id) ≡ ok e))
      → upsert_found k o found s ≡ (ok (changed, new), t)
      → Holds t o new
  upsert_found-Holds o none changed new s t clear got h =
      create_new-Holds (record o { id = none }) changed new s t (IsClear-id o none clear) h
  upsert_found-Holds o (some e) changed new s t clear got h =
      let (given, there) = got e refl in
      update_existing-Holds o e (text_or_empty o.id) false changed new s t clear
        (text_or_empty-some o.id given) there h

  -- Where the API obeys its laws, and the wanted object has none of the fields that a comparison
  -- ignores, after upsertOneRoute, upsertPolicy or upsertKeyPair succeeds the API holds, under the
  -- id that is left in the object, an object that is the wanted one up to these fields.
  pub upsert_object-Holds :
      (o : ApiObject B M) (changed : Bool) (new : Option String) (s t : S)
      → IsClear o
      → upsert_object k o s ≡ (ok (changed, new), t)
      → Holds t o new
  unfolding upsert_object
  upsert_object-Holds o changed new s t clear h =
      let (found, s', looked, rest) = bind_out-ok (find_existing k (text_or_empty o.id) s) _ h in
      let (same, got) = find_existing-ok (text_or_empty o.id) found s s' looked in
      let got' =
        subst
          (λ q.
            (e : ApiObject B M)
            → found ≡ some e
            → ((text_or_empty o.id == "") ≡ false)
              × (k.client.get_object q (text_or_empty o.id) ≡ ok e))
          same got in
      elim (Bool-cases (is_moved k o found)) [
        | inl moved ↦
            let again : bind_out (drop_moved k found s')
                  (λ u. create_new k (record o { id = none }))
                ≡ (ok (changed, new), t) =
              ap (λ b. upsert_kept k o found b s') (sym moved) ∙ rest in
            let (u, q, dropped, made) = bind_out-ok (drop_moved k found s') _ again in
            create_new-Holds (record o { id = none }) changed new q t (IsClear-id o none clear) made
        | inr here ↦
            upsert_found-Holds o found changed new s' t clear got'
              (ap (λ b. upsert_kept k o found b s') (sym here) ∙ rest)
      ]
