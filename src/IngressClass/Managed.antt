-- ===== src/IngressClass/Managed.antt =====
-- Which ingresses are managed.
use ingress_controller.Certs.{domain_key_eq}
use ingress_controller.Externals.{route_id_eq}
use ingress_controller.Gateway.RefKey.{ref_key_eq}
use ingress_controller.IngressClass.{
  ClassConfig, ClassError, IngressClass, IngressManageResult, ListError, class_among, class_name_of,
  class_not_found, find_class, found_or_error, get_managing_class,
  ingress_class_default_annotation_key, is_default_ingress_class, is_managing, is_watched,
  manage_result, no_default_class, not_in_namespaces,
}
use ingress_controller.Kube.{Ingress}
use ingress_controller.Prelude.{
  Bool, List, Option, Option-cases, Result, String, [], any, ap, arith, err, false, first_of, guard,
  if◌then◌else◌, inl, inr, is_ok, is_there, nat_eq, none, ok, refl, some, string_eq, sym, true,
  ◌&&◌, ◌==◌, ◌>>◌, ◌∙◌, ◌∷◌, ◌≡◌,
}
use ingress_controller.Prelude.Map.{lookup, text_of}
use ingress_controller.Prelude.Text.{char_eq}
use ingress_controller.Types.{key_eq, namespaced_name_eq, secret_type_eq}

-- The class that an ingress states, by its field or else by its annotation
abbrev stated_class : Ingress → String
stated_class ing =
    text_of (first_of ing.ingress_class_name (lookup "kubernetes.io/ingress.class" ing.annotations))

-- The texts that say that a class is a default one
abbrev true_texts : List String
true_texts = "1" ∷ "t" ∷ "T" ∷ "true" ∷ "TRUE" ∷ "True" ∷ []

abbrev is_default : IngressClass → Bool
is_default ic = elim (lookup "ingressclass.kubernetes.io/is-default-class" ic.annotations) [
  | none ↦ false
  | some t ↦ any (λ u. t == u) true_texts
]

-- A class of the controller that an ingress falls under: that of its name, or a default one where
-- it names none.
abbrev pub is_class_of : ClassConfig → Ingress → IngressClass → Bool
is_class_of r ing ic =
    ic.controller == r.controller_name
    && (if stated_class ing == "" then is_default ic else stated_class ing == ic.name)

-- The same, by the functions of the code.
abbrev is_found_class : ClassConfig → Ingress → IngressClass → Bool
is_found_class r ing ic =
    ic.controller == r.controller_name
    && (if class_name_of ing == ""
        then is_default_ingress_class ic
        else class_name_of ing == ic.name)

class_name_of-stated : (ing : Ingress) → class_name_of ing ≡ stated_class ing
unfolding class_name_of lookup
class_name_of-stated ing = elim (Option-cases ing.ingress_class_name) [
  | inl missing ↦ ground (arith, missing)
  | inr (name, stated) ↦ ground (arith, stated)
]

is_default_lem : (ic : IngressClass) → is_default_ingress_class ic ≡ is_default ic
unfolding is_default_ingress_class
is_default_lem ic =
    elim (Option-cases (lookup ingress_class_default_annotation_key ic.annotations)) [
      | inl missing ↦ ground (arith, missing)
      | inr (t, stated) ↦ ground (arith, stated)
    ]

is_found_class-is_class_of :
    (r : ClassConfig) (ing : Ingress) (ic : IngressClass)
    → is_found_class r ing ic ≡ is_class_of r ing ic
is_found_class-is_class_of r ing ic =
    ap
      (λ b.
        ic.controller == r.controller_name
        && (if class_name_of ing == "" then b else class_name_of ing == ic.name))
      (is_default_lem ic)
    ∙ ap
        (λ n.
          ic.controller == r.controller_name && (if n == "" then is_default ic else n == ic.name))
        (class_name_of-stated ing)

is_there-find_class :
    (r : ClassConfig) (p : IngressClass → Bool) (items : List IngressClass)
    → is_there (find_class r p items) ≡ any (λ ic. ic.controller == r.controller_name && p ic) items
unfolding find_class
is_there-find_class r p [] = refl
is_there-find_class r p (ic ∷ items) = ground (arith, is_there-find_class r p items)

any_ext :
    (p q : IngressClass → Bool)
    → ((ic : IngressClass) → p ic ≡ q ic)
    → (items : List IngressClass) → any p items ≡ any q items
any_ext p q h [] = refl
any_ext p q h (ic ∷ items) = ground (arith, h ic, any_ext p q h items)

abbrev pub is_managed : Result ListError IngressManageResult → Bool
is_managed (ok m) = m.managed
is_managed (err e) = false

-- An answer that finds a class, or says which is missing.
abbrev IsAnswer : Result ClassError IngressClass → Bool → Type 0
IsAnswer m b = (is_ok (manage_result m) ≡ true) × (is_managed (manage_result m) ≡ b)

default-IsAnswer :
    (o : Option IngressClass) → IsAnswer (found_or_error no_default_class o) (is_there o)
default-IsAnswer none = (refl, refl)
default-IsAnswer (some ic) = (refl, refl)

named-IsAnswer :
    (n : String) (o : Option IngressClass)
    → IsAnswer (found_or_error (class_not_found n) o) (is_there o)
named-IsAnswer n none = (refl, refl)
named-IsAnswer n (some ic) = (refl, refl)

module _ (r : ClassConfig) (items : List IngressClass) (ing : Ingress) where
  is_found-name :
      (b : Bool)
      → (class_name_of ing == "") ≡ b
      → (ic : IngressClass)
      → (ic.controller == r.controller_name
          && (if b then is_default_ingress_class ic else class_name_of ing == ic.name))
        ≡ is_found_class r ing ic
  is_found-name b h ic =
      ap
        (λ t.
          ic.controller == r.controller_name
          && (if t then is_default_ingress_class ic else class_name_of ing == ic.name))
        (sym h)

  among-IsAnswer :
      (b : Bool)
      → (class_name_of ing == "") ≡ b
      → IsAnswer
          (if b
            then found_or_error no_default_class (find_class r is_default_ingress_class items)
            else found_or_error
                (class_not_found (class_name_of ing))
                (find_class r (λ ic. class_name_of ing == ic.name) items))
          (any (is_found_class r ing) items)
  among-IsAnswer true h =
      let (fine, same) = default-IsAnswer (find_class r is_default_ingress_class items) in
      (
        fine,
        same
            ∙ is_there-find_class r is_default_ingress_class items
            ∙ any_ext _ (is_found_class r ing) (is_found-name true h) items,
      )
  among-IsAnswer false h =
      let named : IngressClass → Bool = λ ic. class_name_of ing == ic.name in
      let (fine, same) = named-IsAnswer (class_name_of ing) (find_class r named items) in
      (
        fine,
        same
            ∙ is_there-find_class r named items
            ∙ any_ext _ (is_found_class r ing) (is_found-name false h) items,
      )

  is_managed-found :
      (is_ok (is_managing r (ok items) ing) ≡ true)
      × (is_managed (is_managing r (ok items) ing)
          ≡ (is_watched r ing.namespaced_name.namespace && any (is_found_class r ing) items))
  unfolding is_managing get_managing_class
  is_managed-found =
      elim (is_watched r ing.namespaced_name.namespace)
        as (λ w.
          IsAnswer
            (guard w (not_in_namespaces ing.namespaced_name)
              >> class_among r (class_name_of ing) (ok items))
            (w && any (is_found_class r ing) items)) [
              | true ↦ among-IsAnswer (class_name_of ing == "") refl
              | false ↦ (refl, refl)
            ]

  -- Where the classes can be listed, isManaging returns no error, and says that an ingress is
  -- managed exactly if its namespace is watched and one of the classes is a class of the
  -- controller that the ingress names, or a default one where it names none.
  pub is_managed-is_managing :
      (is_ok (is_managing r (ok items) ing) ≡ true)
      × (is_managed (is_managing r (ok items) ing)
          ≡ (is_watched r ing.namespaced_name.namespace && any (is_class_of r ing) items))
  is_managed-is_managing = (
    is_managed-found.0,
    is_managed-found.1
        ∙ ap (λ b. is_watched r ing.namespaced_name.namespace && b)
            (any_ext (is_found_class r ing) (is_class_of r ing) (is_found_class-is_class_of r ing)
              items),
  )
