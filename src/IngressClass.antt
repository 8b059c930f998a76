-- ===== src/IngressClass.antt =====
-- controllers/ingress/ingress_class.go: which ingresses the controller manages.
pub mod Managed
use ingress_controller.Certs.{domain_key_eq}
use ingress_controller.Externals.{route_id_eq}
use ingress_controller.Gateway.RefKey.{ref_key_eq}
use ingress_controller.Kube.{Ingress}
use ingress_controller.Prelude.{
  Bool, List, Option, Result, String, [], err, false, guard, if◌then◌else◌, is_empty, nat_eq, none,
  ok, some, string_eq, true, ◌&&◌, ◌==◌, ◌>>=◌, ◌>>◌, ◌||◌, ◌∷◌,
}
use ingress_controller.Prelude.Map.{Map, get_text, lookup}
use ingress_controller.Prelude.Text.{char_eq}
use ingress_controller.Types.{NamespacedName, key_eq, namespaced_name_eq, secret_type_eq}

-- networkingv1.IngressClass, with the fields that the code reads
pub record IngressClass : Type 0 where
  pub name : String
  pub controller : String
  pub annotations : Map String String

-- An error of the Kubernetes client: an APIStatus, or another
pub data ListError : Type 0 where
  api_status list_failed : String → ListError

pub data ClassError : Type 0 where
  not_in_namespaces : NamespacedName → ClassError
  cannot_list : ListError → ClassError
  no_default_class : ClassError
  class_not_found : String → ClassError

-- The fields of ingressController that the tests read
pub record ClassConfig : Type 0 where
  pub namespaces : Map String Bool
  pub controller_name : String

abbrev pub ingress_class_annotation_key : String
ingress_class_annotation_key = "kubernetes.io/ingress.class"

abbrev pub ingress_class_default_annotation_key : String
ingress_class_default_annotation_key = "ingressclass.kubernetes.io/is-default-class"

-- strconv.ParseBool succeeds with true
abbrev pub is_true_text : String → Bool
is_true_text t = t == "1" || t == "t" || t == "T" || t == "true" || t == "TRUE" || t == "True"

-- isDefaultIngressClass, where an error counts as false
unfoldable pub is_default_ingress_class : IngressClass → Bool
is_default_ingress_class ic = elim (lookup ingress_class_default_annotation_key ic.annotations) [
  | none ↦ false
  | some t ↦ is_true_text t
]

-- A loop that returns the first class of the controller that passes a test.
unfoldable pub find_class :
    ClassConfig → (IngressClass → Bool) → List IngressClass → Option IngressClass
find_class r p [] = none
find_class r p (ic ∷ items) =
    let rest = find_class r p items in
    if ic.controller == r.controller_name && p ic then some ic else rest

-- The name of the class that an ingress asks for: of the field, or else of the annotation
unfoldable pub class_name_of : Ingress → String
class_name_of ing = elim ing.ingress_class_name [
  | some name ↦ name
  | none ↦ get_text ingress_class_annotation_key ing.annotations
]

abbrev pub found_or_error : ClassError → Option IngressClass → Result ClassError IngressClass
found_or_error e none = err e
found_or_error e (some ic) = ok ic

abbrev pub is_watched : ClassConfig → String → Bool
is_watched r namespace =
    is_empty r.namespaces || elim (lookup namespace r.namespaces) [ none ↦ false | some b ↦ b ]

abbrev class_among :
    ClassConfig → String → Result ListError (List IngressClass) → Result ClassError IngressClass
class_among r name (err e) = err (cannot_list e)
class_among r name (ok items) =
    if name == ""
    then found_or_error no_default_class (find_class r is_default_ingress_class items)
    else found_or_error (class_not_found name) (find_class r (λ ic. name == ic.name) items)

-- getManagingClass, on what the list of the classes returns
unfoldable pub get_managing_class :
    ClassConfig → Result ListError (List IngressClass) → Ingress → Result ClassError IngressClass
unfolding find_class is_default_ingress_class class_name_of
get_managing_class r listed ing = do
  guard (is_watched r ing.namespaced_name.namespace) (not_in_namespaces ing.namespaced_name)
  class_among r (class_name_of ing) listed

-- ingressManageResult, with the error that the reason prints
pub record IngressManageResult : Type 0 where
  pub managed : Bool
  pub reason_if_not : Option ClassError

abbrev pub manage_result : Result ClassError IngressClass → Result ListError IngressManageResult
manage_result (ok ic) = ok (record { managed = true; reason_if_not = none })
manage_result (err (cannot_list (api_status m))) = err (api_status m)
manage_result (err e) = ok (record { managed = false; reason_if_not = some e })

-- isManaging
unfoldable pub is_managing :
    ClassConfig
    → Result ListError (List IngressClass)
    → Ingress
    → Result ListError IngressManageResult
unfolding get_managing_class
is_managing r listed ing = manage_result (get_managing_class r listed ing)
