-- ===== src/Api/Steps.antt =====
-- A step of the API reconciler: it reads and changes a state, and returns a value or an error. The
-- state that an error leaves is kept.
use ingress_controller.Annotations.Errors.{AnnotationError}
use ingress_controller.Certs.{domain_key_eq}
use ingress_controller.Externals.{route_id_eq}
use ingress_controller.Gateway.RefKey.{ref_key_eq}
use ingress_controller.IngressRoutes.Errors.{RouteError}
use ingress_controller.Prelude.{Result, String, err, nat_eq, ok, string_eq}
use ingress_controller.Prelude.Text.{char_eq}
use ingress_controller.Types.{key_eq, namespaced_name_eq, secret_type_eq}

-- connect.CodeOf an error of the API
pub data Code : Type 0 where
  code_not_found code_already_exists code_failed_precondition : Code
  code_other : String → Code

-- The errors of keysToPolicy
pub data PolicyError : Type 0 where
  bad_base bad_ppl : String → PolicyError
  bad_policy : AnnotationError → PolicyError

pub data ApiError : Type 0 where
  api_failed : Code → ApiError
  not_found_by_name : ApiError
  cluster_failed : String → ApiError
  cannot_convert_ingress : RouteError → ApiError
  cannot_read_annotations : AnnotationError → ApiError
  cannot_make_policy : PolicyError → ApiError
  secret_missing no_key_pair_id : String → ApiError
  -- errors.Join
  both_errors : ApiError → ApiError → ApiError

abbrev pub Step : Type 0 → Type 0 → Type 0
Step S A = S → Result ApiError A × S

abbrev pub bind_out :
    {S A B : Type 0} → Result ApiError A × S → (A → Step S B) → Result ApiError B × S
bind_out (ok a, s) f = f a s
bind_out (err e, s) f = (err e, s)

infixl 5 ◌>>=◌ ◌>>◌
abbrev pub ◌>>=◌ : {S A B : Type 0} → Step S A → (A → Step S B) → Step S B
◌>>=◌ m f = λ s. bind_out (m s) f

abbrev pub ◌>>◌ : {S A B : Type 0} → Step S A → Step S B → Step S B
◌>>◌ m k = m >>= λ _. k

abbrev pub return : {S A : Type 0} → A → Step S A
return a s = (ok a, s)

abbrev pub fail : {S A : Type 0} → ApiError → Step S A
fail e s = (err e, s)

-- A result as a step
abbrev pub lift : {S A : Type 0} → Result ApiError A → Step S A
lift m s = (m, s)

-- A call that reads the state, by its result
abbrev pub read_state : {S A : Type 0} → (S → Result ApiError A) → Step S A
read_state f s = (f s, s)

abbrev pub as_api : {A : Type 0} → Result Code A → Result ApiError A
as_api (ok a) = ok a
as_api (err c) = err (api_failed c)

-- A call that changes the API, by its result
abbrev pub attempt : {S A : Type 0} → (S → Result Code A × S) → Step S (Result Code A)
attempt f s = let (r, t) = f s in (ok r, t)

-- A call whose error is an error of the step
abbrev pub call : {S A : Type 0} → (S → Result Code A × S) → Step S A
call f s = let (r, t) = f s in (as_api r, t)
