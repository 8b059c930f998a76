-- ===== src/Names.antt =====
-- util/namespaced_name.go: the names of resources, as the settings and the flags state them.
pub mod Spelled
use ingress_controller.Externals.{route_id_eq}
use ingress_controller.Gateway.RefKey.{ref_key_eq}
use ingress_controller.Prelude.{
  >>=-eq-ok, List, Result, String, [], arith, err, guard, if◌then◌else◌, nat_eq, not, ok, string_eq,
  ◌==◌, ◌>>=◌, ◌>>◌, ◌∷◌, ◌≡◌, ◌≢◌,
}
use ingress_controller.Prelude.Text.{char_eq, split}
use ingress_controller.Types.{NamespacedName, key_eq, namespaced_name_eq, secret_type_eq}
use mathlib.Core.Path.{subst}
use text.Mathlib.TextEquality.{eq_iff}

pub data NameError : Type 0 where
  invalid_format namespace_expected empty_name too_many_options cluster_scope_expected : NameError
  other_namespace : (expected got : String) → NameError

-- NamespacedNameOption, by the functions that return one
pub data NameOption : Type 0 where
  with_namespace_expected with_cluster_scope : NameOption
  with_default_namespace with_must_namespace : String → NameOption

-- The functions that the options are
unfoldable pub apply_option : NameOption → NamespacedName → Result NameError NamespacedName
apply_option with_namespace_expected n = if n.namespace == "" then err namespace_expected else ok n
apply_option with_cluster_scope n = if n.namespace == "" then ok n else err cluster_scope_expected
apply_option (with_default_namespace namespace) n =
    if namespace == ""
    then err namespace_expected
    else if n.namespace == ""
    then ok (record n { namespace = namespace })
    else ok n
apply_option (with_must_namespace namespace) n =
    if namespace == ""
    then err namespace_expected
    else if n.namespace == ""
    then ok (record n { namespace = namespace })
    else if n.namespace == namespace
    then ok n
    else err (other_namespace namespace n.namespace)

-- The option that applies: the one given, or the one without any
abbrev the_option : List NameOption → Result NameError NameOption
the_option [] = ok with_namespace_expected
the_option (o ∷ []) = ok o
the_option _ = err too_many_options

abbrev of_parts : List String → Result NameError NamespacedName
of_parts (name ∷ []) = ok (record { namespace = ""; name = name })
of_parts (namespace ∷ name ∷ []) = ok (record { namespace = namespace; name = name })
of_parts _ = err invalid_format

-- ParseNamespacedName
unfoldable pub parse_namespaced_name : String → List NameOption → Result NameError NamespacedName
unfolding apply_option
parse_namespaced_name name options = do
  option ← the_option options
  guard (not (name == "")) empty_name
  parts ← of_parts (split name "/")
  dst ← apply_option option parts
  guard (not (dst.name == "")) invalid_format
  ok dst

-- What an option promises of the names that it lets through.
abbrev pub Obeys : NameOption → NamespacedName → Type 0
Obeys with_namespace_expected n = n.namespace ≢ ""
Obeys with_cluster_scope n = n.namespace ≡ ""
Obeys (with_default_namespace namespace) n = n.namespace ≢ ""
Obeys (with_must_namespace namespace) n = n.namespace ≡ namespace

apply_option-Obeys :
    (o : NameOption) (n : NamespacedName) {m : NamespacedName} → apply_option o n ≡ ok m → Obeys o m
unfolding apply_option
apply_option-Obeys with_namespace_expected n h = ground (arith, eq_iff n.namespace "")
apply_option-Obeys with_cluster_scope n h = ground (arith, eq_iff n.namespace "")
apply_option-Obeys (with_default_namespace namespace) n h =
    ground (arith, eq_iff n.namespace "", eq_iff namespace "")
apply_option-Obeys (with_must_namespace namespace) n h =
    ground (arith, eq_iff n.namespace "", eq_iff n.namespace namespace)

-- What a name that is parsed under an option has.
pub parse_namespaced_name-Obeys :
    (s : String) (o : NameOption) (n : NamespacedName)
    → parse_namespaced_name s (o ∷ []) ≡ ok n
    → (n.name ≢ "") × Obeys o n
unfolding parse_namespaced_name
parse_namespaced_name-Obeys s o n h =
    let (_, _, h1) = >>=-eq-ok (guard (not (s == "")) empty_name) _ h in
    let (parts, _, h2) = >>=-eq-ok (of_parts (split s "/")) _ h1 in
    let (dst, applied, h3) = >>=-eq-ok (apply_option o parts) _ h2 in
    let same : (dst ≡ n) × (dst.name ≢ "") = ground (arith, h3, eq_iff dst.name "") in
    (ground (arith, same), subst (Obeys o) same.0 (apply_option-Obeys o parts {m = dst} applied))
