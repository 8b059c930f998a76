-- ===== src/Annotations/Keys/Sorted.antt =====
-- Where each annotation of an ingress goes.
use ingress_controller.Annotations.Errors.{AnnotationError, no_longer_supported, unknown_key}
use ingress_controller.Annotations.Keys.{
  Keys, base_annotations, file_key, file_keys, handled_elsewhere, mcp_client_annotations,
  mcp_server_annotations, no_keys, policy_annotations, remove_key_prefix, secret_annotations,
  tls_annotations, unsupported, upstream_tunnel_annotations,
}
use ingress_controller.Externals.{route_id_eq}
use ingress_controller.Gateway.RefKey.{ref_key_eq}
use ingress_controller.Prelude.{
  >>=-eq-ok, Bool, Bool-cases, Bool-eq_of_iff, List, Option, Option-cases, Result, String, [], all,
  arith, err, false, guard, if◌then◌else◌, inl, inr, is_ok, nat_eq, none, not, ok, refl, some,
  string_eq, true, ℕ, ◌&&◌, ◌++◌, ◌==◌, ◌>>=◌, ◌||◌, ◌∷◌, ◌≡◌,
}
use ingress_controller.Prelude.Map.{Map, insert, lookup, lookup-insert}
use ingress_controller.Prelude.Set.{contains, contains-append}
use ingress_controller.Prelude.Text.{char_eq, has_prefix, trim_prefix, ◌<>◌}
use ingress_controller.Types.{key_eq, namespaced_name_eq, secret_type_eq}
use text.Mathlib.TextEquality.{eq_iff}

pub data Group : Type 0 where
  base_group policy_group tls_group secret_group : Group
  mcp_server_group mcp_client_group tunnel_group etc_group : Group

abbrev pub map_of : Group → Keys → Map String String
map_of base_group kv = kv.base
map_of policy_group kv = kv.policy
map_of tls_group kv = kv.tls
map_of secret_group kv = kv.secret
map_of mcp_server_group kv = kv.mcp_server
map_of mcp_client_group kv = kv.mcp_client
map_of tunnel_group kv = kv.upstream_tunnel
map_of etc_group kv = kv.etc

abbrev pub table_of : Group → List String
table_of base_group = base_annotations
table_of policy_group = policy_annotations
table_of tls_group = tls_annotations
table_of secret_group = secret_annotations
table_of mcp_server_group = mcp_server_annotations
table_of mcp_client_group = mcp_client_annotations
table_of tunnel_group = upstream_tunnel_annotations
table_of etc_group = handled_elsewhere

-- The value of the last annotation that reads as the key without its prefix.
abbrev pub annotated : String → String → Map String String → Option String
annotated prefix k [] = none
annotated prefix k ((key, v) ∷ src) = elim (annotated prefix k src) [
  | some w ↦ some w
  | none ↦ if has_prefix key prefix && trim_prefix key prefix == k then some v else none
]

abbrev or_old : Option String → Option String → Option String
or_old none old = old
or_old (some v) old = some v

-- The first group whose table has the key.
unfoldable group_of : String → Option Group
group_of k =
    if contains k base_annotations
    then some base_group
    else if contains k policy_annotations
    then some policy_group
    else if contains k tls_annotations
    then some tls_group
    else if contains k secret_annotations
    then some secret_group
    else if contains k mcp_server_annotations
    then some mcp_server_group
    else if contains k mcp_client_annotations
    then some mcp_client_group
    else if contains k upstream_tunnel_annotations
    then some tunnel_group
    else if contains k handled_elsewhere
    then some etc_group
    else none

table_number : Group → ℕ
table_number base_group = 0
table_number policy_group = 1
table_number tls_group = 2
table_number secret_group = 3
table_number mcp_server_group = 4
table_number mcp_client_group = 5
table_number tunnel_group = 6
table_number etc_group = 7

abbrev same : Group → Group → Bool
unfolding table_number
same g h = table_number g == table_number h

abbrev is_group : Group → Option Group → Bool
is_group g none = false
is_group g (some h) = same g h

abbrev put : Group → String → String → Keys → Keys
put base_group k v kv = record kv { base = insert k v kv.base }
put policy_group k v kv = record kv { policy = insert k v kv.policy }
put tls_group k v kv = record kv { tls = insert k v kv.tls }
put secret_group k v kv = record kv { secret = insert k v kv.secret }
put mcp_server_group k v kv = record kv { mcp_server = insert k v kv.mcp_server }
put mcp_client_group k v kv = record kv { mcp_client = insert k v kv.mcp_client }
put tunnel_group k v kv = record kv { upstream_tunnel = insert k v kv.upstream_tunnel }
put etc_group k v kv = record kv { etc = insert k v kv.etc }

file_key_lem :
    (k v : String) (kv : Keys)
    → file_key k v kv
      ≡ elim (group_of k) [ none ↦ err (unknown_key k) | some g ↦ ok (put g k v kv) ]
unfolding file_key group_of
file_key_lem k v kv = ground arith

lookup-put :
    (g h : Group) (j k v : String) (kv : Keys)
    → lookup j (map_of g (put h k v kv))
      ≡ (if k == j && same g h then some v else lookup j (map_of g kv))
unfolding table_number
lookup-put g h j k v kv = ground (arith, lookup-insert k j v (map_of g kv))

-- No key stands in two tables.
tables_apart : (g : Group) → all (λ k. is_group g (group_of k)) (table_of g) ≡ true
unfolding group_of contains table_number
tables_apart base_group = refl
tables_apart policy_group = refl
tables_apart tls_group = refl
tables_apart secret_group = refl
tables_apart mcp_server_group = refl
tables_apart mcp_client_group = refl
tables_apart tunnel_group = refl
tables_apart etc_group = refl

all-contains :
    (p : String → Bool) (k : String) (xs : List String)
    → all p xs ≡ true
    → contains k xs ≡ true
    → p k ≡ true
unfolding contains
all-contains p k [] h c = cc
all-contains p k (x ∷ xs) h c = ground (arith, all-contains p k xs, eq_iff x k)

in_own_table :
    (g : Group) (k : String) → is_group g (group_of k) ≡ true → contains k (table_of g) ≡ true
unfolding group_of table_number
in_own_table base_group k h = ground arith
in_own_table policy_group k h = ground arith
in_own_table tls_group k h = ground arith
in_own_table secret_group k h = ground arith
in_own_table mcp_server_group k h = ground arith
in_own_table mcp_client_group k h = ground arith
in_own_table tunnel_group k h = ground arith
in_own_table etc_group k h = ground arith

is_group_lem : (g : Group) (k : String) → is_group g (group_of k) ≡ contains k (table_of g)
is_group_lem g k =
    Bool-eq_of_iff (is_group g (group_of k)) (contains k (table_of g)) (in_own_table g k)
      (all-contains (λ j. is_group g (group_of j)) k (table_of g) (tables_apart g))

lookup-file_key :
    (g : Group) (j k v : String) (kv : Keys) {kv' : Keys}
    → file_key k v kv ≡ ok kv'
    → lookup j (map_of g kv')
      ≡ (if k == j && contains k (table_of g) then some v else lookup j (map_of g kv))
lookup-file_key g j k v kv {kv'} h = elim (Option-cases (group_of k)) [
  | inl n ↦ ground (arith, file_key_lem k v kv)
  | inr (own, e) ↦
      let stored : kv' ≡ put own k v kv = ground (arith, file_key_lem k v kv) in
      let mine : same g own ≡ contains k (table_of g) = ground (arith, is_group_lem g k) in
      ground (arith, stored, mine, lookup-put g own j k v kv)
]

lookup-file_keys :
    (prefix k : String) (g : Group) (src : Map String String) (kv kv' : Keys)
    → file_keys prefix src kv ≡ ok kv'
    → lookup k (map_of g kv')
      ≡ or_old
          (if contains k (table_of g) then annotated prefix k src else none)
          (lookup k (map_of g kv))
unfolding file_keys
lookup-file_keys prefix k g [] kv kv' h = ground arith
lookup-file_keys prefix k g ((key, v) ∷ src) kv kv' h = elim (Bool-cases (has_prefix key prefix)) [
  | inl starts ↦
      let name = trim_prefix key prefix in
      let next : Result AnnotationError Keys =
        file_key name v kv >>= λ kw. file_keys prefix src kw in
      let (_, _, h1) =
        >>=-eq-ok {B = Keys} (guard (not (contains name unsupported)) (no_longer_supported name))
          (λ _. next) {c = kv'} (ground arith) in
      let (kw, filed, h2) = >>=-eq-ok (file_key name v kv) _ h1 in
      ground (
        arith,
        lookup-file_keys prefix k g src kw kv' h2,
        lookup-file_key g k name v kv {kv' = kw} filed,
        eq_iff name k,
      )
  | inr other_key ↦ ground (arith, lookup-file_keys prefix k g src kv kv')
]

-- Annotations that are accepted are sorted by name: each group holds exactly those of its table,
-- and a name that several annotations share has the value of the last of them.
pub lookup-remove_key_prefix :
    (src : Map String String) (prefix : String) (kv : Keys)
    → remove_key_prefix src prefix ≡ ok kv
    → (g : Group) (k : String)
    → lookup k (map_of g kv)
      ≡ (if contains k (table_of g) then annotated (prefix <> "/") k src else none)
unfolding remove_key_prefix lookup
lookup-remove_key_prefix src prefix kv h g k =
    ground (arith, lookup-file_keys (prefix <> "/") k g src no_keys kv h)

abbrev tunnel_and_later : List String
tunnel_and_later = upstream_tunnel_annotations ++ handled_elsewhere

abbrev mcp_and_later : List String
mcp_and_later = mcp_server_annotations ++ mcp_client_annotations ++ tunnel_and_later

-- The annotations that the controller knows by name.
abbrev known_annotations : List String
known_annotations =
    base_annotations ++ policy_annotations ++ tls_annotations ++ secret_annotations ++ mcp_and_later

-- An annotation that is another application's, or that is known and still supported.
abbrev pub acceptable : String → (String × String) → Bool
acceptable prefix (key, v) =
    let k = trim_prefix key prefix in
    not (has_prefix key prefix) || contains k known_annotations && not (contains k unsupported)

known_group :
    (k : String) → contains k known_annotations ≡ elim (group_of k) [ none ↦ false | some g ↦ true ]
unfolding group_of
known_group k = ground (
  arith,
  contains-append k base_annotations
      (policy_annotations ++ tls_annotations ++ secret_annotations ++ mcp_and_later),
  contains-append k policy_annotations (tls_annotations ++ secret_annotations ++ mcp_and_later),
  contains-append k tls_annotations (secret_annotations ++ mcp_and_later),
  contains-append k secret_annotations mcp_and_later,
  contains-append k mcp_server_annotations (mcp_client_annotations ++ tunnel_and_later),
  contains-append k mcp_client_annotations tunnel_and_later,
  contains-append k upstream_tunnel_annotations handled_elsewhere,
)

is_ok-file_keys :
    (prefix : String) (src : Map String String) (kv : Keys)
    → is_ok (file_keys prefix src kv) ≡ all (acceptable prefix) src
unfolding file_keys
is_ok-file_keys prefix [] kv = refl
is_ok-file_keys prefix ((key, v) ∷ src) kv =
    let k = trim_prefix key prefix in
    elim (Option-cases (group_of k)) [
      | inl n ↦ ground (arith, known_group k, file_key_lem k v kv, is_ok-file_keys prefix src kv)
      | inr (g, e) ↦ ground (
        arith,
        known_group k,
        file_key_lem k v kv,
        is_ok-file_keys prefix src kv,
        is_ok-file_keys prefix src (put g k v kv),
      )
    ]

-- The annotations are accepted exactly if each that has the prefix is known and still supported.
pub is_ok-remove_key_prefix :
    (src : Map String String) (prefix : String)
    → is_ok (remove_key_prefix src prefix) ≡ all (acceptable (prefix <> "/")) src
unfolding remove_key_prefix
is_ok-remove_key_prefix src prefix = is_ok-file_keys (prefix <> "/") src no_keys
