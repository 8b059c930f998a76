-- ===== src/Names/Spelled.antt =====
-- How a text that ParseNamespacedName accepts spells the name, over the parts that strings.Split
-- makes of it.
use ingress_controller.Certs.{domain_key_eq}
use ingress_controller.Externals.{route_id_eq}
use ingress_controller.Gateway.RefKey.{ref_key_eq}
use ingress_controller.Names.{
  NameOption, Obeys, apply_option, empty_name, of_parts, parse_namespaced_name,
  parse_namespaced_name-Obeys, with_cluster_scope, with_default_namespace, with_must_namespace,
  with_namespace_expected,
}
use ingress_controller.Prelude.{
  >>=-eq-ok, Bool-cases, List, String, [], ap, arith, guard, if◌then◌else◌, inl, inr, nat_eq, not,
  ok, ok_injective, refl, string_eq, sym, ◌==◌, ◌∙◌, ◌∷◌, ◌≡◌, ◌≢◌, ◌⊎◌,
}
use ingress_controller.Prelude.Text.{char_eq, extend, split, ◌<>◌}
use Prim.Native.Char.{Char}
use ingress_controller.Types.{NamespacedName, key_eq, namespaced_name_eq, secret_type_eq}
use mathlib.Core.Path.{subst}
use text.Mathlib.TextEquality.{eq_iff}
use text.Mathlib.TextLemmas.{cons-append, nil-append}

-- strings.Join at a separator of one character
join : Char → List String → String
join sep [] = ""
join sep (p ∷ []) = p
join sep (p ∷ q ∷ ps) = p <> String.◌∷◌ sep (join sep (q ∷ ps))

split-cons : (s : String) (sep : Char) → (p : String) × (ps : List String) × (split s sep ≡ p ∷ ps)
unfolding split
split-cons String.[] sep = ("", [], refl)
split-cons (String.◌∷◌ c s) sep =
    let (p, ps, e) = split-cons s sep in
    elim (Bool-cases (c == sep)) [
      | inl same ↦ ("", split s sep, ground arith)
      | inr differs ↦ (String.◌∷◌ c p, ps, ground (arith, e))
    ]

join-extend :
    (c sep : Char) (ps : List String) → join sep (extend c ps) ≡ String.◌∷◌ c (join sep ps)
unfolding join
join-extend c sep [] = refl
join-extend c sep (p ∷ []) = refl
join-extend c sep (p ∷ q ∷ ps) = cons-append c p (String.◌∷◌ sep (join sep (q ∷ ps)))

-- The parts of a text, joined, are the text.
join-split : (s : String) (sep : Char) → join sep (split s sep) ≡ s
unfolding join split
join-split String.[] sep = refl
join-split (String.◌∷◌ c s) sep =
    let (p, ps, e) = split-cons s sep in
    elim (Bool-cases (c == sep)) [
      | inl same ↦
          ap (λ b. join sep (if b then "" ∷ split s sep else extend c (split s sep))) same
          ∙ ap (λ ps. join sep ("" ∷ ps)) e
          ∙ nil-append (String.◌∷◌ sep (join sep (p ∷ ps)))
          ∙ ap (λ d. String.◌∷◌ d (join sep (p ∷ ps))) (sym ((char_eq.beq_iff c sep).0 same))
          ∙ ap (λ u. String.◌∷◌ c u) (ap (join sep) (sym e) ∙ join-split s sep)
      | inr differs ↦ ground (arith, join-extend c sep (split s sep), join-split s sep)
    ]

-- What the namespace is where the text has none.
abbrev namespace_without : NameOption → String
namespace_without with_namespace_expected = ""
namespace_without with_cluster_scope = ""
namespace_without (with_default_namespace namespace) = namespace
namespace_without (with_must_namespace namespace) = namespace

-- The text spells the name: with its namespace, or without one and the option states it.
abbrev pub Spells : NameOption → String → NamespacedName → Type 0
Spells o s n =
    (s ≡ n.namespace <> ("/" <> n.name))
    ⊎ (((s ≡ n.name) ⊎ (s ≡ "/" <> n.name)) × (n.namespace ≡ namespace_without o))

-- An option keeps the name, and the namespace unless there is none.
apply_option-parts :
    (o : NameOption) (n m : NamespacedName)
    → apply_option o n ≡ ok m
    → (m.name ≡ n.name)
      × (((n.namespace ≢ "") × (m.namespace ≡ n.namespace))
          ⊎ ((n.namespace ≡ "") × (m.namespace ≡ namespace_without o)))
unfolding apply_option
apply_option-parts with_namespace_expected n m h = ground (arith, eq_iff n.namespace "")
apply_option-parts with_cluster_scope n m h = ground (arith, eq_iff n.namespace "")
apply_option-parts (with_default_namespace namespace) n m h = ground (arith, eq_iff n.namespace "")
apply_option-parts (with_must_namespace namespace) n m h = ground (arith, eq_iff n.namespace "")

slash-append : (t : String) → "/" <> t ≡ String.◌∷◌ "/" t
slash-append t = cons-append "/" "" t ∙ ap (λ u. String.◌∷◌ "/" u) (nil-append t)

of_parts-Spells :
    (o : NameOption) (ps : List String) (n m : NamespacedName)
    → of_parts ps ≡ ok n
    → apply_option o n ≡ ok m
    → Spells o (join "/" ps) m
unfolding join
of_parts-Spells o [] n m h a = cc
of_parts-Spells o (name ∷ []) n m h a =
    let parts : n ≡ record { namespace = ""; name = name } = sym (ok_injective h) in
    let (same, where_from) = apply_option-parts o n m a in
    inr (
      inl (ap (λ k. k.name) (sym parts) ∙ sym same),
      elim where_from [
        | inl (given, kept) ↦ elim (given (ap (λ k. k.namespace) parts)) [ ]
        | inr (none_given, filled) ↦ filled
      ],
    )
of_parts-Spells o (namespace ∷ name ∷ []) n m h a =
    let parts : n ≡ record { namespace = namespace; name = name } = sym (ok_injective h) in
    let (same, where_from) = apply_option-parts o n m a in
    elim where_from [
      | inl (given, kept) ↦ inl (
          ap (λ t. namespace <> t) (sym (slash-append name))
          ∙ ap (λ t. t <> ("/" <> name)) (sym (kept ∙ ap (λ k. k.namespace) parts))
          ∙ ap (λ t. m.namespace <> ("/" <> t)) (sym (same ∙ ap (λ k. k.name) parts)))
      | inr (none_given, filled) ↦ inr (
        inr (
            ap (λ t. t <> String.◌∷◌ "/" name) (sym (ap (λ k. k.namespace) parts) ∙ none_given)
            ∙ nil-append (String.◌∷◌ "/" name)
            ∙ sym (slash-append name)
            ∙ ap (λ t. "/" <> t) (sym (same ∙ ap (λ k. k.name) parts))),
        filled,
      )
    ]
of_parts-Spells o (p ∷ q ∷ r ∷ ps) n m h a = cc

-- A text that is parsed under an option spells the name that comes out, with its namespace or,
-- where the option states the namespace, without one; the name is not empty, and its namespace is
-- what the option promises.
pub parse_namespaced_name-Spells :
    (s : String) (o : NameOption) (n : NamespacedName)
    → parse_namespaced_name s (o ∷ []) ≡ ok n
    → Spells o s n × (n.name ≢ "") × Obeys o n
unfolding parse_namespaced_name
parse_namespaced_name-Spells s o n h =
    let (_, _, h1) = >>=-eq-ok (guard (not (s == "")) empty_name) _ h in
    let (parts, split_up, h2) = >>=-eq-ok (of_parts (split s "/")) _ h1 in
    let (dst, applied, h3) = >>=-eq-ok (apply_option o parts) _ h2 in
    let same : dst ≡ n = ground (arith, h3, eq_iff dst.name "") in
    (
      subst (λ t. Spells o t n) (join-split s "/")
          (subst (Spells o (join "/" (split s "/"))) same
            (of_parts-Spells o (split s "/") parts dst split_up applied)),
      (parse_namespaced_name-Obeys s o n h).0,
      (parse_namespaced_name-Obeys s o n h).1,
    )
