-- ===== src/Certs/Indexed.antt =====
-- What the index of certificates by name holds.
use ingress_controller.Certs.{
  CertError, CertRef, CertTools, Certificate, DomainKey, DomainMap, X509, add_if_newer, add_names,
  domain_key_beq_iff, domain_key_eq, parse_cert, parse_domain_key, to_domain_map,
}
use ingress_controller.Externals.{route_id_eq}
use ingress_controller.Gateway.RefKey.{ref_key_eq}
use ingress_controller.Prelude.{
  >>=-eq-ok, Bool, List, Result, String, [], any, ap, arith, err, false, inl, inr, nat_eq, ok,
  ok_injective, refl, some, string_eq, suc, sym, true, ℕ, ◌&&◌, ◌==◌, ◌||◌, ◌∷◌, ◌≡◌, ◌≤◌, ◌⊎◌,
}
use ingress_controller.Prelude.Map.{has_key, lookup, lookup-insert}
use ingress_controller.Prelude.Text.{char_eq}
use ingress_controller.Types.{key_eq, namespaced_name_eq, secret_type_eq}
use mathlib.Core.Path.{subst}

abbrev names_or_none : Result CertError X509 → List String
names_or_none (ok crt) = crt.dns_names
names_or_none (err e) = []

-- One of the names of a certificate has the key.
unfoldable pub covers : CertTools → DomainKey → Certificate → Bool
covers x k c = any (λ n. parse_domain_key n == k) (names_or_none (parse_cert x c))

-- The certificate of that number, counted from `i`, covers the key.
unfoldable pub covers_at : CertTools → List Certificate → ℕ → DomainKey → ℕ → Bool
covers_at x [] i k n = false
covers_at x (c ∷ cs) i k n = i == n && covers x k c || covers_at x cs (suc i) k n

has_key-add_if_newer :
    (j k : DomainKey) (ref : CertRef) (dm : DomainMap)
    → has_key j (add_if_newer k ref dm) ≡ (k == j || has_key j dm)
unfolding add_if_newer has_key
has_key-add_if_newer j k ref dm = ground (arith, lookup-insert k j ref dm, domain_key_beq_iff k j)

lookup-add_if_newer :
    (j k : DomainKey) (ref : CertRef) (dm : DomainMap) {r : CertRef}
    → lookup j (add_if_newer k ref dm) ≡ some r
    → ((r ≡ ref) × (k == j ≡ true)) ⊎ (lookup j dm ≡ some r)
unfolding add_if_newer
lookup-add_if_newer j k ref dm h = ground (arith, lookup-insert k j ref dm)

has_key-add_names :
    (j : DomainKey) (ref : CertRef) (names : List String) (dm : DomainMap)
    → has_key j (add_names ref names dm)
      ≡ (any (λ n. parse_domain_key n == j) names || has_key j dm)
unfolding add_names
has_key-add_names j ref [] dm = refl
has_key-add_names j ref (n ∷ names) dm = ground (
  arith,
  has_key-add_names j ref names (add_if_newer (parse_domain_key n) ref dm),
  has_key-add_if_newer j (parse_domain_key n) ref dm,
)

lookup-add_names :
    (j : DomainKey) (ref : CertRef) (names : List String) (dm : DomainMap) {r : CertRef}
    → lookup j (add_names ref names dm) ≡ some r
    → ((r ≡ ref) × (any (λ n. parse_domain_key n == j) names ≡ true)) ⊎ (lookup j dm ≡ some r)
unfolding add_names
lookup-add_names j ref [] dm h = inr h
lookup-add_names j ref (n ∷ names) dm {r} h =
    elim (lookup-add_names j ref names (add_if_newer (parse_domain_key n) ref dm) {r = r} h) [
      | inl new ↦ inl (new.0, ground (arith, new.1))
      | inr old ↦ elim (lookup-add_if_newer j (parse_domain_key n) ref dm {r = r} old) [
        | inl here ↦ inl (here.0, ground (arith, here.1))
        | inr before ↦ inr before
      ]
    ]

-- The index has a key exactly if a certificate covers it.
pub has_key-to_domain_map :
    (x : CertTools) (j : DomainKey) (certs : List Certificate) (i : ℕ) (dm dm' : DomainMap)
    → to_domain_map x certs i dm ≡ ok dm'
    → has_key j dm' ≡ (any (covers x j) certs || has_key j dm)
unfolding to_domain_map covers
has_key-to_domain_map x j [] i dm dm' h = ap (has_key j) (sym (ok_injective h))
has_key-to_domain_map x j (c ∷ certs) i dm dm' h =
    let (crt, parsed, rest) = >>=-eq-ok (parse_cert x c) _ h in
    let ref : CertRef = record { number = i; not_after = crt.not_after } in
    ground (
      arith,
      parsed,
      has_key-add_names j ref crt.dns_names dm,
      has_key-to_domain_map x j certs (suc i) (add_names ref crt.dns_names dm) dm' rest,
    )

-- What stands under a key has the number of a certificate that covers it.
pub lookup-to_domain_map :
    (x : CertTools) (j : DomainKey) (certs : List Certificate) (i : ℕ) (dm dm' : DomainMap)
    {r : CertRef}
    → to_domain_map x certs i dm ≡ ok dm'
    → lookup j dm' ≡ some r
    → ((covers_at x certs i j r.number ≡ true) × (i ≤ r.number)) ⊎ (lookup j dm ≡ some r)
unfolding to_domain_map covers_at covers
lookup-to_domain_map x j [] i dm dm' {r} h l =
    inr (subst (λ m. lookup j m ≡ some r) (sym (ok_injective h)) l)
lookup-to_domain_map x j (c ∷ certs) i dm dm' {r} h l =
    let (crt, parsed, rest) = >>=-eq-ok (parse_cert x c) _ h in
    let ref : CertRef = record { number = i; not_after = crt.not_after } in
    elim (lookup-to_domain_map x j certs (suc i) (add_names ref crt.dns_names dm) dm' {r = r} rest
      l) [
        | inl (later, above) ↦ inl (ground (arith, later), omega (arith, above))
        | inr old ↦ elim (lookup-add_names j ref crt.dns_names dm {r = r} old) [
          | inl (new, named) ↦ inl (ground (arith, new, named, parsed), ground (arith, new))
          | inr before ↦ inr before
        ]
      ]
