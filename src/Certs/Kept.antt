-- ===== src/Certs/Kept.antt =====
-- Which certificates removeUnusedCerts keeps.
use ingress_controller.Certs.{
  CertRef, CertTools, Certificate, DomainKey, DomainMap, certs_at, domain_key_eq, get_all_domains,
  get_certs_in_use, mark_all, numbers_in_use, parse_domain_key, remove_unused_certs, to_domain_map,
  wildcard,
}
use ingress_controller.Certs.Indexed.{covers, has_key-to_domain_map, lookup-to_domain_map}
use ingress_controller.Certs.Marks.{
  All-certs_at, any-certs_at, any-lookup, any_mono, any_of_contains, any_or, certs_at-covers_at,
  contains-mark_all, contains-numbers_in_use, covers_host, is_number, serves_at, target,
}
use ingress_controller.Externals.{route_id_eq}
use ingress_controller.Gateway.RefKey.{ref_key_eq}
use ingress_controller.Prelude.{
  >>=-eq-ok, All, Bool, Bool-eq_of_iff, List, Option, Option-cases, String, [], any, ap, arith,
  beq_refl, inl, inr, nat_beq_iff, nat_eq, ok, some, string_eq, sym, true, ℕ, ◌∙◌, ◌≡◌,
}
use ingress_controller.Prelude.Map.{has_key, lookup}
use ingress_controller.Prelude.Set.{contains, contains-nil}
use ingress_controller.Prelude.Sort.{All-sort, any-sort, str_lt}
use ingress_controller.Prelude.Text.{char_eq}
use ingress_controller.Types.{key_eq, namespaced_name_eq, secret_type_eq}
use mathlib.Core.Bool.{false≢true}
use mathlib.Core.Path.{subst}

module _ (x : CertTools) where
  target-serves_at :
      (certs : List Certificate) (dm : DomainMap) (d : String) {r : CertRef}
      → to_domain_map x certs 0 [] ≡ ok dm
      → target dm (parse_domain_key d) ≡ some r
      → serves_at x certs 0 r.number d ≡ true
  unfolding lookup
  target-serves_at certs dm d {r} h t =
      let k = parse_domain_key d in
      elim (Option-cases (lookup k dm)) [
        | inr (q, found) ↦
            elim (lookup-to_domain_map x k certs 0 [] dm {r = r} h (ground (arith, found, t))) [
              | inl (at, above) ↦ ground (arith, at)
              | inr stored ↦ cc
            ]
        | inl absent ↦
            elim (lookup-to_domain_map x (wildcard k) certs 0 [] dm {r = r} h
              (ground (arith, absent, t))) [
                | inl (at, above) ↦ ground (arith, at)
                | inr stored ↦ cc
              ]
      ]

  -- A host that some certificate covers leads to a reference.
  target-covered :
      (certs : List Certificate) (dm : DomainMap) (d : String)
      → to_domain_map x certs 0 [] ≡ ok dm
      → any (covers_host x d) certs ≡ true
      → (r : CertRef) × (target dm (parse_domain_key d) ≡ some r)
  unfolding covers_host has_key
  target-covered certs dm d h a =
      let k = parse_domain_key d in
      let split = any_or (covers x k) (covers x (wildcard k)) certs in
      elim (Option-cases (lookup k dm)) [
        | inr (q, found) ↦ (q, ground (arith, found))
        | inl absent ↦ elim (Option-cases (lookup (wildcard k) dm)) [
          | inr (q, found) ↦ (q, ground (arith, absent, found))
          | inl absent' ↦
              elim (false≢true (
                ground (
                  arith,
                  a,
                  split,
                  absent,
                  absent',
                  has_key-to_domain_map x k certs 0 [] dm h,
                  has_key-to_domain_map x (wildcard k) certs 0 [] dm h,
                ))) [ ]
        ]
      ]

  -- The certificate of a reference that is in use is kept.
  lookup-kept :
      (certs : List Certificate) (dm : DomainMap) (used : List ℕ) (k : DomainKey) {r : CertRef}
      → to_domain_map x certs 0 [] ≡ ok dm
      → lookup k dm ≡ some r
      → contains r.number used ≡ true
      → any (covers x k) (get_certs_in_use certs dm used) ≡ true
  unfolding get_certs_in_use lookup
  lookup-kept certs dm used k {r} h found m =
      elim (lookup-to_domain_map x k certs 0 [] dm {r = r} h found) [
        | inl (at, above) ↦
            let numbers = numbers_in_use dm used in
            any-sort (λ a b. str_lt a.cert_bytes b.cert_bytes) (covers x k)
              (certs_at numbers 0 certs)
            ∙ certs_at-covers_at x k r.number numbers 0 certs at (
                ground
                  (arith, contains-numbers_in_use r.number dm used, any-lookup k dm {r = r} found))
        | inr stored ↦ cc
      ]

  -- A host that a certificate covers is covered by one that is kept.
  target-kept :
      (certs : List Certificate) (dm : DomainMap) (used : List ℕ) (d : String) (r : CertRef)
      → to_domain_map x certs 0 [] ≡ ok dm
      → target dm (parse_domain_key d) ≡ some r
      → contains r.number used ≡ true
      → any (covers_host x d) (get_certs_in_use certs dm used) ≡ true
  unfolding covers_host
  target-kept certs dm used d r h t m =
      let k = parse_domain_key d in
      let kept = get_certs_in_use certs dm used in
      let split = any_or (covers x k) (covers x (wildcard k)) kept in
      elim (Option-cases (lookup k dm)) [
        | inr (q, found) ↦
            ground (arith, split, lookup-kept certs dm used k {r = r} h (ground (arith, found, t)))
        | inl absent ↦ ground (
          arith,
          split,
          lookup-kept certs dm used (wildcard k) {r = r} h (ground (arith, absent, t)),
        )
      ]

  -- With nothing in use before, each number in use is that of a certificate that serves a host.
  marked-serves_at :
      (certs : List Certificate) (dm : DomainMap) (ds : List String) (n : ℕ)
      → to_domain_map x certs 0 [] ≡ ok dm
      → contains n (numbers_in_use dm (mark_all dm ds [])) ≡ true
      → any (serves_at x certs 0 n) ds ≡ true
  marked-serves_at certs dm ds n h m =
      any_mono (λ d. is_number n (target dm (parse_domain_key d))) (serves_at x certs 0 n)
        (λ d q. elim (Option-cases (target dm (parse_domain_key d))) [
          | inl absent ↦ elim (false≢true (ground (arith, absent, q))) [ ]
          | inr (r, found) ↦
              ground (
                arith,
                target-serves_at certs dm d {r = r} h found,
                found,
                q,
                nat_beq_iff r.number n,
              )
        ])
        ds
        (ground (
          arith,
          contains-numbers_in_use n dm (mark_all dm ds []),
          contains-mark_all n dm ds [],
          contains-nil n,
        ))

  get_certs_in_use-All :
      (certs : List Certificate) (dm : DomainMap) (ds : List String)
      → to_domain_map x certs 0 [] ≡ ok dm
      → All
          (λ c. any (λ d. covers_host x d c) ds ≡ true)
          (get_certs_in_use certs dm (mark_all dm ds []))
  unfolding get_certs_in_use
  get_certs_in_use-All certs dm ds h =
      let numbers = numbers_in_use dm (mark_all dm ds []) in
      All-sort (λ a b. str_lt a.cert_bytes b.cert_bytes)
        (λ c. any (λ d. covers_host x d c) ds ≡ true) (certs_at numbers 0 certs)
        (All-certs_at x ds numbers 0 certs (λ n above m. marked-serves_at certs dm ds n h m))

  -- A list of certificates from which the kept ones are selected covers all that they cover.
  any-get_certs_in_use :
      (p : Certificate → Bool) (certs : List Certificate) (dm : DomainMap) (used : List ℕ)
      → any p (get_certs_in_use certs dm used) ≡ true
      → any p certs ≡ true
  unfolding get_certs_in_use
  any-get_certs_in_use p certs dm used h =
      let numbers = numbers_in_use dm used in
      any-certs_at p numbers 0 certs
        (sym (any-sort (λ a b. str_lt a.cert_bytes b.cert_bytes) p (certs_at numbers 0 certs)) ∙ h)

  -- What removeUnusedCerts returns, where it succeeds.
  remove_unused_certs_eq :
      (froms : List String) (url : Option String) (certs kept : List Certificate)
      (hosts : List String)
      → get_all_domains x froms url ≡ ok hosts
      → remove_unused_certs x froms url certs ≡ ok kept
      → (dm : DomainMap) × (to_domain_map x certs 0 [] ≡ ok dm)
        × (kept ≡ get_certs_in_use certs dm (mark_all dm hosts []))
  unfolding remove_unused_certs
  remove_unused_certs_eq froms url certs kept hosts hh h =
      let (dm, indexed, rest) = >>=-eq-ok (to_domain_map x certs 0 []) _ h in (dm, indexed, cc)

  -- Where removeUnusedCerts succeeds, a host of the routes or of the authenticate service that some
  -- certificate covers, by its name or by a wildcard, is covered by a certificate that is kept, and
  -- none is covered that was not before.
  pub remove_unused_certs-any :
      (froms : List String) (authenticate_url : Option String) (certs kept : List Certificate)
      (hosts : List String) (d : String)
      → get_all_domains x froms authenticate_url ≡ ok hosts
      → contains d hosts ≡ true
      → remove_unused_certs x froms authenticate_url certs ≡ ok kept
      → any (covers_host x d) kept ≡ any (covers_host x d) certs
  remove_unused_certs-any froms url certs kept hosts d hh m h =
      let (dm, indexed, result) = remove_unused_certs_eq froms url certs kept hosts hh h in
      let used = mark_all dm hosts [] in
      Bool-eq_of_iff (any (covers_host x d) kept) (any (covers_host x d) certs)
        (λ a.
          any-get_certs_in_use (covers_host x d) certs dm used
            (sym (ap (any (covers_host x d)) result) ∙ a))
        (λ a.
          let (r, found) = target-covered certs dm d indexed a in
          ap (any (covers_host x d)) result
          ∙ target-kept certs dm used d r indexed found (
              ground (
                arith,
                contains-mark_all r.number dm hosts [],
                any_of_contains (λ e. is_number r.number (target dm (parse_domain_key e))) d hosts m
                    (ap (is_number r.number) found ∙ beq_refl r.number),
              )))

  -- Where removeUnusedCerts succeeds, every certificate that is kept covers a host of the routes or
  -- of the authenticate service.
  pub remove_unused_certs-All :
      (froms : List String) (authenticate_url : Option String) (certs kept : List Certificate)
      (hosts : List String)
      → get_all_domains x froms authenticate_url ≡ ok hosts
      → remove_unused_certs x froms authenticate_url certs ≡ ok kept
      → All (λ c. any (λ d. covers_host x d c) hosts ≡ true) kept
  remove_unused_certs-All froms url certs kept hosts hh h =
      let (dm, indexed, result) = remove_unused_certs_eq froms url certs kept hosts hh h in
      subst (All (λ c. any (λ d. covers_host x d c) hosts ≡ true)) (sym result)
        (get_certs_in_use-All certs dm hosts indexed)

  pub remove_unused_certs-hosts :
      (froms : List String) (authenticate_url : Option String) (certs kept : List Certificate)
      → remove_unused_certs x froms authenticate_url certs ≡ ok kept
      → (hosts : List String) × (get_all_domains x froms authenticate_url ≡ ok hosts)
  unfolding remove_unused_certs
  remove_unused_certs-hosts froms url certs kept h =
      let (dm, indexed, rest) = >>=-eq-ok (to_domain_map x certs 0 []) _ h in
      let (hosts, found, last) = >>=-eq-ok (get_all_domains x froms url) _ rest in (hosts, found)
