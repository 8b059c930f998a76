-- ===== src/Certs/Marks.antt =====
-- The set of the references in use, and the certificates that a set of numbers selects.
use ingress_controller.Certs.{
  CertRef, CertTools, Certificate, DomainKey, DomainMap, certs_at, domain_key_eq, mark_all,
  mark_in_use, numbers_in_use, parse_domain_key, wildcard,
}
use ingress_controller.Certs.Indexed.{covers, covers_at}
use ingress_controller.Externals.{route_id_eq}
use ingress_controller.Gateway.RefKey.{ref_key_eq}
use ingress_controller.Prelude.{
  All, Bool, List, Option, Option-cases, String, [], any, ap, arith, beq_refl, false, first_of,
  if-elim, inl, inr, nat_beq_iff, nat_eq, none, refl, some, string_eq, suc, true, ℕ, ◌&&◌, ◌<◌,
  ◌==◌, ◌||◌, ◌∷◌, ◌≡◌, ◌≤◌,
}
use ingress_controller.Prelude.Map.{lookup}
use ingress_controller.Prelude.Set.{contains, contains-add, contains-nil}
use ingress_controller.Prelude.Text.{char_eq}
use ingress_controller.Types.{key_eq, namespaced_name_eq, secret_type_eq}
use text.Mathlib.TextEquality.{eq_iff}

-- One of the names of a certificate is the name of a host, or the wildcard above it.
unfoldable pub covers_host : CertTools → String → Certificate → Bool
unfolding covers
covers_host x d c = covers x (parse_domain_key d) c || covers x (wildcard (parse_domain_key d)) c

-- The reference that the name of a host leads to.
abbrev pub target : DomainMap → DomainKey → Option CertRef
target dm k = first_of (lookup k dm) (lookup (wildcard k) dm)

abbrev pub is_number : ℕ → Option CertRef → Bool
is_number n none = false
is_number n (some r) = r.number == n

pub any_mono :
    {A : Type 0} (p q : A → Bool)
    → ((a : A) → p a ≡ true → q a ≡ true)
    → (xs : List A) → any p xs ≡ true
    → any q xs ≡ true
any_mono p q h [] a = a
any_mono p q h (x ∷ xs) a = ground (arith, h x, any_mono p q h xs)

pub any_of_contains :
    (p : String → Bool) (d : String) (ds : List String)
    → contains d ds ≡ true
    → p d ≡ true
    → any p ds ≡ true
unfolding contains
any_of_contains p d [] m h = m
any_of_contains p d (e ∷ ds) m h = ground (arith, any_of_contains p d ds, ap p, eq_iff e d)

pub any_or :
    {A : Type 0} (p q : A → Bool) (xs : List A) → any (λ a. p a || q a) xs ≡ (any p xs || any q xs)
any_or p q [] = refl
any_or p q (x ∷ xs) = ground (arith, any_or p q xs)

contains-mark_in_use :
    (n : ℕ) (dm : DomainMap) (k : DomainKey) (used : List ℕ)
    → contains n (mark_in_use dm k used) ≡ (is_number n (target dm k) || contains n used)
unfolding mark_in_use
contains-mark_in_use n dm k used = elim (Option-cases (lookup k dm)) [
  | inr (r, found) ↦ ground (arith, found, contains-add r.number n used)
  | inl absent ↦ elim (Option-cases (lookup (wildcard k) dm)) [
    | inr (r, found) ↦ ground (arith, absent, found, contains-add r.number n used)
    | inl neither ↦ ground (arith, absent, neither)
  ]
]

pub contains-mark_all :
    (n : ℕ) (dm : DomainMap) (ds : List String) (used : List ℕ)
    → contains n (mark_all dm ds used)
      ≡ (any (λ d. is_number n (target dm (parse_domain_key d))) ds || contains n used)
unfolding mark_all
contains-mark_all n dm [] used = refl
contains-mark_all n dm (d ∷ ds) used = ground (
  arith,
  contains-mark_all n dm ds (mark_in_use dm (parse_domain_key d) used),
  contains-mark_in_use n dm (parse_domain_key d) used,
)

pub contains-numbers_in_use :
    (n : ℕ) (dm : DomainMap) (used : List ℕ)
    → contains n (numbers_in_use dm used) ≡ (contains n used && any (λ (_, r). r.number == n) dm)
unfolding numbers_in_use
contains-numbers_in_use n [] used = ground (arith, contains-nil n)
contains-numbers_in_use n ((k, r) ∷ dm) used = ground (
  arith,
  contains-numbers_in_use n dm used,
  contains-add r.number n (numbers_in_use dm used),
  nat_beq_iff r.number n,
)

pub any-lookup :
    (k : DomainKey) (dm : DomainMap) {r : CertRef}
    → lookup k dm ≡ some r
    → any (λ (_, q). q.number == r.number) dm ≡ true
unfolding lookup
any-lookup k [] h = cc
any-lookup k ((j, q) ∷ dm) {r} h = ground (arith, any-lookup k dm {r = r}, beq_refl r.number)

pub any-certs_at :
    (p : Certificate → Bool) (ns : List ℕ) (i : ℕ) (cs : List Certificate)
    → any p (certs_at ns i cs) ≡ true
    → any p cs ≡ true
unfolding certs_at
any-certs_at p ns i [] h = h
any-certs_at p ns i (c ∷ cs) h = ground (arith, any-certs_at p ns (suc i) cs)

-- A certificate whose number is in the set stays.
pub certs_at-covers_at :
    (x : CertTools) (k : DomainKey) (n : ℕ) (ns : List ℕ) (i : ℕ) (cs : List Certificate)
    → covers_at x cs i k n ≡ true
    → contains n ns ≡ true
    → any (covers x k) (certs_at ns i cs) ≡ true
unfolding certs_at covers_at
certs_at-covers_at x k n ns i [] h m = h
certs_at-covers_at x k n ns i (c ∷ cs) h m = ground (arith, certs_at-covers_at x k n ns (suc i) cs)

covers_at-below :
    (x : CertTools) (k : DomainKey) (n i : ℕ) (cs : List Certificate)
    → n < i
    → covers_at x cs i k n ≡ false
unfolding covers_at
covers_at-below x k n i [] h = refl
covers_at-below x k n i (c ∷ cs) h = ground (arith, covers_at-below x k n (suc i) cs)

abbrev pub serves_at : CertTools → List Certificate → ℕ → ℕ → String → Bool
serves_at x cs i n d =
    covers_at x cs i (parse_domain_key d) n || covers_at x cs i (wildcard (parse_domain_key d)) n

-- Where each number of the set is that of a certificate that serves one of the hosts.
pub All-certs_at :
    (x : CertTools) (ds : List String) (ns : List ℕ) (i : ℕ) (cs : List Certificate)
    → ((n : ℕ) → i ≤ n → contains n ns ≡ true → any (serves_at x cs i n) ds ≡ true)
    → All (λ c. any (λ d. covers_host x d c) ds ≡ true) (certs_at ns i cs)
unfolding certs_at covers_at covers_host
All-certs_at x ds ns i [] h = tt
All-certs_at x ds ns i (c ∷ cs) h =
    let rest = All-certs_at x ds ns (suc i) cs (λ n above m.
      any_mono (serves_at x (c ∷ cs) i n) (serves_at x cs (suc i) n) (λ d q. ground arith) ds
        (h n (omega arith) m)) in
    if-elim (All (λ c. any (λ d. covers_host x d c) ds ≡ true)) (contains i ns)
      (λ m. (
        any_mono (serves_at x (c ∷ cs) i i) (λ d. covers_host x d c)
            (λ d q. ground (
              arith,
              covers_at-below x (parse_domain_key d) i (suc i) cs,
              covers_at-below x (wildcard (parse_domain_key d)) i (suc i) cs,
            ))
            ds (h i (omega arith) m),
        rest,
      ))
      (λ m. rest)
