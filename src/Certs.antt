-- ===== src/Certs.antt =====
-- pomerium/certs.go and pomerium/cert_map.go: the certificates of a configuration, and which of
-- them its hosts use. Go points to one certRef from several names; here a reference has the number
-- of its certificate, and what is in use is a set of numbers.
pub mod Indexed
pub mod Marks
pub mod Kept
use ingress_controller.Externals.{route_id_eq}
use ingress_controller.Gateway.RefKey.{ref_key_eq}
use ingress_controller.Prelude.{
  Bool, Eq, List, Option, Result, String, [], arith, err, if◌then◌else◌, ltb, nat_eq, none, ok,
  some, string_eq, suc, true, ℕ, ◌&&◌, ◌==◌, ◌>>=◌, ◌>>◌, ◌↔◌, ◌∷◌, ◌≡◌,
}
use ingress_controller.Prelude.Map.{Map, insert, lookup}
use ingress_controller.Prelude.Set.{add, contains}
use ingress_controller.Prelude.Sort.{sort, str_lt}
use ingress_controller.Prelude.Text.{char_eq, cut}
use ingress_controller.Types.{key_eq, namespaced_name_eq, secret_type_eq}
use text.Mathlib.TextEquality.{eq_iff}

-- pb.Settings_Certificate
pub record Certificate : Type 0 where
  pub id : String
  pub cert_bytes : String
  pub key_bytes : String

-- x509.Certificate, with the fields that the code reads
pub record X509 : Type 0 where
  pub dns_names : List String
  pub not_after : ℕ

-- The libraries that decode PEM and X.509 and parse URLs.
pub record CertTools : Type 0 where
  -- pem.Decode: the type and the bytes of the first block
  pub pem_decode : String → Option (String × String)
  -- x509.ParseCertificate
  pub parse_x509 : String → Option X509
  -- url.Parse and Hostname
  pub hostname : String → Option String

pub data CertError : Type 0 where
  no_block bad_certificate : CertError
  other_block bad_from bad_authenticate_url : String → CertError

pub record DomainKey : Type 0 where
  pub host : String
  pub domain : String

abbrev domain_key_beq : DomainKey → DomainKey → Bool
domain_key_beq a b = a.host == b.host && a.domain == b.domain

pub domain_key_beq_iff : (a b : DomainKey) → (domain_key_beq a b ≡ true) ↔ (a ≡ b)
domain_key_beq_iff a b = ground (arith, eq_iff a.host b.host, eq_iff a.domain b.domain)

instance abbrev pub domain_key_eq : Eq DomainKey
domain_key_eq = record { beq = domain_key_beq; beq_iff = domain_key_beq_iff }

-- parseDomainKey: strings.SplitN at the first dot
unfoldable pub parse_domain_key : String → DomainKey
parse_domain_key dns_name = elim (cut dns_name ".") [
  | none ↦ record { host = dns_name; domain = "" }
  | some (host, domain) ↦ record { host = host; domain = domain }
]

-- The key of the wildcard that covers a name
abbrev pub wildcard : DomainKey → DomainKey
wildcard k = record { host = "*"; domain = k.domain }

-- certRef
pub record CertRef : Type 0 where
  pub number : ℕ
  pub not_after : ℕ

abbrev pub DomainMap : Type 0
DomainMap = Map DomainKey CertRef

-- domainMap.addIfNewer
unfoldable pub add_if_newer : DomainKey → CertRef → DomainMap → DomainMap
add_if_newer key ref dm = elim (lookup key dm) [
  | none ↦ insert key ref dm
  | some cur ↦ if ltb cur.not_after ref.not_after then insert key ref dm else dm
]

-- domainMap.add
unfoldable pub add_names : CertRef → List String → DomainMap → DomainMap
unfolding add_if_newer parse_domain_key
add_names ref [] dm = dm
add_names ref (name ∷ names) dm = add_names ref names (add_if_newer (parse_domain_key name) ref dm)

-- domainMap.markInUse, given the key of the name
unfoldable pub mark_in_use : DomainMap → DomainKey → List ℕ → List ℕ
mark_in_use dm key used = elim (lookup key dm) [
  | some ref ↦ add ref.number used
  | none ↦ elim (lookup (wildcard key) dm) [ some ref ↦ add ref.number used | none ↦ used ]
]

-- The loop of removeUnusedCerts over the domains
unfoldable pub mark_all : DomainMap → List String → List ℕ → List ℕ
unfolding mark_in_use
mark_all dm [] used = used
mark_all dm (d ∷ ds) used = mark_all dm ds (mark_in_use dm (parse_domain_key d) used)

-- The certificates whose numbers are in a set
unfoldable pub certs_at : List ℕ → ℕ → List Certificate → List Certificate
certs_at numbers i [] = []
certs_at numbers i (c ∷ cs) =
    let rest = certs_at numbers (suc i) cs in if contains i numbers then c ∷ rest else rest

-- The set of getCertsInUse: the numbers of the references that are in use
unfoldable pub numbers_in_use : DomainMap → List ℕ → List ℕ
numbers_in_use [] used = []
numbers_in_use ((k, ref) ∷ dm) used =
    let rest = numbers_in_use dm used in
    if contains ref.number used then add ref.number rest else rest

-- domainMap.getCertsInUse
unfoldable pub get_certs_in_use : List Certificate → DomainMap → List ℕ → List Certificate
unfolding certs_at numbers_in_use
get_certs_in_use certs dm used =
    sort (λ a b. str_lt a.cert_bytes b.cert_bytes) (certs_at (numbers_in_use dm used) 0 certs)

module _ (x : CertTools) where
  -- parseCert
  unfoldable pub parse_cert : Certificate → Result CertError X509
  parse_cert cert = elim (x.pem_decode cert.cert_bytes) [
    | none ↦ err no_block
    | some (block_type, bytes) ↦
        if block_type == "CERTIFICATE"
        then elim (x.parse_x509 bytes) [ none ↦ err bad_certificate | some crt ↦ ok crt ]
        else err (other_block block_type)
  ]

  -- toDomainMap
  unfoldable pub to_domain_map : List Certificate → ℕ → DomainMap → Result CertError DomainMap
  unfolding parse_cert add_names
  to_domain_map [] i dm = ok dm
  to_domain_map (cert ∷ certs) i dm = do
    crt ← parse_cert cert
    to_domain_map certs (suc i)
        (add_names (record { number = i; not_after = crt.not_after }) crt.dns_names dm)

  abbrev pub host_of : (String → CertError) → String → Result CertError String
  host_of e u = elim (x.hostname u) [ none ↦ err (e u) | some h ↦ ok h ]

  -- The loop of getAllDomains over the routes
  unfoldable pub route_domains : List String → Result CertError (List String)
  route_domains [] = ok []
  route_domains (from ∷ froms) = do
    h ← host_of bad_from from
    hs ← route_domains froms
    ok (add h hs)

  abbrev pub authenticate_domain : Option String → List String → Result CertError (List String)
  authenticate_domain none hs = ok hs
  authenticate_domain (some u) hs = do h ← host_of bad_authenticate_url u; ok (add h hs)

  -- getAllDomains, on the addresses of the routes and the URL of the authenticate service
  unfoldable pub get_all_domains : List String → Option String → Result CertError (List String)
  unfolding route_domains
  get_all_domains froms authenticate_url = do
    hs ← route_domains froms
    authenticate_domain authenticate_url hs

  -- removeUnusedCerts, where the configuration has settings
  unfoldable pub remove_unused_certs :
      List String → Option String → List Certificate → Result CertError (List Certificate)
  unfolding to_domain_map get_all_domains mark_all get_certs_in_use
  remove_unused_certs froms authenticate_url certs = do
    dm ← to_domain_map certs 0 []
    domains ← get_all_domains froms authenticate_url
    ok (get_certs_in_use certs dm (mark_all dm domains []))
