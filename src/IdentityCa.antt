-- ===== src/IdentityCa.antt =====
-- services/identity-ca/src/main.rs: the certificate authority. The id, `cert-` before a new UUID, and the
-- seconds that the clock gives, `none` where it stands before 1970, are arguments. The bodies under
-- the locks run one at a time.
pub mod Validity
pub mod Pqc
mod Tests
use swarm_intelligence_netwo.Prelude.{
  Distinct-snoc, all_recent, recent, length-recent, recent-recent, recent-append, make_room-push,
  push-make_room, ℕ, zero, suc, ◌+◌, ◌-◌, ◌*◌, ◌/◌, ◌%◌, ◌^◌, ◌≤◌, ◌<◌, min, max, String, ◌≡◌, refl,
  sym, ap, ◌∙◌, ◌≢◌, ◌↔◌, ◌⊎◌, inl, inr, Bool, true, false, not, ◌&&◌, ◌||◌, Option, none, some,
  List, [], ◌∷◌, ◌++◌, map, arith, ltb, leb, nat_beq, if◌then◌else◌, nat_beq_iff, Eq, ◌==◌,
  string_eq, nat_eq, pair_beq, pair_beq_iff, pair_eq, Bool-cases, Option-cases, is_some, u64, u32,
  u8, u64_id, contains, insert, Distinct, Subset, equal_refl, contains-insert, contains-insert_self,
  length-insert, Distinct-insert, insert_of_contains, contains-append, contains-retain,
  Distinct-retain, length_mono-Subset, length-overlap, length, get_elem?, take, drop, replicate,
  retain, All, length-append, length-drop, length-take, take-append-drop, length-retain-le,
  All-append, length-map, Map, lookup, remove, put, lookup-remove, lookup-put,
}

pub data CertificateType : Type 0 where
  node : CertificateType
  service : CertificateType
  user : CertificateType

pub record Certificate : Type 0 where
  pub id : String
  pub subject : String
  pub public_key : List ℕ
  pub not_before : ℕ
  pub not_after : ℕ
  pub signature : List ℕ
  pub cert_type : CertificateType

pub record CertificateSigningRequest : Type 0 where
  pub subject : String
  pub public_key : List ℕ
  pub cert_type : CertificateType

pub record IdentityCaService : Type 0 where
  pub certificates : Map String Certificate
  pub crl : List String
  pub ca_keypair : Option (List ℕ)

unfoldable pub new : IdentityCaService
new = record { certificates = []; crl = []; ca_keypair = none }

abbrev pub year : ℕ
year = 365 * 24 * 60 * 60

abbrev pub certificate : String → ℕ → CertificateSigningRequest → Certificate
certificate cert_id now csr = record {
  id = cert_id;
  subject = csr.subject;
  public_key = csr.public_key;
  not_before = now;
  not_after = u64 (now + year);
  signature = replicate 64 0;
  cert_type = csr.cert_type;
}

-- No certificate is the error that the clock gives.
unfoldable pub issue_certificate :
    String
    → Option ℕ
    → CertificateSigningRequest
    → IdentityCaService
    → IdentityCaService × Option Certificate
issue_certificate cert_id none csr s = (s, none)
issue_certificate cert_id (some now) csr s =
    let cert = certificate cert_id now csr in
    (record s { certificates = put cert_id cert s.certificates }, some cert)

unfoldable pub revoke_certificate : String → IdentityCaService → IdentityCaService
revoke_certificate cert_id s =
    if is_some (lookup cert_id s.certificates)
    then record s { certificates = remove cert_id s.certificates; crl = s.crl ++ cert_id ∷ [] }
    else s

abbrev pub in_period : Option ℕ → Certificate → Option Bool
in_period none cert = none
in_period (some now) cert = some (leb cert.not_before now && leb now cert.not_after)

-- The clock is read only for a certificate that is found.
unfoldable pub verify_certificate : String → Option ℕ → IdentityCaService → Option Bool
verify_certificate cert_id now s =
    if contains s.crl cert_id
    then some false
    else elim (lookup cert_id s.certificates) [ none ↦ some false | some cert ↦ in_period now cert ]

unfoldable pub get_crl : IdentityCaService → List String
get_crl s = s.crl
