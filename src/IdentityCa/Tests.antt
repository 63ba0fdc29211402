-- ===== src/IdentityCa/Tests.antt =====
-- Runs of the certificate authority.
use swarm_intelligence_netwo.Prelude.{
  ◌+◌, ◌≡◌, refl, false, ◌&&◌, some, [], ◌∷◌, arith, leb, string_eq, nat_eq, pair_eq, contains,
  lookup, put,
}
use swarm_intelligence_netwo.IdentityCa.{
  CertificateSigningRequest, IdentityCaService, year, certificate, issue_certificate,
  revoke_certificate, verify_certificate, node, new,
}
use swarm_intelligence_netwo.IdentityCa.Validity.{
  revoked_for_good, valid_for_a_year, calls, issues, revokes,
}

abbrev csr : CertificateSigningRequest
csr = record { subject = "n1"; public_key = 7 ∷ []; cert_type = node }

abbrev issued : IdentityCaService
issued = (issue_certificate "c1" (some 1000) csr new).0

found : lookup "c1" issued.certificates ≡ some (certificate "c1" 1000 csr)
unfolding issue_certificate new lookup put
found = refl

unlisted : contains new.crl "c1" ≡ false
unfolding new contains
unlisted = refl

revoked_for_good_example :
    verify_certificate "c1"
      (some 2000)
      (calls (issues "c1" (some 1500) csr ∷ revokes "c2" ∷ []) (revoke_certificate "c1" issued))
    ≡ some false
revoked_for_good_example =
    revoked_for_good "c1" issued (certificate "c1" 1000 csr)
      (issues "c1" (some 1500) csr ∷ revokes "c2" ∷ []) (some 2000) found

valid_for_a_year_example :
    verify_certificate "c1" (some 2000) (
      calls
        (issues "c2" (some 1500) csr ∷ revokes "c2" ∷ [])
        (issue_certificate "c1" (some 1000) csr new).0)
    ≡ some (leb 1000 2000 && leb 2000 (1000 + year))
valid_for_a_year_example =
    valid_for_a_year "c1" 1000 2000 csr new (issues "c2" (some 1500) csr ∷ revokes "c2" ∷ [])
      unlisted refl (omega arith)
