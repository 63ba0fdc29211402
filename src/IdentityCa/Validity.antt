-- ===== src/IdentityCa/Validity.antt =====
-- services/identity-ca/src/main.rs: when a certificate is valid.
use swarm_intelligence_netwo.Prelude.{
  ℕ, ◌+◌, ◌^◌, ◌<◌, String, ◌≡◌, refl, ◌∙◌, Bool, true, false, ◌&&◌, ◌||◌, Option, none, some, List,
  [], ◌∷◌, arith, leb, ◌==◌, string_eq, nat_eq, pair_eq, u64_id, contains, equal_refl,
  contains-append, lookup, lookup-remove, lookup-put,
}
use swarm_intelligence_netwo.IdentityCa.{
  Certificate, CertificateSigningRequest, IdentityCaService, year, certificate, issue_certificate,
  revoke_certificate, verify_certificate,
}

-- The calls that change the service.
pub data Call : Type 0 where
  issues : String → Option ℕ → CertificateSigningRequest → Call
  revokes : String → Call

unfoldable pub call : Call → IdentityCaService → IdentityCaService
call (issues id now csr) s = (issue_certificate id now csr s).0
call (revokes id) s = revoke_certificate id s

unfoldable pub calls : List Call → IdentityCaService → IdentityCaService
calls [] s = s
calls (c ∷ cs) s = calls cs (call c s)

-- Whether a call names the id.
abbrev pub names : String → List Call → Bool
names id [] = false
names id (issues id' now csr ∷ cs) = id' == id || names id cs
names id (revokes id' ∷ cs) = id' == id || names id cs

crl-call :
    (c : Call) (id : String) (s : IdentityCaService)
    → contains s.crl id ≡ true
    → contains (call c s).crl id ≡ true
unfolding call issue_certificate revoke_certificate
crl-call (issues id' none csr) id s h = h
crl-call (issues id' (some now) csr) id s h = h
crl-call (revokes id') id s h = ground (arith, contains-append s.crl (id' ∷ []) id)

crl-calls :
    (cs : List Call) (id : String) (s : IdentityCaService)
    → contains s.crl id ≡ true
    → contains (calls cs s).crl id ≡ true
unfolding calls
crl-calls [] id s h = h
crl-calls (c ∷ cs) id s h = crl-calls cs id (call c s) (crl-call c id s h)

crl-revoke :
    (id : String) (s : IdentityCaService) (cert : Certificate)
    → lookup id s.certificates ≡ some cert
    → contains (revoke_certificate id s).crl id ≡ true
unfolding revoke_certificate contains
crl-revoke id s cert found =
    rw (found, revoke_certificate)
      (ground (arith, contains-append s.crl (id ∷ []) id, equal_refl id))

-- A certificate that the service has and that is revoked is never valid again, whatever is issued
-- or revoked after, also under the same id, and whatever the clock says.
pub revoked_for_good :
    (id : String) (s : IdentityCaService) (cert : Certificate) (cs : List Call) (now : Option ℕ)
    → lookup id s.certificates ≡ some cert
    → verify_certificate id now (calls cs (revoke_certificate id s)) ≡ some false
unfolding verify_certificate
revoked_for_good id s cert cs now found =
    rw (crl-calls cs id (revoke_certificate id s) (crl-revoke id s cert found), verify_certificate)
      refl

other_call :
    (c : Call) (id : String) (s : IdentityCaService)
    → names id (c ∷ []) ≡ false
    → (lookup id (call c s).certificates ≡ lookup id s.certificates)
      × (contains (call c s).crl id ≡ contains s.crl id)
unfolding call issue_certificate revoke_certificate contains
other_call (issues id' none csr) id s h = (refl, refl)
other_call (issues id' (some now) csr) id s h =
    (ground (arith, lookup-put id' id (certificate id' now csr) s.certificates), refl)
other_call (revokes id') id s h = (
  ground (arith, lookup-remove id' id s.certificates),
  ground (
    arith,
    contains-append s.crl (id' ∷ []) id,
    string_eq.equal_iff id' id,
    string_eq.equal_iff id id',
  ),
)

names-cons :
    (c : Call) (cs : List Call) (id : String)
    → names id (c ∷ cs) ≡ (names id (c ∷ []) || names id cs)
names-cons (issues id' now csr) cs id = ground arith
names-cons (revokes id') cs id = ground arith

other_calls :
    (cs : List Call) (id : String) (s : IdentityCaService)
    → names id cs ≡ false
    → (lookup id (calls cs s).certificates ≡ lookup id s.certificates)
      × (contains (calls cs s).crl id ≡ contains s.crl id)
unfolding calls
other_calls [] id s h = (refl, refl)
other_calls (c ∷ cs) id s h =
    let (kept, unlisted) = other_call c id s (ground (arith, names-cons c cs id)) in
    let (kept', unlisted') = other_calls cs id (call c s) (ground (arith, names-cons c cs id)) in
    (kept' ∙ kept, unlisted' ∙ unlisted)

-- A certificate that is issued at `start` under an id that is not revoked, and that no later call
-- names, is valid from `start` to a year later and at no other time.
pub valid_for_a_year :
    (id : String) (start now : ℕ) (csr : CertificateSigningRequest) (s : IdentityCaService)
    (cs : List Call)
    → contains s.crl id ≡ false
    → names id cs ≡ false
    → start + year < 2 ^ 64
    → verify_certificate id (some now) (calls cs (issue_certificate id (some start) csr s).0)
      ≡ some (leb start now && leb now (start + year))
unfolding verify_certificate issue_certificate
valid_for_a_year id start now csr s cs unlisted unnamed small =
    let s' = (issue_certificate id (some start) csr s).0 in
    let (kept, listed) = other_calls cs id s' unnamed in
    let stored : lookup id s'.certificates ≡ some (certificate id start csr) =
      ground (arith, lookup-put id id (certificate id start csr) s.certificates, equal_refl id) in
    rw (listed, unlisted, kept, stored, verify_certificate, u64_id (start + year) small) refl
