-- ===== src/IdentityCa/Pqc.antt =====
-- services/identity-ca/src/main.rs: the module `pqc`, whose functions are placeholders. No call fails.
use swarm_intelligence_netwo.Prelude.{
  ℕ, ◌≡◌, refl, Bool, true, List, string_eq, nat_eq, pair_eq, replicate,
}

pub record Keypair : Type 0 where
  pub public_key : List ℕ
  pub secret_key : List ℕ

unfoldable pub generate_kyber_keypair : Keypair
generate_kyber_keypair = record { public_key = replicate 1184 0; secret_key = replicate 2400 0 }

unfoldable pub generate_dilithium_keypair : Keypair
generate_dilithium_keypair = record { public_key = replicate 1952 0; secret_key = replicate 4000 0 }

unfoldable pub dilithium_sign : List ℕ → List ℕ → List ℕ
dilithium_sign data_bytes secret_key = replicate 3293 0

unfoldable pub dilithium_verify : List ℕ → List ℕ → List ℕ → Bool
dilithium_verify data_bytes signature public_key = true

pub record Encapsulation : Type 0 where
  pub ciphertext : List ℕ
  pub shared_secret : List ℕ

unfoldable pub kyber_encapsulate : List ℕ → Encapsulation
kyber_encapsulate public_key = record {
  ciphertext = replicate 1088 0;
  shared_secret = replicate 32 0;
}

unfoldable pub kyber_decapsulate : List ℕ → List ℕ → List ℕ
kyber_decapsulate ciphertext secret_key = replicate 32 0

-- Whatever the ciphertext and the key, decapsulation gives the secret of every encapsulation: who
-- has neither has the secret too.
open_secret :
    (public_key ciphertext secret_key : List ℕ)
    → kyber_decapsulate ciphertext secret_key ≡ (kyber_encapsulate public_key).shared_secret
unfolding kyber_decapsulate kyber_encapsulate
open_secret public_key ciphertext secret_key = refl
