-- ===== src/SensorGateway/Rules.antt =====
-- services/sensor-gateway/src/detection/rules.rs: loading the detection rules. The file system, `serde_yaml`,
-- `regex`, `sha2`, `hex`, `base64` and `ed25519_dalek` are parameters.
pub mod Signed
use swarm_intelligence_netwo.Prelude.{
  Distinct-snoc, all_recent, recent, length-recent, recent-recent, recent-append, make_room-push,
  push-make_room, ℕ, zero, suc, ◌+◌, ◌-◌, ◌*◌, ◌/◌, ◌%◌, ◌^◌, ◌≤◌, ◌<◌, min, max, String, ◌≡◌, refl,
  sym, ap, ◌∙◌, ◌≢◌, ◌↔◌, ◌⊎◌, inl, inr, Bool, true, false, not, ◌&&◌, ◌||◌, Option, none, some,
  List, [], ◌∷◌, ◌++◌, map, arith, ltb, leb, nat_beq, if◌then◌else◌, nat_beq_iff, Eq, ◌==◌,
  string_eq, nat_eq, pair_beq, pair_beq_iff, pair_eq, Bool-cases, Option-cases, is_some, u64, u32,
  u8, u64_id, contains, insert, Distinct, Subset, equal_refl, contains-insert, contains-insert_self,
  length-insert, Distinct-insert, insert_of_contains, contains-append, contains-retain,
  Distinct-retain, length_mono-Subset, length-overlap, length, get_elem?, take, drop, replicate,
  retain, All, length-append, length-drop, length-take, take-append-drop, length-retain-le,
  All-append, length-map, Map, lookup, remove, put, lookup-remove, lookup-put,
}

pub record DetectionRule : Type 0 where
  pub id : String
  pub pattern : String
  pub severity : Option String
  pub action : Option String

pub record CompiledRule (R : Type 0) : Type 0 where
  pub raw : DetectionRule
  pub regex : R

pub data RuleError : Type 0 where
  io : RuleError
  serde : RuleError
  invalid_signature : RuleError
  regex_failed : String → RuleError

pub record RuleSet (R : Type 0) : Type 0 where
  pub rules : List (CompiledRule R)
  pub version_hash : String
  pub loaded_ts : ℕ

pub record FileBundle : Type 0 where
  pub rules : List DetectionRule
  pub signature : Option String
  pub public_key : Option String

pub data Result (A : Type 0) : Type 0 where
  ok : A → Result A
  err : RuleError → Result A

-- What `load_rules` takes from its libraries. `signed_digest` is the hash of the file less the text of
-- the signature; keys and signatures are read from hex or else from base64.
pub record Crates (R Bytes PublicKey Signature : Type 0) : Type 0 where
  pub read_to_string : String → Option String
  pub from_str : String → Option FileBundle
  pub compile : String → Option R
  pub compile_error : String → String
  pub signed_digest : String → String → Bytes
  pub hex_decode : String → Option Bytes
  pub base64_decode : String → Option Bytes
  pub key_from_bytes : Bytes → Option PublicKey
  pub signature_from_bytes : Bytes → Option Signature
  pub verifies : PublicKey → Bytes → Signature → Bool

abbrev pub or_else {ℓ} : {A : Type ℓ} → Option A → Option A → Option A
or_else none b = b
or_else (some a) b = some a

abbrev pub and_then {ℓ κ} : {A : Type ℓ} {B : Type κ} → Option A → (A → Option B) → Option B
and_then none f = none
and_then (some a) f = f a

module _ {R : Type 0} where
  unfoldable pub new : RuleSet R
  new = record { rules = []; version_hash = ""; loaded_ts = 0 }

  unfoldable pub swap : List (CompiledRule R) → String → ℕ → RuleSet R → RuleSet R
  swap new_rules hash now s = record { rules = new_rules; version_hash = hash; loaded_ts = now }

  unfoldable pub list : RuleSet R → List String
  list s = map (λ r. r.raw.id) s.rules

module _ {R Bytes PublicKey Signature : Type 0} (c : Crates R Bytes PublicKey Signature) where
  unfoldable pub parse_key : String → Option PublicKey
  parse_key pk = and_then (or_else (c.hex_decode pk) (c.base64_decode pk)) c.key_from_bytes

  unfoldable pub parse_sig : String → Option Signature
  parse_sig sig = and_then (or_else (c.hex_decode sig) (c.base64_decode sig)) c.signature_from_bytes

  abbrev pub checked : Option PublicKey → Option Signature → Bytes → Bool
  checked (some pk) (some sig) digest = c.verifies pk digest sig
  checked _ _ digest = false

  -- The block under `if verify`: whether it is passed.
  unfoldable pub signature_passes : String → FileBundle → Option String → Bool
  signature_passes content bundle external = elim bundle.signature [
    | none ↦ true
    | some sig_str ↦
        checked (and_then (or_else external bundle.public_key) parse_key) (parse_sig sig_str)
          (c.signed_digest content sig_str)
  ]

  unfoldable pub compile_all : List DetectionRule → Result (List (CompiledRule R))
  compile_all [] = ok []
  compile_all (r ∷ rs) = elim (c.compile r.pattern) [
    | none ↦ err (regex_failed (c.compile_error r.pattern))
    | some regex ↦ elim (compile_all rs) [
      | err e ↦ err e
      | ok compiled ↦ ok (record { raw = r; regex = regex } ∷ compiled)
    ]
  ]

  unfoldable pub load_bundle :
      String → Bool → Option String → FileBundle → Result (List (CompiledRule R))
  load_bundle content verify external bundle =
      if verify && not (signature_passes content bundle external)
      then err invalid_signature
      else compile_all bundle.rules

  unfoldable pub load_rules : String → Bool → Option String → Result (List (CompiledRule R))
  load_rules path verify external = elim (c.read_to_string path) [
    | none ↦ err io
    | some content ↦ elim (c.from_str content) [
      | none ↦ err serde
      | some bundle ↦ load_bundle content verify external bundle
    ]
  ]
