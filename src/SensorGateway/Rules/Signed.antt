-- ===== src/SensorGateway/Rules/Signed.antt =====
-- services/sensor-gateway/src/detection/rules.rs: which rules are accepted.
use swarm_intelligence_netwo.Prelude.{
  String, ◌≡◌, refl, sym, ◌∙◌, ◌≢◌, ◌⊎◌, inl, inr, Bool, true, Option, none, some, List, [], ◌∷◌,
  arith, string_eq, nat_eq, pair_eq, Bool-cases, Option-cases,
}
use swarm_intelligence_netwo.SensorGateway.Rules.{
  DetectionRule, CompiledRule, RuleError, FileBundle, Result, ok, err, invalid_signature,
  regex_failed, Crates, parse_key, parse_sig, signature_passes, compile_all, load_bundle,
  load_rules, checked, and_then, or_else,
}

pub ok-err : {A : Type 0} {x : A} {e : RuleError} → ok x ≢ err e
ok-err h = cc

ok-injective : {A : Type 0} {x y : A} → ok x ≡ ok y → x ≡ y
ok-injective h = cc

pub Result-cases :
    {A : Type 0} (r : Result A) → ((e : RuleError) × (r ≡ err e)) ⊎ ((x : A) × (r ≡ ok x))
Result-cases (ok x) = inr (x, refl)
Result-cases (err e) = inl (e, refl)

and_then-parts :
    {A B : Type 0} (o : Option A) (f : A → Option B) (b : B)
    → and_then o f ≡ some b
    → (a : A) × (o ≡ some a) × (f a ≡ some b)
and_then-parts none f b h = absurd cc
and_then-parts (some a) f b h = (a, refl, h)

module _ {R Bytes PublicKey Signature : Type 0} (c : Crates R Bytes PublicKey Signature) where
  -- Each rule of the bundle, in order, with what its pattern compiles to.
  abbrev pub AllCompiled : List DetectionRule → List (CompiledRule R) → Type 0
  AllCompiled [] [] = Unit
  AllCompiled (r ∷ rs) (x ∷ xs) =
      (x.raw ≡ r) × (c.compile r.pattern ≡ some x.regex) × AllCompiled rs xs
  AllCompiled _ _ = ⊥

  compile_all-ok :
      (rs : List DetectionRule) (xs : List (CompiledRule R))
      → compile_all c rs ≡ ok xs
      → AllCompiled rs xs
  unfolding compile_all
  compile_all-ok [] [] h = tt
  compile_all-ok [] (x ∷ xs) h = absurd cc
  compile_all-ok (r ∷ rs) xs h = elim (Option-cases (c.compile r.pattern)) [
    | inl bad ↦
        let stops : compile_all c (r ∷ rs) ≡ err (regex_failed (c.compile_error r.pattern)) =
          rw (bad, compile_all) refl in
        absurd (ok-err (sym h ∙ stops))
    | inr (regex, good) ↦ elim (Result-cases (compile_all c rs)) [
      | inl (e, failed) ↦
          let stops : compile_all c (r ∷ rs) ≡ err e = rw (good, failed, compile_all) refl in
          absurd (ok-err (sym h ∙ stops))
      | inr (ys, rest) ↦
          let goes_on : compile_all c (r ∷ rs) ≡ ok (record { raw = r; regex = regex } ∷ ys) =
            rw (good, rest, compile_all) refl in
          let same : xs ≡ record { raw = r; regex = regex } ∷ ys = ok-injective (sym h ∙ goes_on) in
          rw same (refl, good, compile_all-ok rs ys rest)
    ]
  ]

  -- The signature of a bundle is one that the key, the external one before the bundle's own, verifies.
  pub record IsSigned (content : String) (external : Option String) (bundle : FileBundle)
      : Type 0 where
    pub signature_text : String
    pub key_text : String
    pub key : PublicKey
    pub sig : Signature
    pub has_signature : bundle.signature ≡ some signature_text
    pub has_key : or_else external bundle.public_key ≡ some key_text
    pub key_parses : parse_key c key_text ≡ some key
    pub sig_parses : parse_sig c signature_text ≡ some sig
    pub key_verifies : c.verifies key (c.signed_digest content signature_text) sig ≡ true

  checked-parts :
      (k : Option PublicKey) (s : Option Signature) (digest : Bytes)
      → checked c k s digest ≡ true
      → (key : PublicKey) × (sig : Signature) × (k ≡ some key)
        × (s ≡ some sig)
        × (c.verifies key digest sig ≡ true)
  checked-parts (some key) (some sig) digest h = (key, sig, refl, refl, h)
  checked-parts none s digest h = absurd cc
  checked-parts (some key) none digest h = absurd cc

  IsSigned-passes :
      (content text : String) (external : Option String) (bundle : FileBundle)
      → bundle.signature ≡ some text
      → signature_passes c content bundle external ≡ true
      → IsSigned content external bundle
  unfolding signature_passes
  IsSigned-passes content text external bundle signed h =
      let passed : checked c (and_then (or_else external bundle.public_key) (parse_key c))
            (parse_sig c text) (c.signed_digest content text)
          ≡ true =
        sym (rw (signed, signature_passes) refl) ∙ h in
      let (key, sig, has_key, has_sig, right) = checked-parts _ _ _ passed in
      let (text', given, parses) =
        and_then-parts (or_else external bundle.public_key) (parse_key c) key has_key in
      record {
        signature_text = text;
        key_text = text';
        key = key;
        sig = sig;
        has_signature = signed;
        has_key = given;
        key_parses = parses;
        sig_parses = has_sig;
        key_verifies = right;
      }

  passes-IsSigned :
      (content : String) (external : Option String) (bundle : FileBundle)
      → signature_passes c content bundle external ≡ true
      → (bundle.signature ≡ none) ⊎ IsSigned content external bundle
  passes-IsSigned content external bundle h = elim (Option-cases bundle.signature) [
    | inl unsigned ↦ inl unsigned
    | inr (text, signed) ↦ inr (IsSigned-passes content text external bundle signed h)
  ]

  -- An unsigned bundle is loaded whether signatures are to be verified or not, and whatever key is
  -- given.
  pub load_rules_unsigned :
      (path content : String) (verify : Bool) (external : Option String) (bundle : FileBundle)
      → c.read_to_string path ≡ some content
      → c.from_str content ≡ some bundle
      → bundle.signature ≡ none
      → load_rules c path verify external ≡ compile_all c bundle.rules
  unfolding load_rules load_bundle signature_passes
  load_rules_unsigned path content verify external bundle read parsed unsigned =
      rw (read, load_rules, parsed, load_bundle, unsigned) (ground arith)

  -- Rules that are loaded with verification on are the bundle's rules in order, each with what its
  -- pattern compiles to; and the bundle carries no signature at all, or one that the key verifies
  -- over the file.
  pub load_rules-ok :
      (path content : String) (external : Option String) (bundle : FileBundle)
      (xs : List (CompiledRule R))
      → c.read_to_string path ≡ some content
      → c.from_str content ≡ some bundle
      → load_rules c path true external ≡ ok xs
      → AllCompiled bundle.rules xs × ((bundle.signature ≡ none) ⊎ IsSigned content external bundle)
  unfolding load_rules load_bundle
  load_rules-ok path content external bundle xs read parsed h =
      let loads : load_rules c path true external ≡ load_bundle c content true external bundle =
        rw (read, load_rules, parsed) refl in
      elim (Bool-cases (signature_passes c content bundle external)) [
        | inl passes ↦
            let compiles : load_bundle c content true external bundle ≡ compile_all c bundle.rules =
              rw (passes, load_bundle) refl in
            (
              compile_all-ok bundle.rules xs (sym (loads ∙ compiles) ∙ h),
              passes-IsSigned content external bundle passes,
            )
        | inr fails ↦
            let stops : load_bundle c content true external bundle ≡ err invalid_signature =
              rw (fails, load_bundle) refl in
            absurd (ok-err (sym h ∙ loads ∙ stops))
      ]
