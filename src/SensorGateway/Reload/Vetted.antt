-- ===== src/SensorGateway/Reload/Vetted.antt =====
-- services/sensor-gateway/src/main.rs: where the active rules come from.
use swarm_intelligence_netwo.Prelude.{
  String, ◌≡◌, refl, sym, ap, ◌∙◌, ◌⊎◌, inl, inr, Bool, true, false, Option, none, some, List, [],
  ◌∷◌, if◌then◌else◌, string_eq, nat_eq, pair_eq, Option-cases,
}
use swarm_intelligence_netwo.SensorGateway.Rules.{
  CompiledRule, RuleSet, FileBundle, RuleError, Result, ok, err, io, serde, Crates, new, swap,
  load_rules,
}
use swarm_intelligence_netwo.SensorGateway.Rules.Signed.{
  AllCompiled, IsSigned, load_rules-ok, Result-cases, ok-err,
}
use swarm_intelligence_netwo.SensorGateway.Reload.{
  Settings, FileEvent, swapped, with_file, reload, watch_loop, watch_rules,
}

-- One of the readings of the file gave the text.
abbrev pub Read : String → List FileEvent → Type 0
Read text [] = ⊥
Read text (e ∷ events) = (e.content ≡ some text) ⊎ Read text events

-- The readings, the latest first.
abbrev pub readings : List FileEvent → List FileEvent → List FileEvent
readings [] past = past
readings (e ∷ events) past = readings events (e ∷ past)

module _ {R Bytes PublicKey Signature : Type 0} (c : Crates R Bytes PublicKey Signature) where
  -- The rules are those of a text that was read, each compiled; and the text has no signature or one
  -- that the key verifies.
  pub record FromFile (external : Option String) (events : List FileEvent)
      (rules : List (CompiledRule R)) : Type 0 where
    pub text : String
    pub bundle : FileBundle
    pub was_read : Read text events
    pub parsed : c.from_str text ≡ some bundle
    pub compiled : AllCompiled c bundle.rules rules
    pub signed : (bundle.signature ≡ none) ⊎ IsSigned (with_file c (some text)) text external bundle

  abbrev pub Vetted : Option String → List FileEvent → List (CompiledRule R) → Type 0
  Vetted external events rules = (rules ≡ []) ⊎ FromFile external events rules

  FromFile-more :
      (external : Option String) (e : FileEvent) (events : List FileEvent)
      (rules : List (CompiledRule R))
      → Vetted external events rules
      → Vetted external (e ∷ events) rules
  FromFile-more external e events rules (inl none_yet) = inl none_yet
  FromFile-more external e events rules (inr f) = inr (record {
    text = f.text;
    bundle = f.bundle;
    was_read = inr f.was_read;
    parsed = f.parsed;
    compiled = f.compiled;
    signed = f.signed;
  })

  load_at :
      (cfg : Settings) (o o' : Option String) (r : Result (List (CompiledRule R)))
      → o ≡ o'
      → load_rules (with_file c o) cfg.rules_path true cfg.external_pk ≡ r
      → load_rules (with_file c o') cfg.rules_path true cfg.external_pk ≡ r
  load_at cfg o o' r e h =
      ap (λ (u : Option String). load_rules (with_file c u) cfg.rules_path true cfg.external_pk)
        (sym e)
      ∙ h

  load_gone :
      (cfg : Settings) → load_rules (with_file c none) cfg.rules_path true cfg.external_pk ≡ err io
  unfolding load_rules
  load_gone cfg = refl

  load_bad :
      (cfg : Settings) (text : String)
      → c.from_str text ≡ none
      → load_rules (with_file c (some text)) cfg.rules_path true cfg.external_pk ≡ err serde
  unfolding load_rules
  load_bad cfg text bad = rw (bad, load_rules) refl

  loaded-FromFile :
      (cfg : Settings) (e : FileEvent) (events : List FileEvent) (rules : List (CompiledRule R))
      → load_rules (with_file c e.content) cfg.rules_path true cfg.external_pk ≡ ok rules
      → FromFile cfg.external_pk (e ∷ events) rules
  loaded-FromFile cfg e events rules h = elim (Option-cases e.content) [
    | inl gone ↦
        absurd (ok-err (sym (load_at cfg e.content none (ok rules) gone h) ∙ load_gone cfg))
    | inr (text, there) ↦ elim (Option-cases (c.from_str text)) [
      | inl bad ↦ absurd (
          ok-err
            (sym (load_at cfg e.content (some text) (ok rules) there h) ∙ load_bad cfg text bad))
      | inr (bundle, parsed) ↦
          let (compiled, signed) =
            load_rules-ok (with_file c (some text)) cfg.rules_path text cfg.external_pk bundle rules
              refl parsed (load_at cfg e.content (some text) (ok rules) there h) in
          record {
            text = text;
            bundle = bundle;
            was_read = inl there;
            parsed = parsed;
            compiled = compiled;
            signed = signed;
          }
    ]
  ]

  Vetted-at :
      (external : Option String) (events : List FileEvent) (rules rules' : List (CompiledRule R))
      → rules' ≡ rules
      → Vetted external events rules
      → Vetted external events rules'
  Vetted-at external events rules rules' same v = rw same v

  reload_ok :
      (cfg : Settings) (hash : String) (e : FileEvent) (s : RuleSet R)
      (rules : List (CompiledRule R))
      → cfg.verify_rules ≡ true
      → load_rules (with_file c e.content) cfg.rules_path true cfg.external_pk ≡ ok rules
      → (reload c cfg hash e s).rules ≡ rules
  unfolding reload swap
  reload_ok cfg hash e s rules on h =
      ap
        (λ (v : Bool).
          (swapped hash e.now s
            (load_rules (with_file c e.content) cfg.rules_path v cfg.external_pk)).rules)
        on
      ∙ ap (λ (r : Result (List (CompiledRule R))). (swapped hash e.now s r).rules) h

  reload_err :
      (cfg : Settings) (hash : String) (e : FileEvent) (s : RuleSet R) (error : RuleError)
      → cfg.verify_rules ≡ true
      → load_rules (with_file c e.content) cfg.rules_path true cfg.external_pk ≡ err error
      → (reload c cfg hash e s).rules ≡ s.rules
  unfolding reload
  reload_err cfg hash e s error on h =
      ap
        (λ (v : Bool).
          (swapped hash e.now s
            (load_rules (with_file c e.content) cfg.rules_path v cfg.external_pk)).rules)
        on
      ∙ ap (λ (r : Result (List (CompiledRule R))). (swapped hash e.now s r).rules) h

  -- The latest reading stands first.
  reload-Vetted :
      (cfg : Settings) (hash : String) (e : FileEvent) (events : List FileEvent) (s : RuleSet R)
      → cfg.verify_rules ≡ true
      → Vetted cfg.external_pk events s.rules
      → Vetted cfg.external_pk (e ∷ events) (reload c cfg hash e s).rules
  reload-Vetted cfg hash e events s on v =
      elim (Result-cases (load_rules (with_file c e.content) cfg.rules_path true cfg.external_pk)) [
        | inl (error, failed) ↦
            Vetted-at cfg.external_pk (e ∷ events) s.rules (reload c cfg hash e s).rules
              (reload_err cfg hash e s error on failed)
              (FromFile-more cfg.external_pk e events s.rules v)
        | inr (rules, loaded) ↦
            Vetted-at cfg.external_pk (e ∷ events) rules (reload c cfg hash e s).rules
              (reload_ok cfg hash e s rules on loaded)
              (inr (loaded-FromFile cfg e events rules loaded))
      ]

  stepped-Vetted :
      (cfg : Settings) (is_change : Bool) (e : FileEvent) (past : List FileEvent) (s : RuleSet R)
      → cfg.verify_rules ≡ true
      → Vetted cfg.external_pk past s.rules
      → Vetted cfg.external_pk (e ∷ past) (if is_change then reload c cfg "reload" e s else s).rules
  stepped-Vetted cfg true e past s on v = reload-Vetted cfg "reload" e past s on v
  stepped-Vetted cfg false e past s on v = FromFile-more cfg.external_pk e past s.rules v

  watch_loop-Vetted :
      (cfg : Settings) (events past : List FileEvent) (s : RuleSet R)
      → cfg.verify_rules ≡ true
      → Vetted cfg.external_pk past s.rules
      → Vetted cfg.external_pk (readings events past) (watch_loop c cfg events s).rules
  unfolding watch_loop
  watch_loop-Vetted cfg [] past s on v = v
  watch_loop-Vetted cfg (e ∷ events) past s on v =
      watch_loop-Vetted cfg events (e ∷ past) (if e.is_change then reload c cfg "reload" e s else s)
        on (stepped-Vetted cfg e.is_change e past s on v)

  -- Verification is on. Whatever the file holds at the start and at each event of the watcher, the
  -- active rules are none, or those of a text that was read from it, in order, each with what its
  -- pattern compiles to; and that text carries no signature, or one that the key verifies over it.
  pub watch_rules-Vetted :
      (cfg : Settings) (at_run at_watch : FileEvent) (events : List FileEvent)
      → cfg.verify_rules ≡ true
      → Vetted cfg.external_pk
          (readings events (at_watch ∷ at_run ∷ []))
          (watch_rules c cfg at_run at_watch events).rules
  unfolding watch_rules new
  watch_rules-Vetted cfg at_run at_watch events on =
      let first = reload c cfg "initial" at_run new in
      watch_loop-Vetted cfg events (at_watch ∷ at_run ∷ []) (reload c cfg "initial" at_watch first)
        on
        (reload-Vetted cfg "initial" at_watch (at_run ∷ []) first on
          (reload-Vetted cfg "initial" at_run [] new on (inl refl)))
