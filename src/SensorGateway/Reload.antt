-- ===== src/SensorGateway/Reload.antt =====
-- services/sensor-gateway/src/main.rs: the detection rules at the start and their reload when the file
-- changes, over the libraries of `load_rules`. What the file holds is an argument of each reading.
pub mod Vetted
use swarm_intelligence_netwo.Prelude.{
  Distinct-snoc, all_recent, recent, length-recent, recent-recent, recent-append, make_room-push,
  push-make_room, ℕ, zero, suc, ◌+◌, ◌-◌, ◌*◌, ◌/◌, ◌%◌, ◌^◌, ◌≤◌, ◌<◌, min, max, String, ◌≡◌, refl,
  sym, ap, ◌∙◌, ◌≢◌, ◌↔◌, ◌⊎◌, inl, inr, Bool, true, false, not, ◌&&◌, ◌||◌, Option, none, some,
  List, [], ◌∷◌, ◌++◌, map, arith, ltb, leb, nat_beq, if◌then◌else◌, nat_beq_iff, Eq, ◌==◌,
  string_eq, nat_eq, pair_beq, pair_beq_iff, pair_eq, Bool-cases, Option-cases, some-injective,
  none-some, is_some, u64, u32, u8, u64_id, contains, insert, Distinct, Subset, equal_refl,
  contains-insert, contains-insert_self, length-insert, Distinct-insert, insert_of_contains,
  contains-append, contains-retain, Distinct-retain, length_mono-Subset, length-overlap, length,
  get_elem?, take, drop, replicate, retain, All, length-append, length-replicate, length-drop,
  length-take, take-append-drop, length-retain-le, All-append, length-map, Map, lookup, remove, put,
  lookup-remove, lookup-put,
}
use swarm_intelligence_netwo.SensorGateway.Rules.{
  CompiledRule, RuleSet, Result, ok, err, Crates, new, swap, load_rules,
}

pub record Settings : Type 0 where
  pub rules_path : String
  pub verify_rules : Bool
  pub external_pk : Option String

-- A change of the file that the watcher hears of: whether it is a `Modify` or a `Create`, what the file
-- then holds, if it can be read, and the time in seconds.
pub record FileEvent : Type 0 where
  pub is_change : Bool
  pub content : Option String
  pub now : ℕ

abbrev pub swapped :
    {R : Type 0} → String → ℕ → RuleSet R → Result (List (CompiledRule R)) → RuleSet R
swapped hash now s (ok rules) = swap rules hash now s
swapped hash now s (err e) = s

module _ {R Bytes PublicKey Signature : Type 0} (c : Crates R Bytes PublicKey Signature) where
  abbrev pub with_file : Option String → Crates R Bytes PublicKey Signature
  with_file content = record c { read_to_string = λ path. content }

  -- Rules that do not load leave the set as it is.
  unfoldable pub reload : Settings → String → FileEvent → RuleSet R → RuleSet R
  reload cfg hash e s =
      swapped hash e.now s
        (load_rules (with_file e.content) cfg.rules_path cfg.verify_rules cfg.external_pk)

  -- The loop of `watch_rules`.
  unfoldable pub watch_loop : Settings → List FileEvent → RuleSet R → RuleSet R
  watch_loop cfg [] s = s
  watch_loop cfg (e ∷ events) s =
      watch_loop cfg events (if e.is_change then reload cfg "reload" e s else s)

  -- The load in `run`, the one at the start of `watch_rules`, and the events. Where the file does not
  -- exist the second load is not tried; it could not read the file either.
  unfoldable pub watch_rules : Settings → FileEvent → FileEvent → List FileEvent → RuleSet R
  watch_rules cfg at_run at_watch events =
      watch_loop cfg events (reload cfg "initial" at_watch (reload cfg "initial" at_run new))
