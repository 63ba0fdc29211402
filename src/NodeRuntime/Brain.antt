-- ===== src/NodeRuntime/Brain.antt =====
-- services/node-runtime/src/modules/brain.rs: threats, decisions and the memory of threats. `F` stands
-- for `f32`; what the id generator, the clock and the formatting give are arguments.
use mathlib.Core.List.{append_assoc, append-nil}
use swarm_intelligence_netwo.Prelude.{
  all_recent, recent, length-recent, recent-append, push-make_room, ℕ, ◌≤◌, String, ◌≡◌, refl, sym,
  ap, ◌∙◌, inl, inr, Bool, true, List, [], ◌∷◌, ◌++◌, map, arith, ltb, if◌then◌else◌, string_eq,
  nat_eq, pair_eq, Bool-cases, length, drop, Map,
}

pub data ThreatSeverity : Type 0 where
  critical : ThreatSeverity
  high : ThreatSeverity
  medium : ThreatSeverity
  low : ThreatSeverity
  info : ThreatSeverity

pub data ActionType : Type 0 where
  block : ActionType
  monitor : ActionType
  alert : ActionType
  quarantine : ActionType
  allow : ActionType

pub record Threat (F : Type 0) : Type 0 where
  pub id : String
  pub threat_type : String
  pub confidence : F
  pub severity : ThreatSeverity
  pub timestamp : ℕ
  pub metadata : Map String String

pub record Decision (F : Type 0) : Type 0 where
  pub action : ActionType
  pub confidence : F
  pub reasoning : String

pub record BrainModule (F : Type 0) : Type 0 where
  pub model_version : String
  pub memory : List (Threat F)
  pub learning_enabled : Bool

abbrev pub action_for : ThreatSeverity → ActionType
action_for critical = block
action_for high = quarantine
action_for medium = monitor
action_for low = alert
action_for info = allow

module _ {F : Type 0} where
  unfoldable pub new : BrainModule F
  new = record { model_version = "v1.0.0"; memory = []; learning_enabled = true }

  -- `likely` is the literal 0.75.
  unfoldable pub analyze : F → String → ℕ → List ℕ → List (Threat F)
  analyze likely id now bytes =
      if ltb 10000 (length bytes)
      then record {
        id = id;
        threat_type = "anomaly";
        confidence = likely;
        severity = medium;
        timestamp = now;
        metadata = [];
      }
        ∷ []
      else []

  unfoldable pub decide : (ThreatSeverity → F → String) → List (Threat F) → List (Decision F)
  decide describe [] = []
  decide describe (t ∷ ts) =
      record {
        action = action_for t.severity;
        confidence = t.confidence;
        reasoning = describe t.severity t.confidence;
      }
      ∷ decide describe ts

  unfoldable pub remember : Threat F → BrainModule F → BrainModule F
  remember threat b =
      let mem = b.memory ++ threat ∷ [] in
      record b { memory = if ltb 10000 (length mem) then drop 1 mem else mem }

  -- The bytes of the model are not read.
  unfoldable pub update_model : String → BrainModule F → BrainModule F
  update_model version b = record b { model_version = version }

  unfoldable pub set_learning : Bool → BrainModule F → BrainModule F
  set_learning on b = record b { learning_enabled = on }

  unfoldable pub remember_all : List (Threat F) → BrainModule F → BrainModule F
  remember_all [] b = b
  remember_all (t ∷ ts) b = remember_all ts (remember t b)

  remember-recent :
      (t : Threat F) (b : BrainModule F) (all : List (Threat F))
      → b.memory ≡ recent 10000 all
      → (remember t b).memory ≡ recent 10000 (all ++ t ∷ [])
  unfolding remember
  remember-recent t b all kept =
      let small : length b.memory ≤ 10000 =
        omega (arith, length-recent 10000 all, ap (λ (s : List (Threat F)). length s) kept) in
      push-make_room 10000 b.memory t small
      ∙ ap (λ (s : List (Threat F)). recent 10000 (s ++ t ∷ [])) kept
      ∙ recent-append 10000 all (t ∷ [])

  remember_all-after :
      (ts : List (Threat F)) (b : BrainModule F) (all : List (Threat F))
      → b.memory ≡ recent 10000 all
      → (remember_all ts b).memory ≡ recent 10000 (all ++ ts)
  unfolding remember_all
  remember_all-after [] b all kept = rw append-nil kept
  remember_all-after (t ∷ ts) b all kept =
      rw (sym (append_assoc all (t ∷ []) ts))
        (remember_all-after ts (remember t b) (all ++ t ∷ []) (remember-recent t b all kept))

  -- A brain module that remembers threats one after the other holds the last 10000 of what it held
  -- and of them, in order, if it held no more than 10000.
  pub memory-remember_all :
      (ts : List (Threat F)) (b : BrainModule F)
      → length b.memory ≤ 10000
      → (remember_all ts b).memory ≡ recent 10000 (b.memory ++ ts)
  memory-remember_all ts b small =
      remember_all-after ts b b.memory (sym (all_recent 10000 b.memory small))

  abbrev pub actions : List (Decision F) → List ActionType
  actions ds = map (λ d. d.action) ds

  -- From whatever bytes, what `analyze` finds leads `decide` to monitor, once, when there are more
  -- than 10000 of them, and to nothing otherwise: the two together never block or quarantine.
  pub decide-analyze :
      (describe : ThreatSeverity → F → String) (likely : F) (id : String) (now : ℕ) (bytes : List ℕ)
      → actions (decide describe (analyze likely id now bytes))
        ≡ (if ltb 10000 (length bytes) then monitor ∷ [] else [])
  unfolding decide analyze
  decide-analyze describe likely id now bytes = elim (Bool-cases (ltb 10000 (length bytes))) [
    | inl many ↦ rw many refl
    | inr few ↦ rw few refl
  ]
