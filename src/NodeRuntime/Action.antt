-- ===== src/NodeRuntime/Action.antt =====
-- services/node-runtime/src/modules/action.rs: the countermeasures of a node. What the id generator
-- and the clock give are arguments. The step that starts an action, the one that carries it out
-- and the one that closes it each hold their locks alone; `execute` runs them in order.
pub mod Blocked
pub mod Rollback
use swarm_intelligence_netwo.Prelude.{
  Distinct-snoc, all_recent, recent, length-recent, recent-recent, recent-append, make_room-push,
  push-make_room, ℕ, zero, suc, ◌+◌, ◌-◌, ◌*◌, ◌/◌, ◌%◌, ◌^◌, ◌≤◌, ◌<◌, min, max, String, ◌≡◌, refl,
  sym, ap, ◌∙◌, ◌≢◌, ◌↔◌, ◌⊎◌, inl, inr, Bool, true, false, not, ◌&&◌, ◌||◌, Option, none, some,
  List, [], ◌∷◌, ◌++◌, map, arith, ltb, leb, nat_beq, if◌then◌else◌, nat_beq_iff, Eq, ◌==◌,
  string_eq, nat_eq, pair_beq, pair_beq_iff, pair_eq, Bool-cases, Option-cases, is_some, u64, u32,
  u8, u64_id, contains, insert, Distinct, Subset, equal_refl, contains-insert, contains-insert_self,
  length-insert, Distinct-insert, insert_of_contains, contains-append, contains-retain,
  Distinct-retain, length_mono-Subset, length-overlap, length, get_elem?, take, drop, replicate,
  retain, All, length-append, length-drop, length-take, take-append-drop, length-retain-le,
  All-append, length-map, Map, lookup, remove, put, lookup-remove, lookup-put,
}

pub data ActionType : Type 0 where
  block_ip : ActionType
  block_domain : ActionType
  quarantine_file : ActionType
  isolate_process : ActionType
  enable_honeypot : ActionType
  collect_forensics : ActionType
  rate_limit_source : ActionType
  drop_packets : ActionType

pub data ActionStatus : Type 0 where
  pending : ActionStatus
  in_progress : ActionStatus
  completed : ActionStatus
  failed : ActionStatus
  rolled_back : ActionStatus

pub record Action : Type 0 where
  pub id : String
  pub action_type : ActionType
  pub target : String
  pub timestamp : ℕ
  pub status : ActionStatus
  pub metadata : Map String String

pub record ActionModule : Type 0 where
  pub active_actions : List Action
  pub blocked_ips : List String
  pub blocked_domains : List String
  pub quarantine : List String

unfoldable pub new : ActionModule
new = record { active_actions = []; blocked_ips = []; blocked_domains = []; quarantine = [] }

unfoldable pub start : String → ActionType → String → ℕ → ActionModule → ActionModule
start id action_type target now m = record m {
  active_actions =
      m.active_actions
      ++ record {
        id = id;
        action_type = action_type;
        target = target;
        timestamp = now;
        status = in_progress;
        metadata = [];
      }
        ∷ [];
}

-- `Vec::push` after a test for membership
abbrev pub push_new : String → List String → List String
push_new x xs = if contains xs x then xs else xs ++ x ∷ []

-- The eight helpers. None of them fails; the last five only log.
unfoldable pub carry_out : ActionType → String → ActionModule → ActionModule
carry_out block_ip target m = record m { blocked_ips = push_new target m.blocked_ips }
carry_out block_domain target m = record m { blocked_domains = push_new target m.blocked_domains }
carry_out quarantine_file target m = record m { quarantine = m.quarantine ++ target ∷ [] }
carry_out isolate_process target m = m
carry_out enable_honeypot target m = m
carry_out collect_forensics target m = m
carry_out rate_limit_source target m = m
carry_out drop_packets target m = m

-- The first action with the id, if there is one, gets the status.
unfoldable pub set_status : String → ActionStatus → List Action → List Action
set_status id status [] = []
set_status id status (a ∷ actions) =
    let rest = set_status id status actions in
    if a.id == id then record a { status = status } ∷ actions else a ∷ rest

-- `iter().find`
unfoldable pub find : String → List Action → Option Action
find id [] = none
find id (a ∷ actions) = if a.id == id then some a else find id actions

-- The id of the action is its result.
unfoldable pub execute : String → ActionType → String → ℕ → ActionModule → ActionModule × String
execute id action_type target now m =
    let m' = carry_out action_type target (start id action_type target now m) in
    (record m' { active_actions = set_status id completed m'.active_actions }, id)

abbrev pub without : String → List String → List String
without x xs = retain (λ y. not (y == x)) xs

unfoldable pub undo : ActionType → String → ActionModule → ActionModule
undo block_ip target m = record m { blocked_ips = without target m.blocked_ips }
undo block_domain target m = record m { blocked_domains = without target m.blocked_domains }
undo _ target m = m

unfoldable pub rollback : String → ActionModule → ActionModule
rollback id m = elim (find id m.active_actions) [
  | none ↦ m
  | some a ↦
      let m' = undo a.action_type a.target m in
      record m' { active_actions = set_status id rolled_back m'.active_actions }
]

pub record ActionStats : Type 0 where
  pub ips : ℕ
  pub domains : ℕ
  pub quarantined_files : ℕ
  pub actions : ℕ

unfoldable pub get_stats : ActionModule → ActionStats
get_stats m = record {
  ips = length m.blocked_ips;
  domains = length m.blocked_domains;
  quarantined_files = length m.quarantine;
  actions = length m.active_actions;
}
