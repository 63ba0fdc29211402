-- ===== src/NodeRuntime/Action/Rollback.antt =====
-- services/node-runtime/src/modules/action.rs: what a rollback lifts.
use swarm_intelligence_netwo.Prelude.{
  ℕ, String, ◌≡◌, refl, inl, inr, not, ◌&&◌, none, some, List, arith, if◌then◌else◌, ◌==◌,
  string_eq, nat_eq, pair_eq, Option-cases, contains, contains-retain, Distinct-retain,
}
use swarm_intelligence_netwo.NodeRuntime.Action.{
  ActionType, Action, ActionModule, set_status, find, execute, without, undo, rollback, block_ip,
  block_domain, quarantine_file, isolate_process, enable_honeypot, collect_forensics,
  rate_limit_source, drop_packets, rolled_back,
}
use swarm_intelligence_netwo.NodeRuntime.Action.Blocked.{
  blocks_ip, blocks_domain, justified-set_status, IsExplained, execute-IsExplained,
}

-- Actions are executed with new ids, and rolled back, one after the other.
pub data Reach (m : ActionModule) : ActionModule → Type 0 where
  here : Reach m m
  executes :
      {m' : ActionModule}
      → Reach m m'
      → (id : String) (kind : ActionType) (target : String) (now : ℕ)
      → find id m'.active_actions ≡ none
      → Reach m (execute id kind target now m').0
  rolls_back : {m' : ActionModule} → Reach m m' → (id : String) → Reach m (rollback id m')

ips-undo :
    (kind : ActionType) (target : String) (m : ActionModule)
    → (undo kind target m).blocked_ips
      ≡ (if blocks_ip kind then without target m.blocked_ips else m.blocked_ips)
unfolding undo
ips-undo block_ip target m = refl
ips-undo block_domain target m = refl
ips-undo quarantine_file target m = refl
ips-undo isolate_process target m = refl
ips-undo enable_honeypot target m = refl
ips-undo collect_forensics target m = refl
ips-undo rate_limit_source target m = refl
ips-undo drop_packets target m = refl

domains-undo :
    (kind : ActionType) (target : String) (m : ActionModule)
    → (undo kind target m).blocked_domains
      ≡ (if blocks_domain kind then without target m.blocked_domains else m.blocked_domains)
unfolding undo
domains-undo block_ip target m = refl
domains-undo block_domain target m = refl
domains-undo quarantine_file target m = refl
domains-undo isolate_process target m = refl
domains-undo enable_honeypot target m = refl
domains-undo collect_forensics target m = refl
domains-undo rate_limit_source target m = refl
domains-undo drop_packets target m = refl

actions-undo :
    (kind : ActionType) (target : String) (m : ActionModule)
    → (undo kind target m).active_actions ≡ m.active_actions
unfolding undo
actions-undo block_ip target m = refl
actions-undo block_domain target m = refl
actions-undo quarantine_file target m = refl
actions-undo isolate_process target m = refl
actions-undo enable_honeypot target m = refl
actions-undo collect_forensics target m = refl
actions-undo rate_limit_source target m = refl
actions-undo drop_packets target m = refl

contains-without :
    (x y : String) (xs : List String) → contains (without x xs) y ≡ (contains xs y && not (y == x))
contains-without x y xs = ground (arith, contains-retain (λ z. not (z == x)) xs y)

-- What `rollback` makes of a module where it finds the action.
undone : String → Action → ActionModule → ActionModule
undone id a m =
    let m' = undo a.action_type a.target m in
    record m' { active_actions = set_status id rolled_back m'.active_actions }

undone-IsExplained :
    (id : String) (a : Action) (m : ActionModule)
    → find id m.active_actions ≡ some a
    → IsExplained m
    → IsExplained (undone id a m)
unfolding undone
undone-IsExplained id a m found v = record {
  ips_once =
      rw ips-undo
        (ground (arith, v.ips_once, Distinct-retain (λ y. not (y == a.target)) m.blocked_ips));
  domains_once = rw domains-undo (
      ground (arith, v.domains_once, Distinct-retain (λ y. not (y == a.target)) m.blocked_domains));
  ips_justified = λ ip.
      rw (ips-undo, actions-undo)
        (ground (
          arith,
          v.ips_justified ip,
          contains-without a.target ip m.blocked_ips,
          justified-set_status blocks_ip ip id m.active_actions a found,
          string_eq.equal_iff ip a.target,
          string_eq.equal_iff a.target ip,
        ));
  domains_justified = λ domain.
      rw (domains-undo, actions-undo)
        (ground (
          arith,
          v.domains_justified domain,
          contains-without a.target domain m.blocked_domains,
          justified-set_status blocks_domain domain id m.active_actions a found,
          string_eq.equal_iff domain a.target,
          string_eq.equal_iff a.target domain,
        ));
}

rollback-IsExplained :
    (id : String) (m : ActionModule) → IsExplained m → IsExplained (rollback id m)
unfolding rollback undone
rollback-IsExplained id m v = elim (Option-cases (find id m.active_actions)) [
  | inl unknown ↦ rw (unknown, rollback) v
  | inr (a, found) ↦ rw (found, rollback) (undone-IsExplained id a m found v)
]

-- Whatever actions a module executes under new ids and rolls back, from a state where this holds:
-- each address and each domain is blocked once at most, and only if a completed action of the
-- right kind has it as its target.
pub Reach-IsExplained : {m m' : ActionModule} → IsExplained m → Reach m m' → IsExplained m'
Reach-IsExplained v here = v
Reach-IsExplained v (executes {m'} r id kind target now fresh) =
    execute-IsExplained id kind target now m' fresh (Reach-IsExplained v r)
Reach-IsExplained v (rolls_back {m'} r id) = rollback-IsExplained id m' (Reach-IsExplained v r)

-- When an action that blocked an address is rolled back, that address and no other is no longer
-- blocked, also where another completed action blocks the same address.
pub rollback_unblocks :
    (id ip : String) (a : Action) (m : ActionModule)
    → find id m.active_actions ≡ some a
    → a.action_type ≡ block_ip
    → contains (rollback id m).blocked_ips ip ≡ (contains m.blocked_ips ip && not (ip == a.target))
unfolding rollback
rollback_unblocks id ip a m found kind =
    rw (found, rollback, ips-undo, kind) (contains-without a.target ip m.blocked_ips)
