-- ===== src/NodeRuntime/Action/Blocked.antt =====
-- services/node-runtime/src/modules/action.rs: who is blocked, and why.
use swarm_intelligence_netwo.Prelude.{
  Distinct-snoc, ℕ, String, ◌≡◌, refl, sym, ap, ◌∙◌, inl, inr, Bool, true, false, ◌&&◌, ◌||◌, none,
  some, List, [], ◌∷◌, ◌++◌, arith, if◌then◌else◌, ◌==◌, string_eq, nat_eq, pair_eq, Bool-cases,
  some-injective, contains, Distinct, equal_refl, contains-append,
}
use swarm_intelligence_netwo.NodeRuntime.Action.{
  ActionType, ActionStatus, Action, ActionModule, start, push_new, carry_out, set_status, find,
  execute, block_ip, block_domain, quarantine_file, isolate_process, enable_honeypot,
  collect_forensics, rate_limit_source, drop_packets, in_progress, completed, rolled_back,
}

abbrev pub blocks_ip : ActionType → Bool
blocks_ip block_ip = true
blocks_ip _ = false

abbrev pub blocks_domain : ActionType → Bool
blocks_domain block_domain = true
blocks_domain _ = false

abbrev is_completed : ActionStatus → Bool
is_completed completed = true
is_completed _ = false

abbrev justifies : (ActionType → Bool) → String → Action → Bool
justifies kind x a = kind a.action_type && a.target == x && is_completed a.status

-- Some completed action of the kind has the target.
abbrev pub justified : (ActionType → Bool) → String → List Action → Bool
justified kind x [] = false
justified kind x (a ∷ acts) = justifies kind x a || justified kind x acts

justified-append :
    (kind : ActionType → Bool) (x : String) (acts bs : List Action)
    → justified kind x (acts ++ bs) ≡ (justified kind x acts || justified kind x bs)
justified-append kind x [] bs = refl
justified-append kind x (a ∷ acts) bs = ground (arith, justified-append kind x acts bs)

set_status-fresh :
    (id : String) (status : ActionStatus) (acts : List Action) (a : Action)
    → find id acts ≡ none
    → (a.id == id) ≡ true
    → set_status id status (acts ++ a ∷ []) ≡ acts ++ record a { status = status } ∷ []
unfolding set_status find
set_status-fresh id status [] a fresh same = rw same refl
set_status-fresh id status (b ∷ acts) a fresh same = elim (Bool-cases (b.id == id)) [
  | inl here ↦ absurd (ground (arith, here, fresh))
  | inr there ↦
      rw there (ap (◌∷◌ b) (set_status-fresh id status acts a (ground (arith, there, fresh)) same))
]

-- Another action than the one that is found justifies what it did.
pub justified-set_status :
    (kind : ActionType → Bool) (x id : String) (acts : List Action) (a : Action)
    → find id acts ≡ some a
    → (kind a.action_type && a.target == x) ≡ false
    → justified kind x (set_status id rolled_back acts) ≡ justified kind x acts
unfolding set_status find
justified-set_status kind x id [] a found other = refl
justified-set_status kind x id (b ∷ acts) a found other = elim (Bool-cases (b.id == id)) [
  | inl here ↦
      let shown : find id (b ∷ acts) ≡ some b = rw here refl in
      let same : b ≡ a = some-injective (sym shown ∙ found) in
      let unneeded = ap (λ (c : Action). kind c.action_type && c.target == x) same ∙ other in
      rw here (ground (arith, unneeded))
  | inr there ↦ rw there (
      ap (λ (r : Bool). justifies kind x b || r)
        (justified-set_status kind x id acts a (ground (arith, there, found)) other))
]

-- Each blocked address and domain is blocked once, and a completed action explains it.
pub record IsExplained (m : ActionModule) : Type 0 where
  pub ips_once : Distinct m.blocked_ips
  pub domains_once : Distinct m.blocked_domains
  pub ips_justified :
      (ip : String)
      → contains m.blocked_ips ip ≡ true
      → justified blocks_ip ip m.active_actions ≡ true
  pub domains_justified :
      (domain : String)
      → contains m.blocked_domains domain ≡ true
      → justified blocks_domain domain m.active_actions ≡ true

abbrev finished : String → ActionType → String → ℕ → Action
finished id kind target now = record {
  id = id;
  action_type = kind;
  target = target;
  timestamp = now;
  status = completed;
  metadata = [];
}

actions-carry_out :
    (kind : ActionType) (target : String) (m : ActionModule)
    → (carry_out kind target m).active_actions ≡ m.active_actions
unfolding carry_out
actions-carry_out block_ip target m = refl
actions-carry_out block_domain target m = refl
actions-carry_out quarantine_file target m = refl
actions-carry_out isolate_process target m = refl
actions-carry_out enable_honeypot target m = refl
actions-carry_out collect_forensics target m = refl
actions-carry_out rate_limit_source target m = refl
actions-carry_out drop_packets target m = refl

actions-execute :
    (id : String) (kind : ActionType) (target : String) (now : ℕ) (m : ActionModule)
    → find id m.active_actions ≡ none
    → (execute id kind target now m).0.active_actions
      ≡ m.active_actions ++ finished id kind target now ∷ []
unfolding execute start
actions-execute id kind target now m fresh =
    rw (actions-carry_out kind target (start id kind target now m)) (
      set_status-fresh id completed m.active_actions
        (record (finished id kind target now) { status = in_progress }) fresh (equal_refl id))

contains-push_new :
    (x y : String) (xs : List String) → contains (push_new x xs) y ≡ (contains xs y || y == x)
unfolding contains
contains-push_new x y xs = ground (arith, contains-append xs (x ∷ []) y, string_eq.equal_iff y x)

Distinct-push_new : (x : String) (xs : List String) → Distinct xs → Distinct (push_new x xs)
Distinct-push_new x xs d = elim (Bool-cases (contains xs x)) [
  | inl known ↦ rw known d
  | inr new_one ↦ rw new_one (Distinct-snoc x xs d new_one)
]

ips-execute :
    (id : String) (kind : ActionType) (target : String) (now : ℕ) (m : ActionModule)
    → (execute id kind target now m).0.blocked_ips
      ≡ (if blocks_ip kind then push_new target m.blocked_ips else m.blocked_ips)
unfolding execute start carry_out
ips-execute id block_ip target now m = refl
ips-execute id block_domain target now m = refl
ips-execute id quarantine_file target now m = refl
ips-execute id isolate_process target now m = refl
ips-execute id enable_honeypot target now m = refl
ips-execute id collect_forensics target now m = refl
ips-execute id rate_limit_source target now m = refl
ips-execute id drop_packets target now m = refl

domains-execute :
    (id : String) (kind : ActionType) (target : String) (now : ℕ) (m : ActionModule)
    → (execute id kind target now m).0.blocked_domains
      ≡ (if blocks_domain kind then push_new target m.blocked_domains else m.blocked_domains)
unfolding execute start carry_out
domains-execute id block_ip target now m = refl
domains-execute id block_domain target now m = refl
domains-execute id quarantine_file target now m = refl
domains-execute id isolate_process target now m = refl
domains-execute id enable_honeypot target now m = refl
domains-execute id collect_forensics target now m = refl
domains-execute id rate_limit_source target now m = refl
domains-execute id drop_packets target now m = refl

pub execute-IsExplained :
    (id : String) (kind : ActionType) (target : String) (now : ℕ) (m : ActionModule)
    → find id m.active_actions ≡ none
    → IsExplained m
    → IsExplained (execute id kind target now m).0
execute-IsExplained id kind target now m fresh v =
    let acts = m.active_actions in
    let done = finished id kind target now in
    let before = actions-execute id kind target now m fresh in
    record {
      ips_once =
          rw ips-execute (ground (arith, v.ips_once, Distinct-push_new target m.blocked_ips));
      domains_once =
          rw domains-execute
            (ground (arith, v.domains_once, Distinct-push_new target m.blocked_domains));
      ips_justified = λ ip.
          rw (ips-execute, before, justified-append)
            (ground (
              arith,
              v.ips_justified ip,
              contains-push_new target ip m.blocked_ips,
              string_eq.equal_iff ip target,
              string_eq.equal_iff target ip,
            ));
      domains_justified = λ domain.
          rw (domains-execute, before, justified-append)
            (ground (
              arith,
              v.domains_justified domain,
              contains-push_new target domain m.blocked_domains,
              string_eq.equal_iff domain target,
              string_eq.equal_iff target domain,
            ));
    }
