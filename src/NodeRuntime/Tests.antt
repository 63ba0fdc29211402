-- ===== src/NodeRuntime/Tests.antt =====
-- Runs of the modules of a node.
use swarm_intelligence_netwo.Prelude.{
  recent, min, ◌≡◌, refl, true, none, [], ◌∷◌, arith, string_eq, nat_eq, pair_eq, contains,
  Distinct,
}
use swarm_intelligence_netwo.NodeRuntime.Sensor.{
  default_config, get_recent_readings, ticks, all_sampled, get_recent_readings-ticks,
}
use swarm_intelligence_netwo.NodeRuntime.Sensor.{new as new_sensor}
use swarm_intelligence_netwo.NodeRuntime.Communication.{
  CommunicationModule, change_all, change_all-joined, joined, joins, leaves, add_peer,
}
use swarm_intelligence_netwo.NodeRuntime.Communication.{new as new_communication}
use swarm_intelligence_netwo.NodeRuntime.Action.{
  ActionModule, Action, start, carry_out, set_status, find, execute, rollback, new, block_ip,
  completed,
}
use swarm_intelligence_netwo.NodeRuntime.Action.Blocked.{IsExplained}
use swarm_intelligence_netwo.NodeRuntime.Action.Rollback.{
  here, executes, rolls_back, Reach-IsExplained,
}

get_recent_readings-ticks_example :
    get_recent_readings 3 (ticks ((1, 2) ∷ (3, 4) ∷ []) (new_sensor default_config))
    ≡ recent (min 3 1000) (all_sampled default_config ((1, 2) ∷ (3, 4) ∷ []))
get_recent_readings-ticks_example =
    get_recent_readings-ticks 3 default_config ((1, 2) ∷ (3, 4) ∷ [])

abbrev with_peer : CommunicationModule
with_peer = add_peer "a" (new_communication "me" true)

one_peer : Distinct with_peer.peers
unfolding new_communication add_peer contains
one_peer = ground arith

change_all-joined_example :
    let c = change_all (joins "b" ∷ leaves "a" ∷ joins "a" ∷ []) with_peer in
    Distinct c.peers
    × (contains c.peers "a"
        ≡ joined "a" (contains with_peer.peers "a") (joins "b" ∷ leaves "a" ∷ joins "a" ∷ []))
change_all-joined_example =
    change_all-joined (joins "b" ∷ leaves "a" ∷ joins "a" ∷ []) with_peer "a" one_peer

new-IsExplained : IsExplained new
unfolding new contains
new-IsExplained = record {
  ips_once = tt;
  domains_once = tt;
  ips_justified = λ ip h. cc;
  domains_justified = λ domain h. cc;
}

abbrev blocked_once : ActionModule
blocked_once = (execute "i1" block_ip "10.0.0.1" 5 new).0

abbrev blocked_twice : ActionModule
blocked_twice = (execute "i2" block_ip "10.0.0.1" 6 blocked_once).0

first_id : find "i1" new.active_actions ≡ none
unfolding new find
first_id = refl

second_id : find "i2" blocked_once.active_actions ≡ none
unfolding new execute start carry_out set_status find
second_id = refl

Reach-IsExplained_example : IsExplained (rollback "i1" blocked_twice)
Reach-IsExplained_example = Reach-IsExplained new-IsExplained (
    rolls_back
      (executes (executes here "i1" block_ip "10.0.0.1" 5 first_id) "i2" block_ip "10.0.0.1" 6
        second_id)
      "i1")

abbrev first_action : Action
first_action = record {
  id = "i1";
  action_type = block_ip;
  target = "10.0.0.1";
  timestamp = 5;
  status = completed;
  metadata = [];
}
