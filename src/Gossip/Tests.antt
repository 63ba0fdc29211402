-- ===== src/Gossip/Tests.antt =====
-- Runs of the gossip engine with a random source that always takes the first peers.
use swarm_intelligence_netwo.Prelude.{
  min, ◌≡◌, refl, true, false, none, some, List, [], ◌∷◌, arith, string_eq, nat_eq, pair_eq,
  contains, insert, Distinct, Subset, length, All,
}
use swarm_intelligence_netwo.Gossip.First.{first_ones}
use swarm_intelligence_netwo.Gossip.{GossipMessage, GossipEngine, ingest, new, add_peer, alert}
use swarm_intelligence_netwo.Gossip.Once.{
  ingest_all, ingest_all-silent, IsTally-ingest_all, IsTally, HasRoom, sends,
}
use swarm_intelligence_netwo.Gossip.Hops.{ingest_new, receivers, IsCopy}

abbrev engine : GossipEngine
engine = add_peer "c" (add_peer "b" (add_peer "a" (new (some 2) none)))

abbrev hello : GossipMessage
hello = record { id = "m1"; kind = alert; ts = 5; hops = 7; ttl = 8; payload = [] }

abbrev told : GossipEngine
told = (ingest tt hello engine).0

two_copies : receivers (ingest tt hello engine).1 ≡ "c" ∷ "b" ∷ []
unfolding ingest new add_peer insert contains
two_copies = refl

no_peer_twice : Distinct engine.peers
unfolding new add_peer insert contains
no_peer_twice = ground arith

unknown : contains engine.seen hello.id ≡ false
unfolding new add_peer contains
unknown = refl

known : contains told.seen "m1" ≡ true
unfolding ingest new add_peer insert contains
known = refl

ingest_new_example :
    let out = (ingest tt hello engine).1 in
    (length (receivers out) ≡ min engine.fanout (length engine.peers))
    × Distinct (receivers out)
    × Subset (receivers out) engine.peers
    × All (IsCopy hello) out
ingest_new_example = ingest_new tt hello engine unknown (omega arith) (omega arith) no_peer_twice

abbrev again : List (Unit {0} × GossipMessage)
again = (tt, hello) ∷ (tt, record hello { hops = 0 }) ∷ []

ingest_all-silent_example : sends "m1" (ingest_all again told).1 ≡ false
ingest_all-silent_example = ingest_all-silent again told "m1" known

room : HasRoom 2 engine
unfolding new add_peer
room = ground arith

IsTally-ingest_all_example :
    IsTally 2 engine (ingest_all again engine).0 (ingest_all again engine).1
IsTally-ingest_all_example = IsTally-ingest_all again engine room
