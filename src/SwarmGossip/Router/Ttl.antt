-- ===== src/SwarmGossip/Router/Ttl.antt =====
-- services/swarm-gossip/src/main.rs: how far the copies of a message go.
use swarm_intelligence_netwo.Prelude.{
  ℕ, ◌+◌, ◌^◌, ◌≤◌, ◌<◌, String, ◌≡◌, refl, ap, ◌∙◌, inl, inr, Bool, true, false, Option, none,
  some, List, [], ◌∷◌, ◌++◌, arith, ltb, ◌==◌, string_eq, nat_eq, pair_eq, Bool-cases, Option-cases,
  u8, get_elem?, All, All-append,
}
use swarm_intelligence_netwo.Text.{Text, text_eq}
use swarm_intelligence_netwo.Gossip.{Sampler}
use swarm_intelligence_netwo.SwarmGossip.{
  BloomDupFilter, GossipState, random_fanout, seen_or_insert,
}
use swarm_intelligence_netwo.SwarmGossip.Router.{
  Json, Message, Turn, Node, HelloEnvelope, dot, peer, inbox_subject, or_zero, copies, forward,
  recorded, with_id, take_message, send_hello,
}
use swarm_intelligence_netwo.SwarmGossip.Router.Network.{
  Net, Event, says_hello, takes, hears, put_taken, put_hello, put_heard, put_inbox, step, run,
}

-- Each turn of an inbox runs with a `ttl` of at most `limit`.
abbrev pub AllTtl : {Rng : Type 0} → ℕ → List (Event Rng) → Type 0
AllTtl limit [] = Unit
AllTtl limit (says_hello i ts ∷ events) = AllTtl limit events
AllTtl limit (takes i k t ∷ events) = (t.ttl ≤ limit) × AllTtl limit events
AllTtl limit (hears i k ∷ events) = AllTtl limit events

module _ {V : Type 0} (json : Json V) where
  -- What the code relies on of `serde_json`, on the member `hops` alone: an unsigned number of 64
  -- bits is set in a value that has a `msg_id`, hence is an object, and the text that is written of a
  -- value has the same one when it is read. Of the other members nothing is asked.
  pub record JsonLaws : Type 0 where
    pub hops-to_vec :
        (v v' : V) (bytes : Text)
        → json.to_vec v ≡ some bytes
        → json.from_str bytes ≡ some v'
        → json.hops v' ≡ json.hops v
    pub hops-with_hops :
        (n : ℕ) (v : V) (id : String)
        → json.msg_id v ≡ some id
        → n < 2 ^ 64
        → json.hops (json.with_hops n v) ≡ some n
    pub hops-hello_to_vec :
        (e : HelloEnvelope) (v : V) (bytes : Text)
        → json.hello_to_vec e ≡ some bytes
        → json.from_str bytes ≡ some v
        → json.hops v ≡ some e.hops

  -- If the payload can be read, it has made at most `limit` hops.
  abbrev pub IsWithin : ℕ → Message → Type 0
  IsWithin limit m = (v : V) → json.from_str m.1 ≡ some v → or_zero (json.hops v) ≤ limit

  hops-IsWithin :
      (limit n : ℕ) (subject bytes : Text)
      → ((v : V) → json.from_str bytes ≡ some v → json.hops v ≡ some n)
      → n ≤ limit
      → IsWithin limit (subject, bytes)
  hops-IsWithin limit n subject bytes hops le =
      λ v read. omega (arith, le, ap or_zero (hops v read))

  copies-IsWithin :
      (laws : JsonLaws) (limit : ℕ) (prefix : Text) (hops : ℕ) (val : V) (targets : List String)
      (id : String)
      → json.msg_id val ≡ some id
      → hops + 1 < 2 ^ 64
      → hops + 1 ≤ limit
      → All (IsWithin limit) (copies json prefix hops val targets)
  unfolding copies
  copies-IsWithin laws limit prefix hops val [] id has fits le = tt
  copies-IsWithin laws limit prefix hops val (to ∷ targets) id has fits le =
      let later = copies-IsWithin laws limit prefix hops val targets id has fits le in
      let v = json.with_hops (hops + 1) val in
      elim (Option-cases (json.to_vec v)) [
        | inl bad ↦ rw bad later
        | inr (bytes, good) ↦ rw good (
          hops-IsWithin limit (hops + 1) (prefix ++ dot ∷ peer ++ dot ∷ json.as_bytes to) bytes
              (λ v' read.
                laws.hops-to_vec v v' bytes good read
                ∙ laws.hops-with_hops (hops + 1) val id has fits)
              le,
          later,
        )
      ]

  send_hello-IsWithin :
      (laws : JsonLaws) (limit : ℕ) (prefix : Text) (ts : ℕ) (s : GossipState)
      → All (IsWithin limit) (send_hello json prefix ts s)
  unfolding send_hello
  send_hello-IsWithin laws limit prefix ts s =
      let e : HelloEnvelope = record {
        msg_id = json.make_msg_id s.node_id;
        kind = "hello";
        ts = ts;
        node_id = s.node_id;
        hops = 0;
      } in
      elim (Option-cases (json.hello_to_vec e)) [
        | inl bad ↦ rw bad tt
        | inr (bytes, good) ↦ rw good (
          hops-IsWithin limit 0 (inbox_subject prefix) bytes
              (λ v read. laws.hops-hello_to_vec e v bytes good read) (omega arith),
          tt,
        )
      ]

  -- What a turn publishes, if it does not panic.
  abbrev pub AllWithin : ℕ → Option (Node × List Message) → Type 0
  AllWithin limit none = Unit
  AllWithin limit (some (n, out)) = All (IsWithin limit) out

  put_taken-IsWithin :
      (limit i : ℕ) (net : Net) (o : Option (Node × List Message))
      → All (IsWithin limit) net.bus
      → AllWithin limit o
      → All (IsWithin limit) (put_taken i net o).bus
  put_taken-IsWithin limit i net none bus out = bus
  put_taken-IsWithin limit i net (some (n, ms)) bus out =
      All-append (IsWithin limit) net.bus ms bus out

  put_hello-IsWithin :
      (laws : JsonLaws) (limit : ℕ) (prefix : Text) (ts : ℕ) (net : Net) (node : Option Node)
      → All (IsWithin limit) net.bus
      → All (IsWithin limit) (put_hello json prefix ts net node).bus
  put_hello-IsWithin laws limit prefix ts net none bus = bus
  put_hello-IsWithin laws limit prefix ts net (some n) bus =
      All-append (IsWithin limit) net.bus (send_hello json prefix ts n.state) bus
        (send_hello-IsWithin laws limit prefix ts n.state)

  put_heard-IsWithin :
      (limit i : ℕ) (net : Net) (node : Option Node) (m : Option Message)
      → All (IsWithin limit) net.bus
      → All (IsWithin limit) (put_heard json i net node m).bus
  put_heard-IsWithin limit i net none m bus = bus
  put_heard-IsWithin limit i net (some n) none bus = bus
  put_heard-IsWithin limit i net (some n) (some m) bus = bus

hops-fits : (n : ℕ) → u8 n + 1 < 2 ^ 64
hops-fits n = ground arith

module _ {V Rng : Type 0} ⦃sampler : Sampler Rng⦄ (json : Json V) (laws : JsonLaws json)
    (prefix : Text) where
  forward-IsWithin :
      (limit : ℕ) (t : Turn Rng) (val : V) (s : GossipState) (id : String)
      → json.msg_id val ≡ some id
      → t.ttl ≤ limit
      → All (IsWithin json limit) (forward json prefix t val s)
  unfolding forward
  forward-IsWithin limit t val s id has le =
      let hops = u8 (or_zero (json.hops val)) in
      let fits : hops + 1 < 2 ^ 64 = hops-fits (or_zero (json.hops val)) in
      elim (Bool-cases (ltb hops t.ttl)) [
        | inl on ↦ rw on (
            copies-IsWithin json laws limit prefix hops val (random_fanout t.rng t.fanout s) id has
              fits (ground (arith, on, le)))
        | inr off ↦ rw off tt
      ]

  recorded-AllWithin :
      (limit : ℕ) (t : Turn Rng) (val : V) (n : Node) (o : Option (BloomDupFilter × Bool))
      (id : String)
      → json.msg_id val ≡ some id
      → t.ttl ≤ limit
      → AllWithin json limit (recorded json prefix t val n o)
  recorded-AllWithin limit t val n none id has le = tt
  recorded-AllWithin limit t val n (some (f, true)) id has le =
      forward-IsWithin limit t val (record n.state { dup_filter = f }) id has le
  recorded-AllWithin limit t val n (some (f, false)) id has le = tt

  with_id-AllWithin :
      (limit : ℕ) (t : Turn Rng) (val : V) (n : Node) (o : Option String)
      → json.msg_id val ≡ o
      → t.ttl ≤ limit
      → AllWithin json limit (with_id json prefix t val n o)
  with_id-AllWithin limit t val n none has le = tt
  with_id-AllWithin limit t val n (some id) has le =
      recorded-AllWithin limit t val n
        (seen_or_insert json.hash_a json.hash_b id t.now n.state.dup_filter) id has le

  take_message-AllWithin :
      (limit : ℕ) (t : Turn Rng) (payload : Text) (n : Node)
      → t.ttl ≤ limit
      → AllWithin json limit (take_message json prefix t payload n)
  unfolding take_message
  take_message-AllWithin limit t payload n le = elim (Option-cases (json.from_str payload)) [
    | inl bad ↦ rw (bad, take_message) tt
    | inr (val, good) ↦
        rw (good, take_message) (with_id-AllWithin limit t val n (json.msg_id val) refl le)
  ]

  put_inbox-IsWithin :
      (limit i : ℕ) (t : Turn Rng) (net : Net) (node : Option Node) (m : Option Message)
      → t.ttl ≤ limit
      → All (IsWithin json limit) net.bus
      → All (IsWithin json limit) (put_inbox json prefix i t net node m).bus
  put_inbox-IsWithin limit i t net none m le bus = bus
  put_inbox-IsWithin limit i t net (some n) none le bus = bus
  put_inbox-IsWithin limit i t net (some n) (some (subject, payload)) le bus =
      elim (Bool-cases (subject == inbox_subject prefix)) [
        | inl ours ↦ rw ours (
            put_taken-IsWithin json limit i net (take_message json prefix t payload n) bus
              (take_message-AllWithin limit t payload n le))
        | inr other ↦ rw other bus
      ]

  -- Nothing on the bus has made more hops than `limit`, and every turn runs with a `ttl` of at most
  -- that. Then, whatever the services do and in whatever order, nothing on the bus ever has, for a
  -- library for JSON that reads back the hops it wrote.
  pub run-IsWithin :
      (limit : ℕ) (events : List (Event Rng)) (net : Net)
      → AllTtl limit events
      → All (IsWithin json limit) net.bus
      → All (IsWithin json limit) (run json prefix events net).bus
  unfolding run step
  run-IsWithin limit [] net ttls bus = bus
  run-IsWithin limit (says_hello i ts ∷ events) net ttls bus =
      let e : Event Rng = says_hello i ts in
      run-IsWithin limit events (step json prefix e net) ttls
        (put_hello-IsWithin json laws limit prefix ts net (get_elem? net.nodes i) bus)
  run-IsWithin limit (takes i k t ∷ events) net (le, ttls) bus =
      let e : Event Rng = takes i k t in
      run-IsWithin limit events (step json prefix e net) ttls
        (put_inbox-IsWithin limit i t net (get_elem? net.nodes i) (get_elem? net.bus k) le bus)
  run-IsWithin limit (hears i k ∷ events) net ttls bus =
      let e : Event Rng = hears i k in
      run-IsWithin limit events (step json prefix e net) ttls
        (put_heard-IsWithin json limit i net (get_elem? net.nodes i) (get_elem? net.bus k) bus)
