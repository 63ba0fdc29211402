-- ===== src/SwarmGossip/Router.antt =====
-- services/swarm-gossip/src/main.rs: the loop over the inbox, the listener and the hello messages, over an
-- interface for JSON and SHA-256. Texts are the bytes of their UTF-8 form. The environment variables and
-- the random choice are arguments of each message; left out are the histogram and the log lines. What
-- NATS does with a published message is not asked. `none` is the panic of the filter.
pub mod Network
pub mod Alone
pub mod Lonely
pub mod Ttl
use swarm_intelligence_netwo.Prelude.{
  Distinct-snoc, all_recent, recent, length-recent, recent-recent, recent-append, make_room-push,
  push-make_room, ℕ, zero, suc, ◌+◌, ◌-◌, ◌*◌, ◌/◌, ◌%◌, ◌^◌, ◌≤◌, ◌<◌, min, max, String, ◌≡◌, refl,
  sym, ap, ◌∙◌, ◌≢◌, ◌↔◌, ◌⊎◌, inl, inr, Bool, true, false, not, ◌&&◌, ◌||◌, Option, none, some,
  List, [], ◌∷◌, ◌++◌, map, arith, ltb, leb, nat_beq, if◌then◌else◌, nat_beq_iff, Eq, ◌==◌,
  string_eq, nat_eq, pair_beq, pair_beq_iff, pair_eq, Bool-cases, Option-cases, some-injective,
  none-some, is_some, u64, u32, u8, u64_id, contains, insert, Distinct, Subset, equal_refl,
  contains-insert, contains-insert_self, length-insert, Distinct-insert, insert_of_contains,
  contains-append, contains-retain, Distinct-retain, length_mono-Subset, length-overlap, length,
  get_elem?, take, drop, replicate, retain, All, length-append, length-replicate, length-drop,
  length-take, take-append-drop, length-retain-le, All-append, length-map, Map, lookup, remove, put,
  lookup-remove, lookup-put,
}
use swarm_intelligence_netwo.Text.{Text, text_eq, split}
use swarm_intelligence_netwo.Gossip.{Sampler}
use swarm_intelligence_netwo.SwarmGossip.{
  BloomDupFilter, GossipState, add_peer, random_fanout, seen_or_insert,
}

-- `GossipEnvelope<GossipHello>`
pub record HelloEnvelope : Type 0 where
  pub msg_id : String
  pub kind : String
  pub ts : ℕ
  pub node_id : String
  pub hops : ℕ

-- `serde_json`, its values `V`, and the hashes of the filter and of ids.
pub record Json (V : Type 0) : Type 0 where
  pub from_str : Text → Option V
  pub to_vec : V → Option Text
  pub hello_to_vec : HelloEnvelope → Option Text
  -- `val.get(..)` with `as_str` or `as_u64`
  pub msg_id : V → Option String
  pub kind : V → Option String
  pub payload_node_id : V → Option String
  pub hops : V → Option ℕ
  -- The value of `hops` set, or added where there is none.
  pub with_hops : ℕ → V → V
  pub as_bytes : String → Text
  pub make_msg_id : String → String
  pub hash_a : String → ℕ
  pub hash_b : String → ℕ

-- The subject and the payload.
abbrev pub Message : Type 0
Message = Text × Text

-- The variables of one turn, `ttl` an `u8`.
pub record Turn (Rng : Type 0) : Type 0 where
  pub ttl : ℕ
  pub fanout : ℕ
  pub rng : Rng
  pub now : ℕ

pub record Counters : Type 0 where
  pub duplicates : ℕ
  pub received : ℕ
  pub forwarded : ℕ

pub record Node : Type 0 where
  pub state : GossipState
  pub counters : Counters

abbrev pub dot : ℕ
dot = b'.'

abbrev pub inbox : Text
inbox = b'i' ∷ b'n' ∷ b'b' ∷ b'o' ∷ b'x' ∷ []

abbrev pub peer : Text
peer = b'p' ∷ b'e' ∷ b'e' ∷ b'r' ∷ []

abbrev pub inbox_subject : Text → Text
inbox_subject prefix = prefix ++ dot ∷ inbox

abbrev pub or_zero : Option ℕ → ℕ
or_zero none = 0
or_zero (some n) = n

abbrev pub or_empty : Option String → String
or_empty none = ""
or_empty (some s) = s

abbrev pub is_hello : Option String → Bool
is_hello none = false
is_hello (some k) = k == "hello"

abbrev pub last_or : Text → List Text → Text
last_or default [] = default
last_or default (t ∷ ts) = last_or t ts

-- `split('.').last()`
abbrev pub last_part : Text → Text
last_part subject = last_or [] (split dot subject)

abbrev pub published : Text → Option Text → List Message
published subject none = []
published subject (some bytes) = (subject, bytes) ∷ []

module _ {V : Type 0} (json : Json V) where
  abbrev pub one_copy : Text → String → Option Text → List Message → List Message
  one_copy prefix to none rest = rest
  one_copy prefix to (some buf) rest = (prefix ++ dot ∷ peer ++ dot ∷ json.as_bytes to, buf) ∷ rest

  -- The loop over the targets; a copy that is not serialised is not sent.
  unfoldable pub copies : Text → ℕ → V → List String → List Message
  copies prefix hops val [] = []
  copies prefix hops val (to ∷ targets) =
      one_copy prefix to (json.to_vec (json.with_hops (hops + 1) val))
        (copies prefix hops val targets)

module _ {V Rng : Type 0} ⦃sampler : Sampler Rng⦄ (json : Json V) where
  -- A new message goes on where it has made fewer hops than `ttl`; `as u8` cuts the number.
  unfoldable pub forward : Text → Turn Rng → V → GossipState → List Message
  forward prefix t val s =
      let hops = u8 (or_zero (json.hops val)) in
      if ltb hops t.ttl then copies json prefix hops val (random_fanout t.rng t.fanout s) else []

  abbrev pub received_new : Text → Turn Rng → V → Node → GossipState → Node × List Message
  received_new prefix t val n s =
      let out = forward prefix t val s in
      let more = if ltb 0 (length out) then n.counters.forwarded + 1 else n.counters.forwarded in
      (
        record {
          state = s;
          counters = record n.counters { received = n.counters.received + 1; forwarded = more };
        },
        out,
      )

  abbrev pub recorded :
      Text → Turn Rng → V → Node → Option (BloomDupFilter × Bool) → Option (Node × List Message)
  recorded prefix t val n none = none
  recorded prefix t val n (some (f, true)) =
      some (received_new prefix t val n (record n.state { dup_filter = f }))
  recorded prefix t val n (some (f, false)) = some (
    record {
      state = record n.state { dup_filter = f };
      counters = record n.counters { duplicates = n.counters.duplicates + 1 };
    },
    [],
  )

  abbrev pub with_id : Text → Turn Rng → V → Node → Option String → Option (Node × List Message)
  with_id prefix t val n none = some (n, [])
  with_id prefix t val n (some id) =
      recorded prefix t val n (seen_or_insert json.hash_a json.hash_b id t.now n.state.dup_filter)

  -- The body of `run_gossip_loop`, and what it publishes.
  unfoldable pub take_message : Text → Turn Rng → Text → Node → Option (Node × List Message)
  take_message prefix t payload n = elim (json.from_str payload) [
    | none ↦ some (n, [])
    | some val ↦ with_id prefix t val n (json.msg_id val)
  ]

module _ {V : Type 0} (json : Json V) where
  abbrev pub hello_from : V → GossipState → GossipState
  hello_from env s =
      let node_id = or_empty (json.payload_node_id env) in
      if is_hello (json.kind env) then if node_id == "" then s else add_peer node_id s else s

  -- The body of `run_peer_listener`.
  unfoldable pub hear : Message → GossipState → GossipState
  hear (subject, payload) s =
      let heard : GossipState = elim (json.from_str payload) [
        | none ↦ s
        | some env ↦ hello_from env s
      ] in
      if last_part subject == inbox then s else if last_part subject == peer then s else heard

  unfoldable pub send_hello : Text → ℕ → GossipState → List Message
  send_hello prefix ts s = published (inbox_subject prefix) (
      json.hello_to_vec (record {
        msg_id = json.make_msg_id s.node_id;
        kind = "hello";
        ts = ts;
        node_id = s.node_id;
        hops = 0;
      }))
