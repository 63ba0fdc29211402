-- ===== src/SwarmGossip/Router/Alone.antt =====
-- services/swarm-gossip/src/main.rs: what a service without peers does with one message.
use swarm_intelligence_netwo.Prelude.{
  ℕ, ◌<◌, String, ◌≡◌, refl, ap, ◌∙◌, inl, inr, Bool, true, false, Option, none, some, List, [],
  ◌∷◌, ◌++◌, arith, ltb, if◌then◌else◌, string_eq, nat_eq, pair_eq, Option-cases, u8, length,
}
use swarm_intelligence_netwo.Text.{Text, text_eq, split, split_between}
use swarm_intelligence_netwo.Gossip.{Sampler}
use swarm_intelligence_netwo.SwarmGossip.{
  BloomDupFilter, GossipState, random_fanout, seen_or_insert,
}
use swarm_intelligence_netwo.SwarmGossip.Router.{
  Json, Message, Turn, Node, dot, inbox, inbox_subject, last_or, last_part, or_zero, copies,
  forward, recorded, with_id, take_message, hear,
}

last_or-append :
    (d : Text) (ps rest : List Text) → 0 < length rest → last_or d (ps ++ rest) ≡ last_or d rest
last_or-append d [] rest some_rest = refl
last_or-append d (p ∷ ps) [] some_rest = absurd (omega (arith, some_rest))
last_or-append d (p ∷ ps) (r ∷ rest) some_rest = last_or-append p ps (r ∷ rest) (omega arith)

last_part-inbox_subject : (prefix : Text) → last_part (inbox_subject prefix) ≡ inbox
unfolding split
last_part-inbox_subject prefix =
    ap (λ (ts : List Text). last_or [] ts) (split_between dot prefix inbox)
    ∙ last_or-append [] (split dot prefix) (split dot inbox) (omega arith)

-- What a service without peers does with a message.
abbrev pub Quiet : Option (Node × List Message) → Type 0
Quiet none = Unit
Quiet (some (n, out)) = (n.state.peers ≡ []) × (out ≡ [])

if_same : {A : Type 0} (b : Bool) (x : A) → (if b then x else x) ≡ x
if_same true x = refl
if_same false x = refl

random_fanout-nobody :
    {Rng : Type 0} ⦃sampler : Sampler Rng⦄ (g : Rng) (n : ℕ) (s : GossipState)
    → s.peers ≡ []
    → random_fanout g n s ≡ []
unfolding random_fanout
random_fanout-nobody g n s alone = rw alone refl

abbrev pub IsAlone : Node → Type 0
IsAlone n = n.state.peers ≡ []

pub hear-inbox :
    {V : Type 0} (json : Json V) (prefix subject payload : Text) (s : GossipState)
    → subject ≡ inbox_subject prefix
    → hear json (subject, payload) s ≡ s
unfolding hear
hear-inbox json prefix subject payload s ours =
    rw (ap last_part ours ∙ last_part-inbox_subject prefix) refl

module _ {V Rng : Type 0} ⦃sampler : Sampler Rng⦄ (json : Json V) (prefix : Text) where
  forward-nobody :
      (t : Turn Rng) (val : V) (s : GossipState) → s.peers ≡ [] → forward json prefix t val s ≡ []
  unfolding forward copies
  forward-nobody t val s alone =
      rw (random_fanout-nobody t.rng t.fanout s alone)
        (if_same (ltb (u8 (or_zero (json.hops val))) t.ttl) [])

  recorded-Quiet :
      (t : Turn Rng) (val : V) (n : Node) (o : Option (BloomDupFilter × Bool))
      → n.state.peers ≡ []
      → Quiet (recorded json prefix t val n o)
  recorded-Quiet t val n none alone = tt
  recorded-Quiet t val n (some (f, true)) alone =
      (alone, forward-nobody t val (record n.state { dup_filter = f }) alone)
  recorded-Quiet t val n (some (f, false)) alone = (alone, refl)

  with_id-Quiet :
      (t : Turn Rng) (val : V) (n : Node) (o : Option String)
      → n.state.peers ≡ []
      → Quiet (with_id json prefix t val n o)
  with_id-Quiet t val n none alone = (alone, refl)
  with_id-Quiet t val n (some id) alone =
      recorded-Quiet t val n (seen_or_insert json.hash_a json.hash_b id t.now n.state.dup_filter)
        alone

  pub take_message-Quiet :
      (t : Turn Rng) (payload : Text) (n : Node)
      → n.state.peers ≡ []
      → Quiet (take_message json prefix t payload n)
  unfolding take_message
  take_message-Quiet t payload n alone = elim (Option-cases (json.from_str payload)) [
    | inl bad ↦ rw (bad, take_message) (alone, refl)
    | inr (val, good) ↦ rw (good, take_message) (with_id-Quiet t val n (json.msg_id val) alone)
  ]
