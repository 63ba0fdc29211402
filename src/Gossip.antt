-- ===== src/Gossip.antt =====
-- libs/rust/core/src/gossip.rs: the gossip engine. `ingest` and `publish` take the random source and
-- what the clock and the id generator give; environment variables are the arguments of `new`.
-- `choose_multiple` of the crate `rand` is an interface, `Sampler`.
pub mod First
pub mod Once
pub mod Hops
mod Tests
use swarm_intelligence_netwo.Prelude.{
  ℕ, zero, suc, ◌+◌, ◌-◌, ◌*◌, ◌/◌, ◌%◌, ◌^◌, ◌≤◌, ◌<◌, min, max, String, ◌≡◌, refl, sym, ap, ◌∙◌,
  ◌≢◌, ◌↔◌, ◌⊎◌, inl, inr, Bool, true, false, not, ◌&&◌, ◌||◌, Option, none, some, List, [], ◌∷◌,
  ◌++◌, map, arith, ltb, leb, nat_beq, if◌then◌else◌, nat_beq_iff, Eq, ◌==◌, string_eq, nat_eq,
  pair_beq, pair_beq_iff, pair_eq, Bool-cases, Option-cases, is_some, u64, u32, u8, u64_id,
  contains, insert, Distinct, Subset, equal_refl, contains-insert, contains-insert_self,
  length-insert, Distinct-insert, insert_of_contains, contains-append, contains-retain,
  Distinct-retain, length_mono-Subset, length-overlap, length, get_elem?, take, drop, replicate,
  retain, All, length-append, length-drop, length-take, take-append-drop, length-retain-le,
  All-append, length-map, Map, lookup, remove, put, lookup-remove, lookup-put,
}

pub data GossipKind : Type 0 where
  alert : GossipKind
  intelligence : GossipKind
  model_update : GossipKind
  membership : GossipKind
  custom : String → GossipKind

pub record GossipMessage : Type 0 where
  pub id : String
  pub kind : GossipKind
  pub ts : ℕ
  pub hops : ℕ
  pub ttl : ℕ
  pub payload : List ℕ

pub record GossipStats : Type 0 where
  pub received : ℕ
  pub forwarded : ℕ
  pub duplicates : ℕ

pub record GossipEngine : Type 0 where
  pub peers : List String
  pub seen : List String
  pub stats : GossipStats
  pub fanout : ℕ
  pub ttl : ℕ

-- `choose_multiple` takes distinct elements, as many as asked for or as there are.
pub record Sampler (Rng : Type 0) : Type 0 where
  pub choose : Rng → ℕ → List String → List String
  pub length-choose :
      (g : Rng) (n : ℕ) (xs : List String) → length (choose g n xs) ≡ min n (length xs)
  pub choose-Subset : (g : Rng) (n : ℕ) (xs : List String) → Subset (choose g n xs) xs
  pub choose-Distinct :
      (g : Rng) (n : ℕ) (xs : List String) → Distinct xs → Distinct (choose g n xs)

-- What is sent: the peer and the message.
abbrev pub Sent : Type 0
Sent = List (String × GossipMessage)

abbrev pub message : String → GossipKind → ℕ → ℕ → List ℕ → GossipMessage
message id kind now ttl payload = record {
  id = id;
  kind = kind;
  ts = now;
  hops = 0;
  ttl = ttl;
  payload = payload;
}

-- The values of GOSSIP_FANOUT and GOSSIP_TTL_HOPS, 4 and 8 where they do not parse.
abbrev pub or_default : ℕ → Option ℕ → ℕ
or_default n none = n
or_default n (some m) = m

unfoldable pub new : Option ℕ → Option ℕ → GossipEngine
new fanout ttl = record {
  peers = [];
  seen = [];
  stats = record { received = 0; forwarded = 0; duplicates = 0 };
  fanout = or_default 4 fanout;
  ttl = or_default 8 ttl;
}

unfoldable pub add_peer : String → GossipEngine → GossipEngine
add_peer id e = record e { peers = insert id e.peers }

abbrev pub to_all : GossipMessage → List String → Sent
to_all msg ps = map (λ p. (p, msg)) ps

abbrev pub counted : GossipStats → GossipStats
counted st = record st { received = u64 (st.received + 1) }

module _ {Rng : Type 0} ⦃sampler : Sampler Rng⦄ where
  unfoldable pub ingest : Rng → GossipMessage → GossipEngine → GossipEngine × Sent
  ingest g msg e =
      let st = counted e.stats in
      let next = record msg { hops = u8 (msg.hops + 1) } in
      let out = to_all next (sampler.choose g (min e.fanout (length e.peers)) e.peers) in
      let e' = record e { stats = st; seen = insert msg.id e.seen } in
      if contains e.seen msg.id
      then (record e { stats = record st { duplicates = u64 (st.duplicates + 1) } }, [])
      else if leb msg.ttl msg.hops
      then (e', [])
      else (record e' { stats = record st { forwarded = u64 (st.forwarded + length out) } }, out)

  -- `id` and `now` are the new UUID and the time.
  unfoldable pub publish :
      Rng → String → GossipKind → ℕ → List ℕ → GossipEngine → GossipEngine × Sent
  unfolding ingest
  publish g id kind now payload e = ingest g (message id kind now e.ttl payload) e
