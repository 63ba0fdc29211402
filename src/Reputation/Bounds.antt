-- ===== src/Reputation/Bounds.antt =====
-- libs/rust/core/src/reputation.rs: the scores stay within their bounds.
use swarm_intelligence_netwo.Prelude.{
  ℕ, ◌-◌, String, ◌≡◌, refl, sym, ap, ◌∙◌, inl, inr, Bool, true, false, ◌||◌, Option, none, some,
  List, [], ◌∷◌, arith, ◌==◌, string_eq, nat_eq, pair_eq, Option-cases, is_some, Map, lookup, put,
  lookup-put,
}
use swarm_intelligence_netwo.Float.{Float, OrderLaws, clamp}
use swarm_intelligence_netwo.Reputation.{
  ReputationEntry, ReputationConfig, ReputationService, Readings, new, clamped, decayed_score,
  half_max, as_secs_f64, get, or_insert, rescore, stored, adjust, reward, penalize,
}

pub data Op : Type 0 where
  rewards : String → Readings → Op
  penalizes : String → Readings → Op

abbrev pub node_of : Op → String
node_of (rewards node t) = node
node_of (penalizes node t) = node

-- Some operation is about the node.
abbrev pub is_adjusted : String → List Op → Bool
is_adjusted node [] = false
is_adjusted node (op ∷ ops) = node_of op == node || is_adjusted node ops

or_false : (b : Bool) → (b || false) ≡ b
or_false true = refl
or_false false = refl

module _ {F : Type 0} ⦃f : Float F⦄ where
  -- `x` is neither below `low` nor above `high`.
  abbrev pub InBounds : F → F → F → Type 0
  InBounds low high x = (f.lt x low ≡ false) × (f.lt high x ≡ false)

  clamp-InBounds :
      (laws : OrderLaws f) (low high x : F)
      → f.le low high ≡ true
      → InBounds low high (clamp low high x)
  clamp-InBounds laws low high x ordered =
      ground (arith, laws.lt_irrefl low, laws.lt_irrefl high, laws.not_lt_of_le low high ordered)

  clamped-InBounds :
      (laws : OrderLaws f) (low high x : F)
      → f.le low high ≡ true
      → (y : F) × (clamped low high x ≡ some y) × InBounds low high y
  unfolding clamped
  clamped-InBounds laws low high x ordered =
      (clamp low high x, rw (ordered, clamped) refl, clamp-InBounds laws low high x ordered)

  decayed_score-InBounds :
      (laws : OrderLaws f) (cfg : ReputationConfig F) (now : ℕ) (e : ReputationEntry F)
      → f.le cfg.min_score cfg.max_score ≡ true
      → (y : F) × (decayed_score cfg now e ≡ some y) × InBounds cfg.min_score cfg.max_score y
  unfolding decayed_score
  decayed_score-InBounds laws cfg now e ordered =
      let decay_factor =
        f.powf (f.lit 5 1)
          (f.div (as_secs_f64 (now - e.last_update)) (f.of_nat cfg.half_life_secs)) in
      clamped-InBounds laws cfg.min_score cfg.max_score (f.mul e.score decay_factor) ordered

  unfoldable pub do_op : Op → ReputationService F → Option (ReputationService F)
  do_op (rewards node t) s = reward node t s
  do_op (penalizes node t) s = penalize node t s

  -- The operations one after another; a panic ends them.
  unfoldable pub run : List Op → ReputationService F → Option (ReputationService F)
  run [] s = some s
  run (op ∷ ops) s = elim (do_op op s) [ none ↦ none | some s' ↦ run ops s' ]

  -- What an operation leaves behind: the entry of its node is new, and the rest is as before.
  record Adjusted (node : String) (s : ReputationService F) (o : Option (ReputationService F))
      : Type 0 where
    entry : ReputationEntry F
    result : ReputationService F
    ends : o ≡ some result
    same_cfg : result.cfg ≡ s.cfg
    put_entry : result.entries ≡ put node entry s.entries

  clamped-some : (low high x : F) → f.le low high ≡ true → (y : F) × (clamped low high x ≡ some y)
  unfolding clamped
  clamped-some low high x ordered = (clamp low high x, rw (ordered, clamped) refl)

  decayed_some :
      (cfg : ReputationConfig F) (now : ℕ) (e : ReputationEntry F)
      → f.le cfg.min_score cfg.max_score ≡ true
      → (y : F) × (decayed_score cfg now e ≡ some y)
  unfolding decayed_score
  decayed_some cfg now e ordered =
      let decay_factor =
        f.powf (f.lit 5 1)
          (f.div (as_secs_f64 (now - e.last_update)) (f.of_nat cfg.half_life_secs)) in
      clamped-some cfg.min_score cfg.max_score (f.mul e.score decay_factor) ordered

  adjust-Adjusted :
      (node : String) (delta : F) (t : Readings) (s : ReputationService F)
      → f.le s.cfg.min_score s.cfg.max_score ≡ true
      → Adjusted node s (adjust node delta t s)
  unfolding adjust
  adjust-Adjusted node delta t s ordered =
      let fresh : ReputationEntry F = record {
        score = half_max s.cfg;
        last_update = t.at_insert;
      } in
      let entry = or_insert fresh (lookup node s.entries) in
      let (current, decayed) = decayed_some s.cfg t.at_decay entry ordered in
      let (score, e) = clamped-some s.cfg.min_score s.cfg.max_score (f.add current delta) ordered in
      let new_entry : ReputationEntry F = record { score = score; last_update = t.at_update } in
      record {
        entry = new_entry;
        result = record s { entries = put node new_entry s.entries };
        ends =
            ap (λ (o : Option F). stored node t.at_update s (rescore s.cfg delta o)) decayed
            ∙ ap (stored node t.at_update s) e;
        same_cfg = refl;
        put_entry = refl;
      }

  do_op-Adjusted :
      (op : Op) (s : ReputationService F)
      → f.le s.cfg.min_score s.cfg.max_score ≡ true
      → Adjusted (node_of op) s (do_op op s)
  unfolding do_op reward penalize
  do_op-Adjusted (rewards node t) s ordered = adjust-Adjusted node s.cfg.reward t s ordered
  do_op-Adjusted (penalizes node t) s ordered =
      adjust-Adjusted node (f.neg s.cfg.penalty) t s ordered

  -- The nodes with an entry are those of before and those that `ops` are about.
  record Ran (ops : List Op) (s : ReputationService F) : Type 0 where
    result : ReputationService F
    ends : run ops s ≡ some result
    same_cfg : result.cfg ≡ s.cfg
    known :
        (node : String)
        → is_some (lookup node result.entries)
          ≡ (is_adjusted node ops || is_some (lookup node s.entries))

  known-put :
      (j k : String) (e : ReputationEntry F) (m m' : Map String (ReputationEntry F)) (b : Bool)
      → m' ≡ put k e m
      → (b || is_some (lookup j m')) ≡ ((k == j || b) || is_some (lookup j m))
  known-put j k e m m' b there = rw (there, lookup-put k j e m) (ground arith)

  run-Ran :
      (ops : List Op) (s : ReputationService F)
      → f.le s.cfg.min_score s.cfg.max_score ≡ true
      → Ran ops s
  unfolding run
  run-Ran [] s ordered = record { result = s; ends = refl; same_cfg = refl; known = λ node. refl }
  run-Ran (op ∷ ops) s ordered =
      let a = do_op-Adjusted op s ordered in
      let r = run-Ran ops a.result (rw a.same_cfg ordered) in
      record {
        result = r.result;
        ends = rw (a.ends, run) r.ends;
        same_cfg = r.same_cfg ∙ a.same_cfg;
        known = λ node.
            r.known node
            ∙ known-put node (node_of op) a.entry s.entries a.result.entries (is_adjusted node ops)
                a.put_entry;
      }

  -- The score that `get` shows of a node with an entry, and of one without.
  abbrev pub Shown : ReputationConfig F → Bool → F → Type 0
  Shown cfg true x = InBounds cfg.min_score cfg.max_score x
  Shown cfg false x = x ≡ half_max cfg

  Shown-at :
      {c c' : ReputationConfig F} {b b' : Bool} (x : F)
      → c ≡ c'
      → b ≡ b'
      → Shown c b x
      → Shown c' b' x
  Shown-at x e e' t = rw (sym e, sym e') t

  get-Shown :
      (laws : OrderLaws f) (node : String) (now : ℕ) (s : ReputationService F)
      → f.le s.cfg.min_score s.cfg.max_score ≡ true
      → (x : F) × (get node now s ≡ some x) × Shown s.cfg (is_some (lookup node s.entries)) x
  unfolding get
  get-Shown laws node now s ordered = elim (Option-cases (lookup node s.entries)) [
    | inl unknown ↦ (half_max s.cfg, rw (unknown, get) refl, rw unknown refl)
    | inr (e, known) ↦
        let (x, shown, bounds) = decayed_score-InBounds laws s.cfg now e ordered in
        (x, rw (known, get) shown, rw known bounds)
  ]

  -- The bounds of the configuration are in order. Then no rewards and penalties of any nodes, at any
  -- readings of the clock, make the service panic; and what it shows afterwards of a node that some of
  -- them are about is neither below the least score nor above the greatest, at any time, and of
  -- any other node it is half the greatest.
  pub run-Shown :
      (laws : OrderLaws f) (cfg : ReputationConfig F) (ops : List Op) (node : String) (now : ℕ)
      → f.le cfg.min_score cfg.max_score ≡ true
      → (s : ReputationService F) × (x : F) × (run ops (new cfg) ≡ some s)
        × (get node now s ≡ some x)
        × Shown cfg (is_adjusted node ops) x
  unfolding new lookup
  run-Shown laws cfg ops node now ordered =
      let r = run-Ran ops (new cfg) ordered in
      let (x, e, shown) = get-Shown laws node now r.result (rw r.same_cfg ordered) in
      (
        r.result,
        x,
        r.ends,
        e,
        Shown-at x r.same_cfg (r.known node ∙ or_false (is_adjusted node ops)) shown,
      )
