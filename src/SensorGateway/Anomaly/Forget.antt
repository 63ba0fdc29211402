-- ===== src/SensorGateway/Anomaly/Forget.antt =====
-- services/sensor-gateway/src/detection/anomaly.rs: pruning, against a detector that forgets nothing.
use swarm_intelligence_netwo.Prelude.{
  ℕ, ◌+◌, ◌*◌, ◌≤◌, ◌<◌, ◌≡◌, refl, sym, ap, ◌∙◌, inl, inr, List, [], ◌∷◌, ◌++◌, arith, ltb,
  string_eq, nat_eq, pair_eq, Bool-cases, All, All-append,
}
use mathlib.Core.List.{append_assoc}
use swarm_intelligence_netwo.SensorGateway.Anomaly.{
  AnomalyDetector, Clock, Events, second, as_secs, prune, push_event,
}
use swarm_intelligence_netwo.SensorGateway.Anomaly.Windows.{within, Ordered}

-- More than 15 minutes before the time.
abbrev pub Old : ℕ → ℕ × ℕ → Type 0
Old now e = e.0 + 60 * 15 * second < now

abbrev pub AllOld : ℕ → Events → Type 0
AllOld now es = All (Old now) es

AllOld-mono : (now later : ℕ) (es : Events) → now ≤ later → AllOld now es → AllOld later es
AllOld-mono now later [] le o = tt
AllOld-mono now later (e ∷ es) le (o, os) = (omega arith, AllOld-mono now later es le os)

-- What is pruned is a front part of old events.
prune-split :
    (now : ℕ) (es : Events)
    → (gone : Events) × (es ≡ gone ++ prune now (60 * 15) es) × AllOld now gone
unfolding prune
prune-split now [] = ([], refl, tt)
prune-split now ((t, size) ∷ es) = elim (Bool-cases (ltb (t + 60 * 15 * second) now)) [
  | inl old ↦
      let (gone, split, olds) = prune-split now es in
      rw old ((t, size) ∷ gone, ap (◌∷◌ (t, size)) split, (ground (arith, old), olds))
  | inr young ↦ rw young ([], refl, tt)
]

pub within-Old :
    (secs now : ℕ) (es : Events) → secs < 60 * 15 → AllOld now es → within secs now es ≡ 0
within-Old secs now [] short o = refl
within-Old secs now ((t, size) ∷ es) short (o, os) = ground (arith, within-Old secs now es short os)

Ordered-mono : (lo lo' hi : ℕ) (es : Events) → lo ≤ lo' → Ordered lo' es hi → Ordered lo es hi
Ordered-mono lo lo' hi [] le o = omega arith
Ordered-mono lo lo' hi ((t, size) ∷ es) le (le', o) = (omega arith, o)

Ordered-suffix : (lo hi : ℕ) (xs ys : Events) → Ordered lo (xs ++ ys) hi → Ordered lo ys hi
Ordered-suffix lo hi [] ys o = o
Ordered-suffix lo hi ((t, size) ∷ xs) ys (le, o) =
    Ordered-mono lo t hi ys le (Ordered-suffix t hi xs ys o)

-- Calls one after the other: the clock never goes back, within a call or between calls.
abbrev pub Onward : ℕ → List (Clock × ℕ) → Type 0
Onward start [] = Unit
Onward start ((c, size) ∷ calls) =
    (start ≤ c.now) × (c.now ≤ c.at_prune) × (c.at_prune ≤ c.at_stats) × Onward c.at_stats calls

abbrev pub last_reading : ℕ → List (Clock × ℕ) → ℕ
last_reading start [] = start
last_reading start ((c, size) ∷ calls) = last_reading c.at_stats calls

-- All that was ever recorded.
abbrev pub history : List (Clock × ℕ) → Events
history [] = []
history ((c, size) ∷ calls) = (c.now, size) ∷ history calls

Ordered-snoc :
    (lo mid t size hi : ℕ) (es : Events)
    → Ordered lo es mid
    → mid ≤ t
    → t ≤ hi
    → Ordered lo (es ++ (t, size) ∷ []) hi
Ordered-snoc lo mid t size hi [] o le le' = omega arith
Ordered-snoc lo mid t size hi ((u, s) ∷ es) (le0, o) le le' =
    (le0, Ordered-snoc u mid t size hi es o le le')

module _ {F : Type 0} where
  -- The detector has forgotten old events alone, and what it holds is in order.
  pub record Tracks (now : ℕ) (d : AnomalyDetector F) (all : Events) : Type 0 where
    pub gone : Events
    pub split : all ≡ gone ++ d.events
    pub forgotten : AllOld now gone
    pub in_order : Ordered 0 d.events now

  pub push_event-Tracks :
      (c : Clock) (size start : ℕ) (d : AnomalyDetector F) (all : Events)
      → Tracks start d all
      → start ≤ c.now
      → c.now ≤ c.at_prune
      → c.at_prune ≤ c.at_stats
      → Tracks c.at_stats (push_event c size d) (all ++ (c.now, size) ∷ [])
  unfolding push_event
  push_event-Tracks c size start d all t le le1 le2 =
      let es = d.events ++ (c.now, size) ∷ [] in
      let order : Ordered 0 es c.at_stats =
        Ordered-snoc 0 start c.now size c.at_stats d.events t.in_order le (omega arith) in
      let whole : all ++ (c.now, size) ∷ [] ≡ t.gone ++ es =
        rw t.split (append_assoc t.gone d.events ((c.now, size) ∷ [])) in
      let before : AllOld c.at_stats t.gone =
        AllOld-mono start c.at_stats t.gone (omega arith) t.forgotten in
      elim (Bool-cases (ltb 10 (as_secs c.now d.last_prune))) [
        | inr soon ↦
            rw soon (record { gone = t.gone; split = whole; forgotten = before; in_order = order })
        | inl due ↦
            let (pruned, parts, olds) = prune-split c.at_prune es in
            rw due (record {
              gone = t.gone ++ pruned;
              split =
                  whole
                  ∙ ap (λ (xs : Events). t.gone ++ xs) parts
                  ∙ sym (append_assoc t.gone pruned (prune c.at_prune (60 * 15) es));
              forgotten =
                  All-append (Old c.at_stats) t.gone pruned before
                    (AllOld-mono c.at_prune c.at_stats pruned le2 olds);
              in_order =
                  Ordered-suffix 0 c.at_stats pruned (prune c.at_prune (60 * 15) es)
                    (rw (sym parts) order);
            })
      ]
