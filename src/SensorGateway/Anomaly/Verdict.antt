-- ===== src/SensorGateway/Anomaly/Verdict.antt =====
-- services/sensor-gateway/src/detection/anomaly.rs: the verdicts of the detector.
use swarm_intelligence_netwo.Prelude.{
  ℕ, ◌*◌, ◌<◌, ◌≡◌, refl, sym, ap, ◌∙◌, some, List, [], ◌∷◌, ◌++◌, arith, string_eq, nat_eq,
  pair_eq,
}
use mathlib.Core.List.{append-nil, append_assoc}
use swarm_intelligence_netwo.Float.{Float}
use swarm_intelligence_netwo.SensorGateway.Anomaly.{
  AnomalyConfig, AnomalyDetector, Clock, Events, compute_stats, new, push_event, record_size,
  exceeds,
}
use swarm_intelligence_netwo.SensorGateway.Anomaly.Windows.{
  within, compute_stats-within, within-append,
}
use swarm_intelligence_netwo.SensorGateway.Anomaly.Forget.{
  Tracks, push_event-Tracks, Onward, last_reading, history, within-Old,
}

last_reading-snoc :
    (calls : List (Clock × ℕ)) (start : ℕ) (c : Clock) (size : ℕ)
    → last_reading start (calls ++ (c, size) ∷ []) ≡ c.at_stats
last_reading-snoc [] start c size = refl
last_reading-snoc ((c', size') ∷ calls) start c size = last_reading-snoc calls c'.at_stats c size

cfg-new : {F : Type 0} (cfg : AnomalyConfig F) (start : ℕ) → (new cfg start).cfg ≡ cfg
unfolding new
cfg-new cfg start = refl

Tracks-at :
    {F : Type 0} {now now' : ℕ} {d d' : AnomalyDetector F} {all : Events}
    → now ≡ now'
    → d ≡ d'
    → Tracks now d all
    → Tracks now' d' all
Tracks-at e e' t = rw (sym e, sym e') t

new-Tracks : {F : Type 0} (cfg : AnomalyConfig F) (start : ℕ) → Tracks start (new cfg start) []
unfolding new
new-Tracks cfg start = record { gone = []; split = refl; forgotten = tt; in_order = omega arith }

module _ {F : Type 0} ⦃f : Float F⦄ where
  unfoldable pub record_sizes : List (Clock × ℕ) → AnomalyDetector F → AnomalyDetector F
  record_sizes [] d = d
  record_sizes ((c, size) ∷ calls) d = record_sizes calls (record_size c size d).0

  cfg-record_size :
      (c : Clock) (size : ℕ) (d : AnomalyDetector F) → (record_size c size d).0.cfg ≡ d.cfg
  unfolding record_size push_event
  cfg-record_size c size d = ground arith

  cfg-record_sizes :
      (calls : List (Clock × ℕ)) (d : AnomalyDetector F) → (record_sizes calls d).cfg ≡ d.cfg
  unfolding record_sizes
  cfg-record_sizes [] d = refl
  cfg-record_sizes ((c, size) ∷ calls) d =
      cfg-record_sizes calls (record_size c size d).0 ∙ cfg-record_size c size d

  detector-record_size :
      (c : Clock) (size : ℕ) (d : AnomalyDetector F)
      → (record_size c size d).0 ≡ push_event c size d
  unfolding record_size
  detector-record_size c size d = refl

  record_sizes-Tracks :
      (calls : List (Clock × ℕ)) (start : ℕ) (d : AnomalyDetector F) (all : Events)
      → Tracks start d all
      → Onward start calls
      → Tracks (last_reading start calls) (record_sizes calls d) (all ++ history calls)
        × ((record_sizes calls d).cfg ≡ d.cfg)
  unfolding record_sizes
  record_sizes-Tracks [] start d all t o = (rw append-nil t, refl)
  record_sizes-Tracks ((c, size) ∷ calls) start d all t (le, le1, le2, o) =
      let d' = (record_size c size d).0 in
      let t' : Tracks c.at_stats d' (all ++ (c.now, size) ∷ []) =
        rw detector-record_size (push_event-Tracks c size start d all t le le1 le2) in
      let (t'', same) = record_sizes-Tracks calls c.at_stats d' (all ++ (c.now, size) ∷ []) t' o in
      (
        rw (sym (append_assoc all ((c.now, size) ∷ []) (history calls))) t'',
        same ∙ cfg-record_size c size d,
      )

  -- Old events are in none of the two windows.
  within-Tracks :
      (secs now : ℕ) (d : AnomalyDetector F) (all : Events)
      → secs < 60 * 15
      → Tracks now d all
      → within secs now d.events ≡ within secs now all
  within-Tracks secs now d all short t =
      rw (t.split, within-append) (omega (arith, within-Old secs now t.gone short t.forgotten))

  verdict-stats :
      (c : Clock) (size : ℕ) (d : AnomalyDetector F)
      → let d' = (record_size c size d).0 in
        let stats = compute_stats c.at_stats d'.events in
        (record_size c size d).1 ≡ some (exceeds d'.cfg stats.window_1m stats.window_5m)
  unfolding record_size
  verdict-stats c size d = refl

  record_sizes-snoc :
      (calls : List (Clock × ℕ)) (c : Clock) (size : ℕ) (d : AnomalyDetector F)
      → record_sizes (calls ++ (c, size) ∷ []) d ≡ (record_size c size (record_sizes calls d)).0
  unfolding record_sizes
  record_sizes-snoc [] c size d = refl
  record_sizes-snoc ((c', size') ∷ calls) c size d =
      record_sizes-snoc calls c size (record_size c' size' d).0

  verdict-record_size :
      (c : Clock) (size : ℕ) (d : AnomalyDetector F) (all : Events)
      → Tracks c.at_stats (record_size c size d).0 all
      → (record_size c size d).1
        ≡ some (exceeds d.cfg (within 60 c.at_stats all) (within (60 * 5) c.at_stats all))
  verdict-record_size c size d all t =
      let d' = (record_size c size d).0 in
      verdict-stats c size d
      ∙ rw
          (
            compute_stats-within c.at_stats 0 c.at_stats d'.events t.in_order,
            within-Tracks 60 c.at_stats d' all (omega arith) t,
            within-Tracks (60 * 5) c.at_stats d' all (omega arith) t,
            cfg-record_size c size d,
          )
          refl

  -- A new detector records any sizes, by a clock that never goes back. Its verdict on the next size is
  -- that of a detector that never prunes and looks at every event: whether the events of the last
  -- minute exceed the threshold against those of the last five minutes.
  pub verdict-history :
      (cfg : AnomalyConfig F) (start : ℕ) (calls : List (Clock × ℕ)) (c : Clock) (size : ℕ)
      → Onward start (calls ++ (c, size) ∷ [])
      → let all = history (calls ++ (c, size) ∷ []) in
        (record_size c size (record_sizes calls (new cfg start))).1
        ≡ some (exceeds cfg (within 60 c.at_stats all) (within (60 * 5) c.at_stats all))
  verdict-history cfg start calls c size o =
      let first : Tracks start (new cfg start) [] = new-Tracks cfg start in
      let d = record_sizes calls (new cfg start) in
      let (t, same) =
        record_sizes-Tracks (calls ++ (c, size) ∷ []) start (new cfg start) [] first o in
      let all = history (calls ++ (c, size) ∷ []) in
      let t' : Tracks c.at_stats (record_size c size d).0 all =
        Tracks-at (last_reading-snoc calls start c size)
          (record_sizes-snoc calls c size (new cfg start)) t in
      verdict-record_size c size d all t'
      ∙ ap
          (λ (g : AnomalyConfig F).
            some (exceeds g (within 60 c.at_stats all) (within (60 * 5) c.at_stats all)))
          (cfg-record_sizes calls (new cfg start) ∙ cfg-new cfg start)
