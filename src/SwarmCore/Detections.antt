-- ===== src/SwarmCore/Detections.antt =====
-- libs/rust/core/src/lib.rs: the ratio of false positives. The two counters are `u64` and wrap around.
use swarm_intelligence_netwo.Prelude.{
  ℕ, suc, ◌+◌, ◌^◌, ◌≤◌, ◌<◌, ◌≡◌, refl, ◌∙◌, Bool, List, [], ◌∷◌, arith, if◌then◌else◌, ◌==◌,
  string_eq, nat_eq, pair_eq, u64, u64_id, length,
}
use swarm_intelligence_netwo.Float.{Float}

pub record Detections : Type 0 where
  pub total_detections : ℕ
  pub total_false_positives : ℕ

abbrev pub started : Detections
started = record { total_detections = 0; total_false_positives = 0 }

unfoldable pub record_detection : Bool → Detections → Detections
record_detection is_false_positive d = record {
  total_detections = u64 (d.total_detections + 1);
  total_false_positives =
      if is_false_positive then u64 (d.total_false_positives + 1) else d.total_false_positives;
}

unfoldable pub false_positive_ratio : {F : Type 0} ⦃f : Float F⦄ → Detections → F
false_positive_ratio ⦃f = f⦄ d =
    if d.total_detections == 0
    then f.lit 0 0
    else f.div (f.of_nat d.total_false_positives) (f.of_nat d.total_detections)

unfoldable pub record_all : List Bool → Detections → Detections
record_all [] d = d
record_all (b ∷ bs) d = record_all bs (record_detection b d)

abbrev pub count_true : List Bool → ℕ
count_true [] = 0
count_true (b ∷ bs) = let rest = count_true bs in if b then suc rest else rest

counters-record_all :
    (bs : List Bool) (d : Detections)
    → d.total_detections + length bs < 2 ^ 64
    → d.total_false_positives ≤ d.total_detections
    → ((record_all bs d).total_detections ≡ d.total_detections + length bs)
      × ((record_all bs d).total_false_positives ≡ d.total_false_positives + count_true bs)
unfolding record_all record_detection
counters-record_all [] d room le = (omega arith, omega arith)
counters-record_all (b ∷ bs) d room le =
    let e = u64_id (d.total_detections + 1) (omega arith) in
    let e' = u64_id (d.total_false_positives + 1) (omega arith) in
    let (h, h') =
      counters-record_all bs (record_detection b d) (ground (arith, e, room))
        (ground (arith, e, e', le)) in
    (ground (arith, h, e), ground (arith, h', e'))

zero_plus : (n : ℕ) → 0 + n ≡ n
zero_plus n = omega arith

-- A run of fewer than 2^64 detections from the start, some of them false positives. The ratio is the
-- number of those by the number of all, and zero where there are none.
pub ratio-record_all :
    {F : Type 0} ⦃f : Float F⦄ (bs : List Bool)
    → length bs < 2 ^ 64
    → false_positive_ratio (record_all bs started) ≡ (
        if length bs == 0
        then f.lit 0 0
        else f.div (f.of_nat (count_true bs)) (f.of_nat (length bs)))
unfolding false_positive_ratio
ratio-record_all bs room =
    let (h, h') = counters-record_all bs started (omega arith) (omega arith) in
    rw (h ∙ zero_plus (length bs), h' ∙ zero_plus (count_true bs)) refl
