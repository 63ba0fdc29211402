-- ===== src/AutoScaling/Sees.antt =====
-- libs/rust/core/src/autoscaling.rs: what a decision sees of the history.
use swarm_intelligence_netwo.Prelude.{
  ℕ, ◌≤◌, ◌≡◌, refl, sym, ap, ◌∙◌, List, [], ◌∷◌, ◌++◌, arith, if◌then◌else◌, string_eq, nat_eq,
  pair_eq,
}
use swarm_intelligence_netwo.Float.{Float}
use swarm_intelligence_netwo.AutoScaling.{
  ResourceMetrics, ScalingThresholds, scale_out, scale_in, no_action, Readings, History, kept, secs,
  forget, get_recent, should_scale_out, should_scale_in, calculate_scale_out_amount,
  calculate_scale_in_amount, decision,
}

get_recent-forget :
    {F D : Type 0} (cutoff now dur : ℕ) (h : History F D)
    → cutoff ≤ now
    → dur ≤ kept
    → get_recent now dur (forget cutoff h) ≡ get_recent now dur h
unfolding get_recent forget
get_recent-forget cutoff now dur [] le short = refl
get_recent-forget cutoff now dur ((t, m) ∷ h) le short =
    ground (arith, get_recent-forget cutoff now dur h le short)

get_recent-append :
    {F D : Type 0} (now dur : ℕ) (g h : History F D)
    → get_recent now dur (g ++ h) ≡ get_recent now dur g ++ get_recent now dur h
unfolding get_recent
get_recent-append now dur [] h = refl
get_recent-append now dur ((t, m) ∷ g) h = ground (arith, get_recent-append now dur g h)

-- From `start` on, the two histories look the same in every window that is not longer than the
-- time for which the history is kept.
unfoldable pub Sees : {F D : Type 0} → ℕ → History F D → History F D → Type 0
unfolding get_recent
Sees start g h =
    (now dur : ℕ) → start ≤ now → dur ≤ kept → get_recent now dur g ≡ get_recent now dur h

pub Sees-push :
    {F D : Type 0} (start cutoff : ℕ) (g h : History F D) (t : ℕ) (m : ResourceMetrics F D)
    → start ≤ cutoff
    → Sees start g h
    → Sees cutoff (forget cutoff (g ++ (t, m) ∷ [])) (h ++ (t, m) ∷ [])
unfolding Sees
Sees-push {F = F} {D = D} start cutoff g h t m le sees = λ now dur later short.
    get_recent-forget cutoff now dur (g ++ (t, m) ∷ []) later short
    ∙ get_recent-append now dur g ((t, m) ∷ [])
    ∙ ap (λ (ms : List (ResourceMetrics F D)). ms ++ get_recent now dur ((t, m) ∷ []))
        (sees now dur (omega arith) short)
    ∙ sym (get_recent-append now dur h ((t, m) ∷ []))

module _ {F D : Type 0} ⦃f : Float F⦄ where
  decision-nil :
      (t : ScalingThresholds F) (r : Readings) (h : History F D)
      → decision t r h ≡ (
          if should_scale_out t r.at_scale_out h
          then scale_out (calculate_scale_out_amount r.at_amount h)
          else if should_scale_in t r.at_scale_in h
          then scale_in 1
          else no_action)
  unfolding decision calculate_scale_in_amount should_scale_out should_scale_in get_recent
  decision-nil t r [] = refl
  decision-nil t r (x ∷ h) = refl

  should_scale_out-recent :
      (t : ScalingThresholds F) (now : ℕ) (g h : History F D)
      → get_recent now t.scale_out_duration g ≡ get_recent now t.scale_out_duration h
      → should_scale_out t now g ≡ should_scale_out t now h
  unfolding should_scale_out
  should_scale_out-recent t now g h e = rw e refl

  should_scale_in-recent :
      (t : ScalingThresholds F) (now : ℕ) (g h : History F D)
      → get_recent now t.scale_in_duration g ≡ get_recent now t.scale_in_duration h
      → should_scale_in t now g ≡ should_scale_in t now h
  unfolding should_scale_in
  should_scale_in-recent t now g h e = rw e refl

  amount-recent :
      (now : ℕ) (g h : History F D)
      → get_recent now (secs 60) g ≡ get_recent now (secs 60) h
      → calculate_scale_out_amount now g ≡ calculate_scale_out_amount now h
  unfolding calculate_scale_out_amount
  amount-recent now g h e = rw e refl

  pub decision-Sees :
      (t : ScalingThresholds F) (r : Readings) (start : ℕ) (g h : History F D)
      → t.scale_out_duration ≤ kept
      → t.scale_in_duration ≤ kept
      → start ≤ r.at_scale_out
      → start ≤ r.at_amount
      → start ≤ r.at_scale_in
      → Sees start g h
      → decision t r g ≡ decision t r h
  unfolding Sees
  decision-Sees t r start g h out_kept in_kept le1 le2 le3 sees =
      decision-nil t r g
      ∙ rw
          (
            should_scale_out-recent t r.at_scale_out g h
                (sees r.at_scale_out t.scale_out_duration le1 out_kept),
            should_scale_in-recent t r.at_scale_in g h
                (sees r.at_scale_in t.scale_in_duration le3 in_kept),
            amount-recent r.at_amount g h (sees r.at_amount (secs 60) le2 (omega arith)),
          )
          (sym (decision-nil t r h))
