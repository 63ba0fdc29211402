-- ===== src/SensorGateway/Ingest/Synthetic.antt =====
-- services/sensor-gateway/src/main.rs: the loop that makes up events. Its turns are those that it takes
-- until the process ends; with `run_once` it takes one.
use swarm_intelligence_netwo.Prelude.{
  ℕ, ◌+◌, ◌≡◌, refl, ◌∙◌, Bool, false, Option, none, some, List, [], ◌∷◌, if◌then◌else◌, string_eq,
  nat_eq, pair_eq, u64, take,
}
use swarm_intelligence_netwo.Float.{Float}
use swarm_intelligence_netwo.Text.Decimal.{print_u64}
use swarm_intelligence_netwo.SensorGateway.Rules.{and_then}
use swarm_intelligence_netwo.SensorGateway.Engine.{Line}
use swarm_intelligence_netwo.SensorGateway.Ingest.{
  Host, Gateway, Turn, is_blank, take_line, ingest_file_loop,
}

-- `synthetic-event-{i}`
abbrev pub synthetic_line : ℕ → Line
synthetic_line i =
    b's'
    ∷ b'y'
    ∷ b'n'
    ∷ b't'
    ∷ b'h'
    ∷ b'e'
    ∷ b't'
    ∷ b'i'
    ∷ b'c'
    ∷ b'-'
    ∷ b'e'
    ∷ b'v'
    ∷ b'e'
    ∷ b'n'
    ∷ b't'
    ∷ b'-'
    ∷ print_u64 i

abbrev pub turns_taken : Bool → List Turn → List Turn
turns_taken run_once turns = if run_once then take 1 turns else turns

-- The lines of the turns, from number `i` on.
abbrev pub synthetic_lines : List Turn → ℕ → List (Turn × Line)
synthetic_lines [] i = []
synthetic_lines (t ∷ turns) i = (t, synthetic_line i) ∷ synthetic_lines turns (u64 (i + 1))

synthetic_line_written : (i : ℕ) → is_blank (synthetic_line i) ≡ false
unfolding is_blank
synthetic_line_written i = refl

module _ {C R F : Type 0} ⦃f : Float F⦄ where
  unfoldable pub loop_from : Host R → List Turn → ℕ → Gateway C R F → Option (Gateway C R F)
  loop_from h [] i g = some g
  loop_from h (t ∷ turns) i g =
      and_then (take_line h t (synthetic_line i) g) (λ g'. loop_from h turns (u64 (i + 1)) g')

  unfoldable pub synthetic_loop : Host R → Bool → List Turn → Gateway C R F → Option (Gateway C R F)
  synthetic_loop h run_once turns g = loop_from h (turns_taken run_once turns) 0 g

  and_then-cong :
      (o : Option (Gateway C R F)) (k k' : Gateway C R F → Option (Gateway C R F))
      → ((g : Gateway C R F) → k g ≡ k' g)
      → and_then o k ≡ and_then o k'
  and_then-cong none k k' same = refl
  and_then-cong (some g) k k' same = same g

  loop_from-ingest :
      (h : Host R) (turns : List Turn) (i : ℕ) (g : Gateway C R F)
      → loop_from h turns i g ≡ ingest_file_loop h (synthetic_lines turns i) g
  unfolding loop_from ingest_file_loop
  loop_from-ingest h [] i g = refl
  loop_from-ingest h (t ∷ turns) i g =
      and_then-cong (take_line h t (synthetic_line i) g) (λ g'. loop_from h turns (u64 (i + 1)) g')
        (λ g'. ingest_file_loop h (synthetic_lines turns (u64 (i + 1))) g')
        (loop_from-ingest h turns (u64 (i + 1)))
      ∙ rw (synthetic_line_written i, ingest_file_loop) refl

  -- The loop does what the loop over a file does with the lines that it makes up.
  pub synthetic_loop-ingest :
      (h : Host R) (run_once : Bool) (turns : List Turn) (g : Gateway C R F)
      → synthetic_loop h run_once turns g
        ≡ ingest_file_loop h (synthetic_lines (turns_taken run_once turns) 0) g
  unfolding synthetic_loop
  synthetic_loop-ingest h run_once turns g = loop_from-ingest h (turns_taken run_once turns) 0 g
