-- ===== src/Lifecycle.antt =====
-- libs/rust/core/src/lifecycle.rs: the bootstrap phases of a node. `advance` takes the time that the clock
-- gives; `Instant` subtraction stops at zero.
mod Tests
use swarm_intelligence_netwo.Prelude.{
  Distinct-snoc, all_recent, recent, length-recent, recent-recent, recent-append, make_room-push,
  push-make_room, ℕ, zero, suc, ◌+◌, ◌-◌, ◌*◌, ◌/◌, ◌%◌, ◌^◌, ◌≤◌, ◌<◌, min, max, String, ◌≡◌, refl,
  sym, ap, ◌∙◌, ◌≢◌, ◌↔◌, ◌⊎◌, inl, inr, Bool, true, false, not, ◌&&◌, ◌||◌, Option, none, some,
  List, [], ◌∷◌, ◌++◌, map, arith, ltb, leb, nat_beq, if◌then◌else◌, nat_beq_iff, Eq, ◌==◌,
  string_eq, nat_eq, pair_beq, pair_beq_iff, pair_eq, Bool-cases, Option-cases, is_some, u64, u32,
  u8, u64_id, contains, insert, Distinct, Subset, equal_refl, contains-insert, contains-insert_self,
  length-insert, Distinct-insert, insert_of_contains, contains-append, contains-retain,
  Distinct-retain, length_mono-Subset, length-overlap, length, get_elem?, take, drop, replicate,
  retain, All, length-append, length-drop, length-take, take-append-drop, length-retain-le,
  All-append, length-map, Map, lookup, remove, put, lookup-remove, lookup-put,
}

pub data BootstrapPhase : Type 0 where
  hardware_init : BootstrapPhase
  network_discovery : BootstrapPhase
  knowledge_sync : BootstrapPhase
  operational : BootstrapPhase

pub record BootstrapState : Type 0 where
  pub phase : BootstrapPhase
  pub started_at : ℕ
  pub phase_started_at : ℕ
  pub phase_durations : List (BootstrapPhase × ℕ)

-- The clock is read twice.
unfoldable pub new : ℕ → ℕ → BootstrapState
new now later = record {
  phase = hardware_init;
  started_at = now;
  phase_started_at = later;
  phase_durations = [];
}

abbrev pub next_phase : BootstrapPhase → BootstrapPhase
next_phase hardware_init = network_discovery
next_phase network_discovery = knowledge_sync
next_phase knowledge_sync = operational
next_phase operational = operational

unfoldable pub advance : ℕ → BootstrapState → BootstrapState
advance now s = record s {
  phase_durations = s.phase_durations ++ (s.phase, now - s.phase_started_at) ∷ [];
  phase = next_phase s.phase;
  phase_started_at = now;
}

abbrev is_operational : BootstrapPhase → Bool
is_operational operational = true
is_operational _ = false

unfoldable pub is_ready : BootstrapState → Bool
is_ready s = is_operational s.phase

unfoldable pub durations : BootstrapState → List (BootstrapPhase × ℕ)
durations s = s.phase_durations

unfoldable pub advance_all : List ℕ → BootstrapState → BootstrapState
advance_all [] s = s
advance_all (now ∷ times) s = advance_all times (advance now s)

-- The time that the recorded phases took together.
abbrev pub total : List (BootstrapPhase × ℕ) → ℕ
total [] = 0
total ((p, d) ∷ ds) = d + total ds

-- Times that do not go back from `t` on, and the last of them.
abbrev pub Onward : ℕ → List ℕ → Type 0
Onward t [] = Unit
Onward t (now ∷ times) = (t ≤ now) × Onward now times

abbrev pub last : ℕ → List ℕ → ℕ
last t [] = t
last t (now ∷ times) = last now times

total-append : (xs ys : List (BootstrapPhase × ℕ)) → total (xs ++ ys) ≡ total xs + total ys
total-append [] ys = omega arith
total-append ((p, d) ∷ xs) ys = omega (arith, total-append xs ys)

total-advance_all :
    (times : List ℕ) (s : BootstrapState)
    → Onward s.phase_started_at times
    → total (durations (advance_all times s)) + s.phase_started_at
      ≡ total (durations s) + last s.phase_started_at times
unfolding advance_all advance durations
total-advance_all [] s o = refl
total-advance_all (now ∷ times) s (le, o) = omega (
  arith,
  total-advance_all times (advance now s) o,
  total-append s.phase_durations ((s.phase, now - s.phase_started_at) ∷ []),
)

-- How many steps a phase is behind the first.
abbrev rank : BootstrapPhase → ℕ
rank hardware_init = 0
rank network_discovery = 1
rank knowledge_sync = 2
rank operational = 3

rank-next_phase : (p : BootstrapPhase) → rank (next_phase p) ≡ min 3 (suc (rank p))
rank-next_phase hardware_init = omega arith
rank-next_phase network_discovery = omega arith
rank-next_phase knowledge_sync = omega arith
rank-next_phase operational = omega arith

rank-le : (p : BootstrapPhase) → rank p ≤ 3
rank-le hardware_init = omega arith
rank-le network_discovery = omega arith
rank-le knowledge_sync = omega arith
rank-le operational = omega arith

rank-advance_all :
    (times : List ℕ) (s : BootstrapState)
    → rank (advance_all times s).phase ≡ min 3 (rank s.phase + length times)
unfolding advance_all advance
rank-advance_all [] s = omega (arith, rank-le s.phase)
rank-advance_all (now ∷ times) s =
    omega (arith, rank-advance_all times (advance now s), rank-next_phase s.phase)

is_operational-rank : (p : BootstrapPhase) → is_operational p ≡ leb 3 (rank p)
is_operational-rank hardware_init = refl
is_operational-rank network_discovery = refl
is_operational-rank knowledge_sync = refl
is_operational-rank operational = refl

length-advance_all :
    (times : List ℕ) (s : BootstrapState)
    → length (durations (advance_all times s)) ≡ length (durations s) + length times
unfolding advance_all advance durations
length-advance_all [] s = omega arith
length-advance_all (now ∷ times) s = omega (
  arith,
  length-advance_all times (advance now s),
  length-append s.phase_durations ((s.phase, now - s.phase_started_at) ∷ []),
)

-- After `n` transitions a new node is ready exactly if there were three at least. If the clock never
-- went back, the recorded durations, one for each transition, add up to the time from the start
-- of the first phase to the last transition.
pub new-advance_all :
    (now later : ℕ) (times : List ℕ)
    → Onward later times
    → let s = advance_all times (new now later) in
      (is_ready s ≡ leb 3 (length times))
      × (length (durations s) ≡ length times)
      × (total (durations s) + later ≡ last later times)
unfolding new is_ready durations
new-advance_all now later times o =
    let s = new now later in
    (
      ground (arith, is_operational-rank (advance_all times s).phase, rank-advance_all times s),
      omega (arith, length-advance_all times s),
      omega (arith, total-advance_all times s o),
    )
