-- ===== src/SwarmCore/Health.antt =====
-- libs/rust/core/src/lib.rs: the flags that the health server answers with.
use swarm_intelligence_netwo.Prelude.{
  String, ◌≡◌, refl, Bool, true, false, not, ◌&&◌, Option, List, [], ◌∷◌, arith, string_eq, nat_eq,
  pair_eq,
}

pub record Flags : Type 0 where
  pub node_liveness : Bool
  pub node_readiness : Bool

abbrev pub at_start : Flags
at_start = record { node_liveness = true; node_readiness = false }

unfoldable pub mark_ready : Flags → Flags
mark_ready s = record s { node_readiness = true }

unfoldable pub clear_ready : Flags → Flags
clear_ready s = record s { node_readiness = false }

unfoldable pub mark_not_live : Flags → Flags
mark_not_live s = record s { node_liveness = false }

pub record Status : Type 0 where
  pub live : Bool
  pub ready : Bool
  pub config_version : Option String

-- The answers to `/live`, `/ready` and `/status`; the cached version is an argument.
unfoldable pub live : Flags → Bool
live s = s.node_liveness

unfoldable pub ready : Flags → Bool
ready s = s.node_readiness

unfoldable pub status : Option String → Flags → Status
status version s = record {
  live = s.node_liveness;
  ready = s.node_readiness;
  config_version = version;
}

pub data Change : Type 0 where
  marks_ready clears_ready marks_not_live : Change

unfoldable pub change : Change → Flags → Flags
change marks_ready s = mark_ready s
change clears_ready s = clear_ready s
change marks_not_live s = mark_not_live s

unfoldable pub change_all : List Change → Flags → Flags
change_all [] s = s
change_all (c ∷ cs) s = change_all cs (change c s)

-- The last change to the readiness, if any.
abbrev pub last_ready : Bool → List Change → Bool
last_ready b [] = b
last_ready b (marks_ready ∷ cs) = last_ready true cs
last_ready b (clears_ready ∷ cs) = last_ready false cs
last_ready b (marks_not_live ∷ cs) = last_ready b cs

abbrev pub gives_up : List Change → Bool
gives_up [] = false
gives_up (marks_not_live ∷ cs) = true
gives_up (marks_ready ∷ cs) = gives_up cs
gives_up (clears_ready ∷ cs) = gives_up cs

status-change_from :
    (cs : List Change) (s : Flags)
    → (ready (change_all cs s) ≡ last_ready s.node_readiness cs)
      × (live (change_all cs s) ≡ (s.node_liveness && not (gives_up cs)))
unfolding change_all change mark_ready clear_ready mark_not_live live ready
status-change_from [] s = (refl, ground arith)
status-change_from (marks_ready ∷ cs) s = status-change_from cs (mark_ready s)
status-change_from (clears_ready ∷ cs) s = status-change_from cs (clear_ready s)
status-change_from (marks_not_live ∷ cs) s =
    let (r, l) = status-change_from cs (mark_not_live s) in (r, ground (arith, l))

-- After any changes from the start, the node is ready if the last change of readiness says so, and
-- live unless some change ever said that it is not.
pub status-change_all :
    (cs : List Change) (version : Option String)
    → status version (change_all cs at_start)
      ≡ record { live = not (gives_up cs); ready = last_ready false cs; config_version = version }
unfolding status live ready
status-change_all cs version = let (r, l) = status-change_from cs at_start in rw (r, l) refl
