-- ===== src/SwarmCore/Tests.antt =====
-- Runs of the core library.
use swarm_intelligence_netwo.Prelude.{
  ◌≡◌, refl, true, Option, none, some, List, [], ◌∷◌, arith, string_eq, nat_eq, pair_eq,
}
use swarm_intelligence_netwo.SwarmCore.Config.{
  from_file, Chars, Core, DynamicConfig, World, Source, yaml, seconds, sources,
  verify_config_signature,
}
use swarm_intelligence_netwo.SensorGateway.Ingest.{is_blank}
use swarm_intelligence_netwo.SwarmCore.Config.Reload.{
  Event, loads, reloads, refreshes, run, served, run-served,
}

abbrev core : Core
core = record { config_cache = none; watched = []; warnings = [] }

abbrev named : Option Chars → DynamicConfig
named name = record {
  service_name = name;
  nats_url = none;
  log_level = none;
  config_version = none;
  config_signature = none;
}

-- The file alone names no service; the other sources do.
abbrev settings : Chars → List Source → Option DynamicConfig
settings name (yaml text ∷ []) = some (named none)
settings name _ = some (named (some name))

abbrev world : Chars → World
world name = record {
  config_file = some (b'f' ∷ []);
  http_text = none;
  ttl_secs = none;
  deserialize = settings name;
  read_to_string = λ path. some (b'a' ∷ []);
}

abbrev events : List Event
events =
    reloads (b's' ∷ []) (world (b'2' ∷ [])) (seconds 29) (seconds 29)
    ∷ refreshes (world (b'2' ∷ [])) (b'f' ∷ []) (seconds 40)
    ∷ loads (b's' ∷ []) (world (b'3' ∷ [])) (seconds 69) (seconds 69)
    ∷ []

run-served_example :
    (run (loads (b's' ∷ []) (world (b'1' ∷ [])) 0 0 ∷ events) core).1
    ≡ some (named (some (b'1' ∷ []))) ∷ served (named (some (b'1' ∷ []))) events
unfolding sources from_file
run-served_example =
    run-served (b's' ∷ []) (world (b'1' ∷ [])) 0 0 core (named (some (b'1' ∷ []))) events refl refl
      (omega arith, (omega arith, tt))

-- The forced reload gives the old name, and the change of the file loses it.
answers :
    served (named (some (b'1' ∷ []))) events
    ≡ some (named (some (b'1' ∷ []))) ∷ some (named none) ∷ []
unfolding from_file
answers = refl

any_signature : verify_config_signature (b'a' ∷ []) (b'x' ∷ []) ≡ true
unfolding verify_config_signature is_blank
any_signature = refl
