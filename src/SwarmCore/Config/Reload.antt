-- ===== src/SwarmCore/Config/Reload.antt =====
-- libs/rust/core/src/lib.rs: what loads answer while the cached configuration is fresh.
use swarm_intelligence_netwo.Prelude.{
  ℕ, ◌-◌, ◌<◌, ◌≡◌, refl, ap, ◌∙◌, Option, none, some, List, [], ◌∷◌, arith, if◌then◌else◌,
  string_eq, nat_eq, pair_eq, is_some,
}
use swarm_intelligence_netwo.SwarmCore.Config.{
  Chars, DynamicConfig, CachedConfig, Core, World, sources, seconds, or_30, fetched, load_config,
  load_via, refresh_via, force_reload, from_file, refreshed, refresh_from_file,
}

pub data Event : Type 0 where
  loads : Chars → World → ℕ → ℕ → Event
  reloads : Chars → World → ℕ → ℕ → Event
  refreshes : World → Chars → ℕ → Event

-- The core after the events, and what the loads and reloads answered.
unfoldable pub run : List Event → Core → Core × List (Option DynamicConfig)
run [] s = (s, [])
run (loads service w now at_store ∷ events) s =
    let (s', answer) = load_config service w now at_store s in
    let (s'', later) = run events s' in (s'', answer ∷ later)
run (reloads service w now at_store ∷ events) s =
    let (s', answer) = force_reload service w now at_store s in
    let (s'', later) = run events s' in (s'', answer ∷ later)
run (refreshes w path at_store ∷ events) s = run events (refresh_from_file w path at_store s)

-- Each load comes less than `ttl` after the configuration was fetched, first at `since`.
abbrev pub Warm : ℕ → ℕ → List Event → Type 0
Warm ttl since [] = Unit
Warm ttl since (loads service w now at_store ∷ events) = (now - since < ttl) × Warm ttl since events
Warm ttl since (reloads service w now at_store ∷ events) =
    (now - since < ttl) × Warm ttl since events
Warm ttl since (refreshes w path at_store ∷ events) =
    Warm ttl (if is_some (from_file w path) then at_store else since) events

abbrev pub or_else : DynamicConfig → Option DynamicConfig → DynamicConfig
or_else cfg none = cfg
or_else cfg (some cfg') = cfg'

-- The answers of a core that knows nothing but the settings of the file, once it has changed.
abbrev pub served : DynamicConfig → List Event → List (Option DynamicConfig)
served cfg [] = []
served cfg (loads service w now at_store ∷ events) = some cfg ∷ served cfg events
served cfg (reloads service w now at_store ∷ events) = some cfg ∷ served cfg events
served cfg (refreshes w path at_store ∷ events) = served (or_else cfg (from_file w path)) events

fresh_answer :
    (service : Chars) (w : World) (now at_store : ℕ) (s : Core) (c : CachedConfig)
    → s.config_cache ≡ some c
    → now - c.fetched_at < c.ttl
    → load_config service w now at_store s ≡ (s, some c.cfg)
unfolding load_config
fresh_answer service w now at_store s c there fresh =
    ap (load_via service w now at_store s) there ∙ ground (arith, fresh)

refresh-cached :
    (w : World) (path : Chars) (at_store : ℕ) (s : Core) (c : CachedConfig)
    → s.config_cache ≡ some c
    → (refresh_from_file w path at_store s).config_cache
      ≡ some (refreshed at_store c (from_file w path))
unfolding refresh_from_file
refresh-cached w path at_store s c there =
    ap (λ (o : Option CachedConfig). (refresh_via w path at_store s o).config_cache) there

refreshed_cfg :
    (at_store : ℕ) (c : CachedConfig) (o : Option DynamicConfig)
    → ((refreshed at_store c o).cfg ≡ or_else c.cfg o)
      × ((refreshed at_store c o).ttl ≡ c.ttl)
      × ((refreshed at_store c o).fetched_at ≡ (if is_some o then at_store else c.fetched_at))
refreshed_cfg at_store c none = (refl, refl, refl)
refreshed_cfg at_store c (some cfg) = (refl, refl, refl)

Warm-at :
    {ttl ttl' since since' : ℕ} (es : List Event)
    → ttl' ≡ ttl
    → since' ≡ since
    → Warm ttl since es
    → Warm ttl' since' es
Warm-at es e e' t = rw (e, e') t

run-served_from :
    (events : List Event) (s : Core) (c : CachedConfig)
    → s.config_cache ≡ some c
    → Warm c.ttl c.fetched_at events
    → (run events s).1 ≡ served c.cfg events
unfolding run force_reload
run-served_from [] s c there warm = refl
run-served_from (loads service w now at_store ∷ events) s c there (fresh, warm) =
    rw (fresh_answer service w now at_store s c there fresh, run-served_from events s c there warm)
      refl
run-served_from (reloads service w now at_store ∷ events) s c there (fresh, warm) =
    rw (fresh_answer service w now at_store s c there fresh, run-served_from events s c there warm)
      refl
run-served_from (refreshes w path at_store ∷ events) s c there warm =
    let o = from_file w path in
    let c' = refreshed at_store c o in
    let (same_cfg, same_ttl, same_time) = refreshed_cfg at_store c o in
    run-served_from events (refresh_from_file w path at_store s) c'
      (refresh-cached w path at_store s c there) (Warm-at events same_ttl same_time warm)
    ∙ ap (λ (cfg : DynamicConfig). served cfg events) same_cfg

first_load :
    (service : Chars) (w : World) (now at_store : ℕ) (s : Core) (cfg : DynamicConfig)
    → s.config_cache ≡ none
    → w.deserialize (sources service w) ≡ some cfg
    → load_config service w now at_store s ≡ fetched w at_store s (some cfg)
unfolding load_config
first_load service w now at_store s cfg empty found =
    ap (load_via service w now at_store s) empty ∙ ap (fetched w at_store s) found

-- A core without a cached configuration loads one, at `at_store`. Then come loads, forced reloads and
-- changes of the file, in any order, and each load comes less than the time to live after the last
-- configuration that was read. Every load and every forced reload answers with that configuration,
-- whatever the sources have become: the first one, or, after a change, what the file alone gives.
pub run-served :
    (service : Chars) (w : World) (now at_store : ℕ) (s : Core) (cfg : DynamicConfig)
    (events : List Event)
    → s.config_cache ≡ none
    → w.deserialize (sources service w) ≡ some cfg
    → Warm (seconds (or_30 w.ttl_secs)) at_store events
    → (run (loads service w now at_store ∷ events) s).1 ≡ some cfg ∷ served cfg events
unfolding run
run-served service w now at_store s cfg events empty found warm =
    let c : CachedConfig = record {
      cfg = cfg;
      fetched_at = at_store;
      ttl = seconds (or_30 w.ttl_secs);
      file = w.config_file;
    } in
    rw (first_load service w now at_store s cfg empty found) (
      ap (λ (later : List (Option DynamicConfig)). some cfg ∷ later)
        (run-served_from events (fetched w at_store s (some cfg)).0 c refl warm))
