-- ===== src/SwarmCore/Config.antt =====
-- libs/rust/core/src/lib.rs and config_signature.rs: the cached configuration. The environment, the
-- files, the network and the library that merges and parses the sources are parameters: what they
-- give in one call is a `World`. Left out are the log lines but the warning on a signature. The tasks
-- that watch the file are counted by their paths; each runs `refresh_from_file` when the file changes.
pub mod Reload
use swarm_intelligence_netwo.Prelude.{
  Distinct-snoc, all_recent, recent, length-recent, recent-recent, recent-append, make_room-push,
  push-make_room, ℕ, zero, suc, ◌+◌, ◌-◌, ◌*◌, ◌/◌, ◌%◌, ◌^◌, ◌≤◌, ◌<◌, min, max, String, ◌≡◌, refl,
  sym, ap, ◌∙◌, ◌≢◌, ◌↔◌, ◌⊎◌, inl, inr, Bool, true, false, not, ◌&&◌, ◌||◌, Option, none, some,
  List, [], ◌∷◌, ◌++◌, map, arith, ltb, leb, nat_beq, if◌then◌else◌, nat_beq_iff, Eq, ◌==◌,
  string_eq, nat_eq, pair_beq, pair_beq_iff, pair_eq, Bool-cases, Option-cases, some-injective,
  none-some, is_some, u64, u32, u8, u64_id, contains, insert, Distinct, Subset, equal_refl,
  contains-insert, contains-insert_self, length-insert, Distinct-insert, insert_of_contains,
  contains-append, contains-retain, Distinct-retain, length_mono-Subset, length-overlap, length,
  get_elem?, take, drop, replicate, retain, All, length-append, length-replicate, length-drop,
  length-take, take-append-drop, length-retain-le, All-append, length-map, Map, lookup, remove, put,
  lookup-remove, lookup-put,
}
use swarm_intelligence_netwo.SensorGateway.Ingest.{is_blank}

-- A text, as the list of its code points.
abbrev pub Chars : Type 0
Chars = List ℕ

pub record DynamicConfig : Type 0 where
  pub service_name : Option Chars
  pub nats_url : Option Chars
  pub log_level : Option Chars
  pub config_version : Option Chars
  pub config_signature : Option Chars

pub record CachedConfig : Type 0 where
  pub cfg : DynamicConfig
  pub fetched_at : ℕ
  pub ttl : ℕ
  pub file : Option Chars

pub record Core : Type 0 where
  pub config_cache : Option CachedConfig
  pub watched : List Chars
  pub warnings : List Chars

-- A source of settings; of two, the later one counts.
pub data Source : Type 0 where
  set_default : String → Chars → Source
  file_with_name : Chars → Source
  yaml : Chars → Source
  environment : String → String → Source

pub record World : Type 0 where
  pub config_file : Option Chars
  -- The text behind SWARM_CONFIG_HTTP, if the variable is set and the request succeeds.
  pub http_text : Option Chars
  pub ttl_secs : Option ℕ
  -- `build` and `try_deserialize`
  pub deserialize : List Source → Option DynamicConfig
  pub read_to_string : Chars → Option Chars

abbrev pub default_url : Chars
default_url =
    b'1' ∷ b'2' ∷ b'7' ∷ b'.' ∷ b'0' ∷ b'.' ∷ b'0' ∷ b'.' ∷ b'1' ∷ b':' ∷ b'4' ∷ b'2' ∷ b'2' ∷ b'2'
    ∷ []

abbrev pub info_level : Chars
info_level = b'i' ∷ b'n' ∷ b'f' ∷ b'o' ∷ []

-- `Default`
unfoldable pub default_config : DynamicConfig
default_config = record {
  service_name = none;
  nats_url = some default_url;
  log_level = some info_level;
  config_version = some (b'0' ∷ []);
  config_signature = none;
}

-- `config_signature.rs`
unfoldable pub verify_config_signature : Chars → Chars → Bool
verify_config_signature [] provided_sig = false
verify_config_signature (c ∷ raw) provided_sig = not (is_blank provided_sig)

abbrev pub optional : {A : Type 0} → (A → Source) → Option A → List Source
optional k none = []
optional k (some a) = k a ∷ []

-- The sources of `load_config`, in their order.
unfoldable pub sources : Chars → World → List Source
sources service w =
    set_default "service_name" service
      ∷ set_default "nats_url" default_url
      ∷ set_default "log_level" info_level
      ∷ optional file_with_name w.config_file
    ++ optional yaml w.http_text
    ++ environment "SWARM" "__" ∷ []

abbrev pub is_fresh : ℕ → Option CachedConfig → Bool
is_fresh now none = false
is_fresh now (some c) = ltb (now - c.fetched_at) c.ttl

abbrev pub seconds : ℕ → ℕ
seconds n = n * 10 ^ 9

abbrev pub or_30 : Option ℕ → ℕ
or_30 none = 30
or_30 (some n) = n

-- The file whose signature does not pass is warned about, and that is all.
abbrev pub check_raw : Chars → Chars → Option Chars → List Chars
check_raw sig file none = []
check_raw sig file (some raw) = if verify_config_signature raw sig then [] else file ∷ []

abbrev pub check_signature : World → DynamicConfig → List Chars
check_signature w cfg = elim cfg.config_signature [
  | none ↦ []
  | some sig ↦ elim w.config_file [
    | none ↦ []
    | some file ↦ check_raw sig file (w.read_to_string file)
  ]
]

abbrev pub watch : Option Chars → List Chars
watch none = []
watch (some file) = file ∷ []

abbrev pub fetched : World → ℕ → Core → Option DynamicConfig → Core × Option DynamicConfig
fetched w at_store s none = (s, none)
fetched w at_store s (some cfg) = (
  record {
    config_cache = some (record {
      cfg = cfg;
      fetched_at = at_store;
      ttl = seconds (or_30 w.ttl_secs);
      file = w.config_file;
    });
    watched = s.watched ++ watch w.config_file;
    warnings = s.warnings ++ check_signature w cfg;
  },
  some cfg,
)

abbrev pub cached : Option CachedConfig → Option DynamicConfig
cached none = none
cached (some c) = some c.cfg

abbrev pub load_via :
    Chars → World → ℕ → ℕ → Core → Option CachedConfig → Core × Option DynamicConfig
load_via service w now at_store s cache =
    if is_fresh now cache
    then (s, cached cache)
    else fetched w at_store s (w.deserialize (sources service w))

-- The clock is read for the test and for the new entry; `none` is an error.
unfoldable pub load_config : Chars → World → ℕ → ℕ → Core → Core × Option DynamicConfig
load_config service w now at_store s = load_via service w now at_store s s.config_cache

unfoldable pub force_reload : Chars → World → ℕ → ℕ → Core → Core × Option DynamicConfig
force_reload service w now at_store s = load_config service w now at_store s

-- The file's own settings.
unfoldable pub from_file : World → Chars → Option DynamicConfig
from_file w path = elim (w.read_to_string path) [
  | none ↦ none
  | some text ↦ w.deserialize (yaml text ∷ [])
]

abbrev pub refreshed : ℕ → CachedConfig → Option DynamicConfig → CachedConfig
refreshed at_store c none = c
refreshed at_store c (some cfg) = record c { cfg = cfg; fetched_at = at_store }

abbrev pub refresh_via : World → Chars → ℕ → Core → Option CachedConfig → Core
refresh_via w path at_store s none = s
refresh_via w path at_store s (some c) = record s {
  config_cache = some (refreshed at_store c (from_file w path));
}

unfoldable pub refresh_from_file : World → Chars → ℕ → Core → Core
refresh_from_file w path at_store s = refresh_via w path at_store s s.config_cache
