-- ===== src/SwarmGossip/Window.antt =====
-- services/swarm-gossip/src/main.rs: an id that was recorded stays known for the window.
use swarm_intelligence_netwo.Prelude.{
  ℕ, ◌+◌, ◌%◌, ◌<◌, String, ◌≡◌, refl, ap, ◌∙◌, Bool, true, false, not, Option, none, some, List,
  [], ◌∷◌, arith, string_eq, nat_eq, pair_eq, All,
}
use swarm_intelligence_netwo.SwarmGossip.{BloomDupFilter, seen_or_insert}
use swarm_intelligence_netwo.SwarmGossip.Filter.{
  IsSized, InWindow, known, Grows, seen_or_insert-InWindow,
}

IsSized-Grows : (f f' : BloomDupFilter) → Grows f f' → IsSized f → IsSized f'
IsSized-Grows f f' g sized = record {
  one_byte = rw g.same_length sized.one_byte;
  mask_fits = rw (g.same_mask, g.same_length) sized.mask_fits;
}

Grows-trans : (f f' f'' : BloomDupFilter) → Grows f f' → Grows f' f'' → Grows f f''
Grows-trans f f' f'' g h = record {
  same_length = h.same_length ∙ g.same_length;
  same_mask = h.same_mask ∙ g.same_mask;
  same_reset = h.same_reset ∙ g.same_reset;
  same_after = h.same_after ∙ g.same_after;
  still_set = λ j s. h.still_set j (g.still_set j s);
}

-- Every arrival of an id lies in the window.
abbrev pub AllInWindow : List (String × ℕ) → BloomDupFilter → Type 0
AllInWindow ids f = All (λ arrival. InWindow arrival.1 f) ids

All-Grows :
    (ids : List (String × ℕ)) (f f' : BloomDupFilter)
    → Grows f f'
    → AllInWindow ids f
    → AllInWindow ids f'
All-Grows [] f f' g w = tt
All-Grows ((id, now) ∷ ids) f f' g (w, ws) =
    (rw (g.same_reset, g.same_after) w, All-Grows ids f f' g ws)

module _ (hash_a hash_b : String → ℕ) where
  -- Ids that arrive one after the other, with their times. `none` is a panic.
  unfoldable pub record_all : List (String × ℕ) → BloomDupFilter → Option BloomDupFilter
  record_all [] f = some f
  record_all ((id, now) ∷ ids) f = elim (seen_or_insert hash_a hash_b id now f) [
    | none ↦ none
    | some (f', fresh) ↦ record_all ids f'
  ]

  known-Grows :
      (id : String) (f f' : BloomDupFilter)
      → Grows f f'
      → known hash_a hash_b id f ≡ true
      → known hash_a hash_b id f' ≡ true
  known-Grows id f f' g h = rw g.same_mask (
      ground
        (arith, h, g.still_set (hash_a id % (f.mask + 1)), g.still_set (hash_b id % (f.mask + 1))))

  record_all-Grows :
      (ids : List (String × ℕ)) (f : BloomDupFilter)
      → IsSized f
      → 0 < f.reset_after
      → AllInWindow ids f
      → (f' : BloomDupFilter) × (record_all ids f ≡ some f') × Grows f f'
  unfolding record_all
  record_all-Grows [] f sized some_time w = (
    f,
    refl,
    record {
      same_length = refl;
      same_mask = refl;
      same_reset = refl;
      same_after = refl;
      still_set = λ j h. h;
    },
  )
  record_all-Grows ((id, now) ∷ ids) f sized some_time (w, ws) =
      let (f', got, g, knows) = seen_or_insert-InWindow hash_a hash_b id now f sized w some_time in
      let (f'', rest, h) =
        record_all-Grows ids f' (IsSized-Grows f f' g sized) (rw g.same_after some_time)
          (All-Grows ids f f' g ws) in
      (f'', rw (got, record_all) rest, Grows-trans f f' f'' g h)

  -- An id arrives in the window of a filter whose mask fits its bytes, and then other ids arrive in the
  -- window. No call panics, and if the id arrives once more in the window, it is not new.
  pub duplicate_known :
      (id : String) (now again : ℕ) (ids : List (String × ℕ)) (f : BloomDupFilter)
      → IsSized f
      → 0 < f.reset_after
      → InWindow now f
      → AllInWindow ids f
      → InWindow again f
      → (f' : BloomDupFilter) × (record_all ((id, now) ∷ ids) f ≡ some f')
        × (f'' : BloomDupFilter) × (seen_or_insert hash_a hash_b id again f' ≡ some (f'', false))
  unfolding record_all
  duplicate_known id now again ids f sized some_time first others last =
      let (f1, got, g1, knows) =
        seen_or_insert-InWindow hash_a hash_b id now f sized first some_time in
      let sized1 = IsSized-Grows f f1 g1 sized in
      let some_time1 : 0 < f1.reset_after = rw g1.same_after some_time in
      let (f2, rest, g2) =
        record_all-Grows ids f1 sized1 some_time1 (All-Grows ids f f1 g1 others) in
      let both = Grows-trans f f1 f2 g1 g2 in
      let last2 : InWindow again f2 = rw (both.same_reset, both.same_after) last in
      let (f3, got3, g3, knows3) =
        seen_or_insert-InWindow hash_a hash_b id again f2 (IsSized-Grows f f2 both sized) last2
          (rw both.same_after some_time) in
      let hit : known hash_a hash_b id f2 ≡ true = known-Grows id f1 f2 g2 knows in
      (f2, rw (got, record_all) rest, f3, got3 ∙ ap (λ (k : Bool). some (f3, not k)) hit)
