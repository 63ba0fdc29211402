-- ===== src/Gossip/First.antt =====
-- A random source that always takes the first peers, for tests.
use swarm_intelligence_netwo.Prelude.{
  ℕ, zero, suc, String, ◌≡◌, true, List, [], ◌∷◌, arith, string_eq, nat_eq, pair_eq, contains,
  Distinct, take, length-take,
}
use swarm_intelligence_netwo.Gossip.{Sampler}

pub contains-take :
    (n : ℕ) (xs : List String) (a : String) → contains (take n xs) a ≡ true → contains xs a ≡ true
unfolding contains
contains-take zero xs a h = ground arith
contains-take (suc n) [] a h = h
contains-take (suc n) (x ∷ xs) a h = ground (arith, contains-take n xs a)

pub Distinct-take : (n : ℕ) (xs : List String) → Distinct xs → Distinct (take n xs)
Distinct-take zero xs d = tt
Distinct-take (suc n) [] d = tt
Distinct-take (suc n) (x ∷ xs) (d, ds) =
    (ground (arith, contains-take n xs x), Distinct-take n xs ds)

instance abbrev pub first_ones : Sampler Unit
first_ones = record {
  choose = λ g. take;
  length-choose = λ g. length-take;
  choose-Subset = λ g n xs. contains-take n xs;
  choose-Distinct = λ g. Distinct-take;
}
