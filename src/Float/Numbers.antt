-- ===== src/Float/Numbers.antt =====
-- An instance for tests: hundredths, as natural numbers.
use swarm_intelligence_netwo.Prelude.{
  ℕ, ◌+◌, ◌-◌, ◌*◌, ◌/◌, ◌^◌, max, ltb, leb, string_eq, nat_eq, pair_eq,
}
use swarm_intelligence_netwo.Float.{Float}

abbrev pub literal : ℕ → ℕ → ℕ
literal n k = n * 100 / 10 ^ k

instance abbrev pub numbers : Float ℕ
numbers = record {
  of_nat = λ n. n * 100;
  lit = literal;
  add = λ a b. a + b;
  sub = λ a b. a - b;
  mul = λ a b. a * b / 100;
  div = λ a b. a * 100 / b;
  neg = λ a. a;
  abs = λ a. a;
  sqrt = λ a. a;
  exp = λ a. a;
  powf = λ a b. a;
  lt = ltb;
  le = leb;
  max_of = max;
}
