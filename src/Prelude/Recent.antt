-- ===== src/Prelude/Recent.antt =====
-- The last elements of a list, which a bounded buffer keeps.
use Prim.Native.Nat.{ℕ, zero, suc, ◌+◌, ◌-◌, ◌≤◌, ◌<◌, min}
use mathlib.Core.Path.{◌≡◌, refl, ap, sym, ◌∙◌}
use mathlib.Core.Logic.{inl, inr}
use mathlib.Core.List.{List, [], ◌∷◌, ◌++◌}
use native.Mathlib.Omega.{arith}
use swarm_intelligence_netwo.Prelude.Tests.{if◌then◌else◌, leb, ltb, Bool-cases}
use swarm_intelligence_netwo.Prelude.Lists.{length, drop, length-append, length-drop}

module _ {ℓ} {A : Type ℓ} where
  abbrev pub recent : ℕ → List A → List A
  recent n xs = drop (length xs - n) xs

  drop_eq : (m n : ℕ) (xs : List A) → m ≡ n → drop m xs ≡ drop n xs
  drop_eq m n xs e = ap (λ (k : ℕ). drop k xs) e

  drop-nil : (n : ℕ) → drop {A = A} n [] ≡ []
  drop-nil zero = refl
  drop-nil (suc n) = refl

  drop-drop : (i j : ℕ) (xs : List A) → drop i (drop j xs) ≡ drop (i + j) xs
  drop-drop i zero xs = drop_eq i (i + 0) xs (omega arith)
  drop-drop zero (suc j) [] = sym (drop-nil (0 + suc j))
  drop-drop (suc i) (suc j) [] = sym (drop-nil (suc i + suc j))
  drop-drop i (suc j) (x ∷ xs) =
      drop-drop i j xs ∙ drop_eq (suc (i + j)) (i + suc j) (x ∷ xs) (omega arith)

  drop-append : (n : ℕ) (xs ys : List A) → n ≤ length xs → drop n (xs ++ ys) ≡ drop n xs ++ ys
  drop-append zero xs ys h = refl
  drop-append (suc n) [] ys h = absurd (omega arith)
  drop-append (suc n) (x ∷ xs) ys h = drop-append n xs ys (omega arith)

  pub length-recent : (n : ℕ) (xs : List A) → length (recent n xs) ≡ min n (length xs)
  length-recent n xs = omega (arith, length-drop (length xs - n) xs)

  pub recent-recent : (m n : ℕ) (xs : List A) → recent m (recent n xs) ≡ recent (min m n) xs
  recent-recent m n xs =
      drop-drop (length (recent n xs) - m) (length xs - n) xs
      ∙ drop_eq (length (recent n xs) - m + (length xs - n)) (length xs - min m n) xs
          (omega (arith, length-recent n xs))

  -- Only what is recent stays recent.
  pub recent-append : (n : ℕ) (xs ys : List A) → recent n (recent n xs ++ ys) ≡ recent n (xs ++ ys)
  recent-append n xs ys =
      ap (λ (zs : List A). recent n zs) (sym (drop-append (length xs - n) xs ys (omega arith)))
      ∙ drop-drop (length (drop (length xs - n) (xs ++ ys)) - n) (length xs - n) (xs ++ ys)
      ∙ drop_eq (length (drop (length xs - n) (xs ++ ys)) - n + (length xs - n))
          (length (xs ++ ys) - n) (xs ++ ys)
          (omega (arith, length-drop (length xs - n) (xs ++ ys), length-append xs ys))

  pub all_recent : (n : ℕ) (xs : List A) → length xs ≤ n → recent n xs ≡ xs
  all_recent n xs h = drop_eq (length xs - n) 0 xs (omega arith)

  -- A full buffer makes room before it takes the element in, or after.
  pub make_room-push :
      (n : ℕ) (xs : List A) (x : A)
      → 0 < n
      → length xs ≤ n
      → (if leb n (length xs) then drop 1 xs else xs) ++ x ∷ [] ≡ recent n (xs ++ x ∷ [])
  make_room-push n xs x some_room h = elim (Bool-cases (leb n (length xs))) [
    | inl full ↦ rw full (
        sym (drop-append 1 xs (x ∷ []) (ground arith))
        ∙ drop_eq 1 (length (xs ++ x ∷ []) - n) (xs ++ x ∷ [])
            (ground (arith, length-append xs (x ∷ []))))
    | inr fits ↦
        rw fits (sym (all_recent n (xs ++ x ∷ []) (ground (arith, length-append xs (x ∷ [])))))
  ]

  pub push-make_room :
      (n : ℕ) (xs : List A) (x : A)
      → length xs ≤ n
      → (if ltb n (length (xs ++ x ∷ [])) then drop 1 (xs ++ x ∷ []) else xs ++ x ∷ [])
        ≡ recent n (xs ++ x ∷ [])
  push-make_room n xs x h = elim (Bool-cases (ltb n (length (xs ++ x ∷ [])))) [
    | inl full ↦ rw full (
        drop_eq 1 (length (xs ++ x ∷ []) - n) (xs ++ x ∷ [])
          (ground (arith, length-append xs (x ∷ []))))
    | inr fits ↦ rw fits (sym (all_recent n (xs ++ x ∷ []) (ground arith)))
  ]
