-- ===== src/Base/Pigeonhole.antt =====
-- A list of distinct numbers below `n` has at most `n` members.
use huster_experiment_pke.Base.Tests.{◌==◌, if◌then◌else◌}
use huster_experiment_pke.Base.Lists.{length, ◌∉◌, All, Distinct}
use Prim.Native.Nat.{ℕ, zero, suc, ◌≤◌, ◌<◌}
use mathlib.Core.Path.{◌≡◌, refl}
use mathlib.Core.List.{List, [], ◌∷◌}
use native.Mathlib.Omega.{arith}

remove : ℕ → List ℕ → List ℕ
remove n [] = []
remove n (x ∷ xs) = if x == n then remove n xs else x ∷ remove n xs

elem-remove : (n a : ℕ) (xs : List ℕ) → a ∉ xs → a ∉ remove n xs
unfolding remove
elem-remove n a [] h = refl
elem-remove n a (x ∷ xs) h = ground (arith, elem-remove n a xs)

Distinct-remove : (n : ℕ) (xs : List ℕ) → Distinct xs → Distinct (remove n xs)
unfolding remove
Distinct-remove n [] d = tt
Distinct-remove n (x ∷ xs) d = ground (arith, Distinct-remove n xs d.1, elem-remove n x xs)

All-remove : (n : ℕ) (xs : List ℕ) → All (λ x. x < suc n) xs → All (λ x. x < n) (remove n xs)
unfolding remove
All-remove n [] h = tt
All-remove n (x ∷ xs) h = ground (arith, All-remove n xs h.1)

remove_absent : (n : ℕ) (xs : List ℕ) → n ∉ xs → length (remove n xs) ≡ length xs
unfolding remove
remove_absent n [] h = refl
remove_absent n (x ∷ xs) h = ground (arith, remove_absent n xs)

length-remove : (n : ℕ) (xs : List ℕ) → Distinct xs → length xs ≤ suc (length (remove n xs))
unfolding remove
length-remove n [] d = omega arith
length-remove n (x ∷ xs) d = ground (arith, length-remove n xs d.1, remove_absent n xs)

pub length-Distinct : (n : ℕ) (xs : List ℕ) → Distinct xs → All (λ x. x < n) xs → length xs ≤ n
length-Distinct zero [] d h = omega arith
length-Distinct zero (x ∷ xs) d h = absurd (omega arith)
length-Distinct (suc n) xs d h = omega (
  arith,
  length-remove n xs d,
  length-Distinct n (remove n xs) (Distinct-remove n xs d) (All-remove n xs h),
)
