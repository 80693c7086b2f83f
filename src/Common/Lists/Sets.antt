-- ===== src/Common/Lists/Sets.antt =====
-- Sizes of the lists that stand for Go sets, before and after a write.
use mathlib.Core.Path.{◌≡◌, refl}
use mathlib.Core.Bool.{Bool, false}
use mathlib.Core.List.{List, [], ◌∷◌}
use Prim.Native.Nat.{ℕ, ◌+◌, ◌≤◌}
use native.Mathlib.Omega.{arith}
use sobhemessenger.Common.Tests.{◌==◌, ltb, if◌then◌else◌, bit}
use sobhemessenger.Common.Lists.{length, count_if, contains, add, remove, count}

pub length-remove : (k : ℕ) (xs : List ℕ) → length (remove k xs) + count k xs ≡ length xs
unfolding remove count
length-remove k [] = refl
length-remove k (x ∷ xs) = ground (arith, length-remove k xs)

pub length-add :
    (k : ℕ) (xs : List ℕ) → length (add k xs) ≡ length xs + (if contains k xs then 0 else 1)
unfolding add
length-add k xs = ground arith

-- Membership is a positive count.
pub contains-count : (k : ℕ) (xs : List ℕ) → contains k xs ≡ ltb 0 (count k xs)
unfolding contains count
contains-count k [] = refl
contains-count k (x ∷ xs) = ground (arith, contains-count k xs)

pub bit-contains : (k : ℕ) (xs : List ℕ) → count k xs ≤ 1 → bit (contains k xs) ≡ count k xs
bit-contains k xs h = ground (arith, contains-count k xs)

-- In a list without `k` the rest of the test does not matter at `k`.
pub count_if-agree :
    (p q : ℕ → Bool) (k : ℕ) (xs : List ℕ)
    → ((j : ℕ) → (k == j) ≡ false → q j ≡ p j)
    → count_if q xs + (if p k then count k xs else 0)
      ≡ count_if p xs + (if q k then count k xs else 0)
unfolding count
count_if-agree p q k [] h = ground arith
count_if-agree p q k (x ∷ xs) h =
    ground (arith, count_if-agree p q k xs h, h x, λ (e : k ≡ x). subst_at x e)
  where
    subst_at : (x : ℕ) → k ≡ x → (p k ≡ p x) × (q k ≡ q x)
    subst_at x e = (rw e refl, rw e refl)

pub count_if-remove :
    (p : ℕ → Bool) (k : ℕ) (xs : List ℕ)
    → count_if p (remove k xs) + (if p k then count k xs else 0) ≡ count_if p xs
unfolding remove count
count_if-remove p k [] = ground arith
count_if-remove p k (x ∷ xs) = ground (arith, count_if-remove p k xs)

pub count_if-add :
    (p : ℕ → Bool) (k : ℕ) (xs : List ℕ)
    → count_if p (add k xs) ≡ count_if p xs + (if contains k xs then 0 else bit (p k))
unfolding add
count_if-add p k xs = ground arith
