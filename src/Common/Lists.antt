-- ===== src/Common/Lists.antt =====
-- Lists measured by native numbers, and lists of numbers used as Go sets (`map[K]struct{}`).
pub mod Sets
pub mod Counting
pub mod Rows
use Prim.Native.Nat.{ℕ, suc, ◌+◌}
use mathlib.Core.Path.{◌≡◌}
use mathlib.Core.Bool.{Bool, true, false, ◌||◌, ◌&&◌}
use mathlib.Core.List.{List, [], ◌∷◌, ◌++◌}
use native.Mathlib.Omega.{arith}
use sobhemessenger.Common.Tests.{◌==◌, if◌then◌else◌, bit}

module _ {ℓ} {A : Type ℓ} where
  abbrev pub length : List A → ℕ
  length [] = 0
  length (_ ∷ xs) = suc (length xs)

  abbrev pub any : (A → Bool) → List A → Bool
  any p [] = false
  any p (x ∷ xs) = p x || any p xs

  abbrev pub all : (A → Bool) → List A → Bool
  all p [] = true
  all p (x ∷ xs) = p x && all p xs

  -- How many members pass the test.
  abbrev pub count_if : (A → Bool) → List A → ℕ
  count_if p [] = 0
  count_if p (x ∷ xs) = bit (p x) + count_if p xs

  pub length-append : (xs ys : List A) → length (xs ++ ys) ≡ length xs + length ys
  length-append [] ys = omega arith
  length-append (x ∷ xs) ys = omega (arith, length-append xs ys)

-- A predicate of every member, which the tactics read as a tuple.
abbrev pub All {ℓ κ} : {A : Type ℓ} → (A → Type κ) → List A → Type κ
All P [] = Unit
All P (x ∷ xs) = P x × All P xs

-- `_, ok := set[k]`
unfoldable pub contains : ℕ → List ℕ → Bool
contains k [] = false
contains k (x ∷ xs) = x == k || contains k xs

-- `set[k] = struct{}{}`
unfoldable pub add : ℕ → List ℕ → List ℕ
unfolding contains
add k xs = if contains k xs then xs else k ∷ xs

-- `delete(set, k)`
unfoldable pub remove : ℕ → List ℕ → List ℕ
remove k [] = []
remove k (x ∷ xs) = let rest = remove k xs in if x == k then rest else x ∷ rest

pub contains-add : (k j : ℕ) (xs : List ℕ) → contains j (add k xs) ≡ ((k == j) || contains j xs)
unfolding add
contains-add k j xs = ground arith

pub contains-remove :
    (k j : ℕ) (xs : List ℕ) → contains j (remove k xs) ≡ (if k == j then false else contains j xs)
unfolding contains remove
contains-remove k j [] = ground arith
contains-remove k j (x ∷ xs) = ground (arith, contains-remove k j xs)

-- How often `k` occurs; a set holds each member once.
unfoldable pub count : ℕ → List ℕ → ℕ
count k [] = 0
count k (x ∷ xs) = bit (x == k) + count k xs

pub count-add :
    (k j : ℕ) (xs : List ℕ)
    → count j (add k xs) ≡ count j xs + (if contains k xs then 0 else bit (k == j))
unfolding count add
count-add k j xs = ground arith

pub count-remove :
    (k j : ℕ) (xs : List ℕ) → count j (remove k xs) ≡ (if k == j then 0 else count j xs)
unfolding count remove
count-remove k j [] = ground arith
count-remove k j (x ∷ xs) = ground (arith, count-remove k j xs)
