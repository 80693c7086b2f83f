-- ===== src/Common/Lists/Rows.antt =====
-- Rows of a table as a list: the clauses WHERE, ORDER BY and LIMIT, and runs of sequence numbers.
use mathlib.Core.Bool.{Bool}
use mathlib.Core.List.{List, [], ◌∷◌}
use mathlib.Core.Option.{Option, none, some}
use Prim.Native.Nat.{ℕ, zero, suc}
use sobhemessenger.Common.Tests.{if◌then◌else◌}

module _ {ℓ} {A : Type ℓ} where
  -- WHERE
  unfoldable pub filter_if : (A → Bool) → List A → List A
  filter_if p [] = []
  filter_if p (x ∷ xs) = let rest = filter_if p xs in if p x then x ∷ rest else rest

  -- The first row that a WHERE clause takes.
  unfoldable pub find_if : (A → Bool) → List A → Option A
  find_if p [] = none
  find_if p (x ∷ xs) = let rest = find_if p xs in if p x then some x else rest

  -- LIMIT
  unfoldable pub take : ℕ → List A → List A
  take zero xs = []
  take (suc n) [] = []
  take (suc n) (x ∷ xs) = x ∷ take n xs

  -- ORDER BY, by insertion from the right; the test says which of two rows comes first.
  unfoldable pub insert_by : (A → A → Bool) → A → List A → List A
  insert_by before x [] = x ∷ []
  insert_by before x (y ∷ ys) =
      let later = insert_by before x ys in if before x y then x ∷ y ∷ ys else y ∷ later

  unfoldable pub order_by : (A → A → Bool) → List A → List A
  unfolding insert_by
  order_by before [] = []
  order_by before (x ∷ xs) = insert_by before x (order_by before xs)

-- n, n - 1, ..., 1: the sequence numbers of a table, newest row first.
abbrev pub countdown : ℕ → List ℕ
countdown zero = []
countdown (suc n) = suc n ∷ countdown n

-- The n numbers after a, in order.
abbrev pub numbers_after : ℕ → ℕ → List ℕ
numbers_after a zero = []
numbers_after a (suc n) = suc a ∷ numbers_after (suc a) n
