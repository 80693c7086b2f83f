-- ===== src/Common/Assoc.antt =====
-- Go maps keyed by a number. Go leaves the order of iteration open, so no statement rests on it.
use Prim.Native.Nat.{ℕ, ◌+◌, ◌≤◌}
use mathlib.Core.Path.{◌≡◌, refl}
use mathlib.Core.Option.{Option, none, some}
use mathlib.Core.List.{List, [], ◌∷◌}
use native.Mathlib.Omega.{arith}
use sobhemessenger.Common.Tests.{◌==◌, if◌then◌else◌}

abbrev pub Assoc {ℓ} : Type ℓ → Type ℓ
Assoc V = List (ℕ × V)

module _ {ℓ} {V : Type ℓ} where
  -- `v, ok := m[k]`
  unfoldable pub lookup : ℕ → Assoc V → Option V
  lookup key [] = none
  lookup key ((other, found) ∷ rest) =
      let later = lookup key rest in if other == key then some found else later

  -- `m[k] = v`
  unfoldable pub insert : ℕ → V → Assoc V → Assoc V
  insert key new [] = (key, new) ∷ []
  insert key new ((other, old) ∷ rest) =
      let later = insert key new rest in
      if other == key then (key, new) ∷ rest else (other, old) ∷ later

  -- `delete(m, k)`
  unfoldable pub delete : ℕ → Assoc V → Assoc V
  delete k [] = []
  delete k ((j, v) ∷ m) = let rest = delete k m in if j == k then rest else (j, v) ∷ rest

  pub lookup-insert :
      (written key : ℕ) (new : V) (rest : Assoc V)
      → lookup key (insert written new rest)
        ≡ (if written == key then some new else lookup key rest)
  unfolding insert lookup
  lookup-insert written key new [] = ground arith
  lookup-insert written key new ((other, old) ∷ rest) =
      ground (arith, lookup-insert written key new rest)

  pub lookup-delete :
      (k j : ℕ) (m : Assoc V) → lookup j (delete k m) ≡ (if k == j then none else lookup j m)
  unfolding lookup delete
  lookup-delete k j [] = ground arith
  lookup-delete k j ((i, w) ∷ m) = ground (arith, lookup-delete k j m)

  -- One entry for each key.
  abbrev pub IsDistinct : Assoc V → Type ℓ
  IsDistinct [] = Unit
  IsDistinct ((k, v) ∷ m) = (lookup k m ≡ none) × IsDistinct m

  pub insert-IsDistinct : (k : ℕ) (v : V) (m : Assoc V) → IsDistinct m → IsDistinct (insert k v m)
  unfolding insert lookup
  insert-IsDistinct k v [] d = (refl, tt)
  insert-IsDistinct k v ((j, w) ∷ m) d =
      ground (arith, insert-IsDistinct k v m d.1, lookup-insert k j v m)

  pub delete-IsDistinct : (k : ℕ) (m : Assoc V) → IsDistinct m → IsDistinct (delete k m)
  unfolding delete
  delete-IsDistinct k [] d = tt
  delete-IsDistinct k ((j, w) ∷ m) d =
      ground (arith, delete-IsDistinct k m d.1, lookup-delete k j m)

  -- A sum over the values.
  unfoldable pub total : (V → ℕ) → Assoc V → ℕ
  total f [] = 0
  total f ((k, v) ∷ m) = f v + total f m

  abbrev pub value : (V → ℕ) → Option V → ℕ
  value f none = 0
  value f (some v) = f v

  pub total-insert :
      (f : V → ℕ) (k : ℕ) (v : V) (m : Assoc V)
      → total f (insert k v m) + value f (lookup k m) ≡ total f m + f v
  unfolding total insert lookup
  total-insert f k v [] = omega arith
  total-insert f k v ((j, w) ∷ m) = ground (arith, total-insert f k v m)

  total-delete_absent :
      (f : V → ℕ) (k : ℕ) (m : Assoc V) → lookup k m ≡ none → total f (delete k m) ≡ total f m
  unfolding total delete lookup
  total-delete_absent f k [] h = refl
  total-delete_absent f k ((j, w) ∷ m) h = ground (arith, total-delete_absent f k m)

  pub total-delete :
      (f : V → ℕ) (k : ℕ) (m : Assoc V)
      → IsDistinct m
      → total f (delete k m) + value f (lookup k m) ≡ total f m
  unfolding total delete lookup
  total-delete f k [] d = refl
  total-delete f k ((j, w) ∷ m) d =
      ground (arith, total-delete f k m d.1, total-delete_absent f k m, λ (e : j ≡ k). rw e at d.0)

  pub value-le-total : (f : V → ℕ) (k : ℕ) (m : Assoc V) → value f (lookup k m) ≤ total f m
  unfolding total lookup
  value-le-total f k [] = omega arith
  value-le-total f k ((j, w) ∷ m) = ground (arith, value-le-total f k m)
