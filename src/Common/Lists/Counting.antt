-- ===== src/Common/Lists/Counting.antt =====
-- Counts of the members of a list that pass a test.
use mathlib.Core.Path.{◌≡◌, refl, ap, fun_ext}
use mathlib.Core.Bool.{Bool, true}
use mathlib.Core.List.{List, [], ◌∷◌}
use Prim.Native.Nat.{◌≤◌}
use native.Mathlib.Omega.{arith}
use sobhemessenger.Common.Tests.{ltb}
use sobhemessenger.Common.Lists.{length, count_if, any}

module _ {ℓ} {A : Type ℓ} where
  pub count_if-ext :
      (p q : A → Bool) (xs : List A) → ((a : A) → p a ≡ q a) → count_if p xs ≡ count_if q xs
  count_if-ext p q xs h = ap (λ r. count_if r xs) (fun_ext h)

  pub count_if_mono :
      (p q : A → Bool) (xs : List A)
      → ((a : A) → p a ≡ true → q a ≡ true)
      → count_if p xs ≤ count_if q xs
  count_if_mono p q [] h = omega arith
  count_if_mono p q (x ∷ xs) h = ground (arith, count_if_mono p q xs h, h x)

  pub count_if-true : (xs : List A) → count_if (λ _. true) xs ≡ length xs
  count_if-true [] = refl
  count_if-true (x ∷ xs) = omega (arith, count_if-true xs)

  pub count_if-le-length : (p : A → Bool) (xs : List A) → count_if p xs ≤ length xs
  count_if-le-length p [] = omega arith
  count_if-le-length p (x ∷ xs) = ground (arith, count_if-le-length p xs)

  pub any-count_if : (p : A → Bool) (xs : List A) → any p xs ≡ ltb 0 (count_if p xs)
  any-count_if p [] = ground arith
  any-count_if p (x ∷ xs) = ground (arith, any-count_if p xs)
