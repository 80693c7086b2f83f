-- ===== src/Common/Tests.antt =====
-- Boolean tests on the native numbers, the conditional, and the splits that keep an equation.
use Prim.Native.Nat.{ℕ, ◌≤◌, ◌<◌, compare, Ordering}
use mathlib.Core.Path.{◌≡◌, refl, ap}
use mathlib.Core.Logic.{◌≢◌, ◌↔◌, ◌⊎◌, inl, inr}
use mathlib.Core.Bool.{Bool, true, false, not, ◌&&◌}
use mathlib.Core.Option.{Option, none, some}
use native.Mathlib.Omega.{arith}

abbrev pub ltb : ℕ → ℕ → Bool
ltb a b = elim (compare a b) [ Ordering.lt ↦ true | _ ↦ false ]

abbrev pub leb : ℕ → ℕ → Bool
leb a b = elim (compare a b) [ Ordering.gt ↦ false | _ ↦ true ]

infix 50 ◌==◌
abbrev pub ◌==◌ : ℕ → ℕ → Bool
a == b = elim (compare a b) [ Ordering.eq ↦ true | _ ↦ false ]

infix 1 if◌then◌else◌
abbrev pub if◌then◌else◌ {ℓ} : {A : Type ℓ} → Bool → A → A → A
if true then x else y = x
if false then x else y = y

pub ltb→lt : (a b : ℕ) → ltb a b ≡ true → a < b
ltb→lt a b h = ground arith

pub ==-refl : (a : ℕ) → (a == a) ≡ true
==-refl a = ground arith

pub ==_iff : (a b : ℕ) → ((a == b) ≡ true) ↔ (a ≡ b)
==_iff a b = ground arith

pub eq_of_beq : (a b : ℕ) → (a == b) ≡ true → a ≡ b
eq_of_beq a b h = ground arith

pub ne_of_beq : (a b : ℕ) → (a == b) ≡ false → a ≢ b
ne_of_beq a b h = ground arith

pub Bool-cases : (b : Bool) → (b ≡ true) ⊎ (b ≡ false)
Bool-cases true = inl refl
Bool-cases false = inr refl

pub Option-cases {ℓ} : {A : Type ℓ} (o : Option A) → (o ≡ none) ⊎ ((a : A) × (o ≡ some a))
Option-cases none = inl refl
Option-cases (some a) = inr (a, refl)

abbrev pub is_some {ℓ} : {A : Type ℓ} → Option A → Bool
is_some none = false
is_some (some _) = true

-- `b` as a number, for counts.
abbrev pub bit : Bool → ℕ
bit true = 1
bit false = 0

pub leb→le : (a b : ℕ) → leb a b ≡ true → a ≤ b
leb→le a b h = ground arith

-- A property of both branches, each under its test.
pub if_intro {ℓ κ} :
    {A : Type ℓ} (P : A → Type κ) (b : Bool) (x y : A)
    → (b ≡ true → P x)
    → (b ≡ false → P y)
    → P (if b then x else y)
if_intro P true x y here there = here refl
if_intro P false x y here there = there refl

-- What to do without a value, and with one.
abbrev pub on_option {ℓ κ} : {A : Type ℓ} {B : Type κ} → Option A → B → (A → B) → B
on_option none x f = x
on_option (some a) x f = f a

pub option_intro {ℓ κ ι} :
    {A : Type ℓ} {B : Type κ} (P : B → Type ι) (o : Option A) (x : B) (f : A → B)
    → (o ≡ none → P x)
    → ((a : A) → o ≡ some a → P (f a))
    → P (on_option o x f)
option_intro P none x f here there = here refl
option_intro P (some a) x f here there = there a refl

pub on_option-true {ℓ} :
    {A : Type ℓ} (o : Option A) (f : A → Bool)
    → on_option o false f ≡ true
    → (a : A) × (o ≡ some a) × (f a ≡ true)
on_option-true none f h = ground (arith, h)
on_option-true (some a) f h = (a, refl, h)

pub on_some {ℓ κ} :
    {A : Type ℓ} {B : Type κ} (o : Option A) (a : A) (x : B) (f : A → B)
    → o ≡ some a
    → on_option o x f ≡ f a
on_some o a x f h = ap (λ o'. on_option o' x f) h

pub if_true {ℓ} : {A : Type ℓ} (b : Bool) (x y : A) → b ≡ true → (if b then x else y) ≡ x
if_true b x y h = ap (λ b'. if b' then x else y) h

pub if_false {ℓ} : {A : Type ℓ} (b : Bool) (x y : A) → b ≡ false → (if b then x else y) ≡ y
if_false b x y h = ap (λ b'. if b' then x else y) h

pub and_true : (b b' : Bool) → (b && b') ≡ true → (b ≡ true) × (b' ≡ true)
and_true b b' h = ground (arith, h)

pub not-true : (b : Bool) → not b ≡ true → b ≡ false
not-true b h = ground (arith, h)
