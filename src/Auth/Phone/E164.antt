-- ===== src/Auth/Phone/E164.antt =====
-- The normal form of a number, and what the normalisation and the mask make of it.
use sobhemessenger.Common.{
  ℕ, ◌≡◌, refl, Bool, true, false, not, ◌&&◌, ◌||◌, Option, none, some, [], ◌∷◌, ◌++◌, leb, ltb,
  ◌==◌, length, all, arith, if_intro,
}
use sobhemessenger.Common.Text.{Runes, is_between}
use sobhemessenger.Auth.Phone.{
  plus, nought, default_country_code, digit_folding, is_digit, is_separator, take_rune, and_then,
  collect, starts, starts_with_two, drop_one, international, checked, is_nonempty,
}

abbrev pub is_subscriber : Runes → Bool
is_subscriber digits =
    all is_digit digits
    && leb 8 (length digits)
    && leb (length digits) 15
    && not (starts nought digits)

-- A plus and 8 to 15 digits, the first of them no nought.
abbrev pub is_e164 : Runes → Bool
is_e164 [] = false
is_e164 (r ∷ s) = r == plus && is_subscriber s

abbrev pub OnSome {ℓ κ} : {A : Type ℓ} → (A → Type κ) → Option A → Type κ
OnSome P none = Unit
OnSome P (some a) = P a

pub and_then-OnSome {ℓ κ ι} :
    {A : Type ℓ} {B : Type κ} (P : B → Type ι) (o : Option A) (f : A → Option B)
    → ((a : A) → o ≡ some a → OnSome P (f a))
    → OnSome P (and_then o f)
and_then-OnSome P none f h = tt
and_then-OnSome P (some a) f h = h a refl

pub OnSome-some {ℓ κ} :
    {A : Type ℓ} (P : A → Type κ) (o : Option A) (a : A) → OnSome P o → o ≡ some a → P a
OnSome-some P o a h e = rw e at h

folded_digit : (r : ℕ) → OnSome (λ d. is_digit d ≡ true) (digit_folding r)
unfolding digit_folding
folded_digit r =
    if_intro (OnSome (λ d. is_digit d ≡ true)) (is_between 1776 1785 r) (some _) _
      (λ persian. ground (arith, persian))
      (λ _.
        if_intro (OnSome (λ d. is_digit d ≡ true)) (is_between 1632 1641 r) (some _) none
          (λ arabic. ground (arith, arabic)) (λ _. tt))

abbrev pub AllDigits : Bool × Runes → Type 0
AllDigits out = all is_digit out.1 ≡ true

take_rune-AllDigits :
    (f : Option ℕ) (at_start : Bool) (r : ℕ) (out : Bool × Runes)
    → OnSome (λ d. is_digit d ≡ true) f
    → AllDigits out
    → OnSome AllDigits (take_rune f at_start r out)
take_rune-AllDigits (some d) at_start r (p, ds) folded digits = rw folded digits
take_rune-AllDigits none at_start r (p, ds) folded digits =
    if_intro (OnSome AllDigits) (is_digit r) (some _) _ (λ ascii. rw ascii digits)
      λ _.
        if_intro (OnSome AllDigits) (r == plus && at_start) (some _) _ (λ _. digits)
          λ _. if_intro (OnSome AllDigits) (is_separator r) (some _) none (λ _. digits) (λ _. tt)

pub collect-AllDigits : (at_start : Bool) (s : Runes) → OnSome AllDigits (collect at_start s)
unfolding collect
collect-AllDigits at_start [] = refl
collect-AllDigits at_start (r ∷ s) = and_then-OnSome AllDigits (collect false s) _ λ out e.
    take_rune-AllDigits (digit_folding r) at_start r out (folded_digit r)
      (OnSome-some AllDigits (collect false s) out (collect-AllDigits false s) e)

all_digits-drop_one : (ds : Runes) → all is_digit ds ≡ true → all is_digit (drop_one ds) ≡ true
all_digits-drop_one [] h = refl
all_digits-drop_one (r ∷ s) h = ground (arith, h)

pub international_digits :
    (p : Bool) (ds : Runes) → all is_digit ds ≡ true → all is_digit (international p ds) ≡ true
unfolding international
international_digits p ds h =
    if_intro Q p ds _ (λ _. h)
      λ _.
        if_intro Q (starts_with_two nought nought ds) (drop_one (drop_one ds)) _
          (λ _. all_digits-drop_one (drop_one ds) (all_digits-drop_one ds h))
          λ _.
            if_intro Q (starts nought ds) (default_country_code ++ drop_one ds) _
              (λ _. all_digits-drop_one ds h)
              λ _.
                if_intro Q (is_nonempty ds && not (starts_with_two 57 56 ds) && leb (length ds) 10)
                  (default_country_code ++ ds) ds (λ _. h) (λ _. h)
  where
    Q : Runes → Type 0
    Q s = all is_digit s ≡ true

pub checked-E164 :
    (ds : Runes) → all is_digit ds ≡ true → OnSome (λ s. is_e164 s ≡ true) (checked ds)
checked-E164 ds h =
    if_intro (OnSome (λ s. is_e164 s ≡ true)) (ltb (length ds) 8 || ltb 15 (length ds)) none _
      (λ _. tt)
      λ sized.
        if_intro (OnSome (λ s. is_e164 s ≡ true)) (starts nought ds) none (some _) (λ _. tt)
          λ head. ground (arith, h, sized, head)
