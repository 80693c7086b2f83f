-- ===== src/Auth/Phone/Normal.antt =====
-- Normal numbers are fixed, and the ways of writing one number agree.
use sobhemessenger.Common.{
  ℕ, ◌≡◌, refl, ◌∙◌, ap, sym, Bool, true, false, not, ◌&&◌, none, some, if◌then◌else◌, [], ◌∷◌,
  ◌++◌, leb, ◌==◌, length, all, arith, if_intro,
}
use sobhemessenger.Common.Text.{Runes, is_empty, is_space, trim_left, trim_right, trim_space}
use sobhemessenger.Auth.Phone.{
  plus, nought, default_country_code, digit_folding, is_digit, collect, starts_with_two,
  international, checked, normalize_phone,
}
use sobhemessenger.Auth.Phone.E164.{
  is_e164, OnSome, OnSome-some, and_then-OnSome, collect-AllDigits, international_digits,
  checked-E164, AllDigits,
}

normalize_phone-E164 : (input : Runes) → OnSome (λ s. is_e164 s ≡ true) (normalize_phone input)
unfolding normalize_phone
normalize_phone-E164 input =
    if_intro (OnSome (λ s. is_e164 s ≡ true)) (is_empty (trim_space input)) none _ (λ _. tt)
      λ _.
        and_then-OnSome (λ s. is_e164 s ≡ true) (collect true (trim_space input)) _
          λ out e. checked-E164 (international out.0 out.1) (
            international_digits out.0 out.1 (
              OnSome-some AllDigits (collect true (trim_space input)) out
                (collect-AllDigits true (trim_space input)) e))

digit_is_plain : (r : ℕ) → is_digit r ≡ true → (is_space r ≡ false) × (digit_folding r ≡ none)
unfolding is_space digit_folding
digit_is_plain r h = (ground (arith, h), ground (arith, h))

trim_right-digits : (ds : Runes) → all is_digit ds ≡ true → trim_right ds ≡ ds
unfolding trim_right
trim_right-digits [] h = refl
trim_right-digits (r ∷ ds) h = ground (arith, trim_right-digits ds, h, digit_is_plain r)

collect-digits : (ds : Runes) → all is_digit ds ≡ true → collect false ds ≡ some (false, ds)
unfolding collect
collect-digits [] h = refl
collect-digits (r ∷ ds) h =
    let parts : (is_digit r ≡ true) × (all is_digit ds ≡ true) = ground (arith, h) in
    rw (collect-digits ds parts.1, (digit_is_plain r parts.0).1, parts.0) refl

and_false : (b : Bool) → (b && false) ≡ false
and_false true = refl
and_false false = refl

-- A text of a plus and digits is read as it stands.
plus_form : (ds : Runes) → all is_digit ds ≡ true → normalize_phone (plus ∷ ds) ≡ checked ds
unfolding normalize_phone trim_space trim_left trim_right is_space collect digit_folding
    international
plus_form ds h = rw (trim_right-digits ds h, and_false (is_empty ds), collect-digits ds h) refl

trim_left-digits : (ds : Runes) → all is_digit ds ≡ true → trim_left ds ≡ ds
unfolding trim_left
trim_left-digits [] h = refl
trim_left-digits (r ∷ ds) h =
    let digit : is_digit r ≡ true = ground (arith, h) in
    if_intro (λ s. s ≡ r ∷ ds) (is_space r) (trim_left ds) (r ∷ ds)
      (λ space. ground (arith, space, (digit_is_plain r digit).0)) (λ _. refl)

collect-first :
    (r : ℕ) (ds : Runes)
    → all is_digit (r ∷ ds) ≡ true
    → collect true (r ∷ ds) ≡ some (false, r ∷ ds)
unfolding collect
collect-first r ds h =
    let parts : (is_digit r ≡ true) × (all is_digit ds ≡ true) = ground (arith, h) in
    rw (collect-digits ds parts.1, (digit_is_plain r parts.0).1, parts.0) refl

-- A text of digits.
digits_form :
    (r : ℕ) (ds : Runes)
    → all is_digit (r ∷ ds) ≡ true
    → normalize_phone (r ∷ ds) ≡ checked (international false (r ∷ ds))
unfolding normalize_phone
digits_form r ds h = rw (trimmed, collect-first r ds h) refl
  where
    trimmed : trim_space (r ∷ ds) ≡ r ∷ ds
    trimmed = unfold trim_space in rw (trim_left-digits (r ∷ ds) h) (trim_right-digits (r ∷ ds) h)

-- `NormalizePhone` gives a plus and 8 to 15 digits of which the first is no nought, and it leaves such a
-- number as it is, so that to normalise twice is to normalise once.
pub normalize_phone_idempotent :
    (input number : Runes)
    → normalize_phone input ≡ some number
    → (is_e164 number ≡ true) × (normalize_phone number ≡ some number)
normalize_phone_idempotent input number e =
    let normal : is_e164 number ≡ true =
      OnSome-some (λ s. is_e164 s ≡ true) (normalize_phone input) number
        (normalize_phone-E164 input) e in
    (normal, fixed number normal)
  where
    fixed : (s : Runes) → is_e164 s ≡ true → normalize_phone s ≡ some s
    fixed [] h = ground (arith, h)
    fixed (r ∷ ds) h =
        let digits : all is_digit ds ≡ true = ground (arith, h) in
        let is_plus : r ≡ plus = ground (arith, h) in
        rw is_plus (plus_form ds digits ∙ ground (arith, h))

-- The subscriber's digits, written after a nought, after 0098 or after +98, give one number; so they do
-- alone if there are ten at most and they do not begin with 98.
pub forms_agree :
    (r : ℕ) (ds : Runes)
    → all is_digit (r ∷ ds) ≡ true
    → (r == nought) ≡ false
    → (normalize_phone (nought ∷ r ∷ ds)
        ≡ normalize_phone (plus ∷ default_country_code ++ (r ∷ ds)))
      × (normalize_phone (nought ∷ nought ∷ default_country_code ++ (r ∷ ds))
          ≡ normalize_phone (plus ∷ default_country_code ++ (r ∷ ds)))
      × ((if leb (length (r ∷ ds)) 10 && not (starts_with_two 57 56 (r ∷ ds))
            then normalize_phone (r ∷ ds)
            else normalize_phone (plus ∷ default_country_code ++ (r ∷ ds)))
          ≡ normalize_phone (plus ∷ default_country_code ++ (r ∷ ds)))
unfolding international
forms_agree r ds digits head = (
  digits_form nought (r ∷ ds) digits ∙ rw head (sym global),
  digits_form nought (nought ∷ default_country_code ++ (r ∷ ds)) digits ∙ sym global,
  if_intro (λ n. n ≡ normalize_phone (plus ∷ default_country_code ++ (r ∷ ds)))
      (leb (length (r ∷ ds)) 10 && not (starts_with_two 57 56 (r ∷ ds))) (normalize_phone (r ∷ ds))
      (normalize_phone (plus ∷ default_country_code ++ (r ∷ ds)))
      (λ bare. digits_form r ds digits ∙ ap checked (alone bare) ∙ sym global) (λ _. refl),
)
  where
    global :
        normalize_phone (plus ∷ default_country_code ++ (r ∷ ds))
        ≡ checked (default_country_code ++ (r ∷ ds))
    global = plus_form (default_country_code ++ (r ∷ ds)) digits

    alone :
        (leb (length (r ∷ ds)) 10 && not (starts_with_two 57 56 (r ∷ ds))) ≡ true
        → international false (r ∷ ds) ≡ default_country_code ++ (r ∷ ds)
    alone bare = ground (arith, bare, head)
