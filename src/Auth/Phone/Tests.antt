-- ===== src/Auth/Phone/Tests.antt =====
-- Numbers as people type them.
use sobhemessenger.Common.{
  ◌≡◌, refl, true, ◌&&◌, not, some, [], ◌∷◌, ◌++◌, leb, length, if◌then◌else◌,
}
use sobhemessenger.Common.Text.{Runes, trim_space}
use sobhemessenger.Auth.Phone.{
  nought, plus, default_country_code, normalize_phone, starts_with_two, mask_phone,
}
use sobhemessenger.Auth.Phone.E164.{is_e164}
use sobhemessenger.Auth.Phone.Normal.{normalize_phone_idempotent, forms_agree}

-- 0912 345-6789 with a Persian one
abbrev typed : Runes
typed = 48 ∷ 57 ∷ 1777 ∷ 50 ∷ 32 ∷ 51 ∷ 52 ∷ 53 ∷ 45 ∷ 54 ∷ 55 ∷ 56 ∷ 57 ∷ []

abbrev number : Runes
number = 43 ∷ 57 ∷ 56 ∷ 57 ∷ 49 ∷ 50 ∷ 51 ∷ 52 ∷ 53 ∷ 54 ∷ 55 ∷ 56 ∷ 57 ∷ []

normalize_phone_idempotent_example :
    (is_e164 number ≡ true) × (normalize_phone number ≡ some number)
unfolding normalize_phone trim_space
normalize_phone_idempotent_example = normalize_phone_idempotent typed number refl

abbrev rest : Runes
rest = 49 ∷ 50 ∷ 51 ∷ 52 ∷ 53 ∷ 54 ∷ 55 ∷ 56 ∷ 57 ∷ []

forms_agree_example :
    (normalize_phone (nought ∷ 57 ∷ rest)
      ≡ normalize_phone (plus ∷ default_country_code ++ (57 ∷ rest)))
    × (normalize_phone (nought ∷ nought ∷ default_country_code ++ (57 ∷ rest))
        ≡ normalize_phone (plus ∷ default_country_code ++ (57 ∷ rest)))
    × ((if leb (length (57 ∷ rest)) 10 && not (starts_with_two 57 56 (57 ∷ rest))
          then normalize_phone (57 ∷ rest)
          else normalize_phone (plus ∷ default_country_code ++ (57 ∷ rest)))
        ≡ normalize_phone (plus ∷ default_country_code ++ (57 ∷ rest)))
forms_agree_example = forms_agree 57 rest refl refl

-- +98912***6789
masked : Runes
masked = mask_phone number

mask_phone-masked : masked ≡ 43 ∷ 57 ∷ 56 ∷ 57 ∷ 49 ∷ 50 ∷ 42 ∷ 42 ∷ 42 ∷ 54 ∷ 55 ∷ 56 ∷ 57 ∷ []
unfolding masked mask_phone
mask_phone-masked = refl
