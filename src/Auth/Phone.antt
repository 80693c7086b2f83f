-- ===== src/Auth/Phone.antt =====
-- backend/internal/auth/phone.go. A text is its runes; what is written to the builder is ASCII, so that
-- its bytes are its runes.
pub mod E164
pub mod Normal
mod Tests
use sobhemessenger.Common.{
  ℕ, ◌+◌, ◌-◌, ◌<◌, Bool, true, false, not, ◌&&◌, ◌||◌, Option, none, some, if◌then◌else◌, List, [],
  ◌∷◌, ◌++◌, leb, ltb, ◌==◌, length,
}
use sobhemessenger.Common.Text.{Runes, is_empty, is_between, trim_space}

-- '+', '0' and the default country code
abbrev pub plus : ℕ
plus = 43

abbrev pub nought : ℕ
nought = 48

abbrev pub default_country_code : Runes
default_country_code = 57 ∷ 56 ∷ []

-- `digitFolding`: the Persian and the Arabic-Indic digits.
unfoldable pub digit_folding : ℕ → Option ℕ
digit_folding r =
    if is_between 1776 1785 r
    then some (48 + (r - 1776))
    else if is_between 1632 1641 r
    then some (48 + (r - 1632))
    else none

abbrev pub is_digit : ℕ → Bool
is_digit r = is_between 48 57 r

-- Space, dash, parentheses, dot and the zero-width non-joiner.
abbrev pub is_separator : ℕ → Bool
is_separator r = r == 32 || r == 45 || r == 40 || r == 41 || r == 46 || r == 8204

-- One rune of the loop, before what the rest of the text gives: whether there is a plus, and the digits.
abbrev pub take_rune : Option ℕ → Bool → ℕ → Bool × Runes → Option (Bool × Runes)
take_rune (some folded) at_start r (has_plus, digits) = some (has_plus, folded ∷ digits)
take_rune none at_start r (has_plus, digits) =
    if is_digit r
    then some (has_plus, r ∷ digits)
    else if r == plus && at_start
    then some (true, digits)
    else if is_separator r
    then some (has_plus, digits)
    else none

abbrev pub and_then {ℓ κ} : {A : Type ℓ} {B : Type κ} → Option A → (A → Option B) → Option B
and_then none f = none
and_then (some a) f = f a

unfoldable pub collect : Bool → Runes → Option (Bool × Runes)
unfolding digit_folding
collect at_start [] = some (false, [])
collect at_start (r ∷ s) = and_then (collect false s) (take_rune (digit_folding r) at_start r)

-- `strings.HasPrefix` for the prefixes of the source.
abbrev pub starts : ℕ → Runes → Bool
starts a [] = false
starts a (r ∷ s) = r == a

abbrev pub starts_with_two : ℕ → ℕ → Runes → Bool
starts_with_two a b [] = false
starts_with_two a b (r ∷ s) = r == a && starts b s

abbrev pub drop_one : Runes → Runes
drop_one [] = []
drop_one (r ∷ s) = s

abbrev pub is_nonempty : Runes → Bool
is_nonempty s = not (is_empty s)

-- The switch on how the number was written.
unfoldable pub international : Bool → Runes → Runes
international has_plus digits =
    if has_plus
    then digits
    else if starts_with_two nought nought digits
    then drop_one (drop_one digits)
    else if starts nought digits
    then default_country_code ++ drop_one digits
    else if is_nonempty digits && not (starts_with_two 57 56 digits) && leb (length digits) 10
    then default_country_code ++ digits
    else digits

abbrev pub checked : Runes → Option Runes
checked digits =
    if ltb (length digits) 8 || ltb 15 (length digits)
    then none
    else if starts nought digits
    then none
    else some (plus ∷ digits)

unfoldable pub normalize_phone : Runes → Option Runes
unfolding collect international
normalize_phone input =
    if is_empty (trim_space input)
    then none
    else and_then (collect true (trim_space input))
        λ (has_plus, digits). checked (international has_plus digits)

-- `s[:n]` and `s[n:]`
unfoldable pub take : ℕ → Runes → Runes
take n [] = []
take n (r ∷ s) = let rest = take (n - 1) s in if n == 0 then [] else r ∷ rest

unfoldable pub drop : ℕ → Runes → Runes
drop n [] = []
drop n (r ∷ s) = let rest = drop (n - 1) s in if n == 0 then r ∷ s else rest

abbrev pub stars : Runes
stars = 42 ∷ 42 ∷ 42 ∷ []

unfoldable pub mask_phone : Runes → Runes
unfolding take drop
mask_phone e164 =
    let prefix = if ltb (length e164) 11 then 3 else 6 in
    if ltb (length e164) 8
    then stars
    else take prefix e164 ++ (stars ++ drop (length e164 - 4) e164)
