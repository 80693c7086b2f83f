-- ===== src/Auth/Login/Budget.antt =====
-- What is left of the attempts at a code.
use sobhemessenger.Common.{
  ℕ, ◌-◌, ◌≤◌, ◌≡◌, refl, Option, none, some, Uuid, List, [], ◌∷◌, ◌==◌, if◌then◌else◌, map,
  count_if, arith,
}
use sobhemessenger.Common.Lists.Rows.{find_if}
use sobhemessenger.Common.Text.{Runes}
use sobhemessenger.Auth.Challenges.{Challenge, burn, consume, is_challenge, latest_otp_challenge}

-- How many wrong guesses the row of a challenge has left.
abbrev pub left : Option Challenge → ℕ
left none = 0
left (some ch) = ch.max_attempts - ch.attempts

abbrev pub budget : Uuid → List Challenge → ℕ
budget k rows = left (find_if (is_challenge k) rows)

module _ (k : Uuid) where
  pub rows-burn :
      (j : Uuid) (rows : List Challenge)
      → count_if (is_challenge k) (map (burn j) rows) ≡ count_if (is_challenge k) rows
  rows-burn j [] = refl
  rows-burn j (ch ∷ rows) = ground (arith, rows-burn j rows)

  pub rows-consume :
      (now : ℕ) (j : Uuid) (rows : List Challenge)
      → count_if (is_challenge k) (map (consume now j) rows) ≡ count_if (is_challenge k) rows
  rows-consume now j [] = refl
  rows-consume now j (ch ∷ rows) = ground (arith, rows-consume now j rows)

  pub budget-burn :
      (j : Uuid) (rows : List Challenge)
      → budget k (map (burn j) rows) ≡ (if j == k then budget k rows - 1 else budget k rows)
  unfolding find_if
  budget-burn j [] = ground arith
  budget-burn j (ch ∷ rows) = ground (arith, budget-burn j rows)

  pub budget-consume :
      (now : ℕ) (j : Uuid) (rows : List Challenge)
      → budget k (map (consume now j) rows) ≡ budget k rows
  unfolding find_if
  budget-consume now j [] = refl
  budget-consume now j (ch ∷ rows) = ground (arith, budget-consume now j rows)

found_counts :
    (phone : Runes) (ch : Challenge) (rows : List Challenge)
    → latest_otp_challenge phone rows ≡ some ch
    → 1 ≤ count_if (is_challenge ch.id) rows
unfolding latest_otp_challenge find_if
found_counts phone ch [] found = ground (arith, found)
found_counts phone ch (row ∷ rows) found = ground (arith, found, found_counts phone ch rows)

-- Where an id has one row, the budget of a challenge that is looked up is that of its row.
pub budget-latest :
    (phone : Runes) (ch : Challenge) (rows : List Challenge)
    → latest_otp_challenge phone rows ≡ some ch
    → count_if (is_challenge ch.id) rows ≤ 1
    → budget ch.id rows ≡ ch.max_attempts - ch.attempts
unfolding latest_otp_challenge find_if
budget-latest phone ch [] found one = ground (arith, found)
budget-latest phone ch (row ∷ rows) found one =
    ground (arith, found, one, budget-latest phone ch rows, found_counts phone ch rows)
