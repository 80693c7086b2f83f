-- ===== src/Auth/Challenges.antt =====
-- backend/internal/auth/repository.go: codes that have been sent to a phone, newest first, for the one
-- purpose that the program asks for, "login".
use sobhemessenger.Common.{
  ℕ, ◌+◌, Bool, not, ◌&&◌, Option, none, some, Uuid, List, ◌∷◌, ◌==◌, if◌then◌else◌, is_some, leb,
  map, any,
}
use sobhemessenger.Common.Lists.Rows.{find_if, filter_if}
use sobhemessenger.Common.Text.{Runes, is_equal}
use sobhemessenger.Auth.Accounts.{Hash}

pub record Challenge : Type 0 where
  pub id : Uuid
  pub phone_number : Runes
  pub code_hash : Hash
  pub attempts : ℕ
  pub max_attempts : ℕ
  pub expires_at : ℕ
  pub consumed_at : Option ℕ

unfoldable pub create_otp_challenge : Uuid → Runes → Hash → ℕ → ℕ → List Challenge → List Challenge
create_otp_challenge id phone hash max_attempts expires rows =
    record {
      id = id;
      phone_number = phone;
      code_hash = hash;
      attempts = 0;
      max_attempts = max_attempts;
      expires_at = expires;
      consumed_at = none;
    }
    ∷ rows

abbrev pub is_open : Challenge → Bool
is_open ch = not (is_some ch.consumed_at)

unfoldable pub latest_otp_challenge : Runes → List Challenge → Option Challenge
unfolding find_if
latest_otp_challenge phone rows =
    find_if (λ (ch : Challenge). is_equal ch.phone_number phone && is_open ch) rows

abbrev pub is_challenge : Uuid → Challenge → Bool
is_challenge id ch = ch.id == id

abbrev pub burn : Uuid → Challenge → Challenge
burn id ch = if is_challenge id ch then record ch { attempts = ch.attempts + 1 } else ch

abbrev pub attempts_of : Option Challenge → ℕ
attempts_of none = 0
attempts_of (some ch) = ch.attempts

-- With the new count; for a row that is gone the statement fails, and Go has 0.
unfoldable pub burn_otp_attempt : Uuid → List Challenge → ℕ × List Challenge
unfolding find_if
burn_otp_attempt id rows =
    let burned = map (burn id) rows in (attempts_of (find_if (is_challenge id) burned), burned)

abbrev pub may_consume : Uuid → Challenge → Bool
may_consume id ch = is_challenge id ch && is_open ch

abbrev pub consume : ℕ → Uuid → Challenge → Challenge
consume now id ch = if may_consume id ch then record ch { consumed_at = some now } else ch

unfoldable pub consume_otp_challenge : ℕ → Uuid → List Challenge → Bool × List Challenge
consume_otp_challenge now id rows = (any (may_consume id) rows, map (consume now id) rows)

unfoldable pub delete_expired_otp_challenges : ℕ → ℕ → List Challenge → List Challenge
unfolding filter_if
delete_expired_otp_challenges now older_than rows =
    filter_if (λ (ch : Challenge). leb now (ch.expires_at + older_than)) rows
