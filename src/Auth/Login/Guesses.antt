-- ===== src/Auth/Login/Guesses.antt =====
-- How often a code can be guessed wrong, by attempts that do not overlap.
use mathlib.Core.Path.{subst}
use sobhemessenger.Common.{
  on_option-true, on_some, if_true, if_false, and_true, not-true, ℕ, ◌+◌, ◌-◌, ◌≤◌, ◌≡◌, refl, sym,
  ap, ◌∙◌, Bool, true, false, not, ◌&&◌, Option, some, Uuid, List, [], ◌∷◌, map, count_if, arith,
  bit, on_option, Bool-cases, eq_of_beq, inl, inr,
}
use sobhemessenger.Common.Text.{Runes, trim_space}
use sobhemessenger.Httpx.{Fault, Result, ok, err, is_ok}
use sobhemessenger.Auth.Phone.{normalize_phone}
use sobhemessenger.Auth.Accounts.{Hash}
use sobhemessenger.Auth.Challenges.{
  Challenge, burn, is_challenge, latest_otp_challenge, burn_otp_attempt,
}
use sobhemessenger.Auth.Tokens.{Config}
use sobhemessenger.Auth.Login.{
  State, VerifyOtpInput, Fresh, Answer, when_checked, verify_otp, check_challenge, is_code,
}
use sobhemessenger.Auth.Login.Outcomes.{verify_intro, right_code_rows}
use sobhemessenger.Auth.Login.Budget.{
  budget, rows-burn, rows-consume, budget-burn, budget-consume, budget-latest,
}

pub record Attempt : Type 0 where
  pub now : ℕ
  pub minted : ℕ
  pub fresh : Fresh
  pub allowed : Bool
  pub input : VerifyOtpInput

is_ok-true : (r : Result Fault (Unit {0})) → is_ok r ≡ true → r ≡ ok tt
is_ok-true (ok _) h = refl
is_ok-true (err e) h = ground (arith, h)

-- A challenge that passes the check has guesses left.
guesses_left :
    (now : ℕ) (ch : Challenge)
    → is_ok (check_challenge now ch) ≡ true
    → 1 ≤ ch.max_attempts - ch.attempts
unfolding check_challenge
guesses_left now ch h = ground (arith, h)

module _ (c : Config) (hash_token : Runes → Hash) (verify_password : Runes → Hash → Option Bool)
    (k : Uuid) where
  -- The attempt compares its code with the challenge, and it is wrong.
  abbrev pub is_wrong_at : Attempt → Challenge → Bool
  is_wrong_at a ch =
      is_challenge k ch
      && (is_ok (check_challenge a.now ch)
          && not (is_code c hash_token verify_password a.input.code ch))

  abbrev pub is_wrong_for : Attempt → List Challenge → Runes → Bool
  is_wrong_for a rows phone = on_option (latest_otp_challenge phone rows) false (is_wrong_at a)

  abbrev pub is_wrong_guess : Attempt → List Challenge → Bool
  is_wrong_guess a rows =
      a.allowed && on_option (normalize_phone a.input.phone) false (is_wrong_for a rows)

  abbrev pub attempt : Attempt → State → State
  attempt a s =
      (verify_otp c hash_token verify_password a.now a.minted a.fresh a.allowed a.input s.challenges
        s).1

  unfoldable pub wrong_guesses : List Attempt → State → ℕ
  unfolding normalize_phone latest_otp_challenge check_challenge verify_otp trim_space
  wrong_guesses [] s = 0
  wrong_guesses (a ∷ rest) s =
      bit (is_wrong_guess a s.challenges) + wrong_guesses rest (attempt a s)

  module _ (a : Attempt) (s : State) where
    abbrev rows : List Challenge
    rows = s.challenges

    wrong_runs :
        (phone : Runes) (ch : Challenge)
        → normalize_phone a.input.phone ≡ some phone
        → a.allowed ≡ true
        → latest_otp_challenge phone rows ≡ some ch
        → check_challenge a.now ch ≡ ok tt
        → is_code c hash_token verify_password a.input.code ch ≡ false
        → (attempt a s).challenges ≡ map (burn ch.id) rows
    unfolding verify_otp burn_otp_attempt
    wrong_runs phone ch normal allowed found checked differs =
        ap (λ (r : Answer). r.1.challenges)
          (on_some (normalize_phone a.input.phone) phone _ _ normal
            ∙ if_true a.allowed _ _ allowed
            ∙ on_some (latest_otp_challenge phone rows) ch _ _ found
            ∙ ap
                (when_checked c hash_token verify_password a.now a.minted a.fresh a.input phone ch
                  s)
                checked
            ∙ if_false (is_code c hash_token verify_password a.input.code ch) _ _ differs)

    -- The challenge of a wrong guess, and what the guess does.
    wrong_guess :
        is_wrong_guess a rows ≡ true
        → (phone : Runes) × (ch : Challenge) × (latest_otp_challenge phone rows ≡ some ch)
          × (ch.id ≡ k)
          × (is_ok (check_challenge a.now ch) ≡ true)
          × ((attempt a s).challenges ≡ map (burn ch.id) rows)
    wrong_guess h =
        let (allowed, guess) =
          and_true a.allowed (on_option (normalize_phone a.input.phone) false (is_wrong_for a rows))
            h in
        let (phone, normal, for_phone) =
          on_option-true (normalize_phone a.input.phone) (is_wrong_for a rows) guess in
        let (ch, found, at) =
          on_option-true (latest_otp_challenge phone rows) (is_wrong_at a) for_phone in
        let (same, tested) =
          and_true (is_challenge k ch)
            (is_ok (check_challenge a.now ch)
              && not (is_code c hash_token verify_password a.input.code ch))
            at in
        let (checked, differs) =
          and_true (is_ok (check_challenge a.now ch))
            (not (is_code c hash_token verify_password a.input.code ch)) tested in
        (
          phone,
          ch,
          found,
          eq_of_beq ch.id k same,
          checked,
          wrong_runs phone ch normal allowed found (is_ok-true (check_challenge a.now ch) checked)
              (not-true (is_code c hash_token verify_password a.input.code ch) differs),
        )

    attempt_keeps :
        count_if (is_challenge k) (attempt a s).challenges ≡ count_if (is_challenge k) rows
    unfolding burn_otp_attempt
    attempt_keeps =
        verify_intro c hash_token verify_password
          (λ (r : Answer).
            count_if (is_challenge k) r.1.challenges ≡ count_if (is_challenge k) rows)
          a.now a.minted a.fresh a.input s (λ _. refl) a.allowed rows
          (λ _ ch _ _ _ _. rows-burn k ch.id rows)
          (λ phone ch _ _.
            ap (count_if (is_challenge k))
              (right_code_rows c hash_token verify_password a.now a.minted a.fresh phone ch _ s)
            ∙ rows-consume k a.now ch.id rows)

    budget-attempt : budget k (attempt a s).challenges ≤ budget k rows
    unfolding burn_otp_attempt
    budget-attempt =
        verify_intro c hash_token verify_password
          (λ (r : Answer). budget k r.1.challenges ≤ budget k rows) a.now a.minted a.fresh a.input s
          (λ _. omega arith) a.allowed rows
          (λ _ ch _ _ _ _. ground (arith, budget-burn k ch.id rows))
          (λ phone ch _ _.
            subst (λ after. budget k after ≤ budget k rows)
              (sym
                (right_code_rows c hash_token verify_password a.now a.minted a.fresh phone ch _ s))
              (omega (arith, budget-consume k a.now ch.id rows)))

    burn_costs :
        (ch : Challenge)
        → ch.id ≡ k
        → is_ok (check_challenge a.now ch) ≡ true
        → budget ch.id rows ≡ ch.max_attempts - ch.attempts
        → 1 + budget k (map (burn ch.id) rows) ≤ budget k rows
    burn_costs ch same checked latest =
        rw (sym same)
          (ground (arith, guesses_left a.now ch checked, budget-burn ch.id ch.id rows, latest))

    guess_costs :
        count_if (is_challenge k) rows ≤ 1
        → bit (is_wrong_guess a rows) + budget k (attempt a s).challenges ≤ budget k rows
    guess_costs one = elim (Bool-cases (is_wrong_guess a rows)) [
      | inl wrong ↦
          let (phone, ch, found, same, checked, burned) = wrong_guess wrong in
          rw (wrong, burned)
            (burn_costs ch same checked (budget-latest phone ch rows found (rw same one)))
      | inr right ↦ rw right (omega (arith, budget-attempt))
    ]

  -- For a challenge with one row: in a sequence of calls of VerifyOTP that do not overlap, whatever codes
  -- and phones they are for and whenever they come, the calls that compare a wrong code with the
  -- challenge are at most its maximum less the attempts that it has counted before.
  pub wrong_guesses_bound :
      (attempts : List Attempt) (s : State)
      → count_if (is_challenge k) s.challenges ≤ 1
      → wrong_guesses attempts s ≤ budget k s.challenges
  unfolding wrong_guesses
  wrong_guesses_bound [] s one = omega arith
  wrong_guesses_bound (a ∷ rest) s one = omega (
    arith,
    guess_costs a s one,
    wrong_guesses_bound rest (attempt a s) (rw (attempt_keeps a s) one),
  )
