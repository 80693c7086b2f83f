-- ===== src/Auth/Login/Outcomes.antt =====
-- What `VerifyOTP` can come to, and histories of codes.
use sobhemessenger.Common.{
  ℕ, ◌≡◌, refl, Bool, true, false, Option, none, some, Uuid, List, [], ◌∷◌, if_intro, map, any,
  option_intro,
}
use sobhemessenger.Common.Text.{Runes}
use sobhemessenger.Httpx.{Fault, Result, ok, err, is_ok}
use sobhemessenger.Auth.Accounts.{Hash, User, is_active}
use sobhemessenger.Auth.Phone.{normalize_phone}
use sobhemessenger.Auth.Challenges.{
  Challenge, latest_otp_challenge, delete_expired_otp_challenges, consume, may_consume,
  consume_otp_challenge,
}
use sobhemessenger.Auth.Tokens.{Config}
use sobhemessenger.Auth.Login.{
  State, OtpConfig, Outside, VerifyOtpInput, Fresh, Answer, request_otp, verify_otp,
  check_challenge, is_code, wrong_code, right_code, when_two_step, when_checked, user_by_phone,
  admit, sign_in,
}

pub data Op : Type 0 where
  requesting : OtpConfig → ℕ → Uuid → Runes → Runes → Outside → Op
  verifying : ℕ → ℕ → Fresh → Bool → VerifyOtpInput → List Challenge → Op
  sweeping : ℕ → ℕ → Op

module _ (c : Config) (hash_token : Runes → Hash)
    (verify_password : Runes → Hash → Option Bool) where
  unfoldable pub run : Op → State → State
  unfolding request_otp verify_otp delete_expired_otp_challenges
  run (requesting config now id code phone outside) s = record s {
    challenges = (request_otp hash_token config now id code phone outside s.challenges).1;
  }
  run (verifying now minted fresh allowed input seen) s =
      (verify_otp c hash_token verify_password now minted fresh allowed input seen s).1
  run (sweeping now older_than) s = record s {
    challenges = delete_expired_otp_challenges now older_than s.challenges;
  }

  unfoldable pub run_all : List Op → State → State
  unfolding run
  run_all [] s = s
  run_all (op ∷ ops) s = run_all ops (run op s)

  module _ {ℓ} (P : Answer → Type ℓ) (now minted : ℕ) (fresh : Fresh) (input : VerifyOtpInput)
      (s : State) (refused : (e : Fault) → P (err e, s)) where
    two_step_intro :
        (phone : Runes) (ch : Challenge) (user : Option User) (r : Result Fault (Unit {0}))
        → P (right_code c hash_token verify_password now minted fresh phone ch user s)
        → P (when_two_step c hash_token verify_password now minted fresh phone ch user s r)
    two_step_intro phone ch user (ok _) right = right
    two_step_intro phone ch user (err e) right = refused e

    checked_intro :
        (phone : Runes) (ch : Challenge) (r : Result Fault (Unit {0}))
        → (is_ok r ≡ true
            → is_code c hash_token verify_password input.code ch ≡ false
            → P (wrong_code ch s))
        → (is_ok r ≡ true
            → P (
                right_code c hash_token verify_password now minted fresh phone ch
                  (user_by_phone phone s.accounts)
                  s))
        → P (when_checked c hash_token verify_password now minted fresh input phone ch s r)
    checked_intro phone ch (err e) wrong right = refused e
    checked_intro phone ch (ok _) wrong right =
        if_intro P (is_code c hash_token verify_password input.code ch) _ _
          (λ _. two_step_intro phone ch (user_by_phone phone s.accounts) _ (right refl))
          (wrong refl)

    -- A property of every answer of `VerifyOTP`.
    pub verify_intro :
        (allowed : Bool) (seen : List Challenge)
        → ((phone : Runes) (ch : Challenge)
            → normalize_phone input.phone ≡ some phone
            → latest_otp_challenge phone seen ≡ some ch
            → is_ok (check_challenge now ch) ≡ true
            → is_code c hash_token verify_password input.code ch ≡ false
            → P (wrong_code ch s))
        → ((phone : Runes) (ch : Challenge)
            → normalize_phone input.phone ≡ some phone
            → latest_otp_challenge phone seen ≡ some ch
            → P (
                right_code c hash_token verify_password now minted fresh phone ch
                  (user_by_phone phone s.accounts)
                  s))
        → P (verify_otp c hash_token verify_password now minted fresh allowed input seen s)
    unfolding verify_otp
    verify_intro allowed seen wrong right =
        option_intro P (normalize_phone input.phone) _ _ (λ _. refused _)
          λ phone normal.
            if_intro P allowed _ _
              (λ _.
                option_intro P (latest_otp_challenge phone seen) _ _ (λ _. refused _)
                  λ ch found.
                    checked_intro phone ch (check_challenge now ch) (wrong phone ch normal found)
                      (λ _. right phone ch normal found))
              (λ _. refused _)

  -- A sign-in leaves the challenges.
  module _ (now minted : ℕ) (fresh : Fresh) where
    sign_in_rows :
        (u : User) (t : State)
        → (sign_in c hash_token verify_password now minted fresh u t).1.challenges ≡ t.challenges
    sign_in_rows u t =
        if_intro (λ (r : Answer). r.1.challenges ≡ t.challenges) (is_active u) _ _ (λ _. refl)
          (λ _. refl)

    admit_rows :
        (phone : Runes) (user : Option User) (s : State)
        → (admit c hash_token verify_password now minted fresh phone user s).1.challenges
          ≡ s.challenges
    admit_rows phone none s = sign_in_rows _ _
    admit_rows phone (some u) s = sign_in_rows u s

    -- The code is consumed, once it is right.
    pub right_code_rows :
        (phone : Runes) (ch : Challenge) (user : Option User) (s : State)
        → (right_code c hash_token verify_password now minted fresh phone ch user s).1.challenges
          ≡ map (consume now ch.id) s.challenges
    unfolding consume_otp_challenge
    right_code_rows phone ch user s =
        if_intro (λ (r : Answer). r.1.challenges ≡ map (consume now ch.id) s.challenges)
          (any (may_consume ch.id) s.challenges) _ _ (λ _. admit_rows phone user _) (λ _. refl)
