-- ===== src/Auth/Login/Spent.antt =====
-- A code that has let somebody in.
use mathlib.Core.Path.{subst}
use sobhemessenger.Common.{
  ℕ, ◌≡◌, refl, sym, ◌≢◌, Bool, true, false, ◌&&◌, Option, some, Uuid, List, [], ◌∷◌, any, map, All,
  arith, if_intro, option_intro,
}
use sobhemessenger.Common.Lists.Rows.{filter_if}
use sobhemessenger.Common.Text.{Runes}
use sobhemessenger.Httpx.{Fault, Result, is_ok}
use sobhemessenger.Auth.Phone.{normalize_phone}
use sobhemessenger.Auth.Accounts.{Hash}
use sobhemessenger.Auth.Challenges.{
  Challenge, burn, consume, may_consume, create_otp_challenge, latest_otp_challenge,
  burn_otp_attempt, consume_otp_challenge, delete_expired_otp_challenges,
}
use sobhemessenger.Auth.Tokens.{Config}
use sobhemessenger.Auth.Login.{
  State, VerifyOtpInput, Fresh, Answer, RequestOtpResult, request_otp, verify_otp,
}
use sobhemessenger.Auth.Login.Outcomes.{
  Op, requesting, verifying, sweeping, run, run_all, verify_intro, right_code_rows,
}

-- No row of the challenge can be consumed.
abbrev IsUsed : Uuid → List Challenge → Type 0
IsUsed k rows = any (may_consume k) rows ≡ false

module _ (k : Uuid) where
  IsUsed-burn : (j : Uuid) (rows : List Challenge) → IsUsed k rows → IsUsed k (map (burn j) rows)
  IsUsed-burn j [] h = refl
  IsUsed-burn j (ch ∷ rows) h = ground (arith, h, IsUsed-burn j rows)

  IsUsed-consume :
      (now : ℕ) (j : Uuid) (rows : List Challenge)
      → IsUsed k rows
      → IsUsed k (map (consume now j) rows)
  IsUsed-consume now j [] h = refl
  IsUsed-consume now j (ch ∷ rows) h = ground (arith, h, IsUsed-consume now j rows)

  consume-IsUsed : (now : ℕ) (rows : List Challenge) → IsUsed k (map (consume now k) rows)
  consume-IsUsed now [] = refl
  consume-IsUsed now (ch ∷ rows) = ground (arith, consume-IsUsed now rows)

  IsUsed-filter :
      (p : Challenge → Bool) (rows : List Challenge) → IsUsed k rows → IsUsed k (filter_if p rows)
  unfolding filter_if
  IsUsed-filter p [] h = refl
  IsUsed-filter p (ch ∷ rows) h = ground (arith, h, IsUsed-filter p rows)

-- No code is requested under the id.
abbrev pub IsOther : Uuid → Op → Type 0
IsOther k (requesting _ _ id _ _ _) = id ≢ k
IsOther k (verifying _ _ _ _ _ _) = Unit
IsOther k (sweeping _ _) = Unit

module _ (c : Config) (hash_token : Runes → Hash)
    (verify_password : Runes → Hash → Option Bool) where
  run-IsUsed :
      (k : Uuid) (op : Op) (s : State)
      → IsOther k op
      → IsUsed k s.challenges
      → IsUsed k (run c hash_token verify_password op s).challenges
  unfolding run request_otp create_otp_challenge delete_expired_otp_challenges burn_otp_attempt
  run-IsUsed k (requesting config now id code phone outside) s other used =
      option_intro Keeps (normalize_phone phone) _ _ (λ _. used)
        λ _ _.
          if_intro Keeps (outside.phone_allowed && outside.address_allowed && outside.is_fresh) _ _
            (λ _. ground (arith, used, other)) (λ _. used)
    where
      Keeps : Result Fault RequestOtpResult × List Challenge → Type 0
      Keeps r = IsUsed k r.1
  run-IsUsed k (verifying now minted fresh allowed input seen) s other used =
      verify_intro c hash_token verify_password (λ (r : Answer). IsUsed k r.1.challenges) now minted
        fresh input s (λ _. used) allowed seen
        (λ _ ch _ _ _ _. IsUsed-burn k ch.id s.challenges used)
        (λ phone ch _ _.
          subst (IsUsed k)
            (sym (right_code_rows c hash_token verify_password now minted fresh phone ch _ s))
            (IsUsed-consume k now ch.id s.challenges used))
  run-IsUsed k (sweeping now older_than) s other used = IsUsed-filter k _ s.challenges used

  run_all-IsUsed :
      (k : Uuid) (ops : List Op) (s : State)
      → All (IsOther k) ops
      → IsUsed k s.challenges
      → IsUsed k (run_all c hash_token verify_password ops s).challenges
  unfolding run_all
  run_all-IsUsed k [] s others used = used
  run_all-IsUsed k (op ∷ ops) s others used =
      run_all-IsUsed k ops (run c hash_token verify_password op s) others.1
        (run-IsUsed k op s others.0 used)

  module _ (now minted : ℕ) (fresh : Fresh) (allowed : Bool) (input : VerifyOtpInput)
      (seen : List Challenge) (phone : Runes) (ch : Challenge)
      (normal : normalize_phone input.phone ≡ some phone)
      (found : latest_otp_challenge phone seen ≡ some ch) where
    same_challenge :
        (phone' : Runes) (ch' : Challenge)
        → normalize_phone input.phone ≡ some phone'
        → latest_otp_challenge phone' seen ≡ some ch'
        → ch'.id ≡ ch.id
    same_challenge phone' ch' normal' found' = cc

    abbrev Spends : Answer → Type 0
    Spends r = is_ok r.0 ≡ true → IsUsed ch.id r.1.challenges

    verify-Spends :
        (s : State)
        → Spends (verify_otp c hash_token verify_password now minted fresh allowed input seen s)
    verify-Spends s =
        verify_intro c hash_token verify_password Spends now minted fresh input s
          (λ _ good. ground (arith, good)) allowed seen (λ _ _ _ _ _ _ good. ground (arith, good))
          (λ phone' ch' normal' found' _.
            subst (IsUsed ch.id)
              (sym (right_code_rows c hash_token verify_password now minted fresh phone' ch' _ s))
              (subst (λ j. IsUsed ch.id (map (consume now j) s.challenges))
                (sym (same_challenge phone' ch' normal' found'))
                (consume-IsUsed ch.id now s.challenges)))

    verify_used :
        (s : State)
        → IsUsed ch.id s.challenges
        → is_ok (verify_otp c hash_token verify_password now minted fresh allowed input seen s).0
          ≡ false
    unfolding consume_otp_challenge
    verify_used s used =
        verify_intro c hash_token verify_password (λ (r : Answer). is_ok r.0 ≡ false) now minted
          fresh input s (λ _. refl) allowed seen (λ _ _ _ _ _ _. refl)
          (λ phone' ch' normal' found'.
            if_intro (λ (r : Answer). is_ok r.0 ≡ false) (any (may_consume ch'.id) s.challenges) _ _
              (λ t. ground (arith, used, t, same_challenge phone' ch' normal' found')) (λ _. refl))

  -- Once a VerifyOTP has answered with tokens, the code that it looked up lets nobody in again, whatever
  -- requests under other ids, attempts and sweeps run in between: a VerifyOTP that looks the same
  -- code up, even one that read the table before the code was used, answers with an error.
  pub code_once :
      (now minted : ℕ) (fresh : Fresh) (allowed : Bool) (input : VerifyOtpInput)
      (seen : List Challenge) (phone : Runes) (ch : Challenge) (s : State)
      → normalize_phone input.phone ≡ some phone
      → latest_otp_challenge phone seen ≡ some ch
      → is_ok (verify_otp c hash_token verify_password now minted fresh allowed input seen s).0
        ≡ true
      → (ops : List Op) → All (IsOther ch.id) ops
      → (now' minted' : ℕ) (fresh' : Fresh) (allowed' : Bool) (input' : VerifyOtpInput)
        (seen' : List Challenge) (phone' : Runes) (ch' : Challenge)
      → normalize_phone input'.phone ≡ some phone'
      → latest_otp_challenge phone' seen' ≡ some ch'
      → ch'.id ≡ ch.id
      → is_ok
          (verify_otp c hash_token verify_password now' minted' fresh' allowed' input' seen' (
            run_all c hash_token verify_password ops
              (verify_otp c hash_token verify_password now minted fresh allowed input seen s).1)).0
        ≡ false
  code_once now minted fresh allowed input seen phone ch s normal found good ops others now' minted'
        fresh' allowed' input' seen' phone' ch' normal' found' same =
      let after =
        (verify_otp c hash_token verify_password now minted fresh allowed input seen s).1 in
      verify_used now' minted' fresh' allowed' input' seen' phone' ch' normal' found'
        (run_all c hash_token verify_password ops after)
        (subst (λ k. IsUsed k (run_all c hash_token verify_password ops after).challenges)
          (sym same)
          (run_all-IsUsed ch.id ops after others
            (verify-Spends now minted fresh allowed input seen phone ch normal found s good)))
