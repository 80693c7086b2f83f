-- ===== src/Auth/Tokens/Used.antt =====
-- Rows that no refresh token of a hash can rotate.
use sobhemessenger.Common.{
  ℕ, ◌+◌, ◌≤◌, ◌≡◌, refl, ◌≢◌, Bool, false, none, Uuid, List, [], ◌∷◌, leb, map, any, arith,
  if_intro,
}
use sobhemessenger.Common.Lists.Rows.{find_if}
use sobhemessenger.Common.Text.{Runes, is_empty, trim_space}
use sobhemessenger.Httpx.{Fault, Result, ok, err, on_row_intro}
use sobhemessenger.Auth.Accounts.{Hash, User, Session, Accounts, RepoError, is_session}
use sobhemessenger.Auth.Sessions.{
  rotate, revoke, may_rotate, may_revoke, may_revoke_other, upsert_device, create_session,
  rotate_refresh_token, revoke_all_sessions, has_hash,
}
use sobhemessenger.Auth.Sessions as Rows
use sobhemessenger.Auth.Tokens.{
  Config, TokenPair, issue_tokens, refresh, opened, when_registered, when_rotated, logout,
  when_logged_out, when_revoked, revoke_session, revoke_other_sessions,
}
use sobhemessenger.Auth.Tokens.Histories.{
  Op, signing_in, refreshing, logging_out, revoking, revoking_others, History, run, run_all,
  last_time, record_answer, settle,
}

-- No row can be rotated for the hash at the time.
abbrev pub IsSpent : ℕ → Hash → List Session → Type 0
IsSpent now old rows = any (may_rotate now old) rows ≡ false

-- No later token has the hash of the old one, and the clock does not run backwards.
abbrev pub IsAfter : (Runes → Hash) → Hash → ℕ → List Op → Type 0
IsAfter hash_token old t [] = Unit
IsAfter hash_token old t (signing_in now _ _ _ _ token ∷ ops) =
    (t ≤ now) × (hash_token token ≢ old) × IsAfter hash_token old now ops
IsAfter hash_token old t (refreshing now _ _ token ∷ ops) =
    (t ≤ now) × (hash_token token ≢ old) × IsAfter hash_token old now ops
IsAfter hash_token old t (logging_out now _ _ _ ∷ ops) = (t ≤ now) × IsAfter hash_token old now ops
IsAfter hash_token old t (revoking now _ _ _ ∷ ops) = (t ≤ now) × IsAfter hash_token old now ops
IsAfter hash_token old t (revoking_others now _ _ _ ∷ ops) =
    (t ≤ now) × IsAfter hash_token old now ops

module _ (t : ℕ) (old : Hash) where
  IsSpent-later :
      (now : ℕ) (rows : List Session) → t ≤ now → IsSpent t old rows → IsSpent now old rows
  IsSpent-later now [] later h = refl
  IsSpent-later now (s ∷ rows) later h = ground (arith, later, h, IsSpent-later now rows later)

  IsSpent-rotate :
      (now : ℕ) (other new : Hash) (expires : ℕ) (rows : List Session)
      → new ≢ old
      → IsSpent t old rows
      → IsSpent t old (map (rotate now other new expires) rows)
  IsSpent-rotate now other new expires [] differs h = refl
  IsSpent-rotate now other new expires (s ∷ rows) differs h =
      ground (arith, h, differs, IsSpent-rotate now other new expires rows differs)

  IsSpent-revoke :
      (now : ℕ) (chosen : Session → Bool) (rows : List Session)
      → IsSpent t old rows
      → IsSpent t old (map (revoke now chosen) rows)
  IsSpent-revoke now chosen [] h = refl
  IsSpent-revoke now chosen (s ∷ rows) h = ground (arith, h, IsSpent-revoke now chosen rows)

  -- A rotation spends its own hash.
  pub rotate-IsSpent :
      (new : Hash) (expires : ℕ) (rows : List Session)
      → new ≢ old
      → IsSpent t old (map (rotate t old new expires) rows)
  rotate-IsSpent new expires [] differs = refl
  rotate-IsSpent new expires (s ∷ rows) differs =
      ground (arith, differs, rotate-IsSpent new expires rows differs)

  pub nobody_found :
      (rows : List Session) → IsSpent t old rows → find_if (may_rotate t old) rows ≡ none
  unfolding find_if
  nobody_found [] h = refl
  nobody_found (s ∷ rows) h = ground (arith, h, nobody_found rows)

module _ (c : Config) (hash_token : Runes → Hash) where
  module _ (old : Hash) (t : ℕ) (h : History)
      (spent : IsSpent t old h.world.accounts.sessions) where
    abbrev Stays : History → Type 0
    Stays after = IsSpent t old after.world.accounts.sessions

    issue-IsSpent :
        (now minted : ℕ) (user : User) (device session : Uuid) (token : Runes)
        → hash_token token ≢ old
        → Stays (
            record_answer
              (issue_tokens c hash_token now minted user device session token h.world.accounts)
              h)
    unfolding issue_tokens upsert_device create_session
    issue-IsSpent now minted user device session token differs =
        if_intro
          (λ r. Stays (
            record_answer
              (when_registered c hash_token now minted user device session token h.world.accounts r)
              h))
          (leb c.max_devices_per_user _) _ _ (λ _. spent)
          λ _.
            if_intro Opened (any (is_session session) h.world.accounts.sessions) _ _ (λ _. spent)
              λ _.
                if_intro Opened (any (has_hash (hash_token token)) h.world.accounts.sessions) _ _
                  (λ _. spent) (λ _. ground (arith, spent, differs))
      where
        registered : Accounts
        registered = record h.world.accounts {
          devices =
              record { id = device; user_id = user.id; revoked_at = none }
              ∷ h.world.accounts.devices;
        }

        Opened : Result RepoError Accounts → Type 0
        Opened r = Stays (record_answer (opened c minted user device session token registered r) h)

    answer-Stays :
        (r : Result Fault TokenPair) (after : Accounts)
        → IsSpent t old after.sessions
        → Stays (record_answer (r, after) h)
    answer-Stays (ok pair) after k = k
    answer-Stays (err e) after k = k

    refresh-IsSpent :
        (now minted : ℕ) (presented token : Runes)
        → hash_token token ≢ old
        → Stays (record_answer (refresh c hash_token now minted presented token h.world.accounts) h)
    unfolding refresh rotate_refresh_token
    refresh-IsSpent now minted presented token differs =
        if_intro (λ r. Stays (record_answer r h)) (is_empty (trim_space presented)) _ _ (λ _. spent)
          λ _.
            on_row_intro Rotated
              (find_if (may_rotate now (hash_token presented)) h.world.accounts.sessions) _ _ spent
              λ s found.
                if_intro Rotated (any _ h.world.accounts.sessions) _ _ (λ _. spent)
                  λ _. answer-Stays _ _ (
                    IsSpent-rotate t old now (hash_token presented) (hash_token token)
                      (now + c.refresh_ttl) h.world.accounts.sessions differs spent)
      where
        Rotated : Result RepoError (Session × Accounts) → Type 0
        Rotated r = Stays (record_answer (when_rotated c minted token h.world.accounts r) h)

    logout-IsSpent :
        (now : ℕ) (answers : Bool) (user id : Uuid)
        → Stays (settle (logout c now answers user id h.world) h)
    unfolding logout Rows.revoke_session
    logout-IsSpent now answers user id =
        on_row_intro (λ r. Stays (settle (when_logged_out c now answers id h.world r) h))
          (find_if (may_revoke user id) h.world.accounts.sessions) _ _ spent
          λ s _. IsSpent-revoke t old now (may_revoke user id) h.world.accounts.sessions spent

    revoke-IsSpent :
        (now : ℕ) (answers : Bool) (user id : Uuid)
        → Stays (settle (revoke_session c now answers user id h.world) h)
    unfolding revoke_session Rows.revoke_session
    revoke-IsSpent now answers user id =
        on_row_intro (λ r. Stays (settle (when_revoked c now answers id h.world r) h))
          (find_if (may_revoke user id) h.world.accounts.sessions) _ _ spent
          λ s _. IsSpent-revoke t old now (may_revoke user id) h.world.accounts.sessions spent

  pub run_all-IsSpent :
      (old : Hash) (ops : List Op) (t : ℕ) (h : History) (now : ℕ)
      → IsSpent t old h.world.accounts.sessions
      → IsAfter hash_token old t ops
      → last_time t ops ≤ now
      → IsSpent now old (run_all c hash_token ops h).world.accounts.sessions
  unfolding run_all run revoke_other_sessions revoke_all_sessions
  run_all-IsSpent old [] t h now spent after late =
      IsSpent-later t old now h.world.accounts.sessions late spent
  run_all-IsSpent old (signing_in time minted user device session token ∷ ops) t h now spent after
        late =
      run_all-IsSpent old ops time _ now
        (IsSpent-later t old time _ after.0
          (issue-IsSpent old t h spent time minted user device session token after.1))
        after.2 late
  run_all-IsSpent old (refreshing time minted presented token ∷ ops) t h now spent after late =
      run_all-IsSpent old ops time _ now
        (IsSpent-later t old time _ after.0
          (refresh-IsSpent old t h spent time minted presented token after.1))
        after.2 late
  run_all-IsSpent old (logging_out time answers user id ∷ ops) t h now spent after late =
      run_all-IsSpent old ops time _ now
        (IsSpent-later t old time _ after.0 (logout-IsSpent old t h spent time answers user id))
        after.1 late
  run_all-IsSpent old (revoking time answers user id ∷ ops) t h now spent after late =
      run_all-IsSpent old ops time _ now
        (IsSpent-later t old time _ after.0 (revoke-IsSpent old t h spent time answers user id))
        after.1 late
  run_all-IsSpent old (revoking_others time answers user keep ∷ ops) t h now spent after late =
      run_all-IsSpent old ops time _ now
        (IsSpent-later t old time _ after.0
          (IsSpent-revoke t old time (may_revoke_other user keep) h.world.accounts.sessions spent))
        after.1 late
