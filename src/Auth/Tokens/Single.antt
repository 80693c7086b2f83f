-- ===== src/Auth/Tokens/Single.antt =====
-- A refresh token that has been used.
use mathlib.Core.Path.{subst}
use sobhemessenger.Common.{ℕ, ◌+◌, ◌≤◌, ◌≡◌, ◌≢◌, false, List, any, if_intro}
use sobhemessenger.Common.Lists.Rows.{find_if}
use sobhemessenger.Common.Text.{Runes, is_empty, trim_space}
use sobhemessenger.Httpx.{Fault, Result, ok, err, on_row_intro, unauthorized, session_revoked}
use sobhemessenger.Auth.Accounts.{Hash, Accounts}
use sobhemessenger.Auth.Sessions.{may_rotate, rotate_refresh_token}
use sobhemessenger.Auth.Tokens.{Config, TokenPair, Answer, refresh, when_rotated}
use sobhemessenger.Auth.Tokens.Histories.{Op, History, run_all, last_time}
use sobhemessenger.Auth.Tokens.Used.{
  IsSpent, IsAfter, rotate-IsSpent, nobody_found, run_all-IsSpent,
}

module _ (c : Config) (hash_token : Runes → Hash) where
  module _ (now : ℕ) (presented : Runes) where
    -- After a refresh that answers with tokens.
    abbrev Spends : Answer TokenPair → Type 0
    Spends (ok pair, after) =
        (is_empty (trim_space presented) ≡ false)
        × IsSpent now (hash_token presented) after.sessions
    Spends (err e, after) = Unit

    spends :
        (r : Result Fault TokenPair) (after : Accounts)
        → is_empty (trim_space presented) ≡ false
        → IsSpent now (hash_token presented) after.sessions
        → Spends (r, after)
    spends (ok pair) after written spent = (written, spent)
    spends (err e) after written spent = tt

    refresh-Spends :
        (minted : ℕ) (token : Runes) (a : Accounts)
        → hash_token token ≢ hash_token presented
        → Spends (refresh c hash_token now minted presented token a)
    unfolding refresh rotate_refresh_token
    refresh-Spends minted token a differs =
        if_intro Spends (is_empty (trim_space presented)) _ _ (λ _. tt)
          λ written.
            on_row_intro (λ r. Spends (when_rotated c minted token a r))
              (find_if (may_rotate now (hash_token presented)) a.sessions) _ _ tt
              λ s found.
                if_intro (λ r. Spends (when_rotated c minted token a r)) (any _ a.sessions) _ _
                  (λ _. tt)
                  λ _. spends _ _ written (
                    rotate-IsSpent now (hash_token presented) (hash_token token)
                      (now + c.refresh_ttl) a.sessions differs)

    refresh-spent :
        (minted : ℕ) (token : Runes) (a : Accounts)
        → is_empty (trim_space presented) ≡ false
        → IsSpent now (hash_token presented) a.sessions
        → refresh c hash_token now minted presented token a
          ≡ (err (unauthorized session_revoked), a)
    unfolding refresh rotate_refresh_token
    refresh-spent minted token a written spent =
        simp (written, nobody_found now (hash_token presented) a.sessions spent)

  -- A refresh token that has been exchanged for new ones is refused as signed out from then on, with the
  -- tables left as they are, whatever sign-ins, refreshes and ways of signing out run in between in the
  -- order of the clock, as long as none of the tokens made since has the hash of this one.
  pub refresh_once :
      (now minted : ℕ) (presented token : Runes) (h : History) (pair : TokenPair) (after : Accounts)
      → hash_token token ≢ hash_token presented
      → refresh c hash_token now minted presented token h.world.accounts ≡ (ok pair, after)
      → (ops : List Op) (again minted' : ℕ) (token' : Runes)
      → IsAfter hash_token (hash_token presented) now ops
      → last_time now ops ≤ again
      → let later =
          (run_all c hash_token ops
            (record h { world = record h.world { accounts = after } })).world.accounts in
        refresh c hash_token again minted' presented token' later
        ≡ (err (unauthorized session_revoked), later)
  refresh_once now minted presented token h pair after differs first ops again minted' token' fresh
        late =
      let spent =
        subst (Spends now presented) first
          (refresh-Spends now presented minted token h.world.accounts differs) in
      refresh-spent again presented minted' token' _ spent.0
        (run_all-IsSpent c hash_token (hash_token presented) ops now _ again spent.1 fresh late)
