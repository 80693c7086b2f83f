-- ===== src/Auth/Tokens/Kept.antt =====
-- Access tokens that the denylist covers, after each method of the service.
use sobhemessenger.Common.{
  ℕ, ◌+◌, ◌≤◌, refl, sym, ap, ◌∙◌, true, ◌||◌, if_intro, none, Uuid, List, [], ◌∷◌, leb, map, any,
  arith,
}
use sobhemessenger.Common.Lists.Rows.{find_if}
use sobhemessenger.Common.Text.{Runes, is_empty, trim_space}
use sobhemessenger.Httpx.{Fault, Result, on_row_intro}
use sobhemessenger.Auth.Accounts.{
  Hash, User, Session, Accounts, RepoError, is_session, user_by_id, is_active,
}
use sobhemessenger.Auth.Sessions.{
  rotate, revoke, revoke_rows, may_rotate, may_revoke, may_revoke_other, upsert_device,
  create_session, rotate_refresh_token, revoke_all_sessions, has_hash,
}
use sobhemessenger.Auth.Sessions as Rows
use sobhemessenger.Auth.Tokens.{
  Config, TokenPair, minute, issue_tokens, refresh, opened, when_registered, when_rotated, logout,
  when_logged_out, when_revoked, ended, revoke_session, revoke_other_sessions, issue_access_token,
}
use sobhemessenger.Auth.Tokens.Histories.{
  Op, signing_in, refreshing, logging_out, revoking, revoking_others, History, run, run_all,
  IsOrderly, IsPrompt, time_of, last_time, record_answer, settle,
}
use sobhemessenger.Auth.Tokens.Denied.{
  until, is_revoked-rotate, chosen_one, chosen_others, found_live, until-deny, until-deny_all,
}
use sobhemessenger.Auth.Tokens.Covered.{
  Inv, Keeps, same-Inv, rotate-Inv, revoke-Inv, open-Inv, also-Inv,
}

module _ (c : Config) where
  module _ (hash_token : Runes → Hash) (t now : ℕ) (later : t ≤ now) (h : History)
      (i : Keeps c t h) where
    unchanged : Keeps c now h
    unchanged = same-Inv c t now later h.world.accounts.sessions h.world.denied h.issued i

    issue-Keeps :
        (minted : ℕ) (user : User) (device session : Uuid) (token : Runes)
        → minted ≤ now + minute
        → Keeps c now (
            record_answer
              (issue_tokens c hash_token now minted user device session token h.world.accounts)
              h)
    unfolding issue_tokens upsert_device create_session issue_access_token
    issue-Keeps minted user device session token prompt =
        if_intro
          (λ r. Keeps c now (
            record_answer
              (when_registered c hash_token now minted user device session token h.world.accounts r)
              h))
          (leb c.max_devices_per_user _) _ _ (λ _. unchanged)
          λ _.
            if_intro Opened (any (is_session session) h.world.accounts.sessions) _ _
              (λ _. unchanged)
              λ fresh.
                if_intro Opened (any (has_hash (hash_token token)) h.world.accounts.sessions) _ _
                  (λ _. unchanged)
                  λ _.
                    open-Inv c t now later _ _ h.world.accounts.sessions h.world.denied h.issued
                      fresh refl refl (omega (arith, prompt)) i
      where
        registered : Accounts
        registered = record h.world.accounts {
          devices =
              record { id = device; user_id = user.id; revoked_at = none }
              ∷ h.world.accounts.devices;
        }

        Opened : Result RepoError Accounts → Type 0
        Opened r =
            Keeps c now (record_answer (opened c minted user device session token registered r) h)

    refresh-Keeps :
        (minted : ℕ) (presented token : Runes)
        → minted ≤ now + minute
        → Keeps c now
            (record_answer (refresh c hash_token now minted presented token h.world.accounts) h)
    unfolding refresh rotate_refresh_token issue_access_token
    refresh-Keeps minted presented token prompt =
        if_intro (λ r. Keeps c now (record_answer r h)) (is_empty (trim_space presented)) _ _
          (λ _. unchanged)
          λ _. on_row_intro Rotated (find_if (may_rotate now old) rows) _ _ unchanged λ s found.
            if_intro Rotated (any _ rows) _ _ (λ _. unchanged)
              λ _. on_row_intro Answered (user_by_id s.user_id after) _ _ moved λ u _.
                if_intro Answered (is_active u) _ _
                  (λ _.
                    also-Inv c t now later _ _ h.world.denied h.issued (omega (arith, prompt))
                      (is_revoked-rotate s.id now old (hash_token token) (now + c.refresh_ttl) rows
                        ∙ found_live now old s rows found (i.one_row s.id))
                      moved)
                  (λ _. moved)
      where
        rows : List Session
        rows = h.world.accounts.sessions

        old : Hash
        old = hash_token presented

        after : Accounts
        after = record h.world.accounts {
          sessions = map (rotate now old (hash_token token) (now + c.refresh_ttl)) rows;
        }

        Rotated : Result RepoError (Session × Accounts) → Type 0
        Rotated r = Keeps c now (record_answer (when_rotated c minted token h.world.accounts r) h)

        Answered : Result Fault TokenPair → Type 0
        Answered r = Keeps c now (record_answer (r, after) h)

        moved :
            Inv c now
              (map (rotate now old (hash_token token) (now + c.refresh_ttl)) rows)
              h.world.denied
              h.issued
        moved =
            rotate-Inv c t now later old (hash_token token) (now + c.refresh_ttl) rows
              h.world.denied h.issued i

  module _ (t now : ℕ) (later : t ≤ now) (h : History) (i : Keeps c t h) where
    ended-Keeps :
        (user id : Uuid) (devices : List Uuid)
        → Keeps c now (record h {
          world =
              ended c now true id h.world
                (revoke_rows now (may_revoke user id) devices h.world.accounts);
        })
    ended-Keeps user id devices =
        revoke-Inv c t now later (may_revoke user id) h.world.accounts.sessions h.world.denied _
          h.issued
          (λ claims bound r.
            until-deny c claims now bound id h.world.denied
              (ground (arith, r, chosen_one claims.session_id user id h.world.accounts.sessions)))
          i

    logout-Keeps : (user id : Uuid) → Keeps c now (settle (logout c now true user id h.world) h)
    unfolding logout Rows.revoke_session
    logout-Keeps user id =
        on_row_intro (λ r. Keeps c now (settle (when_logged_out c now true id h.world r) h))
          (find_if (may_revoke user id) h.world.accounts.sessions) _ _
          (same-Inv c t now later _ _ _ i) λ s _. ended-Keeps user id (s.device_id ∷ [])

    revoke-Keeps :
        (user id : Uuid) → Keeps c now (settle (revoke_session c now true user id h.world) h)
    unfolding revoke_session Rows.revoke_session
    revoke-Keeps user id =
        on_row_intro (λ r. Keeps c now (settle (when_revoked c now true id h.world r) h))
          (find_if (may_revoke user id) h.world.accounts.sessions) _ _
          (same-Inv c t now later _ _ _ i) λ s _. ended-Keeps user id (s.device_id ∷ [])

    others-Keeps :
        (user keep : Uuid)
        → Keeps c now (record h { world = (revoke_other_sessions c now true user keep h.world).1 })
    unfolding revoke_other_sessions revoke_all_sessions
    others-Keeps user keep =
        revoke-Inv c t now later (may_revoke_other user keep) h.world.accounts.sessions
          h.world.denied _ h.issued
          (λ claims bound r. until-deny_all c claims now bound _ h.world.denied (
            sym (
              ap (λ b. b || until claims h.world.denied)
                (chosen_others claims.session_id user keep h.world.accounts.sessions))
            ∙ r))
          i

  run-Keeps :
      (hash_token : Runes → Hash) (op : Op) (t : ℕ) (h : History)
      → t ≤ time_of op
      → IsPrompt op
      → Keeps c t h
      → Keeps c (time_of op) (run c hash_token op h)
  unfolding run
  run-Keeps hash_token (signing_in now minted user device session token) t h later prompt i =
      issue-Keeps hash_token t now later h i minted user device session token prompt
  run-Keeps hash_token (refreshing now minted presented token) t h later prompt i =
      refresh-Keeps hash_token t now later h i minted presented token prompt
  run-Keeps hash_token (logging_out now answers user id) t h later prompt i =
      rw prompt (logout-Keeps t now later h i user id)
  run-Keeps hash_token (revoking now answers user id) t h later prompt i =
      rw prompt (revoke-Keeps t now later h i user id)
  run-Keeps hash_token (revoking_others now answers user keep) t h later prompt i =
      rw prompt (others-Keeps t now later h i user keep)

  pub run_all-Keeps :
      (hash_token : Runes → Hash) (ops : List Op) (t : ℕ) (h : History)
      → IsOrderly t ops
      → Keeps c t h
      → Keeps c (last_time t ops) (run_all c hash_token ops h)
  unfolding run_all
  run_all-Keeps hash_token [] t h orderly i = i
  run_all-Keeps hash_token (op ∷ ops) t h orderly i =
      run_all-Keeps hash_token ops (time_of op) (run c hash_token op h) orderly.2
        (run-Keeps hash_token op t h orderly.0 orderly.1 i)
