-- ===== src/Auth/Tokens/Histories.antt =====
-- backend/internal/auth/service.go: the methods that give or end a session as one type, and the access
-- tokens that a history of them has handed out.
use sobhemessenger.Common.{ℕ, ◌+◌, ◌≤◌, ◌≡◌, Bool, true, Uuid, List, [], ◌∷◌}
use sobhemessenger.Common.Text.{Runes}
use sobhemessenger.Httpx.{Fault, Result, ok, err}
use sobhemessenger.Auth.Accounts.{Hash, User}
use sobhemessenger.Auth.Tokens.{
  Config, Claims, TokenPair, World, Answer, minute, issue_tokens, refresh, logout, revoke_session,
  revoke_other_sessions,
}

pub data Op : Type 0 where
  signing_in : ℕ → ℕ → User → Uuid → Uuid → Runes → Op
  refreshing : ℕ → ℕ → Runes → Runes → Op
  logging_out revoking revoking_others : ℕ → Bool → Uuid → Uuid → Op

pub record History : Type 0 where
  pub world : World
  pub issued : List Claims

abbrev pub record_answer : Answer TokenPair → History → History
record_answer (ok pair, a) h = record {
  world = record h.world { accounts = a };
  issued = pair.access_token ∷ h.issued;
}
record_answer (err e, a) h = record h { world = record h.world { accounts = a } }

abbrev pub settle : Result Fault World → History → History
settle (ok w) h = record h { world = w }
settle (err e) h = h

module _ (c : Config) (hash_token : Runes → Hash) where
  unfoldable pub run : Op → History → History
  unfolding issue_tokens refresh logout revoke_session revoke_other_sessions
  run (signing_in now minted user device session token) h =
      record_answer
        (issue_tokens c hash_token now minted user device session token h.world.accounts) h
  run (refreshing now minted presented token) h =
      record_answer (refresh c hash_token now minted presented token h.world.accounts) h
  run (logging_out now answers user id) h = settle (logout c now answers user id h.world) h
  run (revoking now answers user id) h = settle (revoke_session c now answers user id h.world) h
  run (revoking_others now answers user keep) h = record h {
    world = (revoke_other_sessions c now answers user keep h.world).1;
  }

  unfoldable pub run_all : List Op → History → History
  unfolding run
  run_all [] h = h
  run_all (op ∷ ops) h = run_all ops (run op h)

abbrev pub time_of : Op → ℕ
time_of (signing_in now _ _ _ _ _) = now
time_of (refreshing now _ _ _) = now
time_of (logging_out now _ _ _) = now
time_of (revoking now _ _ _) = now
time_of (revoking_others now _ _ _) = now

-- A token is minted within a minute of the statement before it, and Redis takes what is written to the
-- denylist.
abbrev pub IsPrompt : Op → Type 0
IsPrompt (signing_in now minted _ _ _ _) = minted ≤ now + minute
IsPrompt (refreshing now minted _ _) = minted ≤ now + minute
IsPrompt (logging_out _ answers _ _) = answers ≡ true
IsPrompt (revoking _ answers _ _) = answers ≡ true
IsPrompt (revoking_others _ answers _ _) = answers ≡ true

-- The clock of the statements does not run backwards.
abbrev pub IsOrderly : ℕ → List Op → Type 0
IsOrderly t [] = Unit
IsOrderly t (op ∷ ops) = (t ≤ time_of op) × IsPrompt op × IsOrderly (time_of op) ops

abbrev pub last_time : ℕ → List Op → ℕ
last_time t [] = t
last_time t (op ∷ ops) = last_time (time_of op) ops
