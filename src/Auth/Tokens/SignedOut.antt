-- ===== src/Auth/Tokens/SignedOut.antt =====
-- Access tokens of sessions that have been ended.
use mathlib.Core.Path.{subst}
use mathlib.Core.List.{Memᴰ}
use mathlib.Core.List.Memᴰ
use sobhemessenger.Common.{
  ℕ, ◌<◌, ◌≡◌, refl, sym, inl, inr, Bool, true, false, some, Uuid, List, [], ◌∷◌, is_some, All,
  arith,
}
use sobhemessenger.Common.Lists.Rows.{find_if}
use sobhemessenger.Common.Text.{Runes}
use sobhemessenger.Httpx.{Fault, Result, ok, err}
use sobhemessenger.Auth.Accounts.{Hash, User, Session, is_session, session_by_id}
use sobhemessenger.Auth.Tokens.{Config, Claims, World}
use sobhemessenger.Auth.Middleware.{
  TokenError, authenticate_token, check_session, get_denied, signed_out_error,
}
use sobhemessenger.Auth.Tokens.Histories.{Op, run_all, IsOrderly, last_time}
use sobhemessenger.Auth.Tokens.Denied.{is_revoked, until}
use sobhemessenger.Auth.Tokens.Covered.{Keeps}
use sobhemessenger.Auth.Tokens.Kept.{run_all-Keeps}

found_revoked :
    (id : Uuid) (s : Session) (rows : List Session)
    → find_if (is_session id) rows ≡ some s
    → is_some s.revoked_at ≡ true
    → is_revoked id rows ≡ true
unfolding find_if
found_revoked id s [] found gone = ground (arith, found)
found_revoked id s (r ∷ rows) found gone = ground (arith, found_revoked id s rows, found, gone)

All-member {ℓ κ} : {A : Type ℓ} (P : A → Type κ) (a : A) (xs : List A) → Memᴰ a xs → All P xs → P a
All-member P a [] m h = elim (Memᴰ.not-nil m) [ ]
All-member P a (x ∷ xs) m h = elim (Memᴰ.cases_cons m) [
  | inl e ↦ subst P (sym e) h.0
  | inr later ↦ All-member P a xs later h.1
]

check_session_lem :
    (now : ℕ) (answers : Bool) (claims : Claims) (s : Session) (w : World)
    → session_by_id claims.session_id w.accounts ≡ some s
    → is_some s.revoked_at ≡ true
    → until claims w.denied ≡ true
    → now < claims.expires_at
    → check_session now answers claims.session_id w ≡ err signed_out_error
unfolding check_session get_denied
check_session_lem now true claims s w found gone denied fresh = ground (arith, denied, fresh)
check_session_lem now false claims s w found gone denied fresh = simp (found, gone)

module _ (c : Config) (hash_token : Runes → Hash)
    (parse : ℕ → Runes → Result TokenError Claims) where
  -- From a database without sessions, whatever sign-ins, refreshes and ways of signing out follow, in
  -- the order of the clock, each token minted within a minute of its statement and each entry of the
  -- denylist taken by Redis: an access token that was handed out for a session which has since been
  -- revoked is refused as signed out, whether Redis answers or not, wherever the JWT library takes
  -- only tokens that have not expired.
  pub signed_out :
      ((t : ℕ) (raw : Runes) (claims : Claims) → parse t raw ≡ ok claims → t < claims.expires_at)
      → (ops : List Op) (w : World) → w.accounts.sessions ≡ []
      → IsOrderly 0 ops
      → (claims : Claims) (s : Session)
      → Memᴰ claims (run_all c hash_token ops (record { world = w; issued = [] })).issued
      → session_by_id claims.session_id
          (run_all c hash_token ops (record { world = w; issued = [] })).world.accounts
        ≡ some s
      → is_some s.revoked_at ≡ true
      → (now : ℕ) (answers : Bool) (raw : Runes) (user : Uuid → Result Fault User)
      → parse now raw ≡ ok claims
      → authenticate_token now answers
          (parse now raw)
          user
          (run_all c hash_token ops (record { world = w; issued = [] })).world
        ≡ err signed_out_error
  unfolding authenticate_token session_by_id
  signed_out unexpired ops w empty orderly claims s given found gone now answers raw user taken =
      rw taken (
        rw
          (check_session_lem now answers claims s
            (run_all c hash_token ops (record { world = w; issued = [] })).world found gone
            ((All-member _ claims _ given kept.covered).1
              (found_revoked claims.session_id s _ found gone))
            (unexpired now raw claims taken))
          refl)
    where
      kept :
          Keeps c (last_time 0 ops) (run_all c hash_token ops (record { world = w; issued = [] }))
      kept =
          run_all-Keeps c hash_token ops 0 (record { world = w; issued = [] }) orderly
            (record { one_row = λ id. rw empty (omega arith); covered = tt })
