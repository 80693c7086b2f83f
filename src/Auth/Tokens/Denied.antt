-- ===== src/Auth/Tokens/Denied.antt =====
-- Revoked rows and the denylist, statement by statement.
use sobhemessenger.Common.{
  ℕ, ◌+◌, ◌≤◌, ◌≡◌, refl, Bool, true, false, ◌&&◌, ◌||◌, some, Uuid, List, [], ◌∷◌, ◌==◌, is_some,
  leb, map, any, count_if, contains, on_option, arith,
}
use sobhemessenger.Common.Assoc.{Assoc, lookup, insert, lookup-insert}
use sobhemessenger.Common.Lists.Rows.{find_if, filter_if}
use sobhemessenger.Auth.Accounts.{Hash, Session, is_session}
use sobhemessenger.Auth.Sessions.{rotate, revoke, may_rotate, may_revoke, may_revoke_other, id_of}
use sobhemessenger.Auth.Tokens.{Config, Claims, deny_session, deny_sessions, minute}

abbrev pub is_revoked : Uuid → List Session → Bool
is_revoked id rows = any (λ s. is_session id s && is_some s.revoked_at) rows

-- The denylist names the session of a token for as long as the token counts.
abbrev pub until : Claims → Assoc ℕ → Bool
until claims denied = on_option (lookup claims.session_id denied) false (leb claims.expires_at)

module _ (id : Uuid) where
  pub is_revoked-rotate :
      (now : ℕ) (old new : Hash) (expires : ℕ) (rows : List Session)
      → is_revoked id (map (rotate now old new expires) rows) ≡ is_revoked id rows
  is_revoked-rotate now old new expires [] = refl
  is_revoked-rotate now old new expires (s ∷ rows) =
      ground (arith, is_revoked-rotate now old new expires rows)

  pub is_revoked-revoke :
      (now : ℕ) (chosen : Session → Bool) (rows : List Session)
      → is_revoked id (map (revoke now chosen) rows)
        ≡ (is_revoked id rows || any (λ s. is_session id s && chosen s) rows)
  is_revoked-revoke now chosen [] = refl
  is_revoked-revoke now chosen (s ∷ rows) = ground (arith, is_revoked-revoke now chosen rows)

  pub rows-rotate :
      (now : ℕ) (old new : Hash) (expires : ℕ) (rows : List Session)
      → count_if (is_session id) (map (rotate now old new expires) rows)
        ≡ count_if (is_session id) rows
  rows-rotate now old new expires [] = refl
  rows-rotate now old new expires (s ∷ rows) = ground (arith, rows-rotate now old new expires rows)

  pub rows-revoke :
      (now : ℕ) (chosen : Session → Bool) (rows : List Session)
      → count_if (is_session id) (map (revoke now chosen) rows) ≡ count_if (is_session id) rows
  rows-revoke now chosen [] = refl
  rows-revoke now chosen (s ∷ rows) = ground (arith, rows-revoke now chosen rows)

  pub chosen_one :
      (user chosen : Uuid) (rows : List Session)
      → any (λ s. is_session id s && may_revoke user chosen s) rows ≡ true
      → (chosen == id) ≡ true
  chosen_one user chosen [] h = ground (arith, h)
  chosen_one user chosen (s ∷ rows) h = ground (arith, chosen_one user chosen rows)

  pub chosen_others :
      (user keep : Uuid) (rows : List Session)
      → any (λ s. is_session id s && may_revoke_other user keep s) rows
        ≡ contains id (map id_of (filter_if (may_revoke_other user keep) rows))
  unfolding contains filter_if
  chosen_others user keep [] = refl
  chosen_others user keep (s ∷ rows) = ground (arith, chosen_others user keep rows)

  pub unknown :
      (rows : List Session) → count_if (is_session id) rows ≡ 0 → is_revoked id rows ≡ false
  unknown [] h = refl
  unknown (s ∷ rows) h = ground (arith, unknown rows)

found_counts :
    (now : ℕ) (old : Hash) (s : Session) (rows : List Session)
    → find_if (may_rotate now old) rows ≡ some s
    → 1 ≤ count_if (is_session s.id) rows
unfolding find_if
found_counts now old s [] h = ground arith
found_counts now old s (r ∷ rows) h = ground (arith, found_counts now old s rows)

-- Where a session has one row, a row that may be rotated is not revoked.
pub found_live :
    (now : ℕ) (old : Hash) (s : Session) (rows : List Session)
    → find_if (may_rotate now old) rows ≡ some s
    → count_if (is_session s.id) rows ≤ 1
    → is_revoked s.id rows ≡ false
unfolding find_if
found_live now old s [] h one = refl
found_live now old s (r ∷ rows) h one =
    ground (arith, found_live now old s rows, found_counts now old s rows, unknown s.id rows)

module _ (c : Config) (claims : Claims) (now : ℕ)
    (bound : claims.expires_at ≤ now + (c.access_ttl + minute)) where
  pub until-deny :
      (id : Uuid) (denied : Assoc ℕ)
      → ((id == claims.session_id) || until claims denied) ≡ true
      → until claims (deny_session c now true id denied) ≡ true
  unfolding insert
  until-deny id denied h =
      ground (arith, lookup-insert id claims.session_id (now + (c.access_ttl + minute)) denied)

  pub until-deny_all :
      (ids : List Uuid) (denied : Assoc ℕ)
      → (contains claims.session_id ids || until claims denied) ≡ true
      → until claims (deny_sessions c now true ids denied) ≡ true
  unfolding contains
  until-deny_all [] denied h = h
  until-deny_all (id ∷ ids) denied h =
      until-deny_all ids (deny_session c now true id denied) (ground (arith, until-deny id denied))
