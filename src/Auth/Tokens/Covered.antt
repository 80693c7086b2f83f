-- ===== src/Auth/Tokens/Covered.antt =====
-- Access tokens that the denylist covers, under each change of the rows.
use sobhemessenger.Common.{
  ℕ, ◌+◌, ◌≤◌, ◌≡◌, sym, ◌∙◌, Bool, true, false, ◌||◌, ◌&&◌, none, Uuid, List, [], ◌∷◌, map, any,
  All, count_if, arith,
}
use sobhemessenger.Common.Assoc.{Assoc}
use sobhemessenger.Common.Lists.Counting.{any-count_if}
use sobhemessenger.Auth.Accounts.{Hash, Session, is_session}
use sobhemessenger.Auth.Sessions.{rotate, revoke}
use sobhemessenger.Auth.Tokens.{Config, Claims, minute}
use sobhemessenger.Auth.Tokens.Histories.{History}
use sobhemessenger.Auth.Tokens.Denied.{
  is_revoked, until, is_revoked-rotate, is_revoked-revoke, rows-rotate, rows-revoke, unknown,
}

module _ (c : Config) where
  -- A token that has been handed out by the time t.
  abbrev pub Covered : ℕ → List Session → Assoc ℕ → Claims → Type 0
  Covered t rows denied claims =
      (claims.expires_at ≤ t + (c.access_ttl + minute))
      × (is_revoked claims.session_id rows ≡ true → until claims denied ≡ true)

  pub record Inv (t : ℕ) (rows : List Session) (denied : Assoc ℕ) (issued : List Claims)
      : Type 0 where
    pub one_row : (id : Uuid) → count_if (is_session id) rows ≤ 1
    pub covered : All (Covered t rows denied) issued

  abbrev pub Keeps : ℕ → History → Type 0
  Keeps t h = Inv t h.world.accounts.sessions h.world.denied h.issued

  All-later :
      (t now : ℕ) (rows after : List Session) (denied denied' : Assoc ℕ) (issued : List Claims)
      → ((claims : Claims) → Covered t rows denied claims → Covered now after denied' claims)
      → All (Covered t rows denied) issued
      → All (Covered now after denied') issued
  All-later t now rows after denied denied' [] step h = tt
  All-later t now rows after denied denied' (claims ∷ issued) step h =
      (step claims h.0, All-later t now rows after denied denied' issued step h.1)

  module _ (t now : ℕ) (later : t ≤ now) where
    pub same-Inv :
        (rows : List Session) (denied : Assoc ℕ) (issued : List Claims)
        → Inv t rows denied issued
        → Inv now rows denied issued
    same-Inv rows denied issued i = record {
      one_row = i.one_row;
      covered =
          All-later t now rows rows denied denied issued
            (λ claims h. (omega (arith, h.0, later), h.1)) i.covered;
    }

    pub rotate-Inv :
        (old new : Hash) (expires : ℕ) (rows : List Session) (denied : Assoc ℕ)
        (issued : List Claims)
        → Inv t rows denied issued
        → Inv now (map (rotate now old new expires) rows) denied issued
    rotate-Inv old new expires rows denied issued i = record {
      one_row = λ id. rw (rows-rotate id now old new expires rows) (i.one_row id);
      covered =
          All-later t now rows (map (rotate now old new expires) rows) denied denied issued
            (λ claims h. (
              omega (arith, h.0, later),
              λ r. h.1 (sym (is_revoked-rotate claims.session_id now old new expires rows) ∙ r),
            ))
            i.covered;
    }

    pub revoke-Inv :
        (chosen : Session → Bool) (rows : List Session) (denied denied' : Assoc ℕ)
        (issued : List Claims)
        → ((claims : Claims)
            → claims.expires_at ≤ now + (c.access_ttl + minute)
            → (any (λ s. is_session claims.session_id s && chosen s) rows || until claims denied)
              ≡ true
            → until claims denied' ≡ true)
        → Inv t rows denied issued
        → Inv now (map (revoke now chosen) rows) denied' issued
    revoke-Inv chosen rows denied denied' issued step i = record {
      one_row = λ id. rw (rows-revoke id now chosen rows) (i.one_row id);
      covered =
          All-later t now rows (map (revoke now chosen) rows) denied denied' issued
            (λ claims h. (
              omega (arith, h.0, later),
              λ r.
                  step claims (omega (arith, h.0, later))
                    (ground (arith, h.1, r, is_revoked-revoke claims.session_id now chosen rows)),
            ))
            i.covered;
    }

    pub open-Inv :
        (s : Session) (claims : Claims) (rows : List Session) (denied : Assoc ℕ)
        (issued : List Claims)
        → any (is_session s.id) rows ≡ false
        → s.revoked_at ≡ none
        → claims.session_id ≡ s.id
        → claims.expires_at ≤ now + (c.access_ttl + minute)
        → Inv t rows denied issued
        → Inv now (s ∷ rows) denied (claims ∷ issued)
    open-Inv s claims rows denied issued fresh kept same bound i = record {
      one_row = λ id. ground (arith, i.one_row id, any-count_if (is_session id) rows, fresh);
      covered = (
        (
          bound,
          λ r.
              ground (
                arith,
                r,
                kept,
                same,
                any-count_if (is_session s.id) rows,
                fresh,
                unknown s.id rows,
              ),
        ),
        All-later t now rows (s ∷ rows) denied denied issued
            (λ old h. (omega (arith, h.0, later), λ r. h.1 (ground (arith, r, kept)))) i.covered,
      );
    }

    pub also-Inv :
        (claims : Claims) (rows : List Session) (denied : Assoc ℕ) (issued : List Claims)
        → claims.expires_at ≤ now + (c.access_ttl + minute)
        → is_revoked claims.session_id rows ≡ false
        → Inv now rows denied issued
        → Inv now rows denied (claims ∷ issued)
    also-Inv claims rows denied issued bound alive i = record {
      one_row = i.one_row;
      covered = ((bound, λ r. ground (arith, r, alive)), i.covered);
    }
