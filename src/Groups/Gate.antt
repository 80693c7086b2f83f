-- ===== src/Groups/Gate.antt =====
-- What an operation of the service may rely on behind its checks.
use sobhemessenger.Common.{
  ℕ, ◌≡◌, refl, Bool, true, false, not, some, Uuid, if◌then◌else◌, arith, leb,
}
use sobhemessenger.Httpx.{
  Fault, Result, ok, err, ◌>>=◌, map_err, Holds, assoc-Holds, forbidden, not_found,
  permission_denied, not_found_code, not_chat_member,
}
use sobhemessenger.Messaging.Permissions.{Permission, Role, owner}
use sobhemessenger.Messaging.Context.{ChatContext, context_of}
use sobhemessenger.Groups.Chat.{Member, Chat, RepoError, no_chat, active, row_of, chat_context_for}
use sobhemessenger.Groups.Repository as Repo
use sobhemessenger.Groups.Service.{authorize, target_of, rank, when_not_found, always_internal}

-- What `ChatContextFor` answers for a chat that is there.
abbrev pub seen : Uuid → Chat → ChatContext
seen u chat = context_of (row_of u chat)

-- The context has the role of the row.
pub seen-row :
    (u : Uuid) (chat : Chat) (m : Member)
    → active u chat ≡ some m
    → ((seen u chat).role ≡ m.role) × ((seen u chat).is_member ≡ true)
unfolding row_of context_of
seen-row u chat m found = rw found (refl, refl)

-- Nobody stands above the owner.
pub rank-is_owner : (r : Role) (n : ℕ) → leb (rank r) n ≡ false → Repo.is_owner r ≡ false
unfolding rank
rank-is_owner owner n h = ground arith
rank-is_owner _ n h = refl

module _ {ℓ κ} {B : Type ℓ} (P : B → Type κ) where
  unless_gone :
      (gone : Bool) (e : RepoError) (ctx : ChatContext) (f : RepoError → Fault)
      (k : ChatContext → Result Fault B)
      → (gone ≡ false → Holds P (k ctx))
      → Holds P (map_err f (if gone then err e else ok ctx) >>= k)
  unless_gone true e ctx f k h = tt
  unless_gone false e ctx f k h = h refl

  module _ (u : Uuid) (chat : Chat) where
    pub context-Holds :
        (f : RepoError → Fault) (k : ChatContext → Result Fault B)
        → (chat.deleted ≡ false → Holds P (k (seen u chat)))
        → Holds P (map_err f (chat_context_for u chat) >>= k)
    unfolding chat_context_for
    context-Holds f k h = unless_gone chat.deleted no_chat (seen u chat) f k h

    pub authorize-Holds :
        (allowed : Permission) (k : ChatContext → Result Fault B)
        → (chat.deleted ≡ false
            → (seen u chat).is_member ≡ true
            → (seen u chat).permissions allowed ≡ true
            → Holds P (k (seen u chat)))
        → Holds P (authorize allowed u chat >>= k)
    unfolding authorize
    authorize-Holds allowed k h =
        assoc-Holds P (map_err when_not_found (chat_context_for u chat)) checked k (
          context-Holds when_not_found (λ ctx. checked ctx >>= k)
            λ alive. check (seen u chat) (h alive))
      where
        checked : ChatContext → Result Fault ChatContext
        checked ctx =
            if not ctx.is_member
            then err (forbidden not_chat_member)
            else if not (ctx.permissions allowed)
            then err (forbidden permission_denied)
            else ok ctx

        split :
            (ctx : ChatContext) (b c : Bool)
            → (b ≡ true → c ≡ true → Holds P (k ctx))
            → Holds P (
                (if not b
                  then err (forbidden not_chat_member)
                  else if not c
                  then err (forbidden permission_denied)
                  else ok ctx)
                >>= k)
        split ctx true true held = held refl refl
        split ctx true false held = tt
        split ctx false c held = tt

        check :
            (ctx : ChatContext)
            → (ctx.is_member ≡ true → ctx.permissions allowed ≡ true → Holds P (k ctx))
            → Holds P (checked ctx >>= k)
        check ctx = split ctx ctx.is_member (ctx.permissions allowed)

    pub target-Holds :
        (k : ChatContext → Result Fault B)
        → ((seen u chat).is_member ≡ true → Holds P (k (seen u chat)))
        → Holds P (target_of u chat >>= k)
    target-Holds k h = assoc-Holds P (map_err always_internal (chat_context_for u chat)) checked k (
        context-Holds always_internal (λ ctx. checked ctx >>= k)
          λ _. split (seen u chat) (seen u chat).is_member h)
      where
        checked : ChatContext → Result Fault ChatContext
        checked ctx = if not ctx.is_member then err (not_found not_found_code) else ok ctx

        split :
            (ctx : ChatContext) (b : Bool)
            → (b ≡ true → Holds P (k ctx))
            → Holds P ((if not b then err (not_found not_found_code) else ok ctx) >>= k)
        split ctx true held = held refl
        split ctx false held = tt
