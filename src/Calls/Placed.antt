-- ===== src/Calls/Placed.antt =====
-- A call from its start on.
use sobhemessenger.Common.{
  ℕ, ◌≤◌, ◌≡◌, refl, inl, not, Option, none, some, Uuid, bit, arith, ◌∙◌, ◌&&◌, List, [], ◌∷◌,
  if_intro, ◌==◌,
}
use sobhemessenger.Common.Assoc.{Assoc, lookup, insert, total, total-insert}
use sobhemessenger.Httpx.{Fault, Result, ok, Holds, Holds-ok, if-Holds, bind-Holds}
use sobhemessenger.Messaging.Context.{ChatContext}
use sobhemessenger.Messaging.Permissions.{manage_calls}
use sobhemessenger.Calls.Party.{Participant, is_joined, has_left, remains, new_participant}
use sobhemessenger.Calls.Party as Party
use sobhemessenger.Calls.Call.{CallType, Scope, Call, invite, create}
use sobhemessenger.Calls.Service.{Op, apply_all, start, is_direct, scope_of, is_unsupported}
use sobhemessenger.Calls.Cap.{Inv, apply_all-Inv}

-- Whoever is invited rings; the rows that are there stay.
invite_keeps :
    (initiator : Uuid) (us : List Uuid) (m : Assoc Participant)
    → total (λ q. bit (is_joined q)) (invite initiator us m) ≡ total (λ q. bit (is_joined q)) m
unfolding invite
invite_keeps initiator [] m = refl
invite_keeps initiator (u ∷ us) m =
    invite_keeps initiator us _
    ∙ if_intro (λ n. total (λ q. bit (is_joined q)) n ≡ total (λ q. bit (is_joined q)) m)
        (u == initiator) m _ (λ _. refl) (λ _. added (lookup u m) refl)
  where
    added :
        (o : Option Participant)
        → lookup u m ≡ o
        → total
            (λ q. bit (is_joined q))
            (elim o as (λ _. Assoc Participant) [
              | none ↦ insert u (new_participant Party.ringing none) m
              | some _ ↦ m
            ])
          ≡ total (λ q. bit (is_joined q)) m
    added none e =
        ground
          (arith, total-insert (λ q. bit (is_joined q)) u (new_participant Party.ringing none) m, e)
    added (some p) e = refl

create-Inv :
    (now : ℕ) (initiator : Uuid) (type : CallType) (scope : Scope) (cap : ℕ) (us : List Uuid)
    → 1 ≤ cap
    → Inv (create now initiator type scope cap us)
unfolding create total
create-Inv now initiator type scope cap us room = record {
  capped = omega (
    arith,
    room,
    invite_keeps initiator us ((initiator, new_participant Party.joined (some now)) ∷ []),
  );
  dated = refl;
  measured = refl;
  connected = inl refl;
}

start-Inv :
    (now cap : ℕ) (initiator : Uuid) (type : CallType) (context : Result Fault ChatContext)
    (members : List Uuid)
    → 1 ≤ cap
    → Holds Inv (start now cap initiator type context members)
unfolding start
start-Inv now cap initiator type context members room =
    if-Holds Inv (is_unsupported type) _ _ (λ _. tt)
      λ _. bind-Holds Inv context _ λ ctx.
        if-Holds Inv (not ctx.is_member) _ _ (λ _. tt)
          λ _.
            if-Holds Inv
              (not (is_direct (scope_of ctx.chat_type)) && not (ctx.permissions manage_calls)) _
              (ok _) (λ _. tt)
              λ _. create-Inv now initiator type (scope_of ctx.chat_type) cap members room

-- For a cap of at least one, a call that `Start` placed satisfies its invariant after every sequence of
-- operations, refused ones included: no more participants are joined than the cap, a call has an end
-- time and a duration exactly once it is over, and an active call has the time at which it connected.
pub start_then_apply_all-Inv :
    (now cap : ℕ) (initiator : Uuid) (type : CallType) (context : Result Fault ChatContext)
    (members : List Uuid) (call : Call) (ops : List Op)
    → 1 ≤ cap
    → start now cap initiator type context members ≡ ok call
    → Inv (apply_all ops call)
start_then_apply_all-Inv now cap initiator type context members call ops room placed =
    apply_all-Inv ops call
      (Holds-ok Inv _ call (start-Inv now cap initiator type context members room) placed)
