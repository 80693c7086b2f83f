-- ===== src/Calls/Ended.antt =====
-- When a call ends, and that it stays ended.
use Prim.Native.String.{String}
use sobhemessenger.Common.{
  ℕ, ◌≡◌, refl, ◌∙◌, Bool, true, false, not, ◌||◌, Option, none, some, Uuid, if◌then◌else◌, arith,
  List, [], ◌∷◌, leb, if_intro, ap,
}
use sobhemessenger.Common.Assoc.{lookup}
use sobhemessenger.Httpx.{
  Fault, Result, ok, err, Holds, Holds-ok, if-Holds, bind-Holds, map_err-Holds, not_found,
  not_found_code,
}
use sobhemessenger.Calls.Party.{Participant, is_joined, remains}
use sobhemessenger.Calls.Party as Party
use sobhemessenger.Calls.Call.{
  CallState, ended, rejected, Scope, direct, group, Call, call_ended, is_over, how_many, join,
  set_state, departed, leave, on_participant, set_participant_state, set_media, is_participant,
}
use sobhemessenger.Calls.Service.{
  Op, accepting, rejecting, finishing, signalling, changing_media, run, settle, apply_all, accept,
  reject, finish, signal, change_media, hang_up, require_participant, when_join_error,
  record_signal, close_sessions, is_direct, is_recorded,
}

-- What the history shows of a call.
abbrev pub verdict : Call → CallState × String × Option ℕ × Option ℕ × Option ℕ
verdict call =
    (call.state, call.end_reason, call.connected_at, call.ended_at, call.duration_seconds)

abbrev Kept : Call → Call → Type 0
Kept call after = verdict after ≡ verdict call

set_state_over :
    (now : ℕ) (state : CallState) (reason : String) (call : Call)
    → is_over call.state ≡ true
    → set_state now state reason call ≡ call
unfolding set_state
set_state_over now state reason call over =
    if_intro (λ c. c ≡ call) (is_over call.state) _ _ (λ _. refl)
      (λ going. ground (arith, over, going))

-- A call that shows what an ended one does shows it after `SetState` too.
set_state-Kept :
    (now : ℕ) (state : CallState) (reason : String) (call after : Call)
    → is_over call.state ≡ true
    → Kept call after
    → Kept call (set_state now state reason after)
set_state-Kept now state reason call after over same =
    ap verdict (set_state_over now state reason after (ap (λ v. is_over v.0) same ∙ over)) ∙ same

leave-Kept :
    (now : ℕ) (u : Uuid) (call : Call) → is_over call.state ≡ true → Kept call (leave now u call).1
unfolding leave
leave-Kept now u call over =
    if_intro (λ (r : Bool × Call). Kept call r.1) (leb 1 (how_many remains (departed now u call)))
      (false, departed now u call)
      (true, set_state now ended "all_participants_left" (departed now u call)) (λ _. refl)
      (λ _. set_state-Kept now ended "all_participants_left" call (departed now u call) over refl)

hang_up-Kept :
    (now : ℕ) (reason : String) (scope : Scope) (call : Call) (r : Bool × Call)
    → is_over call.state ≡ true
    → Kept call r.1
    → Kept call (hang_up now reason scope r)
unfolding hang_up close_sessions
hang_up-Kept now reason scope call (alone, after) over same =
    if_intro (Kept call) alone (close_sessions now after) _ (λ _. same)
      λ _.
        if_intro (Kept call) (is_direct scope)
          (close_sessions now (set_state now ended reason after)) after
          (λ _. set_state-Kept now ended reason call after over same) (λ _. same)

on_participant_over :
    (f : Participant → Participant) (o : Option Participant) (u : Uuid) (call : Call)
    → Kept call (on_participant f o call u)
on_participant_over f none u call = refl
on_participant_over f (some p) u call = refl

run_over : (op : Op) (call : Call) → is_over call.state ≡ true → Holds (Kept call) (run op call)
unfolding run accept reject finish signal change_media record_signal join set_participant_state
    set_media
run_over (accepting now u) call over = bind-Holds (Kept call) (require_participant u call) _ λ _.
    map_err-Holds (Kept call) when_join_error (join now u call) (
      if-Holds (Kept call) (is_over call.state) (err call_ended) _ (λ _. tt)
        (λ going. ground (arith, over, going)))
run_over (rejecting now u) call over = bind-Holds (Kept call) (require_participant u call) _ λ _.
    if_intro (Kept call) (is_direct call.scope)
      (set_state now rejected "declined" (set_participant_state u Party.rejected call))
      (set_participant_state u Party.rejected call)
      (λ _.
        set_state-Kept now rejected "declined" call _ over
          (on_participant_over _ (lookup u call.participants) u call))
      (λ _. on_participant_over _ (lookup u call.participants) u call)
run_over (finishing now u reason) call over =
    bind-Holds (Kept call) (require_participant u call) _ λ _.
      hang_up-Kept now reason call.scope call (leave now u call) over (leave-Kept now u call over)
run_over (signalling sender receiver node network type payload) call over =
    bind-Holds (Kept call) (require_participant sender call) _ λ _.
      if-Holds (Kept call) (is_participant receiver call) (ok _) (err (not_found not_found_code))
        (λ _. if_intro (Kept call) (is_recorded type) _ _ (λ _. refl) (λ _. refl)) (λ _. tt)
run_over (changing_media u muted camera screen) call over =
    bind-Holds (Kept call) (require_participant u call) _
      λ _. on_participant_over _ (lookup u call.participants) u call

settle-Kept :
    (r : Result Fault Call) (call : Call) → Holds (Kept call) r → Kept call (settle r call)
settle-Kept (ok after) call h = h
settle-Kept (err e) call h = refl

-- Once a call is ended, rejected or missed, no sequence of operations changes its state, the reason,
-- the times of connection and end or the duration.
pub ended_stays :
    (ops : List Op) (call : Call)
    → is_over call.state ≡ true
    → verdict (apply_all ops call) ≡ verdict call
unfolding apply_all
ended_stays [] call over = refl
ended_stays (op ∷ ops) call over =
    let after : Call = settle (run op call) call in
    let same : Kept call after = settle-Kept (run op call) call (run_over op call over) in
    ended_stays ops after (ap (λ v. is_over v.0) same ∙ over) ∙ same

is_over-set_state :
    (now : ℕ) (state : CallState) (reason : String) (call : Call)
    → is_over state ≡ true
    → is_over (set_state now state reason call).state ≡ true
unfolding set_state
is_over-set_state now state reason call over =
    if_intro (λ c. is_over c.state ≡ true) (is_over call.state) call _ (λ gone. gone) (λ _. over)

abbrev nobody : Call → Bool
nobody call = not (leb 1 (how_many remains call))

-- What `End` makes of a call with or without somebody left.
hang_up_ends :
    (now : ℕ) (reason : String) (scope : Scope) (call : Call) (some_left : Bool)
    → is_over
        (hang_up now reason scope (
          if some_left
          then (false, call)
          else (true, set_state now ended "all_participants_left" call))).state
      ≡ (is_over call.state || is_direct scope || not some_left)
unfolding hang_up close_sessions
hang_up_ends now reason direct call true =
    ground (arith, is_over-set_state now ended reason call refl)
hang_up_ends now reason group call true = ground arith
hang_up_ends now reason scope call false =
    ground (arith, is_over-set_state now ended "all_participants_left" call refl)

finish_state :
    (now : ℕ) (u : Uuid) (reason : String) (call : Call)
    → Holds
        (λ after.
          is_over after.state
          ≡ (is_over call.state || is_direct call.scope || nobody (departed now u call)))
        (finish now u reason call)
unfolding finish leave
finish_state now u reason call =
    bind-Holds _ (require_participant u call) (λ _. ok _)
      λ _.
        hang_up_ends now reason call.scope (departed now u call)
          (leb 1 (how_many remains (departed now u call)))

reject_state :
    (now : ℕ) (u : Uuid) (call : Call)
    → Holds
        (λ after. is_over after.state ≡ (is_over call.state || is_direct call.scope))
        (reject now u call)
unfolding reject set_participant_state
reject_state now u call =
    bind-Holds P (require_participant u call) (λ _. ok _)
      λ _.
        if_intro P (is_direct call.scope) (set_state now rejected "declined" declined) declined
          (λ one_to_one.
            ground (arith, is_over-set_state now rejected "declined" declined refl, one_to_one))
          (λ several. ground (arith, same (lookup u call.participants), several))
  where
    P : Call → Type 0
    P after = is_over after.state ≡ (is_over call.state || is_direct call.scope)

    declined : Call
    declined = set_participant_state u Party.rejected call

    same :
        (o : Option Participant)
        → (on_participant (λ p. record p { state = Party.rejected }) o call u).state ≡ call.state
    same none = refl
    same (some p) = refl

-- A call is over after `End` exactly if it was before, is one-to-one, or nobody is joined, ringing or
-- invited any more; after `Reject` exactly if it was before or is one-to-one, whoever is left.
pub over_after_exact :
    (now : ℕ) (u : Uuid) (reason : String) (call finished declined : Call)
    → finish now u reason call ≡ ok finished
    → reject now u call ≡ ok declined
    → (is_over finished.state ≡ (
        is_over call.state
        || is_direct call.scope
        || not (leb 1 (how_many remains (departed now u call)))))
      × (is_over declined.state ≡ (is_over call.state || is_direct call.scope))
over_after_exact now u reason call finished declined ended_by declined_by = (
  Holds-ok
      (λ after.
        is_over after.state
        ≡ (is_over call.state || is_direct call.scope || nobody (departed now u call)))
      _ finished (finish_state now u reason call) ended_by,
  Holds-ok (λ after. is_over after.state ≡ (is_over call.state || is_direct call.scope)) _ declined
      (reject_state now u call) declined_by,
)
