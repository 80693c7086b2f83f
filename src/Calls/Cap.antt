-- ===== src/Calls/Cap.antt =====
-- What holds of a call between two operations.
use Prim.Native.String.{String}
use sobhemessenger.Common.{
  ℕ, ◌+◌, ◌≤◌, ◌≡◌, refl, ◌⊎◌, inl, inr, Bool, true, false, Option, none, some, Uuid, bit, arith,
  List, [], ◌∷◌, is_some, leb, if_intro,
}
use sobhemessenger.Common.Assoc.{Assoc, lookup, insert, total, total-insert}
use sobhemessenger.Httpx.{
  Fault, Result, ok, err, Holds, if-Holds, bind-Holds, map_err-Holds, not_found, not_found_code,
}
use sobhemessenger.Calls.Party.{Participant, is_joined, has_left, remains, new_participant}
use sobhemessenger.Calls.Party as Party
use sobhemessenger.Calls.Call.{
  CallState, active, ended, rejected, Scope, Call, call_ended, call_full, is_over, is_ringing,
  Session, is_participant, or_now, how_many, rejoin, join, set_state, depart, leave, on_participant,
  set_participant_state, set_media,
}
use sobhemessenger.Calls.Service.{
  Op, accepting, rejecting, finishing, signalling, changing_media, run, settle, apply_all, accept,
  reject, finish, signal, change_media, hang_up, require_participant, when_join_error,
  record_signal, close_sessions, is_direct, is_recorded,
}

abbrev pub is_active : CallState → Bool
is_active active = true
is_active _ = false

pub record Inv (call : Call) : Type 0 where
  pub capped : how_many is_joined call ≤ call.max_participants
  -- a call has an end and a duration exactly once it is over
  pub dated : is_some call.ended_at ≡ is_over call.state
  pub measured : is_some call.duration_seconds ≡ is_over call.state
  pub connected : (is_active call.state ≡ false) ⊎ (is_some call.connected_at ≡ true)

module _ (call : Call) (i : Inv call) where
  -- The participants change and nobody joins.
  pub others-Inv :
      (m : Assoc Participant)
      → total (λ q. bit (is_joined q)) m ≤ how_many is_joined call
      → Inv (record call { participants = m })
  others-Inv m fewer = record {
    capped = omega (arith, i.capped, fewer);
    dated = i.dated;
    measured = i.measured;
    connected = i.connected;
  }

  pub join-Inv : (now : ℕ) (u : Uuid) → Holds Inv (join now u call)
  unfolding join
  join-Inv now u =
      let joined : Participant = rejoin now (lookup u call.participants) in
      let seated : total (λ q. bit (is_joined q)) (insert u joined call.participants)
          ≤ how_many is_joined call + 1 =
        ground (arith, total-insert (λ q. bit (is_joined q)) u joined call.participants) in
      if-Holds Inv (is_over call.state) (err call_ended) _ (λ _. tt)
        λ going.
          if-Holds Inv (leb call.max_participants (how_many is_joined call)) (err call_full) (ok _)
            (λ _. tt)
            λ room.
              if_intro Inv (is_ringing call.state) _ _
                (λ first. record {
                  capped = ground (arith, seated, room);
                  dated = ground (arith, i.dated, going);
                  measured = ground (arith, i.measured, going);
                  connected = inr (now_some call.connected_at);
                })
                (λ later. record {
                  capped = ground (arith, seated, room);
                  dated = i.dated;
                  measured = i.measured;
                  connected = i.connected;
                })
    where
      now_some : (o : Option ℕ) → is_some (or_now o now) ≡ true
      now_some none = refl
      now_some (some t) = refl

  pub set_state-Inv :
      (now : ℕ) (state : CallState) (reason : String)
      → is_over state ≡ true
      → is_active state ≡ false
      → Inv (set_state now state reason call)
  unfolding set_state
  set_state-Inv now state reason over idle =
      if_intro Inv (is_over call.state) _ _ (λ _. i)
        λ _. record {
          capped = i.capped;
          dated = rw over refl;
          measured = rw over refl;
          connected = inl idle;
        }

  on_participant-Inv :
      (f : Participant → Participant) (o : Option Participant) (u : Uuid)
      → lookup u call.participants ≡ o
      → ((p : Participant) → bit (is_joined (f p)) ≤ bit (is_joined p))
      → Inv (on_participant f o call u)
  on_participant-Inv f none u e fewer = i
  on_participant-Inv f (some p) u e fewer =
      others-Inv (insert u (f p) call.participants) (
        ground (arith, total-insert (λ q. bit (is_joined q)) u (f p) call.participants, e, fewer p))

  pub set_participant_state-Inv : (u : Uuid) → Inv (set_participant_state u Party.rejected call)
  unfolding set_participant_state
  set_participant_state-Inv u =
      on_participant-Inv _ (lookup u call.participants) u refl (λ p. omega arith)

  pub set_media-Inv :
      (u : Uuid) (muted camera screen : Option Bool) → Inv (set_media u muted camera screen call)
  unfolding set_media
  set_media-Inv u muted camera screen =
      on_participant-Inv _ (lookup u call.participants) u refl (λ p. omega arith)

  depart_fewer :
      (now : ℕ) (o : Option Participant) (u : Uuid)
      → lookup u call.participants ≡ o
      → total (λ q. bit (is_joined q)) (depart now o call.participants u) ≤ how_many is_joined call
  depart_fewer now none u e = omega arith
  depart_fewer now (some p) u e = ground (
    arith,
    total-insert (λ q. bit (is_joined q)) u (record p { state = Party.left; left_at = some now })
        call.participants,
    e,
  )

  pub sessions-Inv : (sessions : Assoc Session) → Inv (record call { sessions = sessions })
  sessions-Inv sessions = record {
    capped = i.capped;
    dated = i.dated;
    measured = i.measured;
    connected = i.connected;
  }

pub leave-Inv : (now : ℕ) (u : Uuid) (call : Call) → Inv call → Inv (leave now u call).1
unfolding leave
leave-Inv now u call i =
    if_intro (λ (r : Bool × Call). Inv r.1) _ _ _ (λ _. departed)
      (λ _. set_state-Inv _ departed now ended "all_participants_left" refl refl)
  where
    departed :
        Inv (record call {
          participants = depart now (lookup u call.participants) call.participants u;
        })
    departed =
        others-Inv call i (depart now (lookup u call.participants) call.participants u)
          (depart_fewer call i now (lookup u call.participants) u refl)

hang_up-Inv :
    (now : ℕ) (reason : String) (scope : Scope) (r : Bool × Call)
    → Inv r.1
    → Inv (hang_up now reason scope r)
unfolding hang_up close_sessions
hang_up-Inv now reason scope (over, call) i =
    if_intro Inv over _ _ (λ _. sessions-Inv call i _)
      λ _.
        if_intro Inv (is_direct scope) _ _
          (λ _. sessions-Inv _ (set_state-Inv call i now ended reason refl refl) _) (λ _. i)

run-Inv : (op : Op) (call : Call) → Inv call → Holds Inv (run op call)
unfolding run accept reject finish signal change_media record_signal
run-Inv (accepting now u) call i =
    bind-Holds Inv (require_participant u call) _
      λ _. map_err-Holds Inv when_join_error (join now u call) (join-Inv call i now u)
run-Inv (rejecting now u) call i = bind-Holds Inv (require_participant u call) _ λ _.
    if_intro Inv (is_direct call.scope) _ _
      (λ _. set_state-Inv _ (set_participant_state-Inv call i u) now rejected "declined" refl refl)
      (λ _. set_participant_state-Inv call i u)
run-Inv (finishing now u reason) call i =
    bind-Holds Inv (require_participant u call) _
      λ _. hang_up-Inv now reason call.scope (leave now u call) (leave-Inv now u call i)
run-Inv (signalling sender receiver node network type payload) call i =
    bind-Holds Inv (require_participant sender call) _ λ _.
      if-Holds Inv (is_participant receiver call) (ok _) (err (not_found not_found_code))
        (λ _. if_intro Inv (is_recorded type) _ _ (λ _. sessions-Inv call i _) (λ _. i)) (λ _. tt)
run-Inv (changing_media u muted camera screen) call i =
    bind-Holds Inv (require_participant u call) _ λ _. set_media-Inv call i u muted camera screen

settle-Inv : (r : Result Fault Call) (call : Call) → Holds Inv r → Inv call → Inv (settle r call)
settle-Inv (ok after) call h i = h
settle-Inv (err e) call h i = i

pub apply_all-Inv : (ops : List Op) (call : Call) → Inv call → Inv (apply_all ops call)
unfolding apply_all
apply_all-Inv [] call i = i
apply_all-Inv (op ∷ ops) call i =
    apply_all-Inv ops (settle (run op call) call)
      (settle-Inv (run op call) call (run-Inv op call i) i)
