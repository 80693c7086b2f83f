-- ===== src/Calls/Service.antt =====
-- backend/internal/calls/calls.go: the session records and the operations of the service. What is sent
-- to the participants is left out.
use Prim.Native.String.{String}
use text.Mathlib.Text.{◌==◌ as str_eq}
use sobhemessenger.Common.{
  ℕ, Bool, true, false, not, ◌&&◌, Option, none, some, Uuid, Bytes, if◌then◌else◌, List, [], ◌∷◌,
  ◌++◌,
}
use sobhemessenger.Common.Assoc.{Assoc, lookup, insert}
use sobhemessenger.Httpx.{
  Fault, Result, ok, err, ◌>>=◌, ◌>>◌, map_err, validation, forbidden, not_found, conflict,
  not_chat_member, permission_denied, call_not_found, not_found_code,
}
use sobhemessenger.Httpx.{call_full as full_code, call_ended as ended_code}
use sobhemessenger.Messaging.Permissions.{ChatType, private, manage_calls}
use sobhemessenger.Messaging.Context.{ChatContext}
use sobhemessenger.Calls.Party.{Participant}
use sobhemessenger.Calls.Party as Party
use sobhemessenger.Calls.Call.{
  Scope, direct, group, CallType, other_type, ended, rejected, SignalType, offer, answer,
  ice_candidate, other_signal, Session, Call, CallError, call_ended, call_full, create, join, leave,
  set_state, set_participant_state, set_media, is_participant,
}

abbrev pub or_new : Option Bytes → Option Bytes → Option Bytes
or_new none old = old
or_new (some new) old = some new

-- The row that a signal would insert.
abbrev pub new_session : String → String → SignalType → Bytes → Session
new_session node network type payload = record {
  ws_node = node;
  network_type = network;
  sdp_offer = elim type [ offer ↦ some payload | _ ↦ none ];
  sdp_answer = elim type [ answer ↦ some payload | _ ↦ none ];
  ice_candidates = elim type [ ice_candidate ↦ payload ∷ [] | _ ↦ [] ];
  closed_at = none;
}

abbrev pub merge : Option Session → Session → Session
merge none new = new
merge (some old) new = record old {
  ws_node = new.ws_node;
  network_type = if str_eq new.network_type "" then old.network_type else new.network_type;
  sdp_offer = or_new new.sdp_offer old.sdp_offer;
  sdp_answer = or_new new.sdp_answer old.sdp_answer;
  ice_candidates = old.ice_candidates ++ new.ice_candidates;
}

abbrev pub is_recorded : SignalType → Bool
is_recorded (other_signal _) = false
is_recorded _ = true

-- Without the device, which the service never gives.
unfoldable pub record_signal : Uuid → String → String → SignalType → Bytes → Call → Call
record_signal u node network type payload call =
    if is_recorded type
    then record call {
      sessions =
          insert u (merge (lookup u call.sessions) (new_session node network type payload))
            call.sessions;
    }
    else call

abbrev pub close_row : ℕ → Option ℕ → Option ℕ
close_row now none = some now
close_row now (some t) = some t

abbrev pub close_rows : ℕ → Assoc Session → Assoc Session
close_rows now [] = []
close_rows now ((u, s) ∷ m) =
    (u, record s { closed_at = close_row now s.closed_at }) ∷ close_rows now m

unfoldable pub close_sessions : ℕ → Call → Call
close_sessions now call = record call { sessions = close_rows now call.sessions }

abbrev pub is_unsupported : CallType → Bool
is_unsupported (other_type _) = true
is_unsupported _ = false

abbrev pub scope_of : ChatType → Scope
scope_of private = direct
scope_of _ = group

abbrev pub is_direct : Scope → Bool
is_direct direct = true
is_direct group = false

-- `context` is what `ChatContextFor` answers for the caller, `members` the ids of the chat's members.
unfoldable pub start :
    ℕ → ℕ → Uuid → CallType → Result Fault ChatContext → List Uuid → Result Fault Call
start now cap initiator type context members =
    if is_unsupported type
    then err validation
    else context >>= λ ctx.
        if not ctx.is_member
        then err (forbidden not_chat_member)
        else if not (is_direct (scope_of ctx.chat_type)) && not (ctx.permissions manage_calls)
        then err (forbidden permission_denied)
        else ok (create now initiator type (scope_of ctx.chat_type) cap members)

unfoldable pub require_participant : Uuid → Call → Result Fault (Unit {0})
require_participant u call = if is_participant u call then ok tt else err (not_found call_not_found)

abbrev pub when_join_error : CallError → Fault
when_join_error call_ended = conflict ended_code
when_join_error call_full = forbidden full_code

unfoldable pub accept : ℕ → Uuid → Call → Result Fault Call
unfolding require_participant
accept now u call = require_participant u call >> map_err when_join_error (join now u call)

unfoldable pub reject : ℕ → Uuid → Call → Result Fault Call
reject now u call =
    let declined = set_participant_state u Party.rejected call in
    require_participant u call
    >> ok (if is_direct call.scope then set_state now rejected "declined" declined else declined)

-- The rest of `End` after `Leave`.
unfoldable pub hang_up : ℕ → String → Scope → Bool × Call → Call
unfolding close_sessions
hang_up now reason scope (over, left) =
    if over
    then close_sessions now left
    else if is_direct scope
    then close_sessions now (set_state now ended reason left)
    else left

unfoldable pub finish : ℕ → Uuid → String → Call → Result Fault Call
unfolding hang_up
finish now u reason call =
    require_participant u call >> ok (hang_up now reason call.scope (leave now u call))

unfoldable pub signal :
    Uuid → Uuid → String → String → SignalType → Bytes → Call → Result Fault Call
unfolding record_signal
signal sender receiver node network type payload call =
    require_participant sender call
    >> (if is_participant receiver call
        then ok (record_signal sender node network type payload call)
        else err (not_found not_found_code))

unfoldable pub change_media :
    Uuid → Option Bool → Option Bool → Option Bool → Call → Result Fault Call
change_media u muted camera screen call =
    require_participant u call >> ok (set_media u muted camera screen call)

-- An operation on a call as a value; the time is that of the database.
pub data Op : Type 0 where
  accepting rejecting : ℕ → Uuid → Op
  finishing : ℕ → Uuid → String → Op
  signalling : Uuid → Uuid → String → String → SignalType → Bytes → Op
  changing_media : Uuid → Option Bool → Option Bool → Option Bool → Op

unfoldable pub run : Op → Call → Result Fault Call
unfolding accept reject finish signal change_media
run (accepting now u) call = accept now u call
run (rejecting now u) call = reject now u call
run (finishing now u reason) call = finish now u reason call
run (signalling sender receiver node network type payload) call =
    signal sender receiver node network type payload call
run (changing_media u muted camera screen) call = change_media u muted camera screen call

abbrev pub settle : Result Fault Call → Call → Call
settle (ok after) call = after
settle (err _) call = call

unfoldable pub apply_all : List Op → Call → Call
unfolding run
apply_all [] call = call
apply_all (op ∷ ops) call = apply_all ops (settle (run op call) call)
