-- ===== src/Calls/Tests.antt =====
-- A group call of three that everyone leaves or declines, and a one-to-one call.
use sobhemessenger.Common.Assoc.{insert, lookup, total}
use sobhemessenger.Common.{◌≡◌, refl, ◌||◌, true, List, [], ◌∷◌, not, leb, arith}
use sobhemessenger.Httpx.{ok}
use sobhemessenger.Messaging.Permissions.{group, admin, ChatType}
use sobhemessenger.Messaging.Context.{ChatContext}
use sobhemessenger.Calls.Party.{remains}
use sobhemessenger.Calls.Call.{
  Call, CallState, ringing, ended, voice, is_over, how_many, departed, create,
}
use sobhemessenger.Calls.Call as Call
use sobhemessenger.Calls.Service.{
  Op, accepting, rejecting, finishing, settle, apply_all, start, finish, reject, is_direct,
  require_participant,
}
use sobhemessenger.Calls.Cap.{Inv}
use sobhemessenger.Calls.Placed.{start_then_apply_all-Inv}
use sobhemessenger.Calls.Ended.{verdict, ended_stays, over_after_exact}

abbrev context : ChatType → ChatContext
context type = record {
  chat_type = type;
  member_count = 3;
  role = admin;
  permissions = λ _. true;
  is_member = true;
}

abbrev conference : Call
conference = create 1000000 1 voice Call.group 2 (1 ∷ 2 ∷ 3 ∷ [])

abbrev script : List Op
script =
    accepting 2000000 2 ∷ accepting 3000000 3 ∷ finishing 9000000 2 "bye" ∷ accepting 9500000 3 ∷ []

start_then_apply_all-Inv_example : Inv (apply_all script conference)
unfolding start
start_then_apply_all-Inv_example =
    start_then_apply_all-Inv 1000000 2 1 voice (ok (context group)) (1 ∷ 2 ∷ 3 ∷ []) conference
      script (omega arith) refl

abbrev talk : Call
talk = create 1000000 1 voice Call.direct 25 (1 ∷ 2 ∷ [])

abbrev hung_up : Call
hung_up = settle (finish 5000000 1 "busy" talk) talk

ended_stays_example : verdict (apply_all script hung_up) ≡ verdict hung_up
unfolding finish require_participant Call.is_participant lookup create insert Call.leave total
ended_stays_example = ended_stays script hung_up refl

abbrev declined : Call
declined = settle (reject 5000000 2 conference) conference

abbrev left : Call
left = settle (finish 5000000 2 "bye" conference) conference

over_after_exact_example :
    (is_over left.state ≡ (
      is_over conference.state
      || is_direct conference.scope
      || not (leb 1 (how_many remains (departed 5000000 2 conference)))))
    × (is_over declined.state ≡ (is_over conference.state || is_direct conference.scope))
unfolding finish reject require_participant Call.is_participant lookup create insert
over_after_exact_example = over_after_exact 5000000 2 "bye" conference left declined refl refl

-- The caller hangs up while the others ring, and both decline: nobody is left and the call rings on.
abandoned_state : CallState
abandoned_state =
    (apply_all (finishing 2000000 1 "" ∷ rejecting 3000000 2 ∷ rejecting 4000000 3 ∷ [])
      conference).state

abandoned_state-rings : abandoned_state ≡ ringing
unfolding abandoned_state apply_all Call.is_participant lookup create insert Call.leave total
    Call.set_participant_state
abandoned_state-rings = refl
