-- ===== src/Calls/Call.antt =====
-- backend/internal/calls/calls.go: a call with its participants and session records, and the statements
-- of the repository. Times are microseconds, as the database keeps them; `now` is its clock.
use Prim.Native.String.{String}
use sobhemessenger.Common.{
  ℕ, ◌+◌, ◌-◌, ◌/◌, Bool, true, false, Option, none, some, Uuid, Bytes, if◌then◌else◌, List, [],
  ◌∷◌, leb, ◌==◌, bit,
}
use sobhemessenger.Common.Assoc.{Assoc, lookup, insert, total}
use sobhemessenger.Httpx.{Result, ok, err}
use sobhemessenger.Calls.Party.{Participant, is_joined, has_left, remains, new_participant}
use sobhemessenger.Calls.Party as Party

pub data Scope : Type 0 where
  direct group : Scope

pub data CallType : Type 0 where
  voice video : CallType
  other_type : String → CallType

pub data CallState : Type 0 where
  ringing active ended missed rejected failed : CallState

pub data SignalType : Type 0 where
  offer answer ice_candidate : SignalType
  other_signal : String → SignalType

-- A row of `call_sessions`.
pub record Session : Type 0 where
  pub ws_node : String
  pub network_type : String
  pub sdp_offer : Option Bytes
  pub sdp_answer : Option Bytes
  pub ice_candidates : List Bytes
  pub closed_at : Option ℕ

pub record Call : Type 0 where
  pub initiator_id : Uuid
  pub type : CallType
  pub scope : Scope
  pub state : CallState
  pub end_reason : String
  pub max_participants : ℕ
  pub started_at : ℕ
  pub connected_at : Option ℕ
  pub ended_at : Option ℕ
  pub duration_seconds : Option ℕ
  pub participants : Assoc Participant
  pub sessions : Assoc Session

pub data CallError : Type 0 where
  call_ended call_full : CallError

-- `state NOT IN ('ended', 'rejected', 'missed')` fails.
abbrev pub is_over : CallState → Bool
is_over ended = true
is_over rejected = true
is_over missed = true
is_over _ = false

abbrev pub is_ringing : CallState → Bool
is_ringing ringing = true
is_ringing _ = false

abbrev pub how_many : (Participant → Bool) → Call → ℕ
how_many p call = total (λ q. bit (p q)) call.participants

-- The invitations, where a row that is there stays.
unfoldable pub invite : Uuid → List Uuid → Assoc Participant → Assoc Participant
invite initiator [] m = m
invite initiator (u ∷ us) m =
    let added : Assoc Participant = elim (lookup u m) [
      | none ↦ insert u (new_participant Party.ringing none) m
      | some _ ↦ m
    ] in
    invite initiator us (if u == initiator then m else added)

unfoldable pub create : ℕ → Uuid → CallType → Scope → ℕ → List Uuid → Call
unfolding invite
create now initiator_id type scope max_participants invitees = record {
  initiator_id = initiator_id;
  type = type;
  scope = scope;
  state = ringing;
  end_reason = "";
  max_participants = max_participants;
  started_at = now;
  connected_at = none;
  ended_at = none;
  duration_seconds = none;
  participants =
      invite initiator_id invitees ((initiator_id, new_participant Party.joined (some now)) ∷ []);
  sessions = [];
}

abbrev pub or_now : Option ℕ → ℕ → Option ℕ
or_now none now = some now
or_now (some t) now = some t

abbrev pub rejoin : ℕ → Option Participant → Participant
rejoin now none = new_participant Party.joined (some now)
rejoin now (some p) = record p {
  state = Party.joined;
  joined_at = or_now p.joined_at now;
  left_at = none;
}

unfoldable pub join : ℕ → Uuid → Call → Result CallError Call
join now u call =
    let seated = record call {
      participants = insert u (rejoin now (lookup u call.participants)) call.participants;
    } in
    if is_over call.state
    then err call_ended
    else if leb call.max_participants (how_many is_joined call)
    then err call_full
    else ok (
        if is_ringing call.state
        then record seated { state = active; connected_at = or_now call.connected_at now }
        else seated)

-- EXTRACT(EPOCH FROM …)::int rounds to the nearest second.
abbrev pub seconds_since : Option ℕ → ℕ → ℕ
seconds_since none now = 0
seconds_since (some t) now = (now - t + 500000) / 1000000

-- `SetState`, and the last UPDATE of `Leave`.
unfoldable pub set_state : ℕ → CallState → String → Call → Call
set_state now state reason call = if is_over call.state then call else record call {
  state = state;
  end_reason = reason;
  ended_at = some now;
  duration_seconds = some (seconds_since call.connected_at now);
}

abbrev pub depart : ℕ → Option Participant → Assoc Participant → Uuid → Assoc Participant
depart now none m u = m
depart now (some p) m u =
    if has_left p then m else insert u (record p { state = Party.left; left_at = some now }) m

-- The first UPDATE of `Leave`.
abbrev pub departed : ℕ → Uuid → Call → Call
departed now u call = record call {
  participants = depart now (lookup u call.participants) call.participants u;
}

-- With whether nobody is left.
unfoldable pub leave : ℕ → Uuid → Call → Bool × Call
unfolding set_state
leave now u call =
    if leb 1 (how_many remains (departed now u call))
    then (false, departed now u call)
    else (true, set_state now ended "all_participants_left" (departed now u call))

abbrev pub on_participant : (Participant → Participant) → Option Participant → Call → Uuid → Call
on_participant f none call u = call
on_participant f (some p) call u = record call { participants = insert u (f p) call.participants }

unfoldable pub set_participant_state : Uuid → Party.State → Call → Call
set_participant_state u state call =
    on_participant (λ p. record p { state = state }) (lookup u call.participants) call u

abbrev pub or_old : Option Bool → Bool → Bool
or_old none old = old
or_old (some new) old = new

unfoldable pub set_media : Uuid → Option Bool → Option Bool → Option Bool → Call → Call
set_media u muted camera screen call =
    on_participant
      (λ p. record p {
        is_muted = or_old muted p.is_muted;
        video_enabled = or_old camera p.video_enabled;
        screen_sharing = or_old screen p.screen_sharing;
      })
      (lookup u call.participants) call u

unfoldable pub is_participant : Uuid → Call → Bool
is_participant u call = elim (lookup u call.participants) [ none ↦ false | some _ ↦ true ]
