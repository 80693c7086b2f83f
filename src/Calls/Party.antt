-- ===== src/Calls/Party.antt =====
-- A row of `call_participants` (backend/internal/calls/calls.go).
use sobhemessenger.Common.{ℕ, Bool, true, false, Option, none}

pub data State : Type 0 where
  invited ringing joined left rejected missed : State

pub record Participant : Type 0 where
  pub state : State
  pub is_muted : Bool
  pub video_enabled : Bool
  pub screen_sharing : Bool
  pub joined_at : Option ℕ
  pub left_at : Option ℕ

abbrev pub is_joined : Participant → Bool
is_joined p = elim p.state [ joined ↦ true | _ ↦ false ]

abbrev pub has_left : Participant → Bool
has_left p = elim p.state [ left ↦ true | _ ↦ false ]

-- `state IN ('joined', 'ringing', 'invited')`
abbrev pub remains : Participant → Bool
remains p = elim p.state [ joined ↦ true | ringing ↦ true | invited ↦ true | _ ↦ false ]

abbrev pub new_participant : State → Option ℕ → Participant
new_participant state joined_at = record {
  state = state;
  is_muted = false;
  video_enabled = false;
  screen_sharing = false;
  joined_at = joined_at;
  left_at = none;
}
