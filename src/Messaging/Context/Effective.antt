-- ===== src/Messaging/Context/Effective.antt =====
-- Which layer decides a member's permission.
use sobhemessenger.Common.{
  ◌≡◌, ◌&&◌, Bool, true, false, arith, if◌then◌else◌, refl, ◌∙◌, ap, Bool-cases, inl, inr,
}
use sobhemessenger.Messaging.Permissions.{
  Role, Permission, Permissions, send_messages, send_media, send_files, send_polls, send_stickers,
  permissions_for_role, apply_overrides,
}
use sobhemessenger.Messaging.Permissions.Layers.{IsRaw, named, or_else, apply_overrides-named}
use sobhemessenger.Messaging.Context.{Row, is_ordinary, is_true, silence, chat_layer, effective}

-- The permissions that a broadcast group takes from those who are not staff.
abbrev pub is_posting : Permission → Bool
is_posting send_messages = true
is_posting send_media = true
is_posting send_files = true
is_posting send_polls = true
is_posting send_stickers = true
is_posting _ = false

-- What the chat leaves of the role's permission.
abbrev pub granted_by_chat : Role → Row → Permission → Bool
granted_by_chat role row p =
    let by_role = permissions_for_role role row.chat_type p in
    if is_ordinary role
    then (if is_true row.is_broadcast && is_posting p
        then false
        else or_else (named p row.default_permissions) by_role)
    else by_role

silence_lem :
    (base : Permissions) (p : Permission)
    → silence base p ≡ (if is_posting p then false else base p)
unfolding silence
silence_lem base send_messages = refl
silence_lem base _ = refl

chat_layer_lem :
    (role : Role) (row : Row) (p : Permission)
    → IsRaw row.default_permissions
    → chat_layer role row p ≡ granted_by_chat role row p
unfolding chat_layer
chat_layer_lem role row p d = elim (Bool-cases (is_ordinary role)) [
  | inr staff ↦ rw staff
  | inl ordinary ↦ elim (Bool-cases (is_true row.is_broadcast)) [
    | inl broadcast ↦
        rw (ordinary, broadcast)
          (silence_lem limited p ∙ ap (λ b. if is_posting p then false else b) (limited_lem p))
    | inr open_chat ↦ rw (ordinary, open_chat) (limited_lem p)
  ]
]
  where
    limited : Permissions
    limited = apply_overrides (permissions_for_role role row.chat_type) row.default_permissions

    limited_lem :
        (q : Permission)
        → limited q
          ≡ or_else (named q row.default_permissions) (permissions_for_role role row.chat_type q)
    limited_lem q = apply_overrides-named _ row.default_permissions q d

-- For maps that hold a key once, a member's permission is the value in their own overrides if it is
-- there, else the one in the named role that they hold, else what the chat leaves of the built-in
-- role: for members and restricted members a broadcast group takes the five posting permissions and
-- the chat's defaults decide what they name; for staff neither counts.
pub effective_layers :
    (role : Role) (row : Row) (p : Permission)
    → IsRaw row.permissions
    → IsRaw row.role_permissions
    → IsRaw row.default_permissions
    → effective role row p
      ≡ or_else
          (named p row.permissions)
          (or_else (named p row.role_permissions) (granted_by_chat role row p))
unfolding effective
effective_layers role row p own bundle defaults = ground (
  arith,
  apply_overrides-named (apply_overrides (chat_layer role row) row.role_permissions) row.permissions
      p own,
  apply_overrides-named (chat_layer role row) row.role_permissions p bundle,
  chat_layer_lem role row p defaults,
)
