-- ===== src/Messaging/Tests.antt =====
-- A member of a broadcast group who holds a named role.
use sobhemessenger.Common.{◌≡◌, refl, ◌&&◌, true, false, some, [], ◌∷◌}
use sobhemessenger.Messaging.Permissions.{
  group, member, known, send_messages, send_media, pin_messages,
}
use sobhemessenger.Messaging.Permissions.Layers.{or_else, named, find}
use sobhemessenger.Messaging.Context.{Row, effective}
use sobhemessenger.Messaging.Context.Effective.{granted_by_chat, effective_layers}

abbrev speaker : Row
speaker = record {
  chat_type = group;
  member_count = 12;
  role = some member;
  permissions = some ((known pin_messages, false) ∷ []);
  default_permissions = some ((known send_media, false) ∷ []);
  is_broadcast = some true;
  role_permissions = some ((known send_messages, true) ∷ (known pin_messages, true) ∷ []);
}

effective_layers_example :
    effective member speaker pin_messages
    ≡ or_else (named pin_messages speaker.permissions) (
        or_else
          (named pin_messages speaker.role_permissions)
          (granted_by_chat member speaker pin_messages))
unfolding find
effective_layers_example =
    effective_layers member speaker pin_messages (refl, tt) (refl, (refl, tt)) (refl, tt)

effective-speaker :
    effective member speaker send_messages && effective member speaker pin_messages ≡ false
unfolding effective
effective-speaker = refl
