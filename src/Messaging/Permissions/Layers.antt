-- ===== src/Messaging/Permissions/Layers.antt =====
-- The layers of overrides as lookups: the narrowest layer that names a permission decides it.
use sobhemessenger.Common.{
  ℕ, ◌≡◌, refl, ◌∙◌, ap, sym, Bool, true, Option, none, some, [], ◌∷◌, arith, ◌==◌, if◌then◌else◌,
  eq_of_beq,
}
use sobhemessenger.Messaging.Permissions.{
  Permission, Permissions, known, unknown, Overrides, Raw, index, is_same, send_messages,
  send_media, send_files, send_polls, send_stickers, embed_links, add_members, remove_members,
  ban_members, pin_messages, edit_group, delete_messages, manage_admins, manage_calls,
  manage_invites, post_stories, apply_map, apply_overrides,
}

-- The value that a map holds for a permission.
unfoldable pub find : Permission → Overrides → Option Bool
find p [] = none
find p ((known q, v) ∷ m) = if is_same q p then some v else find p m
find p ((unknown _, v) ∷ m) = find p m

-- A Go map holds a key once.
abbrev pub IsMap : Overrides → Type 0
IsMap [] = Unit
IsMap ((known q, v) ∷ m) = (find q m ≡ none) × IsMap m
IsMap ((unknown _, v) ∷ m) = IsMap m

abbrev pub or_else : Option Bool → Bool → Bool
or_else none base = base
or_else (some v) base = v

at_index : ℕ → Permission
at_index n =
    if n == 0
    then send_messages
    else if n == 1
    then send_media
    else if n == 2
    then send_files
    else if n == 3
    then send_polls
    else if n == 4
    then send_stickers
    else if n == 5
    then embed_links
    else if n == 6
    then add_members
    else if n == 7
    then remove_members
    else if n == 8
    then ban_members
    else if n == 9
    then pin_messages
    else if n == 10
    then edit_group
    else if n == 11
    then delete_messages
    else if n == 12
    then manage_admins
    else if n == 13
    then manage_calls
    else if n == 14
    then manage_invites
    else post_stories

at_index-index : (p : Permission) → at_index (index p) ≡ p
unfolding at_index
at_index-index send_messages = refl
at_index-index _ = refl

pub eq_of_same : (p q : Permission) → is_same p q ≡ true → p ≡ q
eq_of_same p q h = sym (at_index-index p) ∙ ap at_index (same_index h) ∙ at_index-index q
  where
    same_index : is_same p q ≡ true → index p ≡ index q
    same_index h = eq_of_beq (index p) (index q) h

-- Over a Go map the order of the loop does not matter: each permission that the map names takes the
-- value there, and every other stays.
pub apply_map-find :
    (base : Permissions) (m : Overrides) (p : Permission)
    → IsMap m
    → apply_map base m p ≡ or_else (find p m) (base p)
unfolding apply_map find
apply_map-find base [] p d = refl
apply_map-find base ((known q, v) ∷ m) p d = ground (
  arith,
  apply_map-find (λ r. if is_same q r then v else base r) m p d.1,
  λ (e : q ≡ p). absent e,
  eq_of_same q p,
)
  where
    absent : q ≡ p → find p m ≡ none
    absent e = rw (← e) d.0
apply_map-find base ((unknown _, v) ∷ m) p d = apply_map-find base m p d

abbrev pub IsRaw : Raw → Type 0
IsRaw none = Unit
IsRaw (some m) = IsMap m

abbrev pub named : Permission → Raw → Option Bool
named p none = none
named p (some m) = find p m

pub apply_overrides-named :
    (base : Permissions) (raw : Raw) (p : Permission)
    → IsRaw raw
    → apply_overrides base raw p ≡ or_else (named p raw) (base p)
unfolding apply_overrides
apply_overrides-named base none p d = refl
apply_overrides-named base (some m) p d = apply_map-find base m p d
