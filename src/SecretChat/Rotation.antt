-- ===== src/SecretChat/Rotation.antt =====
-- A device that publishes another identity key.
use sobhemessenger.Common.{
  ℕ, ◌≡◌, refl, true, not, Uuid, List, [], ◌∷◌, arith, map, any, All, contains, if_intro,
  Bool-cases, inl, inr,
}
use sobhemessenger.Common.Assoc.{lookup, insert}
use sobhemessenger.Common.Base64.{decode}
use sobhemessenger.Common.Lists.Rows.{filter_if}
use sobhemessenger.Httpx.{Result, ok, err, ◌>>=◌, Holds, Holds-ok, on_row-Holds}
use sobhemessenger.SecretChat.Store.{
  Identity, Prekey, Session, Directory, RepoError, OneTimePrekey, is_of, is_key, is_available,
  invalid_key, has_party, is_terminated,
}
use sobhemessenger.SecretChat.Keys.{
  add_prekey, store_prekeys, publish_keys, reset_device, is_rotation, terminate, replaced,
}

-- A row of the device is unclaimed and has one of the ids.
abbrev pub IsFreshRow : Uuid → List ℕ → Prekey → Type 0
IsFreshRow device keys r =
    is_of device r ≡ true → (is_available r ≡ true) × (contains r.key_id keys ≡ true)

abbrev pub IsCut : Uuid → Session → Type 0
IsCut device s = has_party device s ≡ true → is_terminated s.state ≡ true

abbrev pub key_ids : List OneTimePrekey → List ℕ
key_ids = map (λ k. k.key_id)

terminate-IsCut :
    (now : ℕ) (device : Uuid) (ss : List Session)
    → All (IsCut device) (map (terminate now device) ss)
terminate-IsCut now device [] = tt
terminate-IsCut now device (s ∷ ss) = (λ h. ground (arith, h), terminate-IsCut now device ss)

no_rows :
    (device : Uuid) (keys : List ℕ) (rows : List Prekey)
    → All (IsFreshRow device keys) (filter_if (λ r. not (is_of device r)) rows)
unfolding filter_if
no_rows device keys [] = tt
no_rows device keys (r ∷ rows) = elim (Bool-cases (is_of device r)) [
  | inl own ↦ rw own (no_rows device keys rows)
  | inr other ↦ rw other ((λ h. cc), no_rows device keys rows)
]

store-IsFreshRow :
    (device : Uuid) (keys : List ℕ) (ks : List OneTimePrekey) (rows : List Prekey)
    → All (λ k. contains k.key_id keys ≡ true) ks
    → All (IsFreshRow device keys) rows
    → Holds (All (IsFreshRow device keys)) (store_prekeys device ks rows)
unfolding store_prekeys
store-IsFreshRow device keys [] rows named fresh = fresh
store-IsFreshRow device keys (x ∷ ks) rows named fresh =
    on_row-Holds (All (IsFreshRow device keys)) (decode x.public_key) invalid_key _ λ raw _.
      store-IsFreshRow device keys ks (add_prekey device x.key_id raw rows) named.1 (
        if_intro (All (IsFreshRow device keys)) (any (is_key device x.key_id) rows) _ _ (λ _. fresh)
          (λ _. ((λ _. (refl, named.0)), fresh)))

widen :
    (x : ℕ) (keys : List ℕ) (ks : List OneTimePrekey)
    → All (λ k. contains k.key_id keys ≡ true) ks
    → All (λ k. contains k.key_id (x ∷ keys) ≡ true) ks
unfolding contains
widen x keys [] h = tt
widen x keys (k ∷ ks) h = (ground (arith, h.0), widen x keys ks h.1)

All-named : (ks : List OneTimePrekey) → All (λ k. contains k.key_id (key_ids ks) ≡ true) ks
unfolding contains
All-named [] = tt
All-named (k ∷ ks) = (ground arith, widen k.key_id (key_ids ks) ks (All-named ks))

-- When a device that has published publishes another identity key and succeeds, every session with the
-- device at either end is terminated, and each one-time prekey that the directory holds for the
-- device is unclaimed and has a key id of this upload.
pub rotation_resets :
    (now : ℕ) (device : Uuid) (new : Identity) (ks : List OneTimePrekey) (dir t : Directory)
    → is_rotation (lookup device dir.identities) new.identity_key ≡ true
    → publish_keys now device new ks dir ≡ ok t
    → All (IsCut device) t.sessions × All (IsFreshRow device (key_ids ks)) t.prekeys
unfolding publish_keys reset_device
rotation_resets now device new ks dir t rotated stored =
    Holds-ok P (publish_keys now device new ks dir) t published stored
  where
    P : Directory → Type 0
    P s = All (IsCut device) s.sessions × All (IsFreshRow device (key_ids ks)) s.prekeys

    fresh :
        Holds
          (All (IsFreshRow device (key_ids ks)))
          (store_prekeys device ks (reset_device now device dir).prekeys)
    fresh =
        store-IsFreshRow device (key_ids ks) ks _ (All-named ks)
          (no_rows device (key_ids ks) dir.prekeys)

    after_store :
        (r : Result RepoError (List Prekey))
        → Holds (All (IsFreshRow device (key_ids ks))) r
        → Holds P (
            r >>= λ prekeys. ok (record (reset_device now device dir) {
              identities =
                  insert device (replaced (lookup device dir.identities) new) dir.identities;
              prekeys = prekeys;
            }))
    after_store (ok prekeys) rows = (terminate-IsCut now device dir.sessions, rows)
    after_store (err e) rows = tt

    published : Holds P (publish_keys now device new ks dir)
    published = rw rotated (after_store (store_prekeys device ks _) fresh)
