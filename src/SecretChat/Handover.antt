-- ===== src/SecretChat/Handover.antt =====
-- What a device published is what another device is given.
use sobhemessenger.Common.{
  map, ℕ, ◌≡◌, refl, ap, sym, ◌∙◌, Bool, true, false, Option, none, some, Uuid, Bytes, ◌==◌,
  if◌then◌else◌, arith, ltb, length, Bool-cases, inl, inr, ==-refl,
}
use sobhemessenger.Common.Assoc.{Assoc, lookup, insert, lookup-insert}
use sobhemessenger.Common.Base64.{encode, decode, IsBytes, decode-encode}
use sobhemessenger.Common.Text.{Runes}
use sobhemessenger.Httpx.{
  Fault, Result, ◌>>=◌, ok, Holds, Holds-ok, bind-Holds, map_err-Holds, guard-Holds,
}
use sobhemessenger.SecretChat.Store.{Device, Identity, Prekey, Directory, KeyBundle}
use sobhemessenger.SecretChat.Keys.{
  PublishInput, publish, publish_keys, store_prekeys, reset_device, is_rotation, replaced,
  decode_key, decoded_key, check_prekeys, when_publish_error, identity_key_length,
  signed_prekey_length, prekey_signature_length, max_one_time_prekeys, claim_bundle, lowest,
  live_identity, bundle_of, claim_row,
}

-- The row that a publication leaves.
abbrev IsPublished : PublishInput → Directory → Assoc Identity → Assoc Device → Type 0
IsPublished input before identities devices =
    (row : Identity) × (lookup input.device_id identities ≡ some row)
    × (decode input.identity_key ≡ some row.identity_key)
    × (decode input.signed_prekey ≡ some row.signed_prekey)
    × (decode input.prekey_signature ≡ some row.prekey_signature)
    × (row.registration_id ≡ input.registration_id)
    × (row.signed_prekey_id ≡ input.signed_prekey_id)
    × (devices ≡ before.devices)

-- A key that is accepted is the decoded text.
pub decode_key-Holds {ℓ} :
    {B : Type ℓ} (P : B → Type 0) (value : Runes) (expected : ℕ) (k : Bytes → Result Fault B)
    → ((raw : Bytes) → decode value ≡ some raw → Holds P (k raw))
    → Holds P (decode_key value expected >>= k)
unfolding decode_key
decode_key-Holds P value expected k h = by_case (decode value) h
  where
    by_case :
        (o : Option Bytes)
        → ((raw : Bytes) → o ≡ some raw → Holds P (k raw))
        → Holds P (decoded_key expected o >>= k)
    by_case none h = tt
    by_case (some raw) h = elim (Bool-cases (length raw == expected)) [
      | inl right ↦ rw right (h raw refl)
      | inr wrong ↦ rw wrong tt
    ]

module _ (now : ℕ) (input : PublishInput) (dir : Directory) where
  kept-devices :
      (rotated : Bool)
      → (if rotated then reset_device now input.device_id dir else dir).devices ≡ dir.devices
  unfolding reset_device
  kept-devices true = refl
  kept-devices false = refl

  lookup-insert_self :
      (row : Identity)
      → lookup input.device_id (insert input.device_id row dir.identities) ≡ some row
  lookup-insert_self row =
      rw (lookup-insert input.device_id input.device_id row dir.identities, ==-refl input.device_id)

  IsPublished-row :
      (o : Option Identity) (new row : Identity) (found : row ≡ replaced o new)
      (identities : Assoc Identity) (devices : Assoc Device)
      → lookup input.device_id identities ≡ some row
      → decode input.identity_key ≡ some new.identity_key
      → decode input.signed_prekey ≡ some new.signed_prekey
      → decode input.prekey_signature ≡ some new.prekey_signature
      → new.registration_id ≡ input.registration_id
      → new.signed_prekey_id ≡ input.signed_prekey_id
      → devices ≡ dir.devices
      → IsPublished input dir identities devices
  IsPublished-row none new row e identities devices found identity signed signature reg id kept =
      (row, found, rw e identity, rw e signed, rw e signature, rw e reg, rw e id, kept)
  IsPublished-row (some old) new row e identities devices found identity signed signature reg id
        kept =
      (row, found, rw e identity, rw e signed, rw e signature, rw e reg, rw e id, kept)

  publish-IsPublished :
      Holds (λ t. IsPublished input dir t.identities t.devices) (publish now input dir)
  unfolding publish publish_keys
  publish-IsPublished =
      let P : Directory → Type 0 = λ t. IsPublished input dir t.identities t.devices in
      decode_key-Holds P input.identity_key identity_key_length _ λ identity_key identity.
        decode_key-Holds P input.signed_prekey signed_prekey_length _ λ signed_prekey signed.
          decode_key-Holds P input.prekey_signature prekey_signature_length _ λ signature mark.
            guard-Holds P (input.registration_id == 0) _ _ λ _.
              guard-Holds P (input.signed_prekey_id == 0) _ _ λ _.
                guard-Holds P (ltb max_one_time_prekeys (length input.one_time_prekeys)) _ _ λ _.
                  bind-Holds P (check_prekeys input.one_time_prekeys) _ λ _.
                    map_err-Holds P when_publish_error _ (
                      bind-Holds P (store_prekeys input.device_id input.one_time_prekeys _) _
                        λ prekeys.
                          IsPublished-row (lookup input.device_id dir.identities)
                            (record {
                              user_id = input.user_id;
                              identity_key = identity_key;
                              signed_prekey = signed_prekey;
                              prekey_signature = signature;
                              registration_id = input.registration_id;
                              signed_prekey_id = input.signed_prekey_id;
                            })
                            _ refl _ _ (lookup-insert_self _) identity signed mark refl refl
                            (kept-devices
                              (is_rotation (lookup input.device_id dir.identities) identity_key)))

-- A claim for a device with a row and no revocation succeeds, whichever prekeys are left.
abbrev Hands : Uuid → Uuid → Identity → Directory → Type 0
Hands device by row dir =
    (r : KeyBundle × Directory) × (claim_bundle device by dir ≡ ok r)
    × (r.0.identity_key ≡ encode row.identity_key)
    × (r.0.signed_prekey ≡ encode row.signed_prekey)
    × (r.0.prekey_signature ≡ encode row.prekey_signature)
    × (r.0.registration_id ≡ row.registration_id)
    × (r.0.signed_prekey_id ≡ row.signed_prekey_id)

claim-Hands :
    (device by : Uuid) (d : Device) (row : Identity) (dir : Directory)
    → lookup device dir.devices ≡ some d
    → d.revoked ≡ false
    → lookup device dir.identities ≡ some row
    → Hands device by row dir
unfolding claim_bundle
claim-Hands device by d row dir known alive published = by_case (lowest device dir.prekeys) refl
  where
    live : live_identity device dir ≡ some row
    live = ground (arith, known, alive, published)

    by_case : (o : Option Prekey) → lowest device dir.prekeys ≡ o → Hands device by row dir
    by_case none e =
        ((bundle_of device row none, dir), simp (live, e), refl, refl, refl, refl, refl)
    by_case (some k) e = (
      (
        bundle_of device row (some k),
        record dir { prekeys = map (claim_row device k.key_id by) dir.prekeys },
      ),
      simp (live, e),
      refl,
      refl,
      refl,
      refl,
      refl,
    )

same_text :
    (text : Runes) (key raw : Bytes)
    → text ≡ encode key
    → IsBytes key
    → decode text ≡ some raw
    → encode raw ≡ text
same_text text key raw e bytes decoded =
    let back : decode text ≡ some key = ap decode e ∙ decode-encode key bytes in
    let same : raw ≡ key = cc in ap encode same ∙ sym e

-- A device publishes its keys, written in base64, and is not revoked: if the publication succeeds, a
-- claim of its bundle by any device succeeds, whatever one-time prekeys are left, and hands out the
-- same texts of the identity key, the signed prekey and the signature and the same two ids.
pub publish_then_claim :
    (now : ℕ) (input : PublishInput) (identity signed signature : Bytes) (d : Device) (by : Uuid)
    (dir t : Directory)
    → input.identity_key ≡ encode identity
    → IsBytes identity
    → input.signed_prekey ≡ encode signed
    → IsBytes signed
    → input.prekey_signature ≡ encode signature
    → IsBytes signature
    → lookup input.device_id dir.devices ≡ some d
    → d.revoked ≡ false
    → publish now input dir ≡ ok t
    → (r : KeyBundle × Directory) × (claim_bundle input.device_id by t ≡ ok r)
      × (r.0.identity_key ≡ input.identity_key)
      × (r.0.signed_prekey ≡ input.signed_prekey)
      × (r.0.prekey_signature ≡ input.prekey_signature)
      × (r.0.registration_id ≡ input.registration_id)
      × (r.0.signed_prekey_id ≡ input.signed_prekey_id)
publish_then_claim now input identity signed signature d by dir t e f g h i j known alive
      published =
    let (row, found, identity_in, signed_in, signature_in, registration, id, devices) =
      Holds-ok (λ s. IsPublished input dir s.identities s.devices) (publish now input dir) t
        (publish-IsPublished now input dir) published in
    let (r, claimed, a, b, c, reg, spk) =
      claim-Hands input.device_id by d row t (rw devices known) alive found in
    (
      r,
      claimed,
      a ∙ same_text input.identity_key identity row.identity_key e f identity_in,
      b ∙ same_text input.signed_prekey signed row.signed_prekey g h signed_in,
      c ∙ same_text input.prekey_signature signature row.prekey_signature i j signature_in,
      reg ∙ registration,
      spk ∙ id,
    )
