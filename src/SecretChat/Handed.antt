-- ===== src/SecretChat/Handed.antt =====
-- Histories of the key directory of one device that keeps its identity.
use sobhemessenger.Common.{
  ℕ, ◌+◌, ◌≤◌, ◌≡◌, refl, Bool, true, false, ◌&&◌, Option, none, some, Uuid, Bytes, List, [], ◌∷◌,
  ◌==◌, if◌then◌else◌, arith, count_if, map, Bool-cases, inl, inr, ltb, length, eq_of_beq,
  option_intro, bit,
}
use sobhemessenger.Common.Assoc.{Assoc, lookup, insert, lookup-insert}
use sobhemessenger.Common.Base64.{decode}
use sobhemessenger.Common.Lists.Counting.{count_if_mono}
use sobhemessenger.Common.Text.{is_equal_refl}
use sobhemessenger.Httpx.{
  Fault, Result, ◌>>=◌, ok, err, Holds, bind-Holds, map_err-Holds, guard-Holds, on_row_intro,
}
use sobhemessenger.SecretChat.Store.{
  Identity, Prekey, Directory, RepoError, OneTimePrekey, keys_missing,
}
use sobhemessenger.SecretChat.Keys.{
  PublishInput, publish, publish_keys, store_prekeys, reset_device, is_rotation, replaced,
  check_prekeys, when_publish_error, identity_key_length, signed_prekey_length,
  prekey_signature_length, max_one_time_prekeys, claim_bundle, lowest, live_identity, bundle_of,
  claim_row,
}
use sobhemessenger.SecretChat.Handover.{decode_key-Holds}
use sobhemessenger.SecretChat.Claims.{
  KeyOp, publishing, claiming, History, is_handed, published, claimed, run_keys,
}
use sobhemessenger.SecretChat.Once.{
  IsSingle, rows_of, available_of, store_prekeys-IsSingle, rows-other, available-other, rows-claim,
  available-claim, lowest-is_available,
}

-- The identity key of a row, if there is one.
abbrev pub HasKey : Bytes → Option Identity → Type 0
HasKey key none = Unit
HasKey key (some row) = row.identity_key ≡ key

-- Every publication of the device is of the one identity key.
abbrev pub KeepsIdentity : Uuid → Bytes → List KeyOp → Type 0
KeepsIdentity d key [] = Unit
KeepsIdentity d key (publishing now input ∷ ops) =
    (input.device_id ≡ d → decode input.identity_key ≡ some key) × KeepsIdentity d key ops
KeepsIdentity d key (claiming device by ∷ ops) = KeepsIdentity d key ops

no_rotation : (key : Bytes) (o : Option Identity) → HasKey key o → is_rotation o key ≡ false
no_rotation key none h = refl
no_rotation key (some row) h = rw (h, is_equal_refl key) (ground arith)

replaced-HasKey :
    (key : Bytes) (o : Option Identity) (new : Identity)
    → new.identity_key ≡ key
    → HasKey key (some (replaced o new))
replaced-HasKey key none new h = h
replaced-HasKey key (some old) new h = h

module _ (d : Uuid) (k : ℕ) (key : Bytes) where
  pub record Inv (handed : ℕ) (identities : Assoc Identity) (rows : List Prekey) : Type 0 where
    pub single : IsSingle d k handed rows
    pub identity : HasKey key (lookup d identities)

  abbrev InvOf : ℕ → Directory → Type 0
  InvOf handed dir = Inv handed dir.identities dir.prekeys

  module _ (now handed : ℕ) (dir : Directory) (i : InvOf handed dir) where
    -- The rows of the device after the two statements for a changed identity, if they run.
    kept-IsSingle :
        (device : Uuid) (rotated : Bool)
        → (device ≡ d → rotated ≡ false)
        → IsSingle d k handed (if rotated then reset_device now device dir else dir).prekeys
    unfolding reset_device
    kept-IsSingle device false same = i.single
    kept-IsSingle device true same = elim (Bool-cases (device == d)) [
      | inl own ↦ cc (same (eq_of_beq device d own))
      | inr other ↦ record {
        backed =
            rw
              (
                rows-other d k device dir.prekeys other,
                available-other d k device dir.prekeys other,
              )
              i.single.backed;
        unique = rw (rows-other d k device dir.prekeys other) i.single.unique;
      }
    ]

    insert-HasKey :
        (device : Uuid) (o : Option Identity) (new : Identity)
        → (device ≡ d → new.identity_key ≡ key)
        → HasKey key (lookup d (insert device (replaced o new) dir.identities))
    insert-HasKey device o new same =
        rw (lookup-insert device d (replaced o new) dir.identities)
          (elim (Bool-cases (device == d)) [
            | inl own ↦ rw own (replaced-HasKey key o new (same (eq_of_beq device d own)))
            | inr other ↦ rw other i.identity
          ])

    publish_keys-Inv :
        (device : Uuid) (new : Identity) (ks : List OneTimePrekey)
        → (device ≡ d → new.identity_key ≡ key)
        → Holds (InvOf handed) (publish_keys now device new ks dir)
    unfolding publish_keys
    publish_keys-Inv device new ks same = after_store (store_prekeys device ks _) (
        store_prekeys-IsSingle d k device handed ks _ (
          kept-IsSingle device (is_rotation (lookup device dir.identities) new.identity_key)
            λ own. rw (own, same own) (no_rotation key (lookup d dir.identities) i.identity)))
      where
        kept : Directory
        kept =
            if is_rotation (lookup device dir.identities) new.identity_key
            then reset_device now device dir
            else dir

        after_store :
            (r : Result RepoError (List Prekey))
            → Holds (IsSingle d k handed) r
            → Holds (InvOf handed) (
                r >>= λ prekeys. ok (record kept {
                  identities =
                      insert device (replaced (lookup device dir.identities) new) dir.identities;
                  prekeys = prekeys;
                }))
        after_store (ok prekeys) single = record {
          single = single;
          identity = insert-HasKey device (lookup device dir.identities) new same;
        }
        after_store (err e) single = tt

    publish-Inv :
        (input : PublishInput)
        → (input.device_id ≡ d → decode input.identity_key ≡ some key)
        → Holds (InvOf handed) (publish now input dir)
    unfolding publish
    publish-Inv input same =
        let P : Directory → Type 0 = InvOf handed in
        decode_key-Holds P input.identity_key identity_key_length _ λ identity_key decoded.
          decode_key-Holds P input.signed_prekey signed_prekey_length _ λ signed_prekey _.
            decode_key-Holds P input.prekey_signature prekey_signature_length _ λ signature _.
              guard-Holds P (input.registration_id == 0) _ _ λ _.
                guard-Holds P (input.signed_prekey_id == 0) _ _ λ _.
                  guard-Holds P (ltb max_one_time_prekeys (length input.one_time_prekeys)) _ _ λ _.
                    bind-Holds P (check_prekeys input.one_time_prekeys) _ λ _.
                      map_err-Holds P when_publish_error _ (
                        publish_keys-Inv input.device_id _ input.one_time_prekeys
                          λ own. let e : decode input.identity_key ≡ some key = same own in cc)

  abbrev InvAt : History → Type 0
  InvAt h = InvOf (count_if (is_handed d k) h.handed) h.directory

  -- A claim that takes the row `taken`.
  taken-Inv :
      (device by : Uuid) (handed : ℕ) (dir : Directory) (taken : Prekey)
      → lowest device dir.prekeys ≡ some taken
      → InvOf handed dir
      → InvOf
          (bit (device == d && taken.key_id == k) + handed)
          (record dir { prekeys = map (claim_row device taken.key_id by) dir.prekeys })
  taken-Inv device by handed dir taken best i = record {
    single = record {
      backed =
          rw
            (
              rows-claim d k device by taken.key_id dir.prekeys,
              available-claim d k device by taken.key_id dir.prekeys,
            )
            counted;
      unique = rw (rows-claim d k device by taken.key_id dir.prekeys) i.single.unique;
    };
    identity = i.identity;
  }
    where
      there : 1 ≤ available_of device taken.key_id dir.prekeys
      there = (lowest-is_available device dir.prekeys taken best).1

      counted :
          bit (device == d && taken.key_id == k)
            + handed
            + (if device == d && taken.key_id == k then 0 else available_of d k dir.prekeys)
          ≤ rows_of d k dir.prekeys
      counted = elim (Bool-cases (device == d && taken.key_id == k)) [
        | inl own ↦
            let e : device ≡ d = ground (arith, own) in
            let f : taken.key_id ≡ k = ground (arith, own) in
            rw own (omega (arith, i.single.backed, rw (e, f) at there))
        | inr other ↦ rw other (omega (arith, i.single.backed))
      ]

  claim-Inv :
      (device by : Uuid) (h : History)
      → InvAt h
      → InvAt (claimed (claim_bundle device by h.directory) h)
  unfolding claim_bundle
  claim-Inv device by h i =
      on_row_intro (λ r. InvAt (claimed r h)) (live_identity device h.directory) keys_missing _ i
        λ row _.
          option_intro (λ r. InvAt (claimed r h)) (lowest device h.directory.prekeys)
            (ok (bundle_of device row none, h.directory)) _ (λ _. i)
            λ taken best.
              taken-Inv device by (count_if (is_handed d k) h.handed) h.directory taken best i

  published-Inv :
      (r : Result Fault Directory) (h : History)
      → Holds (InvOf (count_if (is_handed d k) h.handed)) r
      → InvAt h
      → InvAt (published r h)
  published-Inv (ok dir) h after i = after
  published-Inv (err e) h after i = i

  run_keys-Inv :
      (ops : List KeyOp) (h : History) → KeepsIdentity d key ops → InvAt h → InvAt (run_keys ops h)
  unfolding run_keys
  run_keys-Inv [] h keeps i = i
  run_keys-Inv (publishing now input ∷ ops) h keeps i =
      run_keys-Inv ops (published (publish now input h.directory) h) keeps.1 (
        published-Inv (publish now input h.directory) h
          (publish-Inv now (count_if (is_handed d k) h.handed) h.directory i input keeps.0) i)
  run_keys-Inv (claiming device by ∷ ops) h keeps i =
      run_keys-Inv ops (claimed (claim_bundle device by h.directory) h) keeps
        (claim-Inv device by h i)

-- Starting with nothing handed out, over every sequence of publications and claims, of any devices, in
-- which a device publishes one identity key only, each key id of that device is handed out at most
-- once, uploads of the same id again included.
pub handed_once :
    (d : Uuid) (k : ℕ) (key : Bytes) (ops : List KeyOp) (dir : Directory)
    → KeepsIdentity d key ops
    → HasKey key (lookup d dir.identities)
    → rows_of d k dir.prekeys ≤ 1
    → count_if (is_handed d k) (run_keys ops (record { directory = dir; handed = [] })).handed ≤ 1
handed_once d k key ops dir keeps has unique =
    let i : Inv d k key (count_if (is_handed d k) (run_keys ops start).handed)
        (run_keys ops start).directory.identities (run_keys ops start).directory.prekeys =
      run_keys-Inv d k key ops start keeps (record {
        single = record { backed = omega (arith, left); unique = unique };
        identity = has;
      }) in
    omega (arith, i.single.backed, i.single.unique)
  where
    start : History
    start = record { directory = dir; handed = [] }

    left : available_of d k dir.prekeys ≤ rows_of d k dir.prekeys
    left = count_if_mono _ _ dir.prekeys (λ r h. ground (arith, h))
