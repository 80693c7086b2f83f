-- ===== src/SecretChat/Once.antt =====
-- A one-time prekey is handed out once.
use sobhemessenger.Common.{
  ℕ, ◌+◌, ◌≤◌, ◌≡◌, refl, ap, sym, ◌∙◌, true, false, not, ◌&&◌, some, Uuid, Bytes, List, [], ◌∷◌,
  ◌==◌, if◌then◌else◌, arith, any, count_if, map, Bool-cases, Option-cases, inl, inr, bit, leb,
}
use mathlib.Core.Path.{subst}
use sobhemessenger.Common.Base64.{decode}
use sobhemessenger.Common.Lists.Counting.{any-count_if}
use sobhemessenger.Common.Lists.Rows.{filter_if}
use sobhemessenger.Httpx.{Holds, on_row-Holds}
use sobhemessenger.SecretChat.Store.{
  Prekey, OneTimePrekey, is_of, is_key, is_available, invalid_key,
}
use sobhemessenger.SecretChat.Keys.{add_prekey, store_prekeys, lowest, claim_row}

abbrev pub rows_of : Uuid → ℕ → List Prekey → ℕ
rows_of d k = count_if (is_key d k)

abbrev pub available_of : Uuid → ℕ → List Prekey → ℕ
available_of d k = count_if (λ r. is_key d k r && is_available r)

-- What has been handed out and what is left of one key id is one at most.
pub record IsSingle (d : Uuid) (k handed : ℕ) (rows : List Prekey) : Type 0 where
  pub backed : handed + available_of d k rows ≤ rows_of d k rows
  pub unique : rows_of d k rows ≤ 1

module _ (d : Uuid) (k : ℕ) where
  add_prekey-IsSingle :
      (device : Uuid) (id handed : ℕ) (raw : Bytes) (rows : List Prekey)
      → IsSingle d k handed rows
      → IsSingle d k handed (add_prekey device id raw rows)
  add_prekey-IsSingle device id handed raw rows s =
      elim (Bool-cases (any (is_key device id) rows)) [
        | inl there ↦ rw there s
        | inr new ↦
            rw new
              (record { backed = ground (arith, s.backed); unique = unique_row (rows_none new) })
      ]
    where
      rows_none : any (is_key device id) rows ≡ false → rows_of device id rows ≡ 0
      rows_none new = ground (arith, new, any-count_if (is_key device id) rows)

      unique_row : rows_of device id rows ≡ 0 → bit (device == d && id == k) + rows_of d k rows ≤ 1
      unique_row none_there = elim (Bool-cases (device == d && id == k)) [
        | inl own ↦
            let e : device ≡ d = ground (arith, own) in
            let f : id ≡ k = ground (arith, own) in ground (arith, own, rw (e, f) at none_there)
        | inr other ↦ ground (arith, other, s.unique)
      ]

  pub store_prekeys-IsSingle :
      (device : Uuid) (handed : ℕ) (ks : List OneTimePrekey) (rows : List Prekey)
      → IsSingle d k handed rows
      → Holds (IsSingle d k handed) (store_prekeys device ks rows)
  unfolding store_prekeys
  store_prekeys-IsSingle device handed [] rows s = s
  store_prekeys-IsSingle device handed (x ∷ ks) rows s =
      on_row-Holds (IsSingle d k handed) (decode x.public_key) invalid_key _ λ raw _.
        store_prekeys-IsSingle device handed ks (add_prekey device x.key_id raw rows)
          (add_prekey-IsSingle device x.key_id handed raw rows s)

  pub rows-other :
      (e : Uuid) (rows : List Prekey)
      → (e == d) ≡ false
      → rows_of d k (filter_if (λ r. not (is_of e r)) rows) ≡ rows_of d k rows
  unfolding filter_if
  rows-other e [] other = refl
  rows-other e (r ∷ rows) other = ground (arith, other, rows-other e rows other)

  pub available-other :
      (e : Uuid) (rows : List Prekey)
      → (e == d) ≡ false
      → available_of d k (filter_if (λ r. not (is_of e r)) rows) ≡ available_of d k rows
  unfolding filter_if
  available-other e [] other = refl
  available-other e (r ∷ rows) other = ground (arith, other, available-other e rows other)

  pub rows-claim :
      (e by : Uuid) (id : ℕ) (rows : List Prekey)
      → rows_of d k (map (claim_row e id by) rows) ≡ rows_of d k rows
  rows-claim e by id [] = refl
  rows-claim e by id (r ∷ rows) = ground (arith, rows-claim e by id rows)

  pub available-claim :
      (e by : Uuid) (id : ℕ) (rows : List Prekey)
      → available_of d k (map (claim_row e id by) rows)
        ≡ (if e == d && id == k then 0 else available_of d k rows)
  available-claim e by id [] = ground arith
  available-claim e by id (r ∷ rows) = ground (arith, available-claim e by id rows)

-- The row that a claim takes is there.
pub lowest-is_available :
    (device : Uuid) (rows : List Prekey) (k : Prekey)
    → lowest device rows ≡ some k
    → (k.device_id ≡ device) × (1 ≤ available_of device k.key_id rows)
unfolding lowest
lowest-is_available device [] k h = cc
lowest-is_available device (r ∷ rows) k h = elim (Bool-cases (is_of device r && is_available r)) [
  | inl fits ↦ elim (Option-cases (lowest device rows)) [
    | inl none_left ↦ taken r k fits (rw (fits, none_left) at h)
    | inr (b, best) ↦ elim (Bool-cases (leb r.key_id b.key_id)) [
      | inl first ↦ taken r k fits (rw (fits, best, first) at h)
      | inr later ↦
          let e : b ≡ k = cc (rw (fits, best, later) at h) in
          let rest : (b.device_id ≡ device) × (1 ≤ available_of device b.key_id rows) =
            lowest-is_available device rows b best in
          (
            ap (λ (q : Prekey). q.device_id) (sym e) ∙ rest.0,
            omega (arith, subst (λ (q : Prekey). 1 ≤ available_of device q.key_id rows) e rest.1),
          )
    ]
  ]
  | inr other ↦
      let rest : (k.device_id ≡ device) × (1 ≤ available_of device k.key_id rows) =
        lowest-is_available device rows k (rw other at h) in
      (rest.0, omega (arith, rest.1))
]
  where
    taken :
        (r k : Prekey)
        → (is_of device r && is_available r) ≡ true
        → some r ≡ some k
        → (k.device_id ≡ device) × (1 ≤ available_of device k.key_id (r ∷ rows))
    taken r k fits h =
        let e : r ≡ k = cc in
        ground (arith, fits, ap (λ (q : Prekey). q.device_id) e, ap (λ (q : Prekey). q.key_id) e)
