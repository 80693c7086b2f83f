-- ===== src/SecretChat/Delivery.antt =====
-- A ciphertext from its sender to its recipient's inbox.
use sobhemessenger.Common.{
  ℕ, ◌+◌, ◌&&◌, ◌||◌, ◌≤◌, ◌≡◌, refl, ap, sym, ◌∙◌, true, false, not, some, Uuid, Bytes, List, [],
  ◌∷◌, ◌==◌, if◌then◌else◌, arith, length, map, any, count_if, All, Bool-cases, inl, inr, ltb,
  if_intro,
}
use sobhemessenger.Common.Assoc.{Assoc}
use sobhemessenger.Common.Base64.{encode, decode, IsBytes, decode-encode}
use sobhemessenger.Common.Lists.Counting.{any-count_if}
use sobhemessenger.Common.Lists.Rows.{filter_if}
use sobhemessenger.Common.Text.{Runes, is_equal, is_equal_refl}
use sobhemessenger.SecretChat.Inbox.{count_if-inbox}
use sobhemessenger.Httpx.{
  Fault, Result, ok, err, ◌>>=◌, ◌>>◌, Holds, Holds-ok, bind-Holds, guard-Holds, require-Holds,
  not_found, not_found_code,
}
use sobhemessenger.Messaging.Context.{ChatContext}
use sobhemessenger.SecretChat.Store.{Device}
use sobhemessenger.SecretChat.Mailbox.{
  Envelope, SendInput, encryption_version, resent, new_envelope, matches, store_envelope, send,
  decoded_ciphertext, max_ciphertext, has_device, require_secret, inbox,
}

-- What every row of the key holds.
abbrev pub Holding : SendInput → Bytes → Envelope → Type 0
Holding input raw e = matches input e ≡ true → e.ciphertext ≡ raw

abbrev pub elsewhere : SendInput → List Envelope → List Envelope
elsewhere input = filter_if (λ e. not (matches input e))

module _ (now : ℕ) (id : Uuid) (input : SendInput) (raw : Bytes) where
  abbrev rewrite_row : Envelope → Envelope
  rewrite_row e =
      if matches input e then resent raw (encryption_version input.encryption_version) e else e

  count-rewrite :
      (rows : List Envelope)
      → count_if (matches input) (map rewrite_row rows) ≡ count_if (matches input) rows
  count-rewrite [] = refl
  count-rewrite (e ∷ rows) = ground (arith, count-rewrite rows)

  elsewhere-rewrite :
      (rows : List Envelope) → elsewhere input (map rewrite_row rows) ≡ elsewhere input rows
  unfolding filter_if
  elsewhere-rewrite [] = refl
  elsewhere-rewrite (e ∷ rows) = elim (Bool-cases (matches input e)) [
    | inl own ↦ rw (own, own) (elsewhere-rewrite rows)
    | inr other ↦ rw (other, other, elsewhere-rewrite rows) refl
  ]

  rewrite-Holding : (rows : List Envelope) → All (Holding input raw) (map rewrite_row rows)
  rewrite-Holding [] = tt
  rewrite-Holding (e ∷ rows) = (λ h. ground (arith, h), rewrite-Holding rows)

  none-Holding :
      (rows : List Envelope) → any (matches input) rows ≡ false → All (Holding input raw) rows
  none-Holding [] h = tt
  none-Holding (e ∷ rows) h = (λ m. ground (arith, m, h), none-Holding rows (ground (arith, h)))

  new-matches : matches input (new_envelope now id input raw) ≡ true
  new-matches = ground arith

  abbrev IsDelivered : List Envelope → List Envelope → Type 0
  IsDelivered before after =
      (count_if (matches input) after ≡ 1)
      × All (Holding input raw) after
      × (elsewhere input after ≡ elsewhere input before)

  store-IsDelivered :
      (rows : List Envelope)
      → count_if (matches input) rows ≤ 1
      → IsDelivered rows (store_envelope now id input raw rows)
  unfolding store_envelope
  store-IsDelivered rows once = elim (Bool-cases (any (matches input) rows)) [
    | inl there ↦ rw there (
      count-rewrite rows ∙ ground (arith, once, there, any-count_if (matches input) rows),
      rewrite-Holding rows,
      elsewhere-rewrite rows,
    )
    | inr new ↦ rw new (
      ground (arith, new, new-matches, any-count_if (matches input) rows),
      ((λ _. refl), none-Holding rows new),
      unfold filter_if in rw new-matches refl,
    )
  ]

decoded-raw : (raw : Bytes) → Holds (λ (c : Bytes). c ≡ raw) (decoded_ciphertext (some raw))
decoded-raw raw =
    if_intro (Holds (λ (c : Bytes). c ≡ raw)) (length raw == 0) _ _ (λ _. tt)
      λ _.
        if_intro (Holds (λ (c : Bytes). c ≡ raw)) (ltb max_ciphertext (length raw)) _ _ (λ _. tt)
          (λ _. refl)

-- Of the rows of the key, those whose text is what was sent.
count-Holding :
    (input : SendInput) (raw : Bytes) (rows : List Envelope)
    → input.ciphertext ≡ encode raw
    → All (Holding input raw) rows
    → count_if (λ e. matches input e && is_equal (encode e.ciphertext) input.ciphertext) rows
      ≡ count_if (matches input) rows
count-Holding input raw [] text h = refl
count-Holding input raw (e ∷ rows) text h = elim (Bool-cases (matches input e)) [
  | inl own ↦
      rw (own, h.0 own, text, is_equal_refl (encode raw))
        (ap (λ n. 1 + n) (count-Holding input raw rows text h.1))
  | inr other ↦ rw other (ap (λ n. 0 + n) (count-Holding input raw rows text h.1))
]

-- Bytes that a member sends in base64 are what the recipient's device is shown: a send that succeeds
-- leaves exactly one envelope under its recipient, sender and client message id, first or repeated,
-- whose bytes are those that were sent, and every other envelope stays as it was; and while the
-- envelopes of the device fit on a page of its inbox, the inbox shows exactly one under the key, and
-- exactly one that is under the key and has the text that was sent.
pub send_is_shown :
    (now : ℕ) (id : Uuid) (input : SendInput) (raw : Bytes) (context : Result Fault ChatContext)
    (devices : Assoc Device) (rows t : List Envelope) (limit : ℕ)
    → input.ciphertext ≡ encode raw
    → IsBytes raw
    → count_if (matches input) rows ≤ 1
    → send now id input context devices rows ≡ ok t
    → count_if (λ e. e.recipient_device_id == input.recipient_device_id) t
      ≤ (if limit == 0 || ltb 500 limit then 100 else limit)
    → (count_if (matches input) t ≡ 1)
      × All (λ e. matches input e ≡ true → encode e.ciphertext ≡ input.ciphertext) t
      × (elsewhere input t ≡ elsewhere input rows)
      × (count_if
            (λ (shown : Envelope × Runes). matches input shown.0)
            (inbox input.recipient_device_id limit t)
          ≡ 1)
      × (count_if
            (λ (shown : Envelope × Runes).
              matches input shown.0 && is_equal shown.1 input.ciphertext)
            (inbox input.recipient_device_id limit t)
          ≡ 1)
unfolding send
send_is_shown now id input raw context devices rows t limit text bytes once sent fits =
    let (one, holding, rest) = Holds-ok P (send now id input context devices rows) t stored sent in
    (
      one,
      show t holding,
      rest,
      count_if-inbox input.recipient_device_id limit
            (λ (shown : Envelope × Runes). matches input shown.0) t fits (λ e h. ground (arith, h))
          ∙ one,
      count_if-inbox input.recipient_device_id limit
            (λ (shown : Envelope × Runes).
              matches input shown.0 && is_equal shown.1 input.ciphertext)
            t fits (λ e h. ground (arith, h))
          ∙ count-Holding input raw t text holding
          ∙ one,
    )
  where
    P : List Envelope → Type 0
    P after =
        (count_if (matches input) after ≡ 1)
        × All (Holding input raw) after
        × (elsewhere input after ≡ elsewhere input rows)

    show :
        (es : List Envelope)
        → All (Holding input raw) es
        → All (λ e. matches input e ≡ true → encode e.ciphertext ≡ input.ciphertext) es
    show [] h = tt
    show (e ∷ es) h = (λ m. ap encode (h.0 m) ∙ sym text, show es h.1)

    back : decode input.ciphertext ≡ some raw
    back = ap decode text ∙ decode-encode raw bytes

    after_decoding :
        (r : Result Fault Bytes)
        → Holds (λ (c : Bytes). c ≡ raw) r
        → Holds P (
            r >>= λ ciphertext. context >>= λ ctx.
            require_secret ctx
            >> ((if has_device input.recipient_device_id devices
                  then ok tt
                  else err (not_found not_found_code))
                >> ok (store_envelope now id input ciphertext rows)))
    after_decoding (err e) h = tt
    after_decoding (ok c) h = bind-Holds P context _ λ ctx. bind-Holds P (require_secret ctx) _ λ _.
        require-Holds P (has_device input.recipient_device_id devices) _ _
          λ _. rw h (store-IsDelivered now id input raw rows once)

    stored : Holds P (send now id input context devices rows)
    stored =
        guard-Holds P (input.client_message_id == 0) _ _
          λ _. rw back (after_decoding (decoded_ciphertext (some raw)) (decoded-raw raw))
