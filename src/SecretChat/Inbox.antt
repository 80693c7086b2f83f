-- ===== src/SecretChat/Inbox.antt =====
-- What an inbox shows of the envelopes of its device.
use sobhemessenger.Common.{
  ℕ, zero, suc, ◌+◌, ◌≤◌, ◌≡◌, refl, ap, ◌∙◌, Bool, true, Uuid, List, [], ◌∷◌, bit, arith, length,
  map, count_if,
}
use sobhemessenger.Common.Base64.{encode}
use sobhemessenger.Common.Lists.Rows.{filter_if, take, order_by, insert_by}
use sobhemessenger.Common.Text.{Runes}
use sobhemessenger.SecretChat.Mailbox.{
  Envelope, is_to, is_earlier, pending_envelopes, page_size, inbox,
}

module _ {ℓ} {A : Type ℓ} (p : A → Bool) where
  count_if-insert_by :
      (before : A → A → Bool) (x : A) (xs : List A)
      → count_if p (insert_by before x xs) ≡ bit (p x) + count_if p xs
  unfolding insert_by
  count_if-insert_by before x [] = ground arith
  count_if-insert_by before x (y ∷ ys) = ground (arith, count_if-insert_by before x ys)

  count_if-order_by :
      (before : A → A → Bool) (xs : List A) → count_if p (order_by before xs) ≡ count_if p xs
  unfolding order_by
  count_if-order_by before [] = refl
  count_if-order_by before (x ∷ xs) =
      ground (arith, count_if-insert_by before x (order_by before xs), count_if-order_by before xs)

  -- A clause WHERE that every row of the count passes.
  count_if-filter_if :
      (q : A → Bool) (xs : List A)
      → ((a : A) → p a ≡ true → q a ≡ true)
      → count_if p (filter_if q xs) ≡ count_if p xs
  unfolding filter_if
  count_if-filter_if q [] h = refl
  count_if-filter_if q (x ∷ xs) h = ground (arith, count_if-filter_if q xs h, h x)

  count_if-map {κ} :
      {B : Type κ} (f : B → A) (ys : List B) → count_if p (map f ys) ≡ count_if (λ b. p (f b)) ys
  count_if-map f [] = refl
  count_if-map f (y ∷ ys) = ground (arith, count_if-map f ys)

module _ {ℓ} {A : Type ℓ} where
  take_all : (n : ℕ) (xs : List A) → length xs ≤ n → take n xs ≡ xs
  unfolding take
  take_all zero [] h = refl
  take_all zero (x ∷ xs) h = ground (arith, h)
  take_all (suc n) [] h = refl
  take_all (suc n) (x ∷ xs) h = ap (λ ys. x ∷ ys) (take_all n xs (omega (arith, h)))

  length-insert_by :
      (before : A → A → Bool) (x : A) (xs : List A) → length (insert_by before x xs) ≡ length xs + 1
  unfolding insert_by
  length-insert_by before x [] = ground arith
  length-insert_by before x (y ∷ ys) = ground (arith, length-insert_by before x ys)

  length-order_by : (before : A → A → Bool) (xs : List A) → length (order_by before xs) ≡ length xs
  unfolding order_by
  length-order_by before [] = refl
  length-order_by before (x ∷ xs) =
      ground (arith, length-insert_by before x (order_by before xs), length-order_by before xs)

  length-filter_if : (q : A → Bool) (xs : List A) → length (filter_if q xs) ≡ count_if q xs
  unfolding filter_if
  length-filter_if q [] = refl
  length-filter_if q (x ∷ xs) = ground (arith, length-filter_if q xs)

-- Where a page holds all envelopes of the device, what is shown of them is counted by the rows.
pub count_if-inbox :
    (device : Uuid) (limit : ℕ) (q : Envelope × Runes → Bool) (rows : List Envelope)
    → count_if (is_to device) rows ≤ page_size limit
    → ((e : Envelope) → q (e, encode e.ciphertext) ≡ true → is_to device e ≡ true)
    → count_if q (inbox device limit rows) ≡ count_if (λ e. q (e, encode e.ciphertext)) rows
unfolding inbox pending_envelopes
count_if-inbox device limit q rows fits own =
    let p : Envelope → Bool = λ e. q (e, encode e.ciphertext) in
    let mine = filter_if (is_to device) rows in
    count_if-map q (λ (e : Envelope). (e, encode e.ciphertext))
      (take (page_size limit) (order_by is_earlier mine))
    ∙ ap (count_if p) (
        take_all (page_size limit) (order_by is_earlier mine) (
          omega
            (arith, fits, length-order_by is_earlier mine, length-filter_if (is_to device) rows)))
    ∙ count_if-order_by p is_earlier mine
    ∙ count_if-filter_if p (is_to device) rows own
