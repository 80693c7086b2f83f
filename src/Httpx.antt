-- ===== src/Httpx.antt =====
-- backend/internal/httpx/errors.go: the failures that the services answer with. The message and the
-- field details are text for a client; the status and the code are what a client switches on.
use sobhemessenger.Common.{ℕ, ◌≡◌, refl, Bool, true, false, Option, none, some, if◌then◌else◌}

pub data Code : Type 0 where
  internal_error validation_failed forbidden_code not_found_code conflict_code : Code
  feature_disabled not_chat_member chat_not_found permission_denied chat_full : Code
  username_taken message_not_found call_not_found call_full call_ended : Code
  message_too_old slow_mode_active rate_limited_code payload_too_large : Code
  unauthorized_code token_expired token_invalid session_revoked : Code
  invalid_otp otp_expired otp_attempts_burned two_step_required invalid_password : Code
  account_banned account_deleted too_many_devices service_unavailable : Code

pub record Fault : Type 0 where
  pub status : ℕ
  pub code : Code

abbrev pub new_error : ℕ → Code → Fault
new_error status code = record { status = status; code = code }

abbrev pub internal : Fault
internal = new_error 500 internal_error

abbrev pub validation : Fault
validation = new_error 422 validation_failed

abbrev pub unauthorized : Code → Fault
unauthorized code = new_error 401 code

abbrev pub unavailable : Fault
unavailable = new_error 503 service_unavailable

abbrev pub forbidden : Code → Fault
forbidden code = new_error 403 code

abbrev pub not_found : Code → Fault
not_found code = new_error 404 code

abbrev pub rate_limited : Fault
rate_limited = new_error 429 rate_limited_code

abbrev pub too_large : Fault
too_large = new_error 413 payload_too_large

abbrev pub conflict : Code → Fault
conflict code = new_error 409 code

-- A Go function that returns a value or an error.
pub data Result {ℓ} (E : Type 0) (A : Type ℓ) : Type ℓ where
  ok : A → Result E A
  err : E → Result E A

abbrev pub is_ok {ℓ} : {E : Type 0} {A : Type ℓ} → Result E A → Bool
is_ok (ok a) = true
is_ok (err e) = false

infixl 5 ◌>>=◌ ◌>>◌
abbrev pub ◌>>=◌ {ℓ κ} :
    {E : Type 0} {A : Type ℓ} {B : Type κ} → Result E A → (A → Result E B) → Result E B
ok a >>= f = f a
err e >>= f = err e

abbrev pub ◌>>◌ {ℓ} : {E : Type 0} {B : Type ℓ} → Result E (Unit {0}) → Result E B → Result E B
m >> k = m >>= λ _. k

-- The row that a statement finds, or the error for none.
abbrev pub on_row {ℓ κ} :
    {E : Type 0} {A : Type ℓ} {B : Type κ} → Option A → E → (A → Result E B) → Result E B
on_row none e k = err e
on_row (some a) e k = k a

-- A property of both outcomes.
pub on_row_intro {ℓ κ ι} :
    {E : Type 0} {A : Type ℓ} {B : Type κ} (P : Result E B → Type ι) (o : Option A) (e : E)
    (k : A → Result E B)
    → P (err e)
    → ((a : A) → o ≡ some a → P (k a))
    → P (on_row o e k)
on_row_intro P none e k here there = here
on_row_intro P (some a) e k here there = there a refl

-- Translates the error of a lower layer.
abbrev pub map_err {ℓ} : {E F : Type 0} {A : Type ℓ} → (E → F) → Result E A → Result F A
map_err f (ok a) = ok a
map_err f (err e) = err (f e)

-- A property of the value, if there is one.
abbrev pub Holds {ℓ κ} : {E : Type 0} {A : Type ℓ} → (A → Type κ) → Result E A → Type κ
Holds P (ok a) = P a
Holds P (err e) = Unit

module _ {ℓ κ} {E : Type 0} {B : Type ℓ} (P : B → Type κ) where
  pub bind-Holds {ι} :
      {A : Type ι} (m : Result E A) (k : A → Result E B)
      → ((a : A) → Holds P (k a))
      → Holds P (m >>= k)
  bind-Holds (ok a) k h = h a
  bind-Holds (err e) k h = tt

  pub map_err-Holds : {F : Type 0} (f : F → E) (m : Result F B) → Holds P m → Holds P (map_err f m)
  map_err-Holds f (ok a) h = h
  map_err-Holds f (err e) h = tt

  pub if-Holds :
      (b : Bool) (m k : Result E B)
      → (b ≡ true → Holds P m)
      → (b ≡ false → Holds P k)
      → Holds P (if b then m else k)
  if-Holds true m k here there = here refl
  if-Holds false m k here there = there refl

  pub on_row-Holds {ι} :
      {A : Type ι} (o : Option A) (e : E) (k : A → Result E B)
      → ((a : A) → o ≡ some a → Holds P (k a))
      → Holds P (on_row o e k)
  on_row-Holds none e k h = tt
  on_row-Holds (some a) e k h = h a refl

  pub assoc-Holds {ι μ} :
      {A : Type ι} {C : Type μ} (m : Result E A) (f : A → Result E C) (k : C → Result E B)
      → Holds P (m >>= λ a. f a >>= k)
      → Holds P ((m >>= f) >>= k)
  assoc-Holds (ok a) f k h = h
  assoc-Holds (err e) f k h = h

  pub guard-Holds :
      (refused : Bool) (e : E) (k : Result E B)
      → (refused ≡ false → Holds P k)
      → Holds P ((if refused then err e else ok tt) >> k)
  guard-Holds true e k h = tt
  guard-Holds false e k h = h refl

  pub require-Holds :
      (granted : Bool) (e : E) (k : Result E B)
      → (granted ≡ true → Holds P k)
      → Holds P ((if granted then ok tt else err e) >> k)
  require-Holds true e k h = h refl
  require-Holds false e k h = tt

  pub found-Holds {ι} :
      {A : Type ι} (o : Option A) (e : E) (k : A → Result E B)
      → ((a : A) → o ≡ some a → Holds P (k a))
      → Holds P (on_row o e ok >>= k)
  found-Holds none e k h = tt
  found-Holds (some a) e k h = h a refl

  pub after-Holds {ι} :
      {F : Type 0} {A : Type ι} (f : F → E) (m : Result F A) (k : A → Result E B)
      → Holds (λ a. Holds P (k a)) m
      → Holds P (map_err f m >>= k)
  after-Holds f (ok a) k h = h
  after-Holds f (err e) k h = tt

  pub Holds-ok : (m : Result E B) (b : B) → Holds P m → m ≡ ok b → P b
  Holds-ok m b h e = rw e at h

pub Holds-map {ℓ κ ι} :
    {E : Type 0} {A : Type ℓ} {P : A → Type κ} {Q : A → Type ι} (m : Result E A)
    → Holds P m
    → ((a : A) → P a → Q a)
    → Holds Q m
Holds-map (ok a) h k = k a h
Holds-map (err e) h k = tt

-- A fact that does not look at the value.
pub Holds-const {ℓ κ} :
    {E : Type 0} {A : Type ℓ} {Q : Type κ} (m : Result E A) → Q → Holds (λ _. Q) m
Holds-const (ok a) q = q
Holds-const (err e) q = tt
