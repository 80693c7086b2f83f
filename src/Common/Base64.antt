-- ===== src/Common/Base64.antt =====
-- Package encoding/base64 of Go as the code uses it: StdEncoding, with padding, over bytes. Decoding skips
-- line ends, wants whole groups of four with the padding last, and ignores the bits that the padding
-- leaves over.
use Prim.Native.Nat.{ℕ, ◌+◌, ◌-◌, ◌*◌, ◌/◌, ◌%◌, ◌<◌}
use mathlib.Core.Path.{◌≡◌, refl, ap, ◌∙◌}
use mathlib.Core.Bool.{Bool, true, false, ◌||◌}
use mathlib.Core.Option.{Option, none, some}
use mathlib.Core.List.{[], ◌∷◌}
use native.Mathlib.Omega.{arith}
use sobhemessenger.Common.Tests.{ltb, ◌==◌, if◌then◌else◌}
use sobhemessenger.Common.Ids.{Bytes}
use sobhemessenger.Common.Lists.{All}
use sobhemessenger.Common.Lists.Rows.{filter_if}
use sobhemessenger.Common.Text.{Runes, is_between}

-- The alphabet.
abbrev pub symbol : ℕ → ℕ
symbol n =
    if ltb n 26
    then n + 65
    else if ltb n 52
    then n + 71
    else if ltb n 62
    then n - 52 + 48
    else if n == 62
    then 43
    else 47

abbrev pub digit : ℕ → Option ℕ
digit c =
    if is_between 65 90 c
    then some (c - 65)
    else if is_between 97 122 c
    then some (c - 71)
    else if is_between 48 57 c
    then some (c - 48 + 52)
    else if c == 43
    then some 62
    else if c == 47
    then some 63
    else none

abbrev pub padding : ℕ
padding = 61

unfoldable pub encode : Bytes → Runes
encode [] = []
encode (a ∷ []) = symbol (a / 4) ∷ symbol (a % 4 * 16) ∷ padding ∷ padding ∷ []
encode (a ∷ b ∷ []) =
    symbol (a / 4) ∷ symbol (a % 4 * 16 + b / 16) ∷ symbol (b % 16 * 4) ∷ padding ∷ []
encode (a ∷ b ∷ c ∷ rest) =
    symbol (a / 4)
    ∷ symbol (a % 4 * 16 + b / 16)
    ∷ symbol (b % 16 * 4 + c / 64)
    ∷ symbol (c % 64)
    ∷ encode rest

abbrev pub is_line_end : ℕ → Bool
is_line_end c = c == 10 || c == 13

abbrev pub is_nil : Runes → Bool
is_nil [] = true
is_nil _ = false

-- The bytes of a group of two, three or four digits.
abbrev pub one_byte : Option ℕ → Option ℕ → Option Bytes
one_byte (some x) (some y) = some ((x * 4 + y / 16) ∷ [])
one_byte _ _ = none

abbrev pub two_bytes : Option ℕ → Option ℕ → Option ℕ → Option Bytes
two_bytes (some x) (some y) (some z) = some ((x * 4 + y / 16) ∷ (y % 16 * 16 + z / 4) ∷ [])
two_bytes _ _ _ = none

abbrev pub three_bytes : Option ℕ → Option ℕ → Option ℕ → Option ℕ → Option Bytes → Option Bytes
three_bytes (some x) (some y) (some z) (some w) (some rest) =
    some ((x * 4 + y / 16) ∷ (y % 16 * 16 + z / 4) ∷ (z % 4 * 64 + w) ∷ rest)
three_bytes _ _ _ _ _ = none

unfoldable pub groups : Runes → Option Bytes
groups [] = some []
groups (a ∷ b ∷ c ∷ d ∷ rest) =
    let later = groups rest in
    if d == padding
    then (if is_nil rest
        then (if c == padding
            then one_byte (digit a) (digit b)
            else two_bytes (digit a) (digit b) (digit c))
        else none)
    else three_bytes (digit a) (digit b) (digit c) (digit d) later
groups _ = none

unfoldable pub decode : Runes → Option Bytes
unfolding groups filter_if
decode s = groups (filter_if (λ c. if is_line_end c then false else true) s)

-- What the proofs use of a symbol.
digit-symbol : (n : ℕ) → n < 64 → digit (symbol n) ≡ some n
digit-symbol n h = ground arith

symbol-no_padding : (n : ℕ) → n < 64 → (symbol n == padding) ≡ false
symbol-no_padding n h = ground arith

symbol-no_line_end : (n : ℕ) → n < 64 → is_line_end (symbol n) ≡ false
symbol-no_line_end n h = ground arith

abbrev pub IsBytes : Bytes → Type 0
IsBytes = All (λ b. b < 256)

groups-symbols :
    (x y z w : ℕ) (rest : Runes)
    → x < 64
    → y < 64
    → z < 64
    → w < 64
    → groups (symbol x ∷ symbol y ∷ symbol z ∷ symbol w ∷ rest)
      ≡ three_bytes (some x) (some y) (some z) (some w) (groups rest)
unfolding groups
groups-symbols x y z w rest hx hy hz hw = rw (
  symbol-no_padding w hw,
  digit-symbol x hx,
  digit-symbol y hy,
  digit-symbol z hz,
  digit-symbol w hw,
)

groups-encode : (bs : Bytes) → IsBytes bs → groups (encode bs) ≡ some bs
unfolding encode
groups-encode [] h = unfold groups in refl
groups-encode (a ∷ []) h =
    unfold groups in
    rw (digit-symbol (a / 4) (omega arith), digit-symbol (a % 4 * 16) (omega arith))
      (let e : a / 4 * 4 + a % 4 * 16 / 16 ≡ a = omega arith in rw e refl)
groups-encode (a ∷ b ∷ []) h =
    unfold groups in
    rw
      (
        symbol-no_padding (b % 16 * 4) (omega arith),
        digit-symbol (a / 4) (omega arith),
        digit-symbol (a % 4 * 16 + b / 16) (omega arith),
        digit-symbol (b % 16 * 4) (omega arith),
      )
      (let e : a / 4 * 4 + (a % 4 * 16 + b / 16) / 16 ≡ a = omega arith in
        let f : (a % 4 * 16 + b / 16) % 16 * 16 + b % 16 * 4 / 4 ≡ b = omega arith in
        rw (e, f) refl)
groups-encode (a ∷ b ∷ c ∷ rest) h =
    let e : a / 4 * 4 + (a % 4 * 16 + b / 16) / 16 ≡ a = omega arith in
    let f : (a % 4 * 16 + b / 16) % 16 * 16 + (b % 16 * 4 + c / 64) / 4 ≡ b = omega arith in
    let g : (b % 16 * 4 + c / 64) % 4 * 64 + c % 64 ≡ c = omega arith in
    rw
      (
        groups-symbols (a / 4) (a % 4 * 16 + b / 16) (b % 16 * 4 + c / 64) (c % 64) (encode rest)
            (omega arith) (omega arith) (omega arith) (omega arith),
        groups-encode rest h.1.1.1,
      )
      (rw (e, f, g) refl)

abbrev keep : ℕ → Bool
keep c = if is_line_end c then false else true

keep-cons :
    (c : ℕ) (s : Runes) → is_line_end c ≡ false → filter_if keep (c ∷ s) ≡ c ∷ filter_if keep s
unfolding filter_if
keep-cons c s h = rw h refl

keep-symbol :
    (n : ℕ) (s : Runes) → n < 64 → filter_if keep (symbol n ∷ s) ≡ symbol n ∷ filter_if keep s
keep-symbol n s h = keep-cons (symbol n) s (symbol-no_line_end n h)

-- No line end in what `encode` writes.
keep-encode : (bs : Bytes) → IsBytes bs → filter_if keep (encode bs) ≡ encode bs
unfolding encode
keep-encode [] h = unfold filter_if in refl
keep-encode (a ∷ []) h =
    keep-symbol (a / 4) _ (omega arith)
    ∙ ap (λ r. symbol (a / 4) ∷ r)
        (keep-symbol (a % 4 * 16) _ (omega arith)
          ∙ ap (λ r. symbol (a % 4 * 16) ∷ r) (unfold filter_if in refl))
keep-encode (a ∷ b ∷ []) h =
    rw
      (
        keep-symbol (a / 4) (symbol (a % 4 * 16 + b / 16) ∷ symbol (b % 16 * 4) ∷ padding ∷ [])
            (omega arith),
        keep-symbol (a % 4 * 16 + b / 16) (symbol (b % 16 * 4) ∷ padding ∷ []) (omega arith),
        keep-symbol (b % 16 * 4) (padding ∷ []) (omega arith),
      )
      (unfold filter_if in refl)
keep-encode (a ∷ b ∷ c ∷ rest) h =
    rw
      (
        keep-symbol (a / 4)
            (symbol (a % 4 * 16 + b / 16)
              ∷ symbol (b % 16 * 4 + c / 64)
              ∷ symbol (c % 64)
              ∷ encode rest)
            (omega arith),
        keep-symbol (a % 4 * 16 + b / 16)
            (symbol (b % 16 * 4 + c / 64) ∷ symbol (c % 64) ∷ encode rest) (omega arith),
        keep-symbol (b % 16 * 4 + c / 64) (symbol (c % 64) ∷ encode rest) (omega arith),
        keep-symbol (c % 64) (encode rest) (omega arith),
        keep-encode rest h.1.1.1,
      )
      refl

-- Bytes come back from their encoding.
pub decode-encode : (bs : Bytes) → IsBytes bs → decode (encode bs) ≡ some bs
unfolding decode
decode-encode bs h = rw (keep-encode bs h) (groups-encode bs h)
