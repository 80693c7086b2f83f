-- ===== src/Common/Ids.antt =====
-- Identifiers and byte strings.
use Prim.Native.Nat.{ℕ}
use mathlib.Core.List.{List}
use sobhemessenger.Common.Tests.{◌==◌, if◌then◌else◌}

-- uuid.UUID is a 16 byte array; the program compares it and never computes with it.
abbrev pub Uuid : Type 0
Uuid = ℕ

-- []byte
abbrev pub Bytes : Type 0
Bytes = List ℕ

-- A heap of objects named by their pointers, and a write to one of them.
unfoldable pub update {ℓ} : {A : Type ℓ} → (ℕ → A) → ℕ → A → ℕ → A
update f k a j = if k == j then a else f j

-- A Go int, where the code meets negative ones.
pub data ℤ : Type 0 where
  pos : ℕ → ℤ
  negsuc : ℕ → ℤ
