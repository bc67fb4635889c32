-- ===== src/Common/Words.antt =====
-- C integers: fixed widths wrap, `int` results carry a sign, and multi-byte fields are
-- little-endian, as on the Cortex-M7.
use Prim.Native.Nat.{ℕ, zero, suc, ◌+◌, ◌*◌, ◌/◌, ◌%◌}
use mathlib.Core.Bool.{Bool, true, false}
use mathlib.Core.List.{List, [], ◌∷◌}
use zephyr_stm32h.Common.Lists.{get_or}

abbrev pub u8 : ℕ → ℕ
u8 n = n % 256

abbrev pub u16 : ℕ → ℕ
u16 n = n % 65536

abbrev pub u32 : ℕ → ℕ
u32 n = n % 4294967296

-- An `int`; `negsuc n` is -(n + 1).
pub data ℤ : Type 0 where
  pos : ℕ → ℤ
  negsuc : ℕ → ℤ

-- The tests `ret < 0` and `if (err)`.
abbrev pub is_negative : ℤ → Bool
is_negative (pos n) = false
is_negative (negsuc n) = true

abbrev pub is_err : ℤ → Bool
is_err (pos zero) = false
is_err (pos (suc n)) = true
is_err (negsuc n) = true

-- The 16-bit and 32-bit numbers that stand at an index of a byte array.
abbrev pub le16 : List ℕ → ℕ → ℕ
le16 buf i = get_or buf i 0 + 256 * get_or buf (i + 1) 0

abbrev pub le32 : List ℕ → ℕ → ℕ
le32 buf i = le16 buf i + 65536 * le16 buf (i + 2)

-- The bytes of a 16-bit and of a 32-bit number.
abbrev pub bytes16 : ℕ → List ℕ
bytes16 n = n % 256 ∷ n / 256 % 256 ∷ []

abbrev pub bytes32 : ℕ → List ℕ
bytes32 n = n % 256 ∷ n / 256 % 256 ∷ n / 65536 % 256 ∷ n / 16777216 % 256 ∷ []
