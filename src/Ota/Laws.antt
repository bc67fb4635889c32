-- ===== src/Ota/Laws.antt =====
-- What the handlers rely on of Zephyr's flash driver and checksum, as hypotheses.
use zephyr_stm32h.Common.{
  ℕ, zero, suc, ◌+◌, ◌≤◌, ◌<◌, ◌≡◌, refl, ap, ◌∙◌, ◌⊎◌, false, List, [], ◌∷◌, ◌++◌, arith, length,
  get_or, is_err,
}
use mathlib.Core.Path.{ap₂}
use zephyr_stm32h.Ota.World.{Board}

-- The checksum of a text can be computed piece by piece, from 0.
pub record CrcLaws {F : Type 0} (b : Board F) : Type 0 where
  pub update-nil : (c : ℕ) → b.crc32_ieee_update c [] ≡ c
  pub update-append :
      (c : ℕ) (xs ys : List ℕ)
      → b.crc32_ieee_update c (xs ++ ys) ≡ b.crc32_ieee_update (b.crc32_ieee_update c xs) ys
  pub crc32-update : (xs : List ℕ) → b.crc32_ieee xs ≡ b.crc32_ieee_update 0 xs

-- `cell f i` is the byte at offset `i` of an area of `size` bytes. An erase sets bytes to 0xff; a write
-- to erased bytes stores what it is given and touches nothing else; a read returns what is stored.
pub record FlashLaws {F : Type 0} (b : Board F) (cell : F → ℕ → ℕ) (size : ℕ) : Type 0 where
  pub erased :
      (f : F) (off len i : ℕ)
      → off + len ≤ size
      → is_err (b.flash_area_erase f off len).0 ≡ false
      → off ≤ i
      → i < off + len
      → cell (b.flash_area_erase f off len).1 i ≡ 0xff
  pub written :
      (f : F) (off : ℕ) (bs : List ℕ) (i : ℕ)
      → off + length bs ≤ size
      → is_err (b.flash_area_write f off bs).0 ≡ false
      → ((j : ℕ) → j < length bs → cell f (off + j) ≡ 0xff)
      → i < length bs
      → cell (b.flash_area_write f off bs).1 (off + i) ≡ get_or bs i 0
  pub kept :
      (f : F) (off : ℕ) (bs : List ℕ) (i : ℕ)
      → off + length bs ≤ size
      → is_err (b.flash_area_write f off bs).0 ≡ false
      → (i < off) ⊎ (off + length bs ≤ i)
      → cell (b.flash_area_write f off bs).1 i ≡ cell f i
  pub read-length :
      (f : F) (off n : ℕ)
      → off + n ≤ size
      → is_err (b.flash_area_read f off n).0 ≡ false
      → length (b.flash_area_read f off n).1 ≡ n
  pub read-cell :
      (f : F) (off n i : ℕ)
      → off + n ≤ size
      → is_err (b.flash_area_read f off n).0 ≡ false
      → i < n
      → get_or (b.flash_area_read f off n).1 i 0 ≡ cell f (off + i)

-- The bytes that stand at `off` and behind.
module _ {F : Type 0} (cell : F → ℕ → ℕ) (f : F) where
  unfoldable pub cells : ℕ → ℕ → List ℕ
  cells off zero = []
  cells off (suc n) = cell f off ∷ cells (off + 1) n

  pub length-cells : (off n : ℕ) → length (cells off n) ≡ n
  unfolding cells
  length-cells off zero = refl
  length-cells off (suc n) = ap suc (length-cells (off + 1) n)

  pub cells-append : (off m n : ℕ) → cells off (m + n) ≡ cells off m ++ cells (off + m) n
  unfolding cells
  cells-append off zero n =
      let e : 0 + n ≡ n = omega arith in
      let k : off ≡ off + 0 = omega arith in
      ap (λ (m : ℕ). cells off m) e ∙ ap (λ (at : ℕ). cells at n) k
  cells-append off (suc m) n =
      let e : suc m + n ≡ suc (m + n) = omega arith in
      let k : off + 1 + m ≡ off + suc m = omega arith in
      ap (λ (l : ℕ). cells off l) e
      ∙ ap (λ l. cell f off ∷ l) (cells-append (off + 1) m n)
      ∙ ap (λ (at : ℕ). cell f off ∷ (cells (off + 1) m ++ cells at n)) k

  -- A list with the same bytes is the same list.
  pub cells_eq :
      (off n : ℕ) (bs : List ℕ)
      → length bs ≡ n
      → ((i : ℕ) → i < n → get_or bs i 0 ≡ cell f (off + i))
      → bs ≡ cells off n
  unfolding cells
  cells_eq off zero [] hl h = refl
  cells_eq off zero (x ∷ xs) hl h = absurd (omega arith)
  cells_eq off (suc n) [] hl h = absurd (omega arith)
  cells_eq off (suc n) (x ∷ xs) hl h =
      let first : off + 0 ≡ off = omega arith in
      let at : (i : ℕ) → off + suc i ≡ off + 1 + i = λ i. omega arith in
      ap₂ (λ y l. y ∷ l) (h 0 (omega arith) ∙ ap (cell f) first)
        (cells_eq (off + 1) n xs (omega arith)
          (λ i hi. h (suc i) (omega arith) ∙ ap (cell f) (at i)))
