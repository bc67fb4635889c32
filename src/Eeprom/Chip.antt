-- ===== src/Eeprom/Chip.antt =====
-- The EEPROM functions on a chip with pages of eight bytes, which the board's device tree declares.
use zephyr_stm32h.Common.{
  ℕ, ◌+◌, ◌*◌, ◌/◌, ◌%◌, ◌≤◌, ◌<◌, ◌≡◌, refl, ap, ◌∙◌, true, false, List, [], ◌∷◌, arith, ltb, ◌==◌,
  length, get_or, take, drop, replicate, length-take, take_all, get_or-append_left, get_or-take,
  is_negative, pos, negsuc,
}
use zephyr_stm32h.Eeprom.{Bus, counting, compare_data, eeprom_write, eeprom_read, eeprom_main}

-- An AT24C02: `mem` is its memory and `at` its address counter. A write begins with an address; behind
-- the last byte of a page of eight it goes on at the first byte of the same page, so that of more than
-- eight bytes the last eight remain. A write of an address alone changes no memory.
pub record ChipLaws {S : Type 0} (bus : Bus S) (mem : S → ℕ → ℕ) (at : S → ℕ) : Type 0 where
  pub wrote :
      (s : S) (o j : ℕ) (xs : List ℕ)
      → is_negative (bus.i2c_write_dt s (o ∷ xs)).0 ≡ false
      → j < length xs
      → length xs ≤ j + 8
      → mem (bus.i2c_write_dt s (o ∷ xs)).1 (o / 8 * 8 + (o + j) % 8) ≡ get_or xs j 0
  pub addressed :
      (s : S) (o : ℕ)
      → is_negative (bus.i2c_write_dt s (o ∷ [])).0 ≡ false
      → at (bus.i2c_write_dt s (o ∷ [])).1 ≡ o
  pub kept :
      (s : S) (o a : ℕ)
      → is_negative (bus.i2c_write_dt s (o ∷ [])).0 ≡ false
      → mem (bus.i2c_write_dt s (o ∷ [])).1 a ≡ mem s a
  pub read_length :
      (s : S) (n : ℕ)
      → is_negative (bus.i2c_read_dt s n).0 ≡ false
      → length (bus.i2c_read_dt s n).1 ≡ n
  pub read_byte :
      (s : S) (n i : ℕ)
      → is_negative (bus.i2c_read_dt s n).0 ≡ false
      → i < n
      → get_or (bus.i2c_read_dt s n).1 i 0 ≡ mem s ((at s + i) % 256)

-- On a bus that does not fail.
module _ {S : Type 0} {bus : Bus S} {mem : S → ℕ → ℕ} {at : S → ℕ} (laws : ChipLaws bus mem at)
    (works : (s : S) (xs : List ℕ) → is_negative (bus.i2c_write_dt s xs).0 ≡ false)
    (reads : (s : S) (n : ℕ) → is_negative (bus.i2c_read_dt s n).0 ≡ false) where
  write_ok :
      (s : S) (o : ℕ) (bytes : List ℕ) (len : ℕ)
      → len ≤ 16
      → eeprom_write bus s o bytes len ≡ (pos 0, (bus.i2c_write_dt s (o ∷ take len bytes)).1)
  unfolding eeprom_write
  write_ok s o bytes len small =
      let fits : ltb 16 len ≡ false = ground arith in rw (fits, works s (o ∷ take len bytes)) refl

  read_ok :
      (s : S) (o : ℕ) (buf : List ℕ) (len : ℕ) → len ≤ 16 → (eeprom_read bus s o buf len).0 ≡ pos 0
  unfolding eeprom_read
  read_ok s o buf len small =
      let fits : ltb 16 len ≡ false = ground arith in
      rw (fits, works s (o ∷ []), reads (bus.i2c_write_dt s (o ∷ [])).1 len) refl

  -- A read of at most sixteen bytes gives the memory from the address on.
  read_mem :
      (s : S) (o : ℕ) (buf : List ℕ) (len i : ℕ)
      → len ≤ 16
      → i < len
      → get_or (eeprom_read bus s o buf len).1 i 0 ≡ mem s ((o + i) % 256)
  unfolding eeprom_read
  read_mem s o buf len i small inside =
      let fits : ltb 16 len ≡ false = ground arith in
      let s' = (bus.i2c_write_dt s (o ∷ [])).1 in
      let bytes = (bus.i2c_read_dt s' len).1 in
      let n = laws.read_length s' len (reads s' len) in
      let all : take len bytes ≡ bytes = take_all len bytes (omega (arith, n)) in
      rw (fits, works s (o ∷ []), all)
        (get_or-append_left bytes (drop len buf) i 0 (omega (arith, n))
          ∙ laws.read_byte s' len i (reads s' len) inside
          ∙ ap (λ (a : ℕ). mem s' ((a + i) % 256)) (laws.addressed s o (works s (o ∷ [])))
          ∙ laws.kept s o ((o + i) % 256) (works s (o ∷ [])))

  -- What is written within one page is read back, on a bus that does not fail.
  pub eeprom_write-read :
      (s : S) (o : ℕ) (bytes buf : List ℕ) (len i : ℕ)
      → o < 256
      → o % 8 + len ≤ 8
      → len ≤ length bytes
      → i < len
      → get_or (eeprom_read bus (eeprom_write bus s o bytes len).1 o buf len).1 i 0
        ≡ get_or bytes i 0
  eeprom_write-read s o bytes buf len i small page hl inside =
      let s' = (bus.i2c_write_dt s (o ∷ take len bytes)).1 in
      let same = ap (λ x. x.1) (write_ok s o bytes len (omega arith)) in
      let place : (o + i) % 256 ≡ o / 8 * 8 + (o + i) % 8 = omega arith in
      let n = length-take len bytes in
      ap (λ t. get_or (eeprom_read bus t o buf len).1 i 0) same
      ∙ read_mem s' o buf len i (omega arith) inside
      ∙ ap (mem s') place
      ∙ laws.wrote s o i (take len bytes) (works s (o ∷ take len bytes)) (omega arith) (omega arith)
      ∙ get_or-take len bytes i 0 inside

  compare_other :
      (s : S) (xs ys : List ℕ)
      → (get_or xs 0 0 == get_or ys 0 0) ≡ false
      → (compare_data bus s xs ys).0 ≡ negsuc 0
  unfolding compare_data
  compare_other s xs ys h = rw h refl

  -- The sixteen bytes of the test are two pages, so the second half overwrites the first: on a bus that
  -- does not fail, `main` finds byte 0 changed and returns -1.
  pub eeprom_main_mismatch : (s : S) → (eeprom_main bus true s).0 ≡ negsuc 0
  unfolding eeprom_main
  eeprom_main_mismatch s =
      let s1 = (bus.i2c_write_dt s (0 ∷ counting 0 16)).1 in
      let read = eeprom_read bus s1 0 (replicate 16 0) 16 in
      let first : get_or read.1 0 0 ≡ 8 =
        read_mem s1 0 (replicate 16 0) 16 0 (omega arith) (omega arith)
        ∙ laws.wrote s 0 8 (counting 0 16) (works s (0 ∷ counting 0 16)) (omega arith)
            (omega arith) in
      let other : (0 == get_or read.1 0 0) ≡ false = rw first refl in
      rw
        (
          write_ok s 0 (counting 0 16) 16 (omega arith),
          read_ok s1 0 (replicate 16 0) 16 (omega arith),
        )
        (compare_other read.2 (counting 0 16) read.1 other)
