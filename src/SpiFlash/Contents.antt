-- ===== src/SpiFlash/Contents.antt =====
-- What `main` prints is what it has written.
use zephyr_stm32h.Common.{
  ℕ, ◌≤◌, ◌≡◌, refl, ◌∙◌, true, some, List, [], ◌∷◌, arith, length, replicate, pos,
}
use zephyr_stm32h.SpiFlash.{FlashApi, erase, write, read, test_offset, erase_size, write_buf, main}

-- `bytes f o n` are `n` bytes of the flash. An erase of whole sectors leaves each byte at 255; a write into
-- erased bytes stores; a read gives what is there.
pub record FlashLaws {F : Type 0} (api : FlashApi F) (bytes : F → ℕ → ℕ → List ℕ) : Type 0 where
  pub erase_fills :
      (f : F) (o n k : ℕ)
      → (api.flash_erase f o n).0 ≡ pos 0
      → k ≤ n
      → bytes (api.flash_erase f o n).1 o k ≡ replicate k 255
  pub write_stores :
      (f : F) (o : ℕ) (xs : List ℕ)
      → bytes f o (length xs) ≡ replicate (length xs) 255
      → (api.flash_write f o xs).0 ≡ pos 0
      → bytes (api.flash_write f o xs).1 o (length xs) ≡ xs
  pub read_bytes :
      (f : F) (o n : ℕ) → (api.flash_read f o n).0 ≡ pos 0 → (api.flash_read f o n).1 ≡ bytes f o n

module _ {F : Type 0} {api : FlashApi F} {bytes : F → ℕ → ℕ → List ℕ} (laws : FlashLaws api bytes)
    (f : F) where
  -- The flash after the erase, and after the write.
  abbrev erased : F
  erased = (api.flash_erase f test_offset erase_size).1

  abbrev written : F
  written = (api.flash_write erased test_offset write_buf).1

  -- If the device is ready and no call fails, `main` erases, writes and reads, and prints the bytes that it
  -- has written, whatever the flash held before.
  pub prints_written :
      api.device_is_ready f ≡ true
      → (api.flash_erase f test_offset erase_size).0 ≡ pos 0
      → (api.flash_write (api.flash_erase f test_offset erase_size).1 test_offset write_buf).0
        ≡ pos 0
      → (api.flash_read
          (api.flash_write (api.flash_erase f test_offset erase_size).1 test_offset write_buf).1
          test_offset
          16).0
        ≡ pos 0
      → main api f ≡ (some write_buf, erase ∷ write ∷ read ∷ [])
  prints_written ready e w r =
      let blank = laws.erase_fills f test_offset erase_size 16 e (omega arith) in
      let stored = laws.write_stores erased test_offset write_buf blank w in
      let got = laws.read_bytes written test_offset 16 r ∙ stored in rw (ready, e, w, r, got) refl
