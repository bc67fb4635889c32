-- ===== src/Ota/Handler/Verify/Loop.antt =====
-- The loop of ota_cmd_verify_firmware: it ends, and it computes the checksum of the slot.
use zephyr_stm32h.Common.{
  ℕ, zero, suc, ◌+◌, ◌-◌, ◌^◌, ◌≤◌, ◌<◌, ◌≡◌, sym, ap, ◌∙◌, ◌≢◌, false, arith, ◌==◌, take, take_all,
  u32, is_err,
}
use zephyr_stm32h.Ota.World.{Board}
use zephyr_stm32h.Ota.Handler.Verify.{crc_of, out_of_fuel, verify_loop, chunk_of}
use zephyr_stm32h.Ota.Laws.{CrcLaws, FlashLaws, cells, cells-append, cells_eq}

chunk_bounds : (n : ℕ) → n ≢ 0 → (0 < chunk_of n) × (chunk_of n ≤ n)
chunk_bounds n h = ground arith

module _ {F : Type 0} (b : Board F) where
  -- With a round for each byte the loop ends by its own tests.
  pub verify_loop-ends :
      (fuel : ℕ) (f : F) (crc offset remaining : ℕ)
      → remaining < fuel
      → verify_loop b fuel f crc offset remaining ≢ out_of_fuel
  unfolding verify_loop
  verify_loop-ends zero f crc offset remaining h = absurd (omega arith)
  verify_loop-ends (suc fuel) f crc offset remaining h =
      let chunk = chunk_of remaining in
      let buf = (b.flash_area_read f offset chunk).1 in
      ground (
        arith,
        verify_loop-ends fuel f (b.crc32_ieee_update crc (take chunk buf)) (u32 (offset + chunk))
            (remaining - chunk),
      )

module _ {F : Type 0} {b : Board F} {cell : F → ℕ → ℕ} {size : ℕ} (crc_laws : CrcLaws b)
    (flash_laws : FlashLaws b cell size) where
  open crc_laws use {update-append, update-nil}
  open flash_laws use {read-length, read-cell}

  -- A read that does not fail returns the bytes of the slot.
  read_cells :
      (f : F) (offset n : ℕ)
      → offset + n ≤ size
      → is_err (b.flash_area_read f offset n).0 ≡ false
      → take n (b.flash_area_read f offset n).1 ≡ cells cell f offset n
  read_cells f offset n fits ok =
      let len = read-length f offset n fits ok in
      take_all n (b.flash_area_read f offset n).1 (omega arith)
      ∙ cells_eq cell f offset n (b.flash_area_read f offset n).1 len
          (λ i hi. read-cell f offset n i fits ok hi)

  -- If no read of the slot fails, fuel of more than the bytes that remain is given, and these lie in the
  -- slot, of less than 2^32 bytes, the loop returns the checksum of the bytes from `offset` on.
  pub verify_loop-crc :
      (fuel : ℕ) (f : F) (crc offset remaining : ℕ)
      → remaining < fuel
      → offset + remaining ≤ size
      → size < 2 ^ 32
      → ((at n : ℕ) → at + n ≤ size → is_err (b.flash_area_read f at n).0 ≡ false)
      → verify_loop b fuel f crc offset remaining
        ≡ crc_of (b.crc32_ieee_update crc (cells cell f offset remaining))
  unfolding verify_loop
  verify_loop-crc zero f crc offset remaining h ho hs ok = absurd (omega arith)
  verify_loop-crc (suc fuel) f crc offset zero h ho hs ok = unfold cells in rw (update-nil crc)
  verify_loop-crc (suc fuel) f crc offset (suc rest) h ho hs ok =
      let remaining = suc rest in
      let chunk : ℕ = chunk_of remaining in
      let bounds = chunk_bounds remaining (omega arith) in
      let good = ok offset chunk (omega arith) in
      let crc' : ℕ = b.crc32_ieee_update crc (cells cell f offset chunk) in
      let at : u32 (offset + chunk) ≡ offset + chunk = omega arith in
      let split : chunk + (remaining - chunk) ≡ remaining = omega arith in
      let more : (remaining == 0) ≡ false = ground arith in
      let ih =
        verify_loop-crc fuel f crc' (offset + chunk) (remaining - chunk) (omega arith) (omega arith)
          hs ok in
      rw (more, good, read_cells f offset chunk (omega arith) good, at)
        (ih
          ∙ ap crc_of (
              sym (
                update-append crc (cells cell f offset chunk)
                  (cells cell f (offset + chunk) (remaining - chunk)))
              ∙ ap (b.crc32_ieee_update crc) (
                  sym (cells-append cell f offset chunk (remaining - chunk))
                  ∙ ap (cells cell f offset) split)))
