-- ===== src/Files/Speed/Pattern.antt =====
-- The test pattern, the speed, and what the read test accepts.
use zephyr_stm32h.Common.{
  ℕ, zero, suc, ◌+◌, ◌*◌, ◌/◌, ◌≤◌, ◌<◌, ◌≡◌, refl, sym, ap, subst, ◌∙◌, ◌↔◌, inl, inr, true, false,
  true≢false, not, some, List, [], ◌∷◌, arith, ◌==◌, if◌then◌else◌, ==_iff, Bool-cases, length,
  get_or, take, drop, u8, u32, is_negative, pos,
}
use mathlib.Core.Path.{ap₂}
use zephyr_stm32h.Files.{Fs, Disk, read_only}
use zephyr_stm32h.Files.Speed.{
  chunk_size, chunk_count, speed_file, bytes_to_kbps, fill_test_buffer, verify_buffer, read_chunks,
  test_read_speed,
}

-- A buffer passes exactly if it begins with the pattern.
pub verify_fill_iff :
    (size i seed : ℕ) (buf : List ℕ)
    → size ≤ length buf
    → (verify_buffer buf i size seed ≡ true) ↔ (take size buf ≡ fill_test_buffer i size seed)
unfolding verify_buffer fill_test_buffer
verify_fill_iff zero i seed buf h = (λ _. refl, λ _. refl)
verify_fill_iff (suc size) i seed [] h = absurd (omega arith)
verify_fill_iff (suc size) i seed (x ∷ xs) h =
    let byte = u8 (u32 (i + seed)) in
    let rest = verify_fill_iff size (i + 1) seed xs (omega arith) in
    elim (Bool-cases (x == byte)) [
      | inl same ↦ (
        λ t.
            ap₂ (λ y l. y ∷ l) ((==_iff x byte).0 same)
              (rest.0 (
                subst (λ c. (if not c then false else verify_buffer xs (i + 1) size seed) ≡ true)
                  same t)),
        λ e. rw same (rest.1 (ap (drop 1) e)),
      )
      | inr other ↦ (
        λ t. absurd (
            true≢false (
              sym (
                subst (λ c. (if not c then false else verify_buffer xs (i + 1) size seed) ≡ true)
                  other t))),
        λ e. absurd (true≢false (sym ((==_iff x byte).1 (ap (λ l. get_or l 0 0) e)) ∙ other)),
      )
    ]

-- For the two megabytes of the test and less than an hour the speed is the quotient without any wrap:
-- the bytes, times 1000, over the milliseconds, times 1024.
pub kbps_exact :
    (bytes ms : ℕ)
    → bytes ≤ 2097152
    → 0 < ms
    → ms < 3600000
    → bytes_to_kbps bytes ms ≡ some (bytes * 1000 / (ms * 1024))
unfolding bytes_to_kbps
kbps_exact bytes ms hb h0 hm =
    let wide : u32 (u32 bytes * 1000) ≡ bytes * 1000 = omega arith in
    let divisor : u32 (u32 ms * 1024) ≡ ms * 1024 = omega arith in
    let nonzero : (ms * 1024 == 0) ≡ false = ground arith in rw (wide, divisor, nonzero) refl

module _ {S : Type 0} (fs : Fs S) where
  read_chunks_empty :
      (left i : ℕ) (s : S)
      → ((t : S) → (fs.fs_read t chunk_size).0 ≡ pos 0)
      → (read_chunks fs i left true s).0 ≡ true
  unfolding read_chunks verify_buffer
  read_chunks_empty zero i s h = refl
  read_chunks_empty (suc left) i s h =
      rw (h s) (read_chunks_empty left (i + 1) (fs.fs_read s chunk_size).2 h)

  -- An empty file passes the test: if every read gives no bytes, `test_read_speed` returns 0.
  pub empty_file_passes :
      (d : Disk S)
      → is_negative (fs.fs_open d.files speed_file read_only).0 ≡ false
      → ((t : S) → (fs.fs_read t chunk_size).0 ≡ pos 0)
      → (test_read_speed fs true d).0 ≡ pos 0
  unfolding test_read_speed
  empty_file_passes d opened h =
      rw (opened, read_chunks_empty chunk_count 0 (fs.fs_open d.files speed_file read_only).1 h)
        refl
