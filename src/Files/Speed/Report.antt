-- ===== src/Files/Speed/Report.antt =====
-- The tables that app21_sdcard_speed/src/main.c prints: the card, the file system and the speed.
use zephyr_stm32h.Common.{
  ℕ, ◌*◌, ◌/◌, ◌%◌, ◌^◌, ◌≤◌, ◌<◌, ◌≡◌, refl, ap, ◌↔◌, Option, none, some, arith, ltb, ◌==◌,
  if◌then◌else◌, u32, is_err, ℤ, pos,
}
use zephyr_stm32h.Files.Speed.{bytes_to_kbps}
use zephyr_stm32h.Files.Speed.Pattern.{kbps_exact}

-- Sector count, sector size, erase block size and total capacity in MB.
pub record CardInfo : Type 0 where
  pub sector_count : ℕ
  pub sector_size : ℕ
  pub block_size : ℕ
  pub total_mb : ℕ

-- `count`, `size` and `block` are what the three calls of `disk_access_ioctl` give, with what they return. A call
-- that fails leaves the variable at 0.
abbrev pub ioctl_value : ℤ × ℕ → ℕ
ioctl_value (ret, value) = if is_err ret then 0 else value

-- The product is taken in 64 bits, the result stored in 32.
unfoldable pub print_sd_card_info : ℤ × ℕ → ℤ × ℕ → ℤ × ℕ → Option CardInfo
print_sd_card_info count size block =
    let sector_count = ioctl_value count in
    let sector_size = ioctl_value size in
    if is_err count.0
    then none
    else some (record {
      sector_count = sector_count;
      sector_size = sector_size;
      block_size = ioctl_value block;
      total_mb = u32 (sector_count * sector_size % 2 ^ 64 / 1048576);
    })

-- Block size, blocks, and the total and the free space in KB.
pub record FsStats : Type 0 where
  pub f_bsize : ℕ
  pub f_blocks : ℕ
  pub total_kb : ℕ
  pub free_kb : ℕ

-- The fields are `unsigned long`, 32 bits on the Cortex-M7, and so is their product.
unfoldable pub print_fs_stats : ℤ → ℕ → ℕ → ℕ → Option FsStats
print_fs_stats ret f_bsize f_blocks f_bfree =
    if is_err ret
    then none
    else some (record {
      f_bsize = f_bsize;
      f_blocks = f_blocks;
      total_kb = u32 (f_bsize * f_blocks) / 1024;
      free_kb = u32 (f_bsize * f_bfree) / 1024;
    })

-- The bytes, the time and the speed in KB/s, and in MB/s with two digits where that is not 0.
pub record SpeedReport : Type 0 where
  pub total : ℕ
  pub elapsed_ms : ℕ
  pub speed_kbps : ℕ
  pub speed_mbps : Option (ℕ × ℕ)

abbrev pub mbps_of : ℕ → Option (ℕ × ℕ)
mbps_of kbps =
    if ltb 0 (kbps / 1024) then some (kbps / 1024, u32 (kbps % 1024 * 100) / 1024) else none

abbrev pub report_of : ℕ → ℕ → Option ℕ → Option SpeedReport
report_of total ms none = none
report_of total ms (some kbps) =
    some (record { total = total; elapsed_ms = ms; speed_kbps = kbps; speed_mbps = mbps_of kbps })

-- What `test_write_speed` and `test_read_speed` print of the bytes and the time between two uptimes.
unfoldable pub print_speed : ℕ → ℕ → Option SpeedReport
print_speed total elapsed =
    let ms = if elapsed == 0 then 1 else elapsed in report_of total ms (bytes_to_kbps total ms)

kb_exact_iff : (n : ℕ) → (u32 n / 1024 ≡ n / 1024) ↔ (n < 2 ^ 32)
kb_exact_iff n = (λ e. omega (arith, e), λ l. omega (arith, l))

abbrev printed_total : Option FsStats → ℕ
printed_total none = 0
printed_total (some stats) = stats.total_kb

-- On a card that has as many free blocks as blocks at most, what is printed of the space is right exactly if
-- the card has less than 4 GB: from there on the product wraps.
pub print_fs_stats_iff :
    (f_bsize f_blocks f_bfree : ℕ)
    → f_bsize * f_bfree ≤ f_bsize * f_blocks
    → (print_fs_stats (pos 0) f_bsize f_blocks f_bfree
        ≡ some (record {
          f_bsize = f_bsize;
          f_blocks = f_blocks;
          total_kb = f_bsize * f_blocks / 1024;
          free_kb = f_bsize * f_bfree / 1024;
        }))
      ↔ (f_bsize * f_blocks < 2 ^ 32)
unfolding print_fs_stats
print_fs_stats_iff f_bsize f_blocks f_bfree h = (
  λ e. (kb_exact_iff (f_bsize * f_blocks)).0 (ap printed_total e),
  λ l.
      rw
        (
          (kb_exact_iff (f_bsize * f_blocks)).1 l,
          (kb_exact_iff (f_bsize * f_bfree)).1 (omega (arith, h, l)),
        )
        refl,
)

-- Of the two megabytes in less than an hour a speed is printed, also where the clock has not moved.
pub print_speed_reports :
    (total elapsed : ℕ)
    → total ≤ 2097152
    → elapsed < 3600000
    → (r : SpeedReport) × (print_speed total elapsed ≡ some r)
      × (0 < r.elapsed_ms)
      × (r.speed_kbps ≡ total * 1000 / (r.elapsed_ms * 1024))
unfolding print_speed
print_speed_reports total elapsed ht he =
    let ms : ℕ = if elapsed == 0 then 1 else elapsed in
    let low : 0 < ms = ground arith in
    let high : ms < 3600000 = ground (arith, he) in
    (_, ap (report_of total ms) (kbps_exact total ms ht low high), low, refl)
