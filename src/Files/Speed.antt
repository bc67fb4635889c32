-- ===== src/Files/Speed.antt =====
-- The speed test of app21_sdcard_speed/src/main.c.
pub mod Pattern
pub mod Chunks
pub mod Report
pub mod RoundTrip
use zephyr_stm32h.Common.{
  ℕ, zero, suc, ◌+◌, ◌-◌, ◌*◌, ◌/◌, ◌%◌, ◌^◌, ◌≤◌, ◌<◌, ◌≡◌, refl, sym, ap, subst, ◌∙◌, ◌≢◌, ◌↔◌,
  ◌⊎◌, inl, inr, Bool, true, false, true≢false, not, ◌&&◌, ◌||◌, Option, none, some, List, [], ◌∷◌,
  ◌++◌, append-nil, append_assoc, arith, ltb, leb, ◌==◌, if◌then◌else◌, lt→ltb, le→ltb, le→leb,
  lt→leb, ==_iff, ==_refl, Bool-cases, if_rule, length, get_or, set, take, drop, replicate, All,
  length-append, length-take, length-drop, length-replicate, length-set, take-append-drop,
  take-append_left, take-append_right, drop-append_right, take_all, get_or-append_left,
  get_or-append_right, get_or-take, get_or-drop, u8, u16, u32, is_negative, is_err, le16, le32,
  bytes16, bytes32, ℤ, pos, negsuc,
}
use zephyr_stm32h.Files.{
  Fs, Disk, OpenMode, write_create, read_only, Call, file_opened, file_closed, mounted,
}

-- 32 KB, and the chunks of 2 MB.
abbrev pub chunk_size : ℕ
chunk_size = 32768

abbrev pub chunk_count : ℕ
chunk_count = 64

-- "/SD:", and "/SD:/speed_test.bin"
abbrev pub mount_point : List ℕ
mount_point = b'/' ∷ b'S' ∷ b'D' ∷ b':' ∷ []

abbrev pub speed_file : List ℕ
speed_file =
    mount_point
    ++ (b'/' ∷ b's' ∷ b'p' ∷ b'e' ∷ b'e' ∷ b'd' ∷ b'_' ∷ b't' ∷ b'e' ∷ b's' ∷ b't' ∷ b'.' ∷ b'b'
        ∷ b'i' ∷ b'n' ∷ [])

-- `BYTES_TO_KBPS` on uint32_t; there is no result where the divisor is 0.
unfoldable pub bytes_to_kbps : ℕ → ℕ → Option ℕ
bytes_to_kbps bytes ms =
    let divisor = u32 (u32 ms * 1024) in
    if divisor == 0 then none else some (u32 (u32 bytes * 1000) / divisor)

-- The first `size` bytes of the buffer, from index `i` on.
unfoldable pub fill_test_buffer : ℕ → ℕ → ℕ → List ℕ
fill_test_buffer i zero seed = []
fill_test_buffer i (suc size) seed = u8 (u32 (i + seed)) ∷ fill_test_buffer (i + 1) size seed

unfoldable pub verify_buffer : List ℕ → ℕ → ℕ → ℕ → Bool
verify_buffer buf i zero seed = true
verify_buffer buf i (suc size) seed =
    let rest = verify_buffer (drop 1 buf) (i + 1) size seed in
    if not (get_or buf 0 0 == u8 (u32 (i + seed))) then false else rest

-- How the loop over the chunks to write ends: with the bytes written, or at an error.
pub data WriteEnd (S : Type 0) : Type 0 where
  written : ℕ → S → WriteEnd S
  write_failed : ℤ → S → WriteEnd S

abbrev pub count_of : ℤ → ℕ
count_of (pos n) = n
count_of (negsuc n) = 0

module _ {S : Type 0} (fs : Fs S) where
  -- The chunks `i` and up, of which `left` are left.
  unfoldable pub write_chunks : ℕ → ℕ → ℕ → S → WriteEnd S
  write_chunks i zero total_written s = written total_written s
  write_chunks i (suc left) total_written s =
      let (ret, s') = fs.fs_write s (fill_test_buffer 0 chunk_size i) in
      let rest = write_chunks (i + 1) left (u32 (total_written + count_of ret)) s' in
      if is_negative ret then write_failed ret s' else rest

  unfoldable pub after_writing : List Call → WriteEnd S → ℤ × Disk S
  after_writing calls (written total s) =
      (pos 0, record { files = (fs.fs_close (fs.fs_sync s).1).1; calls = file_closed ∷ calls })
  after_writing calls (write_failed ret s) =
      (ret, record { files = (fs.fs_close (fs.fs_sync s).1).1; calls = file_closed ∷ calls })

  -- `buf` says whether `k_malloc` gives a buffer.
  unfoldable pub test_write_speed : Bool → Disk S → ℤ × Disk S
  unfolding after_writing
  test_write_speed buf d =
      let (ret, s) = fs.fs_open d.files speed_file write_create in
      if not buf
      then (negsuc 11, d)
      else if is_negative ret
      then (ret, record d { files = s })
      else after_writing (file_opened ∷ d.calls) (write_chunks 0 chunk_count 0 s)

  -- `verify_ok` at the end of the loop over the chunks to read. A read that fails ends the loop; the
  -- bytes behind those that were read are not looked at.
  unfoldable pub read_chunks : ℕ → ℕ → Bool → S → Bool × S
  read_chunks i zero verify_ok s = (verify_ok, s)
  read_chunks i (suc left) verify_ok s =
      let (ret, bytes, s') = fs.fs_read s chunk_size in
      let ok = verify_buffer bytes 0 (u32 (count_of ret)) i in
      let rest = read_chunks (i + 1) left (if ok then verify_ok else false) s' in
      if is_negative ret then (false, s') else rest

  unfoldable pub test_read_speed : Bool → Disk S → ℤ × Disk S
  test_read_speed buf d =
      let (ret, s) = fs.fs_open d.files speed_file read_only in
      let (verify_ok, s') = read_chunks 0 chunk_count true s in
      if not buf
      then (negsuc 11, d)
      else if is_negative ret
      then (ret, record d { files = s })
      else (
        if verify_ok then pos 0 else negsuc 4,
        record { files = (fs.fs_close s').1; calls = file_closed ∷ file_opened ∷ d.calls },
      )

  -- `ready` is what `disk_access_init` returns and `unlink` the removal of the test file. The tables that
  -- describe the card are only printed.
  unfoldable pub speed_main : ℤ → Bool → Bool → (S → S) → Disk S → ℤ × Disk S
  unfolding test_write_speed test_read_speed
  speed_main ready buf buf' unlink d =
      let (ret, s) = fs.fs_mount d.files mount_point in
      let (ret', d1) = test_write_speed buf (record { files = s; calls = mounted ∷ d.calls }) in
      let (ret'', d2) = test_read_speed buf' d1 in
      if is_err ready
      then (negsuc 0, d)
      else if is_negative ret
      then (negsuc 0, record d { files = s })
      else if is_negative ret'
      then (negsuc 0, d1)
      else if is_negative ret''
      then (negsuc 0, d2)
      else (pos 0, record d2 { files = unlink d2.files })
