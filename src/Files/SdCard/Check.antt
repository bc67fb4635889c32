-- ===== src/Files/SdCard/Check.antt =====
-- What app20_sdcard writes, reads back and compares.
use zephyr_stm32h.Common.{
  ℕ, zero, suc, ◌+◌, ◌<◌, ◌≡◌, refl, sym, ap, ◌∙◌, ◌↔◌, true, false, true≢false, Option, none, some,
  List, [], ◌∷◌, ◌++◌, arith, ◌==◌, get_or, take, drop, is_negative, pos,
}
use zephyr_stm32h.Files.{Fs, Disk, write_create}
use zephyr_stm32h.Files.Laws.{FsLaws}
use zephyr_stm32h.Files.SdCard.{
  mismatch, consistency, verify_data_consistency, close_after, test_file_write,
}

get_or-drop_one : (xs : List ℕ) (i : ℕ) → get_or (drop 1 xs) i 0 ≡ get_or xs (suc i) 0
get_or-drop_one [] i = refl
get_or-drop_one (x ∷ xs) i = refl

-- No mismatch is found exactly if the bytes agree.
mismatch-none :
    (len i : ℕ) (xs ys : List ℕ)
    → mismatch len i xs ys ≡ none
    → (k : ℕ) → k < len
    → get_or xs k 0 ≡ get_or ys k 0
unfolding mismatch
mismatch-none zero i xs ys h k hk = absurd (omega arith)
mismatch-none (suc len) i xs ys h zero hk = ground arith
mismatch-none (suc len) i xs ys h (suc k) hk =
    let rest = mismatch-none len (i + 1) (drop 1 xs) (drop 1 ys) (ground arith) k (omega arith) in
    sym (get_or-drop_one xs k) ∙ rest ∙ get_or-drop_one ys k

none-mismatch :
    (len i : ℕ) (xs ys : List ℕ)
    → ((k : ℕ) → k < len → get_or xs k 0 ≡ get_or ys k 0)
    → mismatch len i xs ys ≡ none
unfolding mismatch
none-mismatch zero i xs ys h = refl
none-mismatch (suc len) i xs ys h =
    let same : (get_or xs 0 0 == get_or ys 0 0) ≡ true = ground (arith, h 0) in
    rw same (
      none-mismatch len (i + 1) (drop 1 xs) (drop 1 ys)
        (λ k hk. get_or-drop_one xs k ∙ h (suc k) (omega arith) ∙ sym (get_or-drop_one ys k)))

consistency-none : (m : Option ℕ) → consistency m ≡ pos 0 → m ≡ none
consistency-none none h = refl
consistency-none (some at) h = absurd (true≢false (ap is_negative h))

-- The comparison returns 0 exactly if the first `len` bytes of both are the same.
pub verify_data_iff :
    (write_data read_data : List ℕ) (len : ℕ)
    → (verify_data_consistency write_data read_data len ≡ pos 0)
      ↔ ((k : ℕ) → k < len → get_or write_data k 0 ≡ get_or read_data k 0)
unfolding verify_data_consistency
verify_data_iff write_data read_data len = (
  λ h.
      mismatch-none len 0 write_data read_data
        (consistency-none (mismatch len 0 write_data read_data) h),
  λ h. ap consistency (none-mismatch len 0 write_data read_data h),
)

module _ {S : Type 0} {fs : Fs S} {text : S → List ℕ → List ℕ} {handle : S → List ℕ × ℕ}
    (laws : FsLaws fs text handle) where
  open laws use {open_handle, open_text, write_text, close_text}

  -- A write of `n` bytes to a file that exists replaces its first `n` bytes and leaves what stands behind
  -- them, since the file is not truncated.
  pub file_write_keeps_rest :
      (d : Disk S) (path bytes : List ℕ) (len n : ℕ)
      → is_negative (fs.fs_open d.files path write_create).0 ≡ false
      → (fs.fs_write (fs.fs_open d.files path write_create).1 (take len bytes)).0 ≡ pos n
      → text (test_file_write fs d path bytes len).1.files path
        ≡ take n (take len bytes) ++ drop n (text d.files path)
  unfolding test_file_write close_after
  file_write_keeps_rest d path bytes len n opened wrote =
      let s = (fs.fs_open d.files path write_create).1 in
      let w = fs.fs_write s (take len bytes) in
      let fine : is_negative w.0 ≡ false = ap is_negative wrote in
      let z : 0 + n ≡ n = omega arith in
      rw (opened, fine)
        (close_text w.1 path
          ∙ write_text s path (take len bytes) 0 n (open_handle d.files path write_create opened)
              wrote
          ∙ ap (λ (t : List ℕ). take n (take len bytes) ++ drop (0 + n) t)
              (open_text d.files path write_create opened)
          ∙ ap (λ (m : ℕ). take n (take len bytes) ++ drop m (text d.files path)) z)
