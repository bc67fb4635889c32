-- ===== src/Files/Laws.antt =====
-- What the applications rely on of Zephyr's file systems, as hypotheses.
use zephyr_stm32h.Common.{
  ℕ, ◌+◌, ◌-◌, ◌≡◌, false, List, [], ◌++◌, length, take, drop, is_negative, pos,
}
use zephyr_stm32h.Files.{Fs, OpenMode, create_write_trunc, write_create, write_append, read_only}

-- What stands in a file after opening it, and the position in it.
abbrev pub opened_as : OpenMode → List ℕ → List ℕ
opened_as create_write_trunc old = []
opened_as write_create old = old
opened_as write_append old = old
opened_as read_only old = old

abbrev pub opened_at : OpenMode → List ℕ → ℕ
opened_at create_write_trunc old = 0
opened_at write_create old = 0
opened_at write_append old = length old
opened_at read_only old = 0

-- `text s p` is the contents of the file at the path `p`, and `handle s` the path and position of the
-- open file. A call that returns a negative number promises nothing.
pub record FsLaws {S : Type 0} (fs : Fs S) (text : S → List ℕ → List ℕ) (handle : S → List ℕ × ℕ)
    : Type 0 where
  pub open_handle :
      (s : S) (p : List ℕ) (m : OpenMode)
      → is_negative (fs.fs_open s p m).0 ≡ false
      → handle (fs.fs_open s p m).1 ≡ (p, opened_at m (text s p))
  pub open_text :
      (s : S) (p : List ℕ) (m : OpenMode)
      → is_negative (fs.fs_open s p m).0 ≡ false
      → text (fs.fs_open s p m).1 p ≡ opened_as m (text s p)
  -- A write of `n` bytes overwrites what stands at the position.
  pub write_text :
      (s : S) (p data_bytes : List ℕ) (at n : ℕ)
      → handle s ≡ (p, at)
      → (fs.fs_write s data_bytes).0 ≡ pos n
      → text (fs.fs_write s data_bytes).1 p
        ≡ take at (text s p) ++ (take n data_bytes ++ drop (at + n) (text s p))
  -- A read gives what stands at the position, up to the end of the file.
  pub read_text :
      (s : S) (p : List ℕ) (at n size : ℕ)
      → handle s ≡ (p, at)
      → (fs.fs_read s size).0 ≡ pos n
      → (fs.fs_read s size).1 ≡ take size (drop at (text s p))
  pub read_length :
      (s : S) (p : List ℕ) (at n size : ℕ)
      → handle s ≡ (p, at)
      → (fs.fs_read s size).0 ≡ pos n
      → n ≡ length (take size (drop at (text s p)))
  pub close_text : (s : S) (p : List ℕ) → text (fs.fs_close s).1 p ≡ text s p

-- A directory comes to its end: an entry that is given is not given again.
pub record DirLaws {S : Type 0} (fs : Fs S) : Type 0 where
  pub readdir_advances :
      (s : S)
      → is_negative (fs.fs_readdir s).0 ≡ false
      → fs.entries_left s ≡ 0
      → (fs.fs_readdir s).1 ≡ []
  pub readdir_left :
      (s : S)
      → is_negative (fs.fs_readdir s).0 ≡ false
      → fs.entries_left (fs.fs_readdir s).2 ≡ fs.entries_left s - 1

-- A read and a write move the position by the bytes that they report; a read and `fs_sync` keep the file.
pub record PositionLaws {S : Type 0} (fs : Fs S) (text : S → List ℕ → List ℕ)
    (handle : S → List ℕ × ℕ) : Type 0 where
  pub write_moves :
      (s : S) (p data_bytes : List ℕ) (at n : ℕ)
      → handle s ≡ (p, at)
      → (fs.fs_write s data_bytes).0 ≡ pos n
      → handle (fs.fs_write s data_bytes).1 ≡ (p, at + n)
  pub read_moves :
      (s : S) (p : List ℕ) (at n size : ℕ)
      → handle s ≡ (p, at)
      → (fs.fs_read s size).0 ≡ pos n
      → handle (fs.fs_read s size).2 ≡ (p, at + n)
  pub read_keeps : (s : S) (p : List ℕ) (size : ℕ) → text (fs.fs_read s size).2 p ≡ text s p
  pub sync_keeps : (s : S) (p : List ℕ) → text (fs.fs_sync s).1 p ≡ text s p
