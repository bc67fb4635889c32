-- ===== src/Tests/ToyFs.antt =====
-- A file system in memory that meets the laws of `Files.Laws`.
use zephyr_stm32h.Common.{
  ℕ, ◌+◌, ◌-◌, ◌≡◌, refl, sym, ap, ◌∙◌, Bool, true, false, ◌&&◌, List, [], ◌∷◌, ◌++◌, arith, ◌==◌,
  if◌then◌else◌, ==_refl, length, take, drop, take_all, ℤ, pos, negsuc,
}
use zephyr_stm32h.Files.{Fs, OpenMode, Disk}
use zephyr_stm32h.Files.Laws.{FsLaws, PositionLaws, DirLaws, opened_as, opened_at}

-- The files by their paths, the open one with the position in it, and the entries of a directory that
-- are left.
pub record Store : Type 0 where
  pub file_at : List ℕ → List ℕ
  pub open_path : List ℕ
  pub position : ℕ
  pub left : ℕ

abbrev pub same_path : List ℕ → List ℕ → Bool
same_path [] [] = true
same_path [] (y ∷ ys) = false
same_path (x ∷ xs) [] = false
same_path (x ∷ xs) (y ∷ ys) = x == y && same_path xs ys

same_path_refl : (p : List ℕ) → same_path p p ≡ true
same_path_refl [] = refl
same_path_refl (x ∷ xs) = rw (==_refl x) (same_path_refl xs)

abbrev pub store : Store → List ℕ → List ℕ → List ℕ → List ℕ
store s p bytes q = if same_path q p then bytes else s.file_at q

abbrev pub toy_open : Store → List ℕ → OpenMode → Store
toy_open s p m = record s {
  file_at = store s p (opened_as m (s.file_at p));
  open_path = p;
  position = opened_at m (s.file_at p);
}

abbrev pub toy_write : Store → List ℕ → Store
toy_write s bytes =
    let old = s.file_at s.open_path in
    record s {
      file_at =
          store s s.open_path
            (take s.position old ++ (bytes ++ drop (s.position + length bytes) old));
      position = s.position + length bytes;
    }

abbrev pub toy_read : Store → ℕ → List ℕ
toy_read s size = take size (drop s.position (s.file_at s.open_path))

abbrev pub toy_fs : Fs Store
toy_fs = record {
  fs_open = λ s p m. (pos 0, toy_open s p m);
  fs_write = λ s bytes. (pos (length bytes), toy_write s bytes);
  fs_read = λ s size. (
    pos (length (toy_read s size)),
    toy_read s size,
    record s { position = s.position + length (toy_read s size) },
  );
  fs_sync = λ s. (pos 0, s);
  fs_close = λ s. (pos 0, s);
  fs_opendir = λ s p. (pos 0, record s { left = 1 });
  fs_readdir = λ s. (pos 0, if s.left == 0 then [] else 0x61 ∷ [], record s { left = s.left - 1 });
  fs_closedir = λ s. (pos 0, s);
  fs_mkdir = λ s p. (pos 0, s);
  fs_mount = λ s p. (pos 0, s);
  fs_unmount = λ s. (pos 0, s);
  entries_left = λ s. s.left;
}

abbrev text : Store → List ℕ → List ℕ
text s p = s.file_at p

abbrev handle : Store → List ℕ × ℕ
handle s = (s.open_path, s.position)

abbrev count : ℤ → ℕ
count (pos n) = n
count (negsuc n) = 0

text-toy_write :
    (s : Store) (p bytes : List ℕ) (at n : ℕ)
    → handle s ≡ (p, at)
    → length bytes ≡ n
    → text (toy_write s bytes) p ≡ take at (text s p) ++ (take n bytes ++ drop (at + n) (text s p))
text-toy_write s p bytes at n h e =
    let path : s.open_path ≡ p = ap (λ x. x.0) h in
    let place : s.position ≡ at = ap (λ x. x.1) h in
    rw (path, place, same_path_refl p, e, take_all n bytes (omega arith)) refl

pub toy_fs-FsLaws : FsLaws toy_fs text handle
toy_fs-FsLaws = record {
  open_handle = λ s p m _. refl;
  open_text = λ s p m _. rw (same_path_refl p) refl;
  write_text = λ s p bytes at n h e. text-toy_write s p bytes at n h (ap count e);
  read_text = λ s p at n size h e. ap (λ (x : List ℕ × ℕ). take size (drop x.1 (s.file_at x.0))) h;
  read_length = λ s p at n size h e.
      sym (ap count e) ∙ ap (λ (x : List ℕ × ℕ). length (take size (drop x.1 (s.file_at x.0)))) h;
  close_text = λ s p. refl;
}

pub toy_fs-PositionLaws : PositionLaws toy_fs text handle
toy_fs-PositionLaws = record {
  write_moves = λ s p bytes at n h e.
      let path : s.open_path ≡ p = ap (λ x. x.0) h in
      let place : s.position ≡ at = ap (λ x. x.1) h in rw (path, place, ap count e) refl;
  read_moves = λ s p at n size h e.
      let path : s.open_path ≡ p = ap (λ x. x.0) h in
      let place : s.position ≡ at = ap (λ x. x.1) h in
      let size : length (toy_read s size) ≡ n = ap count e in rw size (rw (path, place) refl);
  read_keeps = λ s p size. refl;
  sync_keeps = λ s p. refl;
}

pub toy_fs-DirLaws : DirLaws toy_fs
toy_fs-DirLaws = record {
  readdir_advances = λ s _ z. let t : (s.left == 0) ≡ true = ground arith in rw t refl;
  readdir_left = λ s _. refl;
}

-- No files, and a longer old one at every path.
abbrev pub empty_disk : Disk Store
empty_disk = record {
  files = record { file_at = λ p. []; open_path = []; position = 0; left = 0 };
  calls = [];
}

abbrev pub used_disk : Disk Store
used_disk = record {
  files = record { file_at = λ p. 7 ∷ 7 ∷ 7 ∷ 7 ∷ []; open_path = []; position = 0; left = 0 };
  calls = [];
}
