-- ===== src/Files.antt =====
-- Zephyr's file system API, as the applications app81_flash_fs and app20_sdcard call it.
pub mod Laws
pub mod Flash
pub mod SdCard
pub mod Speed
use zephyr_stm32h.Common.{
  ℕ, zero, suc, ◌+◌, ◌-◌, ◌*◌, ◌/◌, ◌%◌, ◌^◌, ◌≤◌, ◌<◌, ◌≡◌, refl, sym, ap, subst, ◌∙◌, ◌≢◌, ◌↔◌,
  ◌⊎◌, inl, inr, Bool, true, false, not, ◌&&◌, ◌||◌, Option, none, some, List, [], ◌∷◌, ◌++◌,
  append-nil, append_assoc, arith, ltb, leb, ◌==◌, if◌then◌else◌, lt→ltb, le→ltb, le→leb, lt→leb,
  ==_iff, ==_refl, Bool-cases, if_rule, length, get_or, set, take, drop, replicate, All,
  length-append, length-take, length-drop, length-replicate, length-set, take-append-drop,
  take-append_left, take-append_right, drop-append_right, take_all, get_or-append_left,
  get_or-append_right, get_or-take, get_or-drop, u8, u16, u32, is_negative, is_err, le16, le32,
  bytes16, bytes32, ℤ, pos, negsuc,
}

-- The flags of `fs_open` that are used.
pub data OpenMode : Type 0 where
  -- FS_O_CREATE | FS_O_WRITE | FS_O_TRUNC
  create_write_trunc : OpenMode
  -- FS_O_WRITE | FS_O_CREATE
  write_create : OpenMode
  -- FS_O_WRITE | FS_O_APPEND
  write_append : OpenMode
  -- FS_O_READ
  read_only : OpenMode

-- The calls, over a type of file systems with the file or directory that is open. `fs_read` takes a
-- size and gives the bytes that it stores; `fs_readdir` gives the name of an entry, empty at the end.
-- `entries_left` bounds the entries that the open directory has yet to give.
pub record Fs (S : Type 0) : Type 0 where
  pub fs_open : S → List ℕ → OpenMode → ℤ × S
  pub fs_write : S → List ℕ → ℤ × S
  pub fs_read : S → ℕ → ℤ × List ℕ × S
  pub fs_sync : S → ℤ × S
  pub fs_close : S → ℤ × S
  pub fs_opendir : S → List ℕ → ℤ × S
  pub fs_readdir : S → ℤ × List ℕ × S
  pub fs_closedir : S → ℤ × S
  pub fs_mkdir : S → List ℕ → ℤ × S
  pub fs_mount : S → List ℕ → ℤ × S
  pub fs_unmount : S → ℤ × S
  pub entries_left : S → ℕ

-- The calls that acquire something and succeed, and those that release it.
pub data Call : Type 0 where
  file_opened file_closed dir_opened dir_closed mounted unmounted : Call

-- The file system and the calls so far, the latest first.
pub record Disk (S : Type 0) : Type 0 where
  pub files : S
  pub calls : List Call

-- What a function adds to the calls: pairs of opening and closing.
pub data Paired (old : List Call) : List Call → Type 0 where
  unchanged : Paired old old
  file : {calls : List Call} → Paired old calls → Paired old (file_closed ∷ file_opened ∷ calls)
  directory : {calls : List Call} → Paired old calls → Paired old (dir_closed ∷ dir_opened ∷ calls)

pub Paired-trans : {a b c : List Call} → Paired a b → Paired b c → Paired a c
Paired-trans p unchanged = p
Paired-trans p (file q) = file (Paired-trans p q)
Paired-trans p (directory q) = directory (Paired-trans p q)

-- How a loop over a directory ends: with the result of the last `fs_readdir`, or without fuel.
pub data DirEnd (S : Type 0) : Type 0 where
  listed : ℤ → S → DirEnd S
  out_of_fuel : S → DirEnd S

abbrev pub is_empty : List ℕ → Bool
is_empty [] = true
is_empty (x ∷ xs) = x == 0

-- The bytes of a C string that are copied into `buf`, and the terminator behind them.
abbrev pub terminated : List ℕ → List ℕ → ℤ → List ℕ
terminated buf bytes (pos n) = set (take n bytes ++ drop n buf) n 0
terminated buf bytes (negsuc n) = buf
