-- ===== src/Files/Flash/RoundTrip.antt =====
-- What app81_flash_fs writes to a file is what it reads back.
use zephyr_stm32h.Common.{
  true≢false, ℕ, zero, suc, ◌+◌, ◌-◌, ◌≤◌, ◌<◌, ◌≡◌, refl, sym, ap, subst, ◌∙◌, false, List, [],
  ◌∷◌, ◌++◌, append-nil, arith, if◌then◌else◌, length, take, drop, length-append, length-take,
  take_all, is_negative, ℤ, pos, negsuc,
}
use zephyr_stm32h.Files.{
  Fs, Disk, OpenMode, create_write_trunc, write_append, read_only, terminated, file_opened,
}
use zephyr_stm32h.Files.Laws.{FsLaws, opened_as, opened_at}
use zephyr_stm32h.Files.Flash.{close_file, write_opened, write_file, append_file, read_file}

-- What a file of contents `old` holds after `n` of `bytes` are written to it.
abbrev pub after_write : OpenMode → List ℕ → List ℕ → ℕ → List ℕ
after_write mode old bytes n =
    let at = opened_at mode old in
    let start = opened_as mode old in take at start ++ (take n bytes ++ drop (at + n) start)

drop_all : (n : ℕ) (xs : List ℕ) → length xs ≤ n → drop n xs ≡ []
drop_all zero [] h = refl
drop_all (suc n) [] h = refl
drop_all zero (x ∷ xs) h = absurd (omega arith)
drop_all (suc n) (x ∷ xs) h = drop_all n xs (omega arith)

after_write_trunc :
    (old bytes : List ℕ) (n : ℕ)
    → length bytes ≡ n
    → after_write create_write_trunc old bytes n ≡ bytes
after_write_trunc old bytes n h =
    rw (take_all n bytes (omega arith), drop_all (0 + n) [] (omega arith)) (append-nil bytes)

after_write_append :
    (old bytes : List ℕ) (n : ℕ)
    → length bytes ≡ n
    → after_write write_append old bytes n ≡ old ++ bytes
after_write_append old bytes n h =
    rw
      (
        take_all n bytes (omega arith),
        take_all (length old) old (omega arith),
        drop_all (length old + n) old (omega arith),
        append-nil bytes,
      )
      refl

-- A choice between a negative result and another one that is a count is the other one.
pub chosen-pos : (ret rc : ℤ) (n : ℕ) → (if is_negative ret then ret else rc) ≡ pos n → rc ≡ pos n
chosen-pos (pos m) rc n h = h
chosen-pos (negsuc m) rc n h = absurd (true≢false (ap is_negative h))

-- A branch that returns a negative `rc` was not taken if the result is a count.
pub opened-pos {ℓ} :
    {A : Type ℓ} (result : A → ℤ) (rc : ℤ) (x y : A) (n : ℕ)
    → result x ≡ rc
    → result (if is_negative rc then x else y) ≡ pos n
    → is_negative rc ≡ false
opened-pos result (pos m) x y n e h = refl
opened-pos result (negsuc m) x y n e h = absurd (true≢false (ap is_negative (sym e ∙ h)))

module _ {S : Type 0} {fs : Fs S} {text : S → List ℕ → List ℕ} {handle : S → List ℕ × ℕ}
    (laws : FsLaws fs text handle) where
  open laws use {open_handle, open_text, write_text, read_text, read_length, close_text}

  text-write_opened :
      (mode : OpenMode) (d : Disk S) (path bytes : List ℕ) (len n : ℕ)
      → (write_opened fs mode d path bytes len).0 ≡ pos n
      → text (write_opened fs mode d path bytes len).1.files path
        ≡ after_write mode (text d.files path) (take len bytes) n
  unfolding write_opened close_file
  text-write_opened mode d path bytes len n h =
      let r = fs.fs_open d.files path mode in
      let w = fs.fs_write r.1 (take len bytes) in
      let at = opened_at mode (text d.files path) in
      let failed : ℤ × Disk S = (r.0, record d { files = r.1 }) in
      let closed = close_file fs (file_opened ∷ d.calls) w.0 w.1 in
      let good = opened-pos (λ x. x.0) r.0 failed closed n refl h in
      let wrote : w.0 ≡ pos n =
        chosen-pos (fs.fs_close w.1).0 w.0 n
          (subst (λ c. (if c then failed else closed).0 ≡ pos n) good h) in
      rw good (
        close_text w.1 path
        ∙ write_text r.1 path (take len bytes) at n (open_handle d.files path mode good) wrote
        ∙ ap (λ (t : List ℕ). take at t ++ (take n (take len bytes) ++ drop (at + n) t))
            (open_text d.files path mode good))

  -- If `write_file` reports all of its bytes, the file holds these bytes alone.
  pub text-write_file :
      (d : Disk S) (path bytes : List ℕ) (len : ℕ)
      → len ≤ length bytes
      → (write_file fs d path bytes len).0 ≡ pos len
      → text (write_file fs d path bytes len).1.files path ≡ take len bytes
  unfolding write_file
  text-write_file d path bytes len hl h =
      text-write_opened create_write_trunc d path bytes len len h
      ∙ after_write_trunc (text d.files path) (take len bytes) len
          (omega (arith, length-take len bytes))

  -- If `append_file` reports all of its bytes, they stand behind what the file held.
  pub text-append_file :
      (d : Disk S) (path bytes : List ℕ) (len : ℕ)
      → len ≤ length bytes
      → (append_file fs d path bytes len).0 ≡ pos len
      → text (append_file fs d path bytes len).1.files path ≡ text d.files path ++ take len bytes
  unfolding append_file
  text-append_file d path bytes len hl h =
      text-write_opened write_append d path bytes len len h
      ∙ after_write_append (text d.files path) (take len bytes) len
          (omega (arith, length-take len bytes))

  -- `read_file` gives what the file holds, as far as it fits in front of a terminator.
  pub read_file-text :
      (d : Disk S) (path buf : List ℕ) (size m : ℕ)
      → (read_file fs d path buf size).0 ≡ pos m
      → let old = text d.files path in
        (m ≡ length (take (size - 1) old))
        × ((read_file fs d path buf size).1 ≡ terminated buf (take (size - 1) old) (pos m))
  unfolding read_file close_file
  read_file-text d path buf size m h =
      let r = fs.fs_open d.files path read_only in
      let x = fs.fs_read r.1 (size - 1) in
      let c = close_file fs (file_opened ∷ d.calls) x.0 x.2 in
      let failed : ℤ × List ℕ × Disk S = (r.0, buf, record d { files = r.1 }) in
      let closed : ℤ × List ℕ × Disk S = (c.0, terminated buf x.1 x.0, c.1) in
      let good = opened-pos (λ y. y.0) r.0 failed closed m refl h in
      let read : x.0 ≡ pos m =
        chosen-pos (fs.fs_close x.2).0 x.0 m
          (subst (λ b. (if b then failed else closed).0 ≡ pos m) good h) in
      let at = open_handle d.files path read_only good in
      let same = open_text d.files path read_only good in
      let bytes = read_text r.1 path 0 m (size - 1) at read in
      let len = read_length r.1 path 0 m (size - 1) at read in
      (
        len ∙ ap (λ (t : List ℕ). length (take (size - 1) t)) same,
        rw (good, read, bytes, same) refl,
      )

  -- What `write_file` and `append_file` report as written in full, `read_file` reads back into a buffer
  -- that has room for it and a terminator: the bytes of both, one behind the other.
  pub write-append-read :
      (d : Disk S) (path first second buf : List ℕ) (len len' size m : ℕ)
      → len ≤ length first
      → len' ≤ length second
      → len + len' < size
      → (write_file fs d path first len).0 ≡ pos len
      → (append_file fs (write_file fs d path first len).1 path second len').0 ≡ pos len'
      → (read_file fs
          (append_file fs (write_file fs d path first len).1 path second len').1
          path
          buf
          size).0
        ≡ pos m
      → (m ≡ len + len')
        × ((read_file fs
              (append_file fs (write_file fs d path first len).1 path second len').1
              path
              buf
              size).1
            ≡ terminated buf (take len first ++ take len' second) (pos m))
  write-append-read d path first second buf len len' size m hl hl' room wrote added read =
      let d1 = (write_file fs d path first len).1 in
      let d2 = (append_file fs d1 path second len').1 in
      let both = take len first ++ take len' second in
      let stored : text d2.files path ≡ both =
        text-append_file d1 path second len' hl' added
        ∙ ap (λ (t : List ℕ). t ++ take len' second) (text-write_file d path first len hl wrote) in
      let total : length both ≡ len + len' = omega (
        arith,
        length-append (take len first) (take len' second),
        length-take len first,
        length-take len' second,
      ) in
      let got = read_file-text d2 path buf size m read in
      let all : take (size - 1) (text d2.files path) ≡ both =
        ap (take (size - 1)) stored ∙ take_all (size - 1) both (omega arith) in
      (got.0 ∙ ap length all ∙ total, got.1 ∙ ap (λ (t : List ℕ). terminated buf t (pos m)) all)
