-- ===== src/File.antt =====
-- file.h: whole files that are read, written, renamed and removed.
--
-- The file system and its system calls are the parameter `FileSystem`; a result of a call is an int,
-- negative (or, for those that return 0, not 0) where it fails, and then `errno` says why. `write`
-- gives its result as the int in which the code keeps it: Linux writes less than 2^31 bytes in one
-- call. `host` and `strerror` are those of a status. A loop runs on fuel, and `none` means that it ran
-- out. An ExitCaller is the close behind the result.
pub mod System
pub mod Saving
pub mod Reading
mod Tests
use net_library.Base.{
  ℕ, zero, suc, ◌+◌, Bool, true, false, Option, none, some, List, [], ◌∷◌, ◌++◌, codes,
  if◌then◌else◌,
}
use net_library.Base.Endian.{Endian}
use net_library.Base.Int.{ℤ, pos, negsuc, is_neg}
use net_library.File.System.{FileSystem}
use net_library.Status
use net_library.Status.{Status, ok_status, is_zero}

module _ (fs : FileSystem) (host : Endian) (strerror : ℤ → List ℕ) where
  -- Status::ioError, at this state of the system.
  pub io_error : fs.State → List ℕ → List ℕ → Status
  io_error s op name = Status.io_error host strerror (fs.errno s) op name

  abbrev pub status_of : fs.State → ℤ → List ℕ → List ℕ → Status
  unfolding io_error
  status_of s r op name = if is_neg r then io_error s op name else ok_status

  -- The calls of which 0 is the result where they succeed.
  abbrev pub status_of_zero : fs.State × ℤ → List ℕ → List ℕ → fs.State × Status
  unfolding io_error
  status_of_zero (s, r) op name = (s, if is_zero r then ok_status else io_error s op name)

  -- A round of the loop of getContent, and the end of the function; a read is none where it fails.
  abbrev pub after_read :
      (fs.State → List ℕ → Option (fs.State × Status × List ℕ))
      → ℤ
      → List ℕ
      → List ℕ
      → fs.State × Option (List ℕ)
      → Option (fs.State × Status × List ℕ)
  unfolding io_error
  after_read rest fd fname cont (s, none) =
      some (fs.close s fd, io_error s (codes "read") fname, cont)
  after_read rest fd fname cont (s, some []) = some (fs.close s fd, ok_status, cont)
  after_read rest fd fname cont (s, some (x ∷ xs)) = rest s (cont ++ x ∷ xs)

  pub read_loop : ℕ → fs.State → ℤ → List ℕ → List ℕ → Option (fs.State × Status × List ℕ)
  unfolding io_error
  read_loop zero s fd fname cont = none
  read_loop (suc n) s fd fname cont =
      after_read (λ s' c. read_loop n s' fd fname c) fd fname cont (fs.read s fd 4096)

  -- getContent: the status, and what `cont` is then.
  pub get_content : ℕ → fs.State → List ℕ → List ℕ → Option (fs.State × Status × List ℕ)
  unfolding read_loop
  get_content fuel s fname cont =
      let o = fs.open_read s fname in
      let rest = read_loop fuel o.0 o.1 fname cont in
      if is_neg o.1 then some (o.0, io_error o.0 (codes "open") fname, cont) else rest

  pub write_content : fs.State → List ℕ → List ℕ → fs.State × Status
  unfolding io_error
  write_content s fname cont =
      let o = fs.open_new s fname in
      let w = fs.write o.0 o.1 cont in
      if is_neg o.1
      then (o.0, io_error o.0 (codes "open") fname)
      else (fs.close w.0 o.1, status_of w.0 w.1 (codes "write") fname)

  pub rename_file : fs.State → List ℕ → List ℕ → fs.State × Status
  unfolding io_error
  rename_file s fname target =
      status_of_zero (fs.rename s fname target) (codes "rename") (fname ++ (32 ∷ target))

  pub rename_save : fs.State → List ℕ → List ℕ → List ℕ → fs.State × Status
  unfolding write_content rename_file
  rename_save s new_name old_name cont =
      let w = write_content s old_name cont in
      if Status.is_ok host w.1 then rename_file (fs.unlink w.0 new_name).0 old_name new_name else w

  pub delete_file : fs.State → List ℕ → fs.State × Status
  unfolding io_error
  delete_file s fname = status_of_zero (fs.unlink s fname) (codes "unlink") fname

  pub create_dir : fs.State → List ℕ → fs.State × Status
  unfolding io_error
  create_dir s dname = status_of_zero (fs.mkdir s dname) (codes "mkdir") dname

  pub delete_dir : fs.State → List ℕ → fs.State × Status
  unfolding io_error
  delete_dir s dname = status_of_zero (fs.rmdir s dname) (codes "rmdir") dname

  abbrev pub size_of : fs.State × Option ℕ → List ℕ → ℕ → fs.State × Status × ℕ
  unfolding io_error
  size_of (s, none) fname size = (s, io_error s (codes "stat") fname, size)
  size_of (s, some n) fname size = (s, ok_status, n)

  -- getFileSize, of a pointer that is not null: the status, and `*size`.
  pub get_file_size : fs.State → List ℕ → ℕ → fs.State × Status × ℕ
  unfolding io_error
  get_file_size s fname size = size_of (fs.stat s fname) fname size

  pub file_exist : fs.State → List ℕ → fs.State × Bool
  file_exist s fname = let r = fs.access s fname in (r.0, is_zero r.1)

  -- The loop of getChildren; readdir gives none behind the last entry.
  abbrev pub next_entry :
      (fs.State → List (List ℕ) → Option (fs.State × Status × List (List ℕ)))
      → ℤ
      → List (List ℕ)
      → fs.State × Option (List ℕ)
      → Option (fs.State × Status × List (List ℕ))
  next_entry rest dir result (s, none) = some (fs.close s dir, ok_status, result)
  next_entry rest dir result (s, some name) = rest s (result ++ name ∷ [])

  pub read_dir : ℕ → fs.State → ℤ → List (List ℕ) → Option (fs.State × Status × List (List ℕ))
  read_dir zero s dir result = none
  read_dir (suc n) s dir result =
      next_entry (λ s' r. read_dir n s' dir r) dir result (fs.readdir s dir)

  -- getChildren, of a pointer that is not null.
  pub get_children : ℕ → fs.State → List ℕ → Option (fs.State × Status × List (List ℕ))
  unfolding read_dir io_error
  get_children fuel s dname =
      let o = fs.opendir s dname in
      let rest = read_dir fuel o.0 o.1 [] in
      if is_neg o.1 then some (o.0, io_error o.0 (codes "opendir") dname, []) else rest
