-- ===== src/File/System.antt =====
-- The file system that file.h calls, and what POSIX says of it.
use net_library.Base.{ℕ, ◌≡◌, ◌≢◌, true, false, Option, none, some, List, [], ◌++◌, take}
use net_library.Base.Int.{ℤ, pos, is_neg}
use net_library.Status.{is_zero}
use net_library.Status.Layout.{IsInt}

pub record FileSystem : Type 1 where
  pub State : Type 0
  pub errno : State → ℤ
  -- open with O_RDONLY, and with O_CREAT | O_WRONLY | O_TRUNC.
  pub open_read : State → List ℕ → State × ℤ
  pub open_new : State → List ℕ → State × ℤ
  -- The bytes that a read into so much room gives.
  pub read : State → ℤ → ℕ → State × Option (List ℕ)
  pub write : State → ℤ → List ℕ → State × ℤ
  pub close : State → ℤ → State
  pub unlink : State → List ℕ → State × ℤ
  pub rename : State → List ℕ → List ℕ → State × ℤ
  pub mkdir : State → List ℕ → State × ℤ
  pub rmdir : State → List ℕ → State × ℤ
  pub access : State → List ℕ → State × ℤ
  pub stat : State → List ℕ → State × Option ℕ
  pub opendir : State → List ℕ → State × ℤ
  pub readdir : State → ℤ → State × Option (List ℕ)

-- What the files hold and which file a descriptor writes to, with the laws of the calls. Two names
-- that differ are names of two files.
pub record Posix (fs : FileSystem) : Type 0 where
  pub content : fs.State → List ℕ → Option (List ℕ)
  pub opened : fs.State → ℤ → Option (List ℕ)
  pub open_new_empty :
      (s : fs.State) (f : List ℕ)
      → is_neg (fs.open_new s f).1 ≡ false
      → (content (fs.open_new s f).0 f ≡ some [])
        × (opened (fs.open_new s f).0 (fs.open_new s f).1 ≡ some f)
  pub write_takes :
      (s : fs.State) (fd : ℤ) (f xs ys : List ℕ) (n : ℕ)
      → opened s fd ≡ some f
      → content s f ≡ some xs
      → (fs.write s fd ys).1 ≡ pos n
      → content (fs.write s fd ys).0 f ≡ some (xs ++ take n ys)
  pub close_keeps : (s : fs.State) (fd : ℤ) (f : List ℕ) → content (fs.close s fd) f ≡ content s f
  pub unlink_other :
      (s : fs.State) (f g : List ℕ) → f ≢ g → content (fs.unlink s g).0 f ≡ content s f
  pub unlink_gone :
      (s : fs.State) (g : List ℕ) → (fs.unlink s g).1 ≡ pos 0 → content (fs.unlink s g).0 g ≡ none
  pub rename_moves :
      (s : fs.State) (a b : List ℕ)
      → is_zero (fs.rename s a b).1 ≡ true
      → content (fs.rename s a b).0 b ≡ content s a
  pub rename_keeps :
      (s : fs.State) (a b f : List ℕ)
      → is_zero (fs.rename s a b).1 ≡ false
      → content (fs.rename s a b).0 f ≡ content s f
  pub rename_errno :
      (s : fs.State) (a b : List ℕ)
      → is_zero (fs.rename s a b).1 ≡ false
      → IsInt (fs.errno (fs.rename s a b).0) × (is_zero (fs.errno (fs.rename s a b).0) ≡ false)
