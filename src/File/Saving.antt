-- ===== src/File/Saving.antt =====
-- file.h: what renameSave leaves of the two files.
use net_library.Base.{
  ℕ, ◌≡◌, ◌≢◌, refl, ap, ◌∙◌, true, false, none, some, List, [], ◌∷◌, ◌++◌, take, codes,
}
use net_library.Base.Endian.{Endian}
use net_library.Base.Int.{ℤ, pos, is_neg}
use net_library.File.{io_error, write_content, rename_file, rename_save}
use net_library.File.System.{FileSystem, Posix}
use net_library.Status
use net_library.Status.{Status, ok_status, is_ok, is_zero}
use net_library.Status.Layout.{io_error-code}

module _ (fs : FileSystem) (p : Posix fs) (host : Endian) (strerror : ℤ → List ℕ) where
  -- The state when writeContent returns.
  abbrev pub written : fs.State → List ℕ → List ℕ → fs.State
  written s f cont = let o = fs.open_new s f in fs.close (fs.write o.0 o.1 cont).0 o.1

  -- The state in which renameSave calls rename.
  abbrev pub unlinked : fs.State → List ℕ → List ℕ → List ℕ → fs.State
  unlinked s new_name old_name cont = (fs.unlink (written s old_name cont) new_name).0

  -- The file can be opened, and write takes `n` bytes.
  abbrev pub Written : fs.State → List ℕ → List ℕ → ℕ → Type 0
  Written s f cont n =
      let o = fs.open_new s f in (is_neg o.1 ≡ false) × ((fs.write o.0 o.1 cont).1 ≡ pos n)

  write_content-ok :
      (s : fs.State) (f cont : List ℕ) (n : ℕ)
      → Written s f cont n
      → write_content fs host strerror s f cont ≡ (written s f cont, ok_status)
  unfolding write_content
  write_content-ok s f cont n h = rw (h.0, h.1) refl

  content-written :
      (s : fs.State) (f cont : List ℕ) (n : ℕ)
      → Written s f cont n
      → p.content (written s f cont) f ≡ some (take n cont)
  content-written s f cont n h =
      let o = fs.open_new s f in
      let e = p.open_new_empty s f h.0 in
      p.close_keeps (fs.write o.0 o.1 cont).0 o.1 f ∙ p.write_takes o.0 o.1 f [] cont n e.1 e.0 h.1

  content-unlinked :
      (s : fs.State) (new_name old_name cont : List ℕ) (n : ℕ)
      → old_name ≢ new_name
      → Written s old_name cont n
      → p.content (unlinked s new_name old_name cont) old_name ≡ some (take n cont)
  content-unlinked s new_name old_name cont n d h =
      p.unlink_other (written s old_name cont) old_name new_name d
      ∙ content-written s old_name cont n h

  rename_save-rename_file :
      (s : fs.State) (new_name old_name cont : List ℕ) (n : ℕ)
      → Written s old_name cont n
      → rename_save fs host strerror s new_name old_name cont
        ≡ rename_file fs host strerror (unlinked s new_name old_name cont) old_name new_name
  unfolding rename_save is_ok Status.code
  rename_save-rename_file s new_name old_name cont n h =
      rw (write_content-ok s old_name cont n h) refl

  -- Where the file can be opened, write takes `n` bytes and rename succeeds, renameSave returns a
  -- status that is ok, and the new file holds the first `n` bytes.
  pub rename_save-saved :
      (s : fs.State) (new_name old_name cont : List ℕ) (n : ℕ)
      → old_name ≢ new_name
      → Written s old_name cont n
      → is_zero (fs.rename (unlinked s new_name old_name cont) old_name new_name).1 ≡ true
      → let r = rename_save fs host strerror s new_name old_name cont in
        (is_ok host r.1 ≡ true) × (p.content r.0 new_name ≡ some (take n cont))
  unfolding rename_file is_ok Status.code
  rename_save-saved s new_name old_name cont n d h z =
      rw (rename_save-rename_file s new_name old_name cont n h, z)
        (
          refl,
          p.rename_moves (unlinked s new_name old_name cont) old_name new_name z
              ∙ content-unlinked s new_name old_name cont n d h,
        )

  -- Where the file can be opened, write takes `n` bytes and unlink removes the new file, but rename
  -- fails, renameSave returns a status that is not ok; the new file is gone, and the other one holds
  -- the first `n` bytes.
  pub rename_save-lost :
      (s : fs.State) (new_name old_name cont : List ℕ) (n : ℕ)
      → old_name ≢ new_name
      → Written s old_name cont n
      → (fs.unlink (written s old_name cont) new_name).1 ≡ pos 0
      → is_zero (fs.rename (unlinked s new_name old_name cont) old_name new_name).1 ≡ false
      → let r = rename_save fs host strerror s new_name old_name cont in
        (is_ok host r.1 ≡ false)
        × (p.content r.0 new_name ≡ none)
        × (p.content r.0 old_name ≡ some (take n cont))
  unfolding rename_file is_ok io_error
  rename_save-lost s new_name old_name cont n d h u z =
      let s₁ = unlinked s new_name old_name cont in
      let e = p.rename_errno s₁ old_name new_name z in
      rw (rename_save-rename_file s new_name old_name cont n h, z)
        (
          ap is_zero (
                io_error-code host strerror (fs.errno (fs.rename s₁ old_name new_name).0)
                  (codes "rename") (old_name ++ (32 ∷ new_name)) e.0)
              ∙ e.1,
          p.rename_keeps s₁ old_name new_name new_name z
              ∙ p.unlink_gone (written s old_name cont) new_name u,
          p.rename_keeps s₁ old_name new_name old_name z
              ∙ content-unlinked s new_name old_name cont n d h,
        )
