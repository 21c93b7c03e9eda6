-- ===== src/File/Reading.antt =====
-- file.h: what getContent reads.
use net_library.Base.{
  ℕ, zero, suc, ◌<◌, ◌≡◌, refl, Bool, true, false, Option, none, some, List, [], ◌∷◌, ◌++◌, length,
  append_assoc, append-nil, arith, codes,
}
use net_library.Base.Endian.{Endian}
use net_library.Base.Int.{ℤ, is_neg}
use net_library.File.{io_error, read_loop, get_content}
use net_library.File.System.{FileSystem}
use net_library.Status.{Status, ok_status}

abbrev pub concat : List (List ℕ) → List ℕ
concat [] = []
concat (x ∷ xs) = x ++ concat xs

module _ (fs : FileSystem) (host : Endian) (strerror : ℤ → List ℕ) where
  -- From a state on, the reads of 4096 bytes give these pieces, none of which is empty, then an end
  -- or an error, and leave the last state.
  abbrev pub Reads : fs.State → ℤ → List (List ℕ) → Option (List ℕ) → fs.State → Type 0
  Reads s fd [] end s' = fs.read s fd 4096 ≡ (s', end)
  Reads s fd ([] ∷ cs) end s' = ⊥
  Reads s fd ((x ∷ xs) ∷ cs) end s' =
      (s₁ : fs.State) × (fs.read s fd 4096 ≡ (s₁, some (x ∷ xs))) × Reads s₁ fd cs end s'

  -- The reads end behind the last byte, or with an error.
  abbrev pub status_at : fs.State → List ℕ → Bool → Status
  status_at s fname false = io_error fs host strerror s (codes "read") fname
  status_at s fname true = ok_status

  abbrev pub last_read : Bool → Option (List ℕ)
  last_read true = some []
  last_read false = none

  read_loop-Reads :
      (fuel : ℕ) (s : fs.State) (fd : ℤ) (fname cont : List ℕ) (cs : List (List ℕ)) (good : Bool)
      (s' : fs.State)
      → Reads s fd cs (last_read good) s'
      → length cs < fuel
      → read_loop fs host strerror fuel s fd fname cont
        ≡ some (fs.close s' fd, status_at s' fname good, cont ++ concat cs)
  unfolding read_loop
  read_loop-Reads zero s fd fname cont cs good s' r h = absurd (omega (arith, h))
  read_loop-Reads (suc n) s fd fname cont [] true s' r h = rw (r, append-nil cont) refl
  read_loop-Reads (suc n) s fd fname cont [] false s' r h = rw (r, append-nil cont) refl
  read_loop-Reads (suc n) s fd fname cont ([] ∷ cs) good s' r h = elim r [ ]
  read_loop-Reads (suc n) s fd fname cont ((x ∷ xs) ∷ cs) good s' (s₁, e, r) h =
      rw
        (
          e,
          read_loop-Reads n s₁ fd fname (cont ++ x ∷ xs) cs good s' r (omega (arith, h)),
          append_assoc cont (x ∷ xs) (concat cs),
        )
        refl

  -- Where the file can be opened, getContent ends, with fuel for one more round than there are pieces:
  -- it appends to `cont` all bytes that read gives up to the end of the file, and its status is ok; or
  -- all up to an error of read, and its status is that error. The file is closed.
  pub get_content-Reads :
      (fuel : ℕ) (s : fs.State) (fname cont : List ℕ) (cs : List (List ℕ)) (good : Bool)
      (s' : fs.State)
      → is_neg (fs.open_read s fname).1 ≡ false
      → Reads (fs.open_read s fname).0 (fs.open_read s fname).1 cs (last_read good) s'
      → length cs < fuel
      → get_content fs host strerror fuel s fname cont
        ≡ some (fs.close s' (fs.open_read s fname).1, status_at s' fname good, cont ++ concat cs)
  unfolding get_content
  get_content-Reads fuel s fname cont cs good s' h r l =
      let o = fs.open_read s fname in
      rw (h, read_loop-Reads fuel o.0 o.1 fname cont cs good s' r l) refl
