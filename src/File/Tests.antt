-- ===== src/File/Tests.antt =====
-- A file system in memory, and the theorems about files at runs on it.
use net_library.Base.{
  ℕ, ◌≡◌, ◌≢◌, refl, ap, sym, subst, ◌∙◌, Bool, true, false, Option, none, some, List, [], ◌∷◌,
  ◌++◌, length, take, min, codes, same, if◌then◌else◌, arith, Bool-cases, inl, inr, ==_iff, ◌==◌,
  ◌&&◌,
}
use net_library.Base.Endian.{little}
use net_library.Base.Int.{ℤ, pos, negsuc}
use net_library.File.{rename_save, get_content}
use net_library.File.System.{FileSystem, Posix}
use net_library.File.Saving.{rename_save-saved, rename_save-lost}
use net_library.File.Reading.{get_content-Reads}
use net_library.Status.{is_ok, is_zero, ok_status}

abbrev Contents : Type 0
Contents = List ℕ → Option (List ℕ)

-- The file that is open for writing, the bytes that a write takes, the pieces that the next reads
-- give, and whether rename fails.
record Memory : Type 0 where
  files : Contents
  target : Option (List ℕ)
  room : ℕ
  pieces : List (List ℕ)
  rename_fails : Bool

abbrev put : Contents → List ℕ → Option (List ℕ) → Contents
put files f v g = if same f g then v else files g

abbrev write_to : Memory → Option (List ℕ) → Option (List ℕ) → List ℕ → Memory × ℤ
write_to m (some f) (some xs) ys =
    let n = min m.room (length ys) in
    (record m { files = put m.files f (some (xs ++ take n ys)) }, pos n)
write_to m _ _ ys = (m, negsuc 0)

abbrev content_of : Memory → Option (List ℕ) → Option (List ℕ)
content_of m none = none
content_of m (some f) = m.files f

abbrev read_piece : Memory → List (List ℕ) → Memory × Option (List ℕ)
read_piece m [] = (m, some [])
read_piece m (c ∷ cs) = (record m { pieces = cs }, some c)

abbrev unlink_file : Memory → List ℕ → Option (List ℕ) → Memory × ℤ
unlink_file m g none = (m, negsuc 0)
unlink_file m g (some xs) = (record m { files = put m.files g none }, pos 0)

abbrev rename_to : Memory → List ℕ → List ℕ → Bool → Memory × ℤ
rename_to m a b true = (m, negsuc 0)
rename_to m a b false = (record m { files = put (put m.files a none) b (m.files a) }, pos 0)

abbrev memory : FileSystem
memory = record {
  State = Memory;
  errno = λ m. pos 13;
  open_read = λ m f. (m, pos 3);
  open_new = λ m f. (record m { files = put m.files f (some []); target = some f }, pos 3);
  read = λ m fd n. read_piece m m.pieces;
  write = λ m fd ys. write_to m m.target (content_of m m.target) ys;
  close = λ m fd. record m { target = none };
  unlink = λ m f. unlink_file m f (m.files f);
  rename = λ m a b. rename_to m a b m.rename_fails;
  mkdir = λ m f. (m, negsuc 0);
  rmdir = λ m f. (m, negsuc 0);
  access = λ m f. (m, pos 0);
  stat = λ m f. (m, none);
  opendir = λ m f. (m, negsuc 0);
  readdir = λ m fd. (m, none);
}

same_refl : (f : List ℕ) → same f f ≡ true
same_refl [] = refl
same_refl (c ∷ f) = let e : (c == c) ≡ true = ground arith in rw (e, same_refl f) refl

true-false : true ≡ false → ⊥
true-false h = cc h

same-eq : (f g : List ℕ) → same f g ≡ true → f ≡ g
same-eq [] [] h = refl
same-eq [] (b ∷ g) h = cc h
same-eq (a ∷ f) [] h = cc h
same-eq (a ∷ f) (b ∷ g) h = elim (Bool-cases (a == b)) [
  | inl e ↦
      rw ((==_iff a b).0 e) (ap (λ r. b ∷ r) (same-eq f g (subst (λ r. r && same f g ≡ true) e h)))
  | inr e ↦ absurd (true-false (sym (subst (λ r. r && same f g ≡ true) e h)))
]

put_there : (m : Contents) (f : List ℕ) (v : Option (List ℕ)) → put m f v f ≡ v
put_there m f v = rw (same_refl f) refl

put_other : (m : Contents) (f g : List ℕ) (v : Option (List ℕ)) → f ≢ g → put m f v g ≡ m g
put_other m f g v d = elim (Bool-cases (same f g)) [
  | inl e ↦ absurd (d (same-eq f g e))
  | inr e ↦ rw e refl
]

write_to-takes :
    (m : Memory) (f xs ys : List ℕ) (t c : Option (List ℕ)) (n : ℕ)
    → t ≡ some f
    → c ≡ some xs
    → (write_to m t c ys).1 ≡ pos n
    → (write_to m t c ys).0.files f ≡ some (xs ++ take n ys)
write_to-takes m f xs ys none c n ht hc h = cc ht
write_to-takes m f xs ys (some g) none n ht hc h = cc hc
write_to-takes m f xs ys (some g) (some zs) n ht hc h =
    let eg : g ≡ f = cc ht in
    let ez : zs ≡ xs = cc hc in
    let en : min m.room (length ys) ≡ n = cc h in
    rw (eg, ez, en) (put_there m.files f (some (xs ++ take n ys)))

unlink_other :
    (m : Memory) (f g : List ℕ) (c : Option (List ℕ))
    → f ≢ g
    → (unlink_file m g c).0.files f ≡ m.files f
unlink_other m f g none d = refl
unlink_other m f g (some xs) d = put_other m.files g f none (λ e. d (sym e))

unlink_gone :
    (m : Memory) (g : List ℕ) (c : Option (List ℕ))
    → (unlink_file m g c).1 ≡ pos 0
    → (unlink_file m g c).0.files g ≡ none
unlink_gone m g none h = cc h
unlink_gone m g (some xs) h = put_there m.files g none

rename_moves :
    (m : Memory) (a b : List ℕ) (fails : Bool)
    → is_zero (rename_to m a b fails).1 ≡ true
    → (rename_to m a b fails).0.files b ≡ m.files a
rename_moves m a b true h = cc h
rename_moves m a b false h = put_there (put m.files a none) b (m.files a)

rename_keeps :
    (m : Memory) (a b f : List ℕ) (fails : Bool)
    → is_zero (rename_to m a b fails).1 ≡ false
    → (rename_to m a b fails).0.files f ≡ m.files f
rename_keeps m a b f true h = refl
rename_keeps m a b f false h = cc h

abbrev memory-Posix : Posix memory
memory-Posix = record {
  content = λ m. m.files;
  opened = λ m fd. m.target;
  open_new_empty = λ m f h. (put_there m.files f (some []), refl);
  write_takes = λ m fd f xs ys n ht hc h.
      write_to-takes m f xs ys m.target (content_of m m.target) n ht (ap (content_of m) ht ∙ hc) h;
  close_keeps = λ m fd f. refl;
  unlink_other = λ m f g d. unlink_other m f g (m.files g) d;
  unlink_gone = λ m g h. unlink_gone m g (m.files g) h;
  rename_moves = λ m a b h. rename_moves m a b m.rename_fails h;
  rename_keeps = λ m a b f h. rename_keeps m a b f m.rename_fails h;
  rename_errno = λ m a b h. (omega arith, refl);
}

abbrev old_conf : Memory
old_conf = record {
  files = put (λ f. none) (codes "conf") (some (codes "old"));
  target = none;
  room = 2;
  pieces = codes "ol" ∷ codes "d" ∷ [];
  rename_fails = false;
}

abbrev no_message : ℤ → List ℕ
no_message e = []

-- A write that takes two of three bytes.
rename_save-saved_example :
    let r =
      rename_save memory little no_message old_conf (codes "conf") (codes "tmp") (codes "new") in
    (is_ok little r.1 ≡ true) × (r.0.files (codes "conf") ≡ some (codes "ne"))
rename_save-saved_example =
    rename_save-saved memory memory-Posix little no_message old_conf (codes "conf") (codes "tmp")
      (codes "new") 2 (λ e. true-false (sym (ap (λ f. same f (codes "conf")) e))) (refl, refl) refl

rename_save-lost_example :
    let m = record old_conf { rename_fails = true } in
    let r = rename_save memory little no_message m (codes "conf") (codes "tmp") (codes "new") in
    (is_ok little r.1 ≡ false)
    × (r.0.files (codes "conf") ≡ none)
    × (r.0.files (codes "tmp") ≡ some (codes "ne"))
rename_save-lost_example =
    rename_save-lost memory memory-Posix little no_message (record old_conf { rename_fails = true })
      (codes "conf") (codes "tmp") (codes "new") 2
      (λ e. true-false (sym (ap (λ f. same f (codes "conf")) e))) (refl, refl) refl refl

get_content-Reads_example :
    get_content memory little no_message 3 old_conf (codes "conf") (codes "# ")
    ≡ some (record old_conf { pieces = [] }, ok_status, codes "# old")
get_content-Reads_example =
    get_content-Reads memory little no_message 3 old_conf (codes "conf") (codes "# ")
      (codes "ol" ∷ codes "d" ∷ []) true (record old_conf { pieces = [] }) refl
      (_, refl, (_, refl, refl)) (omega arith)
