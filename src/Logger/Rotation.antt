-- ===== src/Logger/Rotation.antt =====
-- logging.cc: maybeRotate, which replaces the file of the log.
use net_library.Base.{
  ◌≡◌, refl, ap, sym, subst, ◌∙◌, Bool, true, false, Option, none, some, ==_iff, Bool-cases, inl,
  inr,
}
use net_library.Base.Int.{ℤ, pos, negsuc, ◌-ℤ◌}
use net_library.Logger.{
  Logger, Files, untouched, is_empty, quotient, same_int, same_quotient, same_period, rotate_real,
  rotate_last, maybe_rotate,
}

same_int-eq : (a b : ℤ) → same_int a b ≡ true → a ≡ b
same_int-eq (pos a) (pos b) h = ap pos ((==_iff a b).0 h)
same_int-eq (negsuc a) (negsuc b) h = ap negsuc ((==_iff a b).0 h)
same_int-eq (pos a) (negsuc b) h = cc h
same_int-eq (negsuc a) (pos b) h = cc h

same_quotient-eq : (a b : Option ℤ) → same_quotient a b ≡ some true → a ≡ b
same_quotient-eq (some a) (some b) h = ap some (same_int-eq a b (cc h))
same_quotient-eq none b h = cc h
same_quotient-eq (some a) none h = cc h

-- Two times that fall into one interval with a third.
same_quotient_trans :
    (a b c : Option ℤ)
    → same_quotient a b ≡ some true
    → same_quotient b c ≡ some true
    → same_quotient a c ≡ some true
same_quotient_trans a b c h₁ h₂ =
    subst (λ x. same_quotient x c ≡ some true) (sym (same_quotient-eq a b h₁)) h₂

-- A logger's file is not replaced at a time of the interval of its last rotation.
maybe_rotate-same_period :
    (timezone : ℤ) (l : Logger) (now : ℤ) (renamed : Bool) (fd : ℤ)
    → same_period timezone l now l.last_rotate ≡ some true
    → maybe_rotate timezone l now renamed fd ≡ some (l, untouched)
unfolding maybe_rotate
maybe_rotate-same_period timezone l now renamed fd h =
    rw h (elim (Bool-cases (is_empty l.filename)) [ inl e ↦ rw e refl | inr e ↦ rw e refl ])

rotate_real-logger :
    (l l' : Logger) (old : ℤ) (renamed : Bool) (fd : ℤ) (same : Option Bool) (f : Files)
    → rotate_real l old renamed fd same ≡ some (l', f)
    → l ≡ l'
rotate_real-logger l l' old renamed fd none f h = cc h
rotate_real-logger l l' old renamed fd (some true) f h = cc h
rotate_real-logger l l' old renamed fd (some false) f h = cc h

rotate_last-same_period :
    (timezone : ℤ) (l l' : Logger) (now later : ℤ) (renamed : Bool) (fd : ℤ) (same : Option Bool)
    (f : Files)
    → same_period timezone l now l.last_rotate ≡ same
    → rotate_last timezone l now renamed fd same ≡ some (l', f)
    → same_period timezone l later now ≡ some true
    → same_period timezone l' later l'.last_rotate ≡ some true
rotate_last-same_period timezone l l' now later renamed fd none f hs h hp = cc h
rotate_last-same_period timezone l l' now later renamed fd (some true) f hs h hp =
    let e : l ≡ l' = cc h in
    subst (λ x. same_period timezone x later x.last_rotate ≡ some true) e
      (same_quotient_trans (quotient (later -ℤ timezone) l.rotate_interval)
        (quotient (now -ℤ timezone) l.rotate_interval)
        (quotient (l.last_rotate -ℤ timezone) l.rotate_interval) hp hs)
rotate_last-same_period timezone l l' now later renamed fd (some false) f hs h hp =
    let l₁ : Logger = record l { last_rotate = now; real_rotate = now } in
    subst (λ x. same_period timezone x later x.last_rotate ≡ some true)
      (rotate_real-logger l₁ l' l.real_rotate renamed fd (same_period timezone l₁ l.real_rotate now)
        f h)
      hp

maybe_rotate-unnamed :
    (timezone : ℤ) (l : Logger) (now : ℤ) (renamed : Bool) (fd : ℤ)
    → is_empty l.filename ≡ true
    → maybe_rotate timezone l now renamed fd ≡ some (l, untouched)
unfolding maybe_rotate
maybe_rotate-unnamed timezone l now renamed fd e = rw e refl

maybe_rotate-named :
    (timezone : ℤ) (l : Logger) (now : ℤ) (renamed : Bool) (fd : ℤ)
    → is_empty l.filename ≡ false
    → maybe_rotate timezone l now renamed fd
      ≡ rotate_last timezone l now renamed fd (same_period timezone l now l.last_rotate)
unfolding maybe_rotate
maybe_rotate-named timezone l now renamed fd e = rw e refl

-- Once maybeRotate has returned, whether or not it renamed the file and could open a new one, it
-- leaves the files and the logger as they are at any time of the same interval.
pub maybe_rotate-maybe_rotate :
    (timezone : ℤ) (l l' : Logger) (now later : ℤ) (renamed renamed' : Bool) (fd fd' : ℤ)
    (f : Files)
    → maybe_rotate timezone l now renamed fd ≡ some (l', f)
    → same_period timezone l later now ≡ some true
    → maybe_rotate timezone l' later renamed' fd' ≡ some (l', untouched)
maybe_rotate-maybe_rotate timezone l l' now later renamed renamed' fd fd' f h hp =
    elim (Bool-cases (is_empty l.filename)) [
      | inl e ↦
          let q : l ≡ l' = cc (h, maybe_rotate-unnamed timezone l now renamed fd e) in
          subst (λ x. maybe_rotate timezone x later renamed' fd' ≡ some (x, untouched)) q
            (maybe_rotate-unnamed timezone l later renamed' fd' e)
      | inr e ↦ maybe_rotate-same_period timezone l' later renamed' fd' (
          rotate_last-same_period timezone l l' now later renamed fd
            (same_period timezone l now l.last_rotate) f refl
            (sym (maybe_rotate-named timezone l now renamed fd e) ∙ h) hp)
    ]
