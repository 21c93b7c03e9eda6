-- ===== src/RawExample/Sending.antt =====
-- raw-example/epoll.cc: what sendRes sends.
use net_library.Base.{
  ℕ, zero, suc, ◌+◌, ◌-◌, ◌≤◌, ◌<◌, ◌≡◌, ◌≢◌, refl, ap, sym, ◌∙◌, true, false, none, some, List, [],
  ◌∷◌, ◌++◌, length, take, drop, ◌==◌, arith, append-nil, append_assoc, take-append-drop, drop-drop,
  drop-length_le,
}
use net_library.Poller.{set}
use net_library.RawExample.{
  Con, Server, Sent, took, full, failed, Outcome, goes, con_of, or_new, put_con, erase, take_bytes,
  send_one, send_loop, send_res,
}

pub set_there {ℓ} : {A : Type ℓ} (f : ℕ → A) (k : ℕ) (v : A) → set f k v k ≡ v
set_there f k v = let e : (k == k) ≡ true = ground arith in rw e refl

pub set_other {ℓ} : {A : Type ℓ} (f : ℕ → A) (k j : ℕ) (v : A) → j ≢ k → set f k v j ≡ f j
set_other f k j v d = let e : (j == k) ≡ false = ground (arith, d) in rw e refl

-- From the n-th write on, the writes of what is left take these numbers of bytes, and the write of
-- nothing that follows takes nothing.
abbrev pub IsStop : Sent → Type 0
IsStop (took zero) = Unit
IsStop (took (suc n)) = ⊥
IsStop full = Unit
IsStop failed = Unit

abbrev pub Takes : (ℕ → ℕ → Sent) → ℕ → ℕ → List ℕ → Type 0
Takes sent n left [] = (left ≡ 0) × IsStop (sent n 0)
Takes sent n left (k ∷ ks) =
    (sent n left ≡ took (suc k)) × (suc k ≤ left) × Takes sent (n + 1) (left - suc k) ks

-- After `n` reads a text has gone out on a descriptor, whose entry is erased; the entries and the
-- wires of the others are the same, and no close or epoll_ctl was called.
pub record Answered (s s' : Server) (fd : ℕ) (text : List ℕ) (n : ℕ) : Type 0 where
  pub erased : s'.cons fd ≡ none
  pub on_wire : s'.wire fd ≡ s.wire fd ++ text
  pub others_same : (j : ℕ) → j ≢ fd → (s'.cons j ≡ s.cons j) × (s'.wire j ≡ s.wire j)
  pub closes_same : s'.closes ≡ s.closes
  pub added_same : s'.added ≡ s.added
  pub reads_on : s'.reads ≡ s.reads + n

module _ (httpstr : List ℕ) (sent : ℕ → ℕ → Sent) where
  erase-Answered : (s : Server) (fd n : ℕ) → Answered s (erase (record s { writes = n }) fd) fd [] 0
  erase-Answered s fd n = record {
    erased = set_there s.cons fd none;
    on_wire = sym (append-nil (s.wire fd));
    others_same = λ j d. (set_other s.cons fd j none d, refl);
    closes_same = refl;
    added_same = refl;
    reads_on = omega arith;
  }

  stop-erases :
      (rest : Server → ℕ → Outcome) (s : Server) (fd : ℕ) (r : Sent)
      → IsStop r
      → send_one httpstr sent rest s fd 0 r ≡ goes (erase s fd)
  stop-erases rest s fd (took zero) h = refl
  stop-erases rest s fd (took (suc n)) h = elim h [ ]
  stop-erases rest s fd full h = refl
  stop-erases rest s fd failed h = refl

  take_bytes-Answered :
      (s s' : Server) (fd n m k : ℕ)
      → Answered
          (take_bytes httpstr sent (record s { writes = m }) fd (suc k))
          s'
          fd
          (drop (n + suc k) httpstr)
          0
      → (con_of s fd).written ≡ n
      → Answered s s' fd (drop n httpstr) 0
  take_bytes-Answered s s' fd n m k a e = record {
    erased = a.erased;
    on_wire =
        a.on_wire
        ∙ ap (λ w. w ++ drop (n + suc k) httpstr)
            (set_there s.wire fd (s.wire fd ++ take (suc k) (drop (con_of s fd).written httpstr)))
        ∙ append_assoc (s.wire fd) _ _
        ∙ ap (λ w. s.wire fd ++ w)
            (ap (λ w. take (suc k) (drop w httpstr) ++ drop (n + suc k) httpstr) e
              ∙ ap (λ w. take (suc k) (drop n httpstr) ++ w) (sym (drop-drop (suc k) n httpstr))
              ∙ take-append-drop (suc k) (drop n httpstr));
    others_same = λ j d.
        let h = a.others_same j d in
        (h.0 ∙ set_other s.cons fd j _ d, h.1 ∙ set_other s.wire fd j _ d);
    closes_same = a.closes_same;
    added_same = a.added_same;
    reads_on = a.reads_on;
  }

  take_bytes-written :
      (s : Server) (fd m k n : ℕ)
      → (con_of s fd).written ≡ n
      → (con_of (take_bytes httpstr sent (record s { writes = m }) fd k) fd).written ≡ n + k
  take_bytes-written s fd m k n e =
      ap (λ c. (or_new c).written)
        (set_there s.cons fd (some (record (con_of s fd) { written = (con_of s fd).written + k })))
      ∙ ap (λ w. w + k) e

  pub send_loop-Answered :
      (ks : List ℕ) (fuel : ℕ) (s : Server) (fd left n : ℕ)
      → Takes sent s.writes left ks
      → length ks < fuel
      → (con_of s fd).written ≡ n
      → n + left ≡ length httpstr
      → (s' : Server) × (send_loop httpstr sent fuel s fd left ≡ goes s')
        × Answered s s' fd (drop n httpstr) 0
  unfolding send_loop
  send_loop-Answered [] zero s fd left n t lt e w = absurd (omega arith)
  send_loop-Answered [] (suc fuel) s fd left n (z, stop) lt e w =
      let nothing : drop n httpstr ≡ [] = drop-length_le n httpstr (omega arith) in
      (
        erase (record s { writes = s.writes + 1 }) fd,
        rw z (
            stop-erases (λ s' left'. send_loop httpstr sent fuel s' fd left')
              (record s { writes = s.writes + 1 }) fd (sent s.writes 0) stop),
        rw nothing (erase-Answered s fd (s.writes + 1)),
      )
  send_loop-Answered (k ∷ ks) zero s fd left n t lt e w = absurd (omega arith)
  send_loop-Answered (k ∷ ks) (suc fuel) s fd left n (ek, le, t) lt e w =
      let s1 : Server = take_bytes httpstr sent (record s { writes = s.writes + 1 }) fd (suc k) in
      let (s', runs, a) =
        send_loop-Answered ks fuel s1 fd (left - suc k) (n + suc k) t (omega arith)
          (take_bytes-written s fd (s.writes + 1) (suc k) n e) (omega arith) in
      (s', rw ek runs, take_bytes-Answered s s' fd n (s.writes + 1) k a e)

  pub put_con-Answered :
      (s s' : Server) (fd : ℕ) (c : Con) (text : List ℕ)
      → Answered (put_con s fd c) s' fd text 0
      → Answered s s' fd text 0
  put_con-Answered s s' fd c text a = record {
    erased = a.erased;
    on_wire = a.on_wire;
    others_same = λ j d. let h = a.others_same j d in (h.0 ∙ set_other s.cons fd j _ d, h.1);
    closes_same = a.closes_same;
    added_same = a.added_same;
    reads_on = a.reads_on;
  }

  pub send_res-Answered :
      (ks : List ℕ) (fuel : ℕ) (s : Server) (fd : ℕ)
      → Takes sent s.writes (length httpstr) ks
      → length ks < fuel
      → (con_of s fd).written ≡ 0
      → (s' : Server) × (send_res httpstr sent fuel s fd ≡ goes s') × Answered s s' fd httpstr 0
  unfolding send_res
  send_res-Answered ks fuel s fd t lt e =
      let s1 : Server = put_con s fd (con_of s fd) in
      let e1 : (con_of s1 fd).written ≡ 0 =
        ap (λ c. (or_new c).written) (set_there s.cons fd (some (con_of s fd))) ∙ e in
      let (s', runs, a) =
        send_loop-Answered ks fuel s1 fd (length httpstr) 0 t lt e1 (omega arith) in
      (
        s',
        ap (λ w. send_loop httpstr sent fuel s1 fd w) (omega (arith, e)) ∙ runs,
        put_con-Answered s s' fd (con_of s fd) httpstr a,
      )
