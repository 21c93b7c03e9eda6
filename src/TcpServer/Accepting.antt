-- ===== src/TcpServer/Accepting.antt =====
-- tcpServer.cpp, eventbase.cc: the way of a connection from accept to the loop.
use net_library.Base.{
  ℕ, zero, suc, ◌+◌, ◌<◌, ◌≤◌, ◌≡◌, refl, sym, subst, ap, Bool, ◌∙◌, true, false, Option, none,
  some, List, [], ◌∷◌, ◌++◌, map, length, length-append, append_assoc, append-nil, arith,
}
use net_library.Base.Int.{ℤ, pos, ltb_ℤ}
use net_library.SafeQueue
use net_library.SafeQueue.{SafeQueue}
use net_library.EventBase.{EventBase, Call, ok, bytes, handle_wakeup, do_safe_call, wakeup}
use net_library.EventBase.Wake.{handle_wakeup_inert}
use net_library.Net.{Ip4Addr}
use net_library.Buffer.{contents}
use net_library.Poller.{read_event, write_event}
use net_library.TcpConn.{TcpConn, handshaking, done, attach}
use net_library.TcpServer.{
  TcpServer, AddCon, Accepted, add_con, hand_over, accept_one, accept_loop, accept_on,
  handle_accept, closure_at, connections,
}

-- From its n-th call on, accept gives these descriptors, and then fails.
abbrev pub Gives : (ℕ → Option Accepted) → ℕ → List Accepted → Type 0
Gives accepts n [] = accepts n ≡ none
Gives accepts n (a ∷ xs) = (accepts n ≡ some a) × Gives accepts (n + 1) xs

-- The closure for a descriptor, and no closure where one of its two names is not known.
abbrev pub closure_of : ℤ → Option Ip4Addr → Option Ip4Addr → List AddCon
closure_of client (some peer) (some local) =
    record { client = client; local = local; peer = peer } ∷ []
closure_of client _ _ = []

abbrev pub closures_of : List Accepted → List AddCon
closures_of [] = []
closures_of (a ∷ xs) = closure_of a.client a.peer a.local ++ closures_of xs

-- The numbers of as many tasks as the list has elements, from `n` on.
abbrev pub numbers : ℕ → List AddCon → List ℕ
numbers n [] = []
numbers n (a ∷ xs) = n ∷ numbers (n + 1) xs

-- The server that has handed closures over after `calls` more calls of accept.
abbrev pub given : TcpServer → List AddCon → ℕ → TcpServer
given s xs calls = record s {
  added = s.added ++ xs;
  accept_calls = s.accept_calls + calls;
  base = record s.base {
    tasks = record s.base.tasks { items = s.base.tasks.items ++ numbers (length s.added) xs };
    wakeups = s.base.wakeups + length xs;
  };
}

add_zero : (n : ℕ) → n + 0 ≡ n
add_zero n = omega arith

given_nil : (s : TcpServer) → given s [] 0 ≡ s
given_nil s =
    rw
      (
        append-nil s.added,
        append-nil s.base.tasks.items,
        add_zero s.accept_calls,
        add_zero s.base.wakeups,
      )
      refl

accept_one-given :
    (s : TcpServer) (client : ℤ) (peer local : Option Ip4Addr)
    → s.base.tasks.exited ≡ false
    → s.base.tasks.capacity ≡ 0
    → accept_one s client peer local ≡ given s (closure_of client peer local) 0
unfolding accept_one hand_over do_safe_call wakeup SafeQueue.push
accept_one-given s client none local he hc = sym (given_nil s)
accept_one-given s client (some peer) none he hc = sym (given_nil s)
accept_one-given s client (some peer) (some local) he hc = rw (he, hc, add_zero s.accept_calls) refl

numbers-append :
    (n : ℕ) (xs ys : List AddCon)
    → numbers n (xs ++ ys) ≡ numbers n xs ++ numbers (n + length xs) ys
numbers-append n [] ys = rw (add_zero n) refl
numbers-append n (x ∷ xs) ys =
    let e : n + 1 + length xs ≡ n + suc (length xs) = omega arith in
    rw (numbers-append (n + 1) xs ys, e) refl

given-given :
    (s : TcpServer) (xs ys : List AddCon) (k : ℕ)
    → given (given (record s { accept_calls = s.accept_calls + 1 }) xs 0) ys k
      ≡ given s (xs ++ ys) (suc k)
given-given s xs ys k =
    let e₁ : s.accept_calls + 1 + 0 + k ≡ s.accept_calls + suc k = omega arith in
    let e₂ : s.base.wakeups + length xs + length ys ≡ s.base.wakeups + length (xs ++ ys) =
      omega (arith, length-append xs ys) in
    rw
      (
        append_assoc s.added xs ys,
        length-append s.added xs,
        append_assoc s.base.tasks.items (numbers (length s.added) xs)
            (numbers (length s.added + length xs) ys),
        sym (numbers-append (length s.added) xs ys),
        e₁,
        e₂,
      )
      refl

is_positive : (fd : ℕ) → ltb_ℤ (pos 0) (pos (suc fd)) ≡ true
is_positive fd = ground arith

given-calls : (s : TcpServer) → record s { accept_calls = s.accept_calls + 1 } ≡ given s [] 1
given-calls s = rw (append-nil s.added, append-nil s.base.tasks.items, add_zero s.base.wakeups) refl

module _ (accepts : ℕ → Option Accepted) where
  accept_loop-given :
      (fuel : ℕ) (s : TcpServer) (fd : ℕ) (xs : List Accepted)
      → s.base.tasks.exited ≡ false
      → s.base.tasks.capacity ≡ 0
      → Gives accepts s.accept_calls xs
      → length xs < fuel
      → accept_loop accepts fuel s (pos (suc fd))
        ≡ done (given s (closures_of xs) (suc (length xs)))
  unfolding accept_loop
  accept_loop-given zero s fd xs he hc g h = elim h [ ]
  accept_loop-given (suc n) s fd [] he hc g h = rw (is_positive fd, g) (ap done (given-calls s))
  accept_loop-given (suc n) s fd (x ∷ xs) he hc g h =
      let s₁ : TcpServer = record s { accept_calls = s.accept_calls + 1 } in
      let ys = closure_of x.client x.peer x.local in
      let g' : Gives accepts (s.accept_calls + 1 + 0) xs = rw (add_zero (s.accept_calls + 1)) g.1 in
      rw
        (
          is_positive fd,
          g.0,
          accept_one-given s₁ x.client x.peer x.local he hc,
          accept_loop-given n (given s₁ ys 0) fd xs he hc g' (omega (arith, h)),
        )
        (ap done (given-given s ys (closures_of xs) (suc (length xs))))

-- The closures are found behind those that were there.
closure_at-append :
    (xs : List AddCon) (a : AddCon) (ys : List AddCon)
    → closure_at (xs ++ a ∷ ys) (length xs) ≡ some a
closure_at-append [] a ys = refl
closure_at-append (x ∷ xs) a ys = closure_at-append xs a ys

-- A connection for a closure: handshaking, on a channel of its descriptor that waits for reading and
-- writing, with empty buffers, and with the callback of the server where that has one.
abbrev pub IsServed : Bool → AddCon → TcpConn → Type 0
IsServed readcb a con =
    (con.state ≡ handshaking)
    × (con.channel ≡ some (record { fd = a.client; events = write_event + read_event }))
    × (con.readcb ≡ readcb)
    × (contents con.input ≡ [])
    × (contents con.output ≡ [])

-- One connection for each closure, in that order.
abbrev pub AreServed : Bool → List AddCon → List TcpConn → Type 0
AreServed readcb [] [] = Unit
AreServed readcb [] (con ∷ cons) = ⊥
AreServed readcb (a ∷ xs) [] = ⊥
AreServed readcb (a ∷ xs) (con ∷ cons) = IsServed readcb a con × AreServed readcb xs cons

add_con-IsServed : (readcb : Bool) (a : AddCon) → IsServed readcb a (add_con readcb a)
unfolding add_con attach
add_con-IsServed true a = (refl, refl, refl, refl, refl)
add_con-IsServed false a = (refl, refl, refl, refl, refl)

map-AreServed : (readcb : Bool) (xs : List AddCon) → AreServed readcb xs (map (add_con readcb) xs)
map-AreServed readcb [] = tt
map-AreServed readcb (a ∷ xs) = (add_con-IsServed readcb a, map-AreServed readcb xs)

connections-numbers :
    (s : TcpServer) (xs ys : List AddCon)
    → s.added ≡ xs ++ ys
    → connections s (numbers (length xs) ys) ≡ map (add_con s.readcb) ys
unfolding connections
connections-numbers s xs [] h = refl
connections-numbers s xs (y ∷ ys) h =
    let e : length xs + 1 ≡ length (xs ++ y ∷ []) = sym (length-append xs (y ∷ [])) in
    let h' : s.added ≡ (xs ++ y ∷ []) ++ ys = h ∙ sym (append_assoc xs (y ∷ []) ys) in
    rw (h, closure_at-append xs y ys, e)
      (ap (λ r. add_con s.readcb y ∷ r) (connections-numbers s (xs ++ y ∷ []) ys h'))

length-closure_of :
    (client : ℤ) (peer local : Option Ip4Addr) → length (closure_of client peer local) ≤ 1
length-closure_of client none local = omega arith
length-closure_of client (some peer) none = omega arith
length-closure_of client (some peer) (some local) = omega arith

length-closures_of : (xs : List Accepted) → length (closures_of xs) ≤ length xs
length-closures_of [] = omega arith
length-closures_of (x ∷ xs) =
    rw (length-append (closure_of x.client x.peer x.local) (closures_of xs))
      (omega (arith, length-closure_of x.client x.peer x.local, length-closures_of xs))

length-numbers : (n : ℕ) (xs : List AddCon) → length (numbers n xs) ≡ length xs
length-numbers n [] = refl
length-numbers n (x ∷ xs) = ap suc (length-numbers (n + 1) xs)

-- What the loop has run, and the connections that it has attached.
abbrev pub Attached : TcpServer → TcpServer → List AddCon → EventBase → Type 0
Attached s s' xs b =
    (b.ran ≡ s.base.ran ++ (s.base.tasks.items ++ numbers (length s.added) xs))
    × AreServed s.readcb xs (connections s' (numbers (length s.added) xs))
    × (b.tasks.items ≡ [])

module _ (clock : ℕ → ℤ) (calls : ℕ → List Call) (inert : (task : ℕ) → calls task ≡ [])
    (accepts : ℕ → Option Accepted) where
  -- Both handlers end, and the loop has attached the connections.
  abbrev pub Attaches : ℕ → ℕ → TcpServer → List Accepted → Type 0
  Attaches fuel rounds s xs =
      (s' : TcpServer) × (b : EventBase) × (handle_accept accepts fuel s ≡ done s')
      × (handle_wakeup clock calls rounds s'.base bytes ≡ some (ok b))
      × Attached s s' (closures_of xs) b

  -- Where accept gives some descriptors and then fails, the queue of the event base has no bound and
  -- has not exited, and no task makes a call, handleAccept ends, and the next run of the wake-up
  -- handler has attached a connection for each descriptor of which both names are known, in the order
  -- of accept and behind the tasks that were queued: handshaking, with that descriptor, waiting for
  -- reading and writing, with empty buffers and with the callback of the server; fuel for one more round than there are
  -- descriptors, and one more than tasks and descriptors, is enough.
  pub handle_accept-handle_wakeup :
      (fuel rounds fd : ℕ) (s : TcpServer) (xs : List Accepted)
      → s.listen_channel ≡ some (pos (suc fd))
      → s.base.tasks.exited ≡ false
      → s.base.tasks.capacity ≡ 0
      → Gives accepts s.accept_calls xs
      → length xs < fuel
      → length s.base.tasks.items + length xs < rounds
      → Attaches fuel rounds s xs
  unfolding handle_accept
  handle_accept-handle_wakeup fuel rounds fd s xs hl he hc g h hr =
      let as_given = given s (closures_of xs) (suc (length xs)) in
      let len : length (s.base.tasks.items ++ numbers (length s.added) (closures_of xs)) < rounds =
        rw
          (
            length-append s.base.tasks.items (numbers (length s.added) (closures_of xs)),
            length-numbers (length s.added) (closures_of xs),
          )
          (omega (arith, hr, length-closures_of xs)) in
      (
        as_given,
        _,
        ap (accept_on accepts fuel s) hl ∙ accept_loop-given accepts fuel s fd xs he hc g h,
        handle_wakeup_inert clock calls inert rounds as_given.base len,
        (
          refl,
          subst (λ cons. AreServed s.readcb (closures_of xs) cons)
              (sym (connections-numbers as_given s.added (closures_of xs) refl))
              (map-AreServed s.readcb (closures_of xs)),
          refl,
        ),
      )
