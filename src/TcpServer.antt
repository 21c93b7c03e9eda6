-- ===== src/TcpServer.antt =====
-- tcpServer.h, tcpServer.cpp: a listening socket, and the connections that it accepts.
--
-- A closure `addcon` is the record of what it captures; as a task of the event base it is its number
-- in `added`, the closures that the server has made. What the system calls give are parameters:
-- `accepts n` is the n-th accept of the server, with what getpeername and getsockname say of its
-- descriptor, and `none` where accept fails. The fatalifs on the results of setsockopt, fcntl and
-- listen only write to the log.
pub mod Accepting
mod Tests
use net_library.Base.{
  ℕ, zero, suc, ◌+◌, Bool, true, false, not, ◌&&◌, Option, none, some, List, [], ◌∷◌, ◌++◌, length,
  if◌then◌else◌,
}
use net_library.Base.Int.{ℤ, pos, negsuc, is_neg, ltb_ℤ}
use net_library.EventBase.{EventBase, do_safe_call}
use net_library.Net
use net_library.Net.{Ip4Addr, Answer}
use net_library.TcpConn
use net_library.TcpConn.{TcpConn, Outcome, done, null_channel, unfinished}

pub record AddCon : Type 0 where
  pub client : ℤ
  pub local : Ip4Addr
  pub peer : Ip4Addr

pub record TcpServer : Type 0 where
  pub base : EventBase
  pub server_addr : Ip4Addr
  -- The descriptor of the channel.
  pub listen_channel : Option ℤ
  pub readcb : Bool
  pub added : List AddCon
  pub accept_calls : ℕ
  -- The descriptors that `bind` closed.
  pub closes : List ℤ

-- TcpServer(EventBase *base)
abbrev pub init : EventBase → TcpServer
init base = record {
  base = base;
  server_addr = record { sin_port = 0; s_addr = 0 };
  listen_channel = none;
  readcb = false;
  added = [];
  accept_calls = 0;
  closes = [];
}

-- onConnRead(cb)
abbrev pub on_conn_read : TcpServer → TcpServer
on_conn_read s = record s { readcb = true }

-- What socket, ::bind and listen give, and errno behind the ::close and the line of the log.
pub record Socket : Type 0 where
  pub fd : ℤ
  pub bound : ℤ
  pub errno : ℤ
  pub listened : ℤ

module _ (resolve : List ℕ → Answer) (htons : ℕ → ℕ) where
  -- The result is an int, 0 where it succeeds.
  pub bind : TcpServer → List ℕ → ℤ → Socket → TcpServer × ℤ
  bind s addr port sock =
      let s' : TcpServer = record s { server_addr = Net.make resolve htons addr port } in
      if Net.is_zero sock.bound
      then (record s' { listen_channel = some sock.fd }, pos 0)
      else (record s' { closes = s.closes ++ sock.fd ∷ [] }, sock.errno)

  -- startServer
  pub start_server : EventBase → List ℕ → ℤ → Socket → Option TcpServer
  unfolding bind
  start_server base addr port sock =
      let r = bind (init base) addr port sock in if Net.is_zero r.1 then some r.0 else none

pub record Accepted : Type 0 where
  pub client : ℤ
  pub peer : Option Ip4Addr
  pub local : Option Ip4Addr

-- addcon(), on the new connection, which has no channel and no callback yet
pub add_con : Bool → AddCon → TcpConn
unfolding TcpConn.attach
add_con readcb a =
    let con = TcpConn.attach (λ s. s) TcpConn.init a.client in
    if readcb then TcpConn.on_read con else con

-- base_->safeCall(move(addcon))
pub hand_over : TcpServer → AddCon → TcpServer
hand_over s a = record s { added = s.added ++ a ∷ []; base = do_safe_call s.base (length s.added) }

-- One round, behind an accept that succeeded.
abbrev pub accept_one : TcpServer → ℤ → Option Ip4Addr → Option Ip4Addr → TcpServer
unfolding hand_over
accept_one s client none local = s
accept_one s client (some peer) none = s
accept_one s client (some peer) (some local) =
    hand_over s (record { client = client; local = local; peer = peer })

module _ (accepts : ℕ → Option Accepted) where
  abbrev pub after_accept :
      (TcpServer → Outcome TcpServer) → TcpServer → Option Accepted → Outcome TcpServer
  unfolding accept_one
  after_accept rest s none = done s
  after_accept rest s (some a) = rest (accept_one s a.client a.peer a.local)

  -- The loop, on fuel.
  pub accept_loop : ℕ → TcpServer → ℤ → Outcome TcpServer
  unfolding accept_one
  accept_loop zero s listenfd = unfinished
  accept_loop (suc n) s listenfd =
      let round =
        after_accept (λ s'. accept_loop n s' listenfd)
          (record s { accept_calls = s.accept_calls + 1 }) (accepts s.accept_calls) in
      if ltb_ℤ (pos 0) listenfd then round else done s

  -- With the descriptor of listenChannel_.
  abbrev pub accept_on : ℕ → TcpServer → Option ℤ → Outcome TcpServer
  unfolding accept_loop
  accept_on fuel s none = null_channel
  accept_on fuel s (some fd) = accept_loop fuel s fd

  pub handle_accept : ℕ → TcpServer → Outcome TcpServer
  unfolding accept_loop
  handle_accept fuel s = accept_on fuel s s.listen_channel

abbrev pub closure_at : List AddCon → ℕ → Option AddCon
closure_at [] n = none
closure_at (a ∷ xs) zero = some a
closure_at (a ∷ xs) (suc n) = closure_at xs n

-- What a task adds to the connections that are there: a number without a closure is another task.
abbrev pub run_closure : Bool → Option AddCon → List TcpConn → List TcpConn
unfolding add_con
run_closure readcb none cons = cons
run_closure readcb (some a) cons = add_con readcb a ∷ cons

-- The connections that tasks attach, in the order of the tasks.
abbrev pub connections : TcpServer → List ℕ → List TcpConn
unfolding add_con
connections s [] = []
connections s (t ∷ ts) = run_closure s.readcb (closure_at s.added t) (connections s ts)

pub get_addr : TcpServer → Ip4Addr
get_addr s = s.server_addr
