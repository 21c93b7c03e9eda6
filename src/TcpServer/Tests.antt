-- ===== src/TcpServer/Tests.antt =====
-- A run of the server, and the theorem about its handlers at concrete data.
use net_library.Base.{ℕ, zero, suc, ◌≡◌, refl, Option, none, some, List, [], ◌∷◌, arith}
use net_library.Base.Int.{pos, negsuc}
use net_library.EventBase
use net_library.EventBase.{Call}
use net_library.Net.{Ip4Addr, Answer}
use net_library.TcpServer.{TcpServer, Accepted, init, on_conn_read, bind, start_server}
use net_library.TcpServer.Accepting.{Attaches, handle_accept-handle_wakeup}

abbrev here : Ip4Addr
here = record { sin_port = 80; s_addr = 1 }

abbrev there : Ip4Addr
there = record { sin_port = 9000; s_addr = 2 }

abbrev first_client : Accepted
first_client = record { client = pos 7; peer = some there; local = some here }

-- getpeername fails.
abbrev nameless_client : Accepted
nameless_client = record { client = pos 8; peer = none; local = some here }

abbrev last_client : Accepted
last_client = record { client = pos 9; peer = some there; local = some here }

abbrev accepts : ℕ → Option Accepted
accepts zero = some first_client
accepts (suc zero) = some nameless_client
accepts (suc (suc zero)) = some last_client
accepts (suc (suc (suc n))) = none

abbrev listening : TcpServer
listening = record (on_conn_read (init (EventBase.do_safe_call (EventBase.init 0) 40))) {
  listen_channel = some (pos 3);
}

handle_accept-handle_wakeup_example :
    Attaches
      (λ n. pos n)
      (λ task. [])
      (λ task. refl)
      accepts
      4
      5
      listening
      (first_client ∷ nameless_client ∷ last_client ∷ [])
unfolding EventBase.do_safe_call EventBase.wakeup
handle_accept-handle_wakeup_example =
    handle_accept-handle_wakeup (λ n. pos n) (λ task. []) (λ task. refl) accepts 4 5 2 listening
      (first_client ∷ nameless_client ∷ last_client ∷ []) refl refl refl
      (refl, (refl, (refl, refl))) (omega arith) (omega arith)

abbrev unknown : List ℕ → Answer
unknown host = record { result = pos 1; entry = none }

-- An address that is in use.
start_refused :
    start_server unknown
      (λ n. n)
      (EventBase.init 0)
      []
      (pos 80)
      (record { fd = pos 3; bound = negsuc 0; errno = pos 98; listened = pos 0 })
    ≡ none
unfolding start_server bind
start_refused = refl
