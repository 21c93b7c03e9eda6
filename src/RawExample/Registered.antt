-- ===== src/RawExample/Registered.antt =====
-- raw-example/epoll.cc: what is asked of epoll.
use net_library.Base.{
  ℕ, ◌&&◌, zero, suc, ◌≡◌, refl, some, none, List, [], ◌∷◌, ◌++◌, ◌||◌, ◌==◌, Bool, Option,
  either_branch,
}
use net_library.Poller.{has, read_event, write_event, error_event}
use net_library.RawExample.{
  Control, set_non_block, update_events, new_server, Server, Received, bytes, again, broken, Sent,
  took, full, failed, Outcome, goes, exits, unfinished, con_of, put_con, end_send, is_request,
  send_one, send_loop, send_res, read_one, handle_read, handle_write, accept_one, handle_accept,
  dispatch_event, once_loop, run, serve_on, start, main, then_do,
}

-- What holds of the registrations where a handler has returned.
abbrev pub After : (List (ℕ × ℕ) → Type 0) → Outcome → Type 0
After P (goes s) = P s.added
After P exits = Unit
After P unfinished = Unit

module _ (P : List (ℕ × ℕ) → Type 0) (httpstr : List ℕ) (sent : ℕ → ℕ → Sent) where
  then_do-After :
      (f : Server → Outcome) (o : Outcome)
      → ((s : Server) → P s.added → After P (f s))
      → After P o
      → After P (then_do f o)
  then_do-After f (goes s) h a = h s a
  then_do-After f exits h a = tt
  then_do-After f unfinished h a = tt

  end_send-After :
      (s : Server) (fd left : ℕ) (r : Sent) → P s.added → P (end_send s fd left r).added
  end_send-After s fd zero r a = a
  end_send-After s fd (suc left) full a = a
  end_send-After s fd (suc left) failed a = a
  end_send-After s fd (suc left) (took n) a = a

  send_one-After :
      (rest : Server → ℕ → Outcome) (s : Server) (fd left : ℕ) (r : Sent)
      → ((s' : Server) (n : ℕ) → P s'.added → After P (rest s' n))
      → P s.added
      → After P (send_one httpstr sent rest s fd left r)
  send_one-After rest s fd left (took (suc n)) h a = h _ _ a
  send_one-After rest s fd left (took zero) h a = end_send-After s fd left (took zero) a
  send_one-After rest s fd left full h a = end_send-After s fd left full a
  send_one-After rest s fd left failed h a = end_send-After s fd left failed a

  send_loop-After :
      (fuel : ℕ) (s : Server) (fd left : ℕ)
      → P s.added
      → After P (send_loop httpstr sent fuel s fd left)
  unfolding send_loop
  send_loop-After zero s fd left a = tt
  send_loop-After (suc fuel) s fd left a =
      send_one-After _ _ fd left (sent s.writes left) (λ s' n. send_loop-After fuel s' fd n) a

  send_res-After :
      (fuel : ℕ) (s : Server) (fd : ℕ) → P s.added → After P (send_res httpstr sent fuel s fd)
  unfolding send_res
  send_res-After fuel s fd a = send_loop-After fuel (put_con s fd (con_of s fd)) fd _ a

  module _ (received : ℕ → Received) where
    read_one-After :
        (fuel : ℕ) (rest : Server → Outcome) (s : Server) (fd : ℕ) (r : Received)
        → ((s' : Server) → P s'.added → After P (rest s'))
        → P s.added
        → After P (read_one httpstr sent received fuel rest s fd r)
    unfolding read_one
    read_one-After fuel rest s fd (bytes (x ∷ xs)) h a = then_do-After rest _ h (
        either_branch (After P) (is_request ((con_of s fd).readed ++ x ∷ xs))
          (send_res-After fuel (put_con s fd _) fd a) a)
    read_one-After fuel rest s fd (bytes []) h a = a
    read_one-After fuel rest s fd again h a = a
    read_one-After fuel rest s fd broken h a = a

    handle_read-After :
        (rounds fuel : ℕ) (s : Server) (fd : ℕ)
        → P s.added
        → After P (handle_read httpstr sent received rounds fuel s fd)
    unfolding handle_read
    handle_read-After zero fuel s fd a = tt
    handle_read-After (suc rounds) fuel s fd a =
        read_one-After fuel _ _ fd (received s.reads) (λ s'. handle_read-After rounds fuel s' fd) a

    module _ (accepted : ℕ → Option ℕ) (controls : ℕ → Control) where
      module _ (add : (xs : List (ℕ × ℕ)) (fd : ℕ) → P xs → P (xs ++ (fd, read_event) ∷ [])) where
        accept_one-After :
            (s : Server) (r : Option ℕ) (c : Control) → P s.added → After P (accept_one s r c)
        accept_one-After s none c a = tt
        accept_one-After s (some fd) c a =
            then_do-After (λ s'. update_events s' fd read_event c) (set_non_block s c)
              (λ s' b. either_branch (After P) c.controlled (add s'.added fd b) tt)
              (either_branch (After P) c.got_flags (either_branch (After P) c.set_flags a tt) tt)

        dispatch_event-After :
            (rounds fuel sfd : ℕ) (s : Server) (fd event : ℕ)
            → P s.added
            → After P
                (dispatch_event httpstr sent received accepted controls rounds fuel sfd s fd event)
        unfolding dispatch_event handle_accept handle_write
        dispatch_event-After rounds fuel sfd s fd event a =
            either_branch (After P) (has event read_event || has event error_event)
              (either_branch (After P) (fd == sfd)
                (accept_one-After _ (accepted s.accepts) (controls s.accepts) a)
                (handle_read-After rounds fuel s fd a))
              (either_branch (After P) (has event write_event) (send_res-After fuel s fd a) tt)

        once_loop-After :
            (rounds fuel sfd : ℕ) (s : Server) (events : List (ℕ × ℕ))
            → P s.added
            → After P (once_loop httpstr sent received accepted controls rounds fuel sfd s events)
        unfolding once_loop
        once_loop-After rounds fuel sfd s [] a = a
        once_loop-After rounds fuel sfd s ((fd, event) ∷ events) a =
            then_do-After _
              (dispatch_event httpstr sent received accepted controls rounds fuel sfd s fd event)
              (λ s' a'. once_loop-After rounds fuel sfd s' events a')
              (dispatch_event-After rounds fuel sfd s fd event a)

        run-After :
            (rounds fuel sfd : ℕ) (s : Server) (reports : List (List (ℕ × ℕ)))
            → P s.added
            → After P (run httpstr sent received accepted controls rounds fuel sfd s reports)
        unfolding run
        run-After rounds fuel sfd s [] a = a
        run-After rounds fuel sfd s (events ∷ reports) a =
            then_do-After _
              (once_loop httpstr sent received accepted controls rounds fuel sfd s events)
              (λ s' a'. run-After rounds fuel sfd s' reports a')
              (once_loop-After rounds fuel sfd s events a)

-- All registrations are for reading only.
abbrev pub IsReads : List (ℕ × ℕ) → Type 0
IsReads [] = Unit
IsReads ((fd, event) ∷ added) = (event ≡ read_event) × IsReads added

IsReads-add : (xs : List (ℕ × ℕ)) (fd : ℕ) → IsReads xs → IsReads (xs ++ (fd, read_event) ∷ [])
IsReads-add [] fd h = (refl, tt)
IsReads-add ((j, event) ∷ xs) fd (e, h) = (e, IsReads-add xs fd h)

start-IsReads :
    (epollfd sersock : Option ℕ) (bound listening : Bool) (c : Control)
    → After IsReads (start epollfd sersock bound listening c)
start-IsReads none sersock bound listening c = tt
start-IsReads (some epollfd) none bound listening c = tt
start-IsReads (some epollfd) (some sersock) bound listening c =
    either_branch (After IsReads) (bound && listening)
      (then_do-After IsReads [] (λ n left. full) (λ s. update_events s sersock read_event c)
        (set_non_block new_server c)
        (λ s b. either_branch (After IsReads) c.controlled (IsReads-add s.added sersock b) tt)
        (either_branch (After IsReads) c.got_flags (either_branch (After IsReads) c.set_flags tt tt)
          tt))
      tt

serve_on-IsReads :
    (httpstr : List ℕ) (sent : ℕ → ℕ → Sent) (received : ℕ → Received) (accepted : ℕ → Option ℕ)
    (controls : ℕ → Control) (rounds fuel : ℕ) (sersock : Option ℕ) (s : Server)
    (reports : List (List (ℕ × ℕ)))
    → IsReads s.added
    → After IsReads (serve_on httpstr sent received accepted controls rounds fuel sersock s reports)
unfolding serve_on
serve_on-IsReads httpstr sent received accepted controls rounds fuel none s reports a = tt
serve_on-IsReads httpstr sent received accepted controls rounds fuel (some sersock) s reports a =
    run-After IsReads httpstr sent received accepted controls IsReads-add rounds fuel sersock s
      reports a

-- Whatever the system calls give and however many reports come: when the program has not ended, all
-- that it has registered with epoll is registered for reading only, also where a write was cut short.
pub main-IsReads :
    (httpstr : List ℕ) (sent : ℕ → ℕ → Sent) (received : ℕ → Received) (accepted : ℕ → Option ℕ)
    (controls : ℕ → Control) (rounds fuel : ℕ) (epollfd sersock : Option ℕ) (bound listening : Bool)
    (c : Control) (reports : List (List (ℕ × ℕ)))
    → After IsReads (
        main httpstr sent received accepted controls rounds fuel epollfd sersock bound listening c
          reports)
unfolding main
main-IsReads httpstr sent received accepted controls rounds fuel epollfd sersock bound listening c
      reports =
    then_do-After IsReads httpstr sent _ (start epollfd sersock bound listening c)
      (λ s a.
        serve_on-IsReads httpstr sent received accepted controls rounds fuel sersock s reports a)
      (start-IsReads epollfd sersock bound listening c)
