-- ===== src/RawExample/Tests.antt =====
-- raw-example/epoll.cc: concrete runs.
use net_library.Base.{ℕ, zero, suc, ◌≡◌, refl, true, some, none, List, [], ◌∷◌, arith}
use net_library.RawExample.{
  Control, Server, Received, bytes, again, broken, Sent, took, full, failed, Outcome, goes, exits,
  unfinished, main, handle_read, run, once_loop, dispatch_event, handle_accept, handle_write,
  send_res, send_loop,
}
use net_library.RawExample.Sending.{Answered}
use net_library.RawExample.Serving.{handle_read_answers}
use net_library.RawExample.Failing.{handle_read_closes_twice}
use net_library.RawExample.Registered.{After, IsReads, main-IsReads}

-- A response of five bytes.
abbrev response : List ℕ
response = 72 ∷ 84 ∷ 84 ∷ 80 ∷ 10 ∷ []

-- The first write takes three bytes, the second two, and the later ones nothing.
abbrev two_writes : ℕ → ℕ → Sent
two_writes zero left = took 3
two_writes (suc zero) left = took 2
two_writes (suc (suc n)) left = took 0

-- "GET", the empty line, and nothing more for now.
abbrev two_pieces : ℕ → Received
two_pieces zero = bytes (71 ∷ 69 ∷ 84 ∷ [])
two_pieces (suc zero) = bytes (13 ∷ 10 ∷ 13 ∷ 10 ∷ [])
two_pieces (suc (suc n)) = again

abbrev one_client : Server
one_client = record {
  cons = λ fd. none;
  wire = λ fd. [];
  closes = [];
  added = (5, 1) ∷ [];
  reads = 0;
  writes = 0;
  accepts = 0;
}

handle_read_answers_example :
    (s' : Server) × (handle_read response two_writes two_pieces 3 3 one_client 5 ≡ goes s')
    × Answered one_client s' 5 response 3
handle_read_answers_example =
    handle_read_answers response two_writes two_pieces (71, 69 ∷ 84 ∷ [])
      ((13, 10 ∷ 13 ∷ 10 ∷ []) ∷ []) (2 ∷ 1 ∷ []) 3 3 one_client 5 (refl, refl, (refl, refl, refl))
      (refl, omega arith, (refl, omega arith, (refl, tt))) (omega arith) (omega arith) refl

abbrev request_then_error : ℕ → Received
request_then_error zero = bytes (71 ∷ 69 ∷ 84 ∷ 10 ∷ 10 ∷ [])
request_then_error (suc n) = broken

handle_read_closes_twice_example :
    (s' : Server) × (handle_read response (λ n left. failed) request_then_error 2 1 one_client 5
      ≡ goes s')
    × (s'.cons 5 ≡ none)
    × (s'.closes ≡ 5 ∷ 5 ∷ [])
handle_read_closes_twice_example =
    handle_read_closes_twice response (λ n left. failed) request_then_error 0 0 one_client 5 71
      (69 ∷ 84 ∷ 10 ∷ 10 ∷ []) refl refl (omega arith) refl refl

abbrev all_well : Control
all_well = record { got_flags = true; set_flags = true; controlled = true }

-- A client is accepted, its request is answered in part, and epoll reports nothing more.
main-IsReads_example : After IsReads (
    main response
      (λ n left. full)
      two_pieces
      (λ n. some 5)
      (λ n. all_well)
      3
      3
      (some 3)
      (some 4)
      true
      true
      all_well
      (((4, 1) ∷ []) ∷ ((5, 1) ∷ []) ∷ []))
main-IsReads_example =
    main-IsReads response (λ n left. full) two_pieces (λ n. some 5) (λ n. all_well) 3 3 (some 3)
      (some 4) true true all_well (((4, 1) ∷ []) ∷ ((5, 1) ∷ []) ∷ [])

-- That run returns, with both descriptors registered.
added_of : Outcome → List (ℕ × ℕ)
added_of (goes s) = s.added
added_of exits = []
added_of unfinished = []

registered_example :
    added_of (
      main response
        (λ n left. full)
        two_pieces
        (λ n. some 5)
        (λ n. all_well)
        3
        3
        (some 3)
        (some 4)
        true
        true
        all_well
        (((4, 1) ∷ []) ∷ ((5, 1) ∷ []) ∷ []))
    ≡ (4, 1) ∷ (5, 1) ∷ []
unfolding main run once_loop dispatch_event handle_accept handle_read handle_write send_res
    send_loop added_of
registered_example = refl
