-- ===== src/Echo/Tests.antt =====
-- main.cpp: a connection of the echo server at concrete reads and writes.
use net_library.Base.{
  ℕ, zero, suc, ◌≡◌, ◌⊎◌, refl, Bool, true, some, List, [], ◌∷◌, leb, leb→le, arith,
}
use net_library.Base.Int.{pos}
use net_library.Poller.{Channel}
use net_library.TcpConn.{
  TcpConn, done, bad_alloc, ReadResult, bytes, again, WriteResult, took, write_again, init, on_read,
  connected, handle_read,
}
use net_library.TcpConn.Reading.{IsFitting}
use net_library.TcpConn.Sending.{TakesWithin}
use net_library.TcpConn.Wire.{WhenDone}
use net_library.Echo.{echo, ChannelEvent, readable, writable, serve, attached}
use net_library.Echo.Lossless.{Echoes, serve-Echoes}
use net_library.Echo.Answering.{Answers, handle_read-Answers}

abbrev small : ℕ → Bool
small n = leb n 4096

-- Three bytes, as far as there is room, then EAGAIN, and then the peer closes.
abbrev socket : ℕ → ℕ → ReadResult
socket zero (suc (suc (suc space))) = bytes (some 1 ∷ some 2 ∷ some 3 ∷ [])
socket zero space = again
socket (suc zero) space = again
socket (suc (suc n)) space = bytes []

socket_fits : (n space : ℕ) → IsFitting space (socket n space)
socket_fits zero zero = tt
socket_fits zero (suc zero) = tt
socket_fits zero (suc (suc zero)) = tt
socket_fits zero (suc (suc (suc space))) = omega arith
socket_fits (suc zero) space = tt
socket_fits (suc (suc n)) space = omega arith

-- The first write takes one byte, the second gives EAGAIN, and the next ones take all they are given.
abbrev slow : ℕ → ℕ → WriteResult
slow zero (suc len) = took 1
slow zero zero = took 0
slow (suc zero) len = write_again
slow (suc (suc n)) len = took len

slow_within : (n len : ℕ) → TakesWithin len (slow n len)
slow_within zero zero = omega arith
slow_within zero (suc len) = omega arith
slow_within (suc zero) len = tt
slow_within (suc (suc n)) len = omega arith

abbrev events : List ChannelEvent
events = writable true ∷ readable true ∷ readable true ∷ []

serve-Echoes_example : WhenDone Echoes (serve small socket slow 9 (attached (pos 7)) events)
serve-Echoes_example =
    serve-Echoes small (λ n g. omega (arith, leb→le n 4096 g)) slow slow_within socket socket_fits 9
      (pos 7) events

-- Each write takes all it is given.
abbrev quick : ℕ → ℕ → WriteResult
quick n len = took len

abbrev ch : Channel
ch = record { fd = pos 7; events = 1 }

abbrev open_conn : TcpConn
open_conn = record (on_read init) { channel = some ch; state = connected }

handle_read-Answers_example :
    (handle_read (echo small quick 3) small socket 3 open_conn true ≡ bad_alloc)
    ⊎ ((s' : TcpConn) × (handle_read (echo small quick 3) small socket 3 open_conn true ≡ done s')
        × Answers open_conn s')
handle_read-Answers_example =
    handle_read-Answers small quick (λ n len. refl) (λ n g. omega (arith, leb→le n 4096 g)) socket
      socket_fits 1 3 open_conn ch true refl refl refl refl refl (omega arith) (λ space. tt)
      (omega arith) (omega arith)
