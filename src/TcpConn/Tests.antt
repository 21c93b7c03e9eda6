-- ===== src/TcpConn/Tests.antt =====
-- Runs of a connection, and its theorems at such runs.
use net_library.Base.{ℕ, zero, suc, ◌≡◌, refl, Bool, true, false, some, List, [], ◌∷◌, leb, arith}
use net_library.Base.Int.{pos}
use net_library.Poller.{Channel}
use net_library.TcpConn.{
  TcpConn, unfinished, ReadResult, bytes, again, WriteResult, took, write_again, write_broken, init,
  attach, handshaking, on_read, connected, isend,
}
use net_library.TcpConn.Reading.{IsFitting}
use net_library.Buffer
use net_library.Buffer.{Cell}
use net_library.TcpConn.States.{Safe}
use net_library.TcpConn.Events.{
  ConnEvent, readable, writable, sends, run_events, attach-run_events-Safe,
}
use net_library.TcpConn.Sending.{TakesWithin, isend_again-unfinished}

abbrev small : ℕ → Bool
small n = leb n 4096

abbrev keep : TcpConn → TcpConn
keep s = s

abbrev ch : Channel
ch = record { fd = pos 7; events = 1 }

abbrev open_conn : TcpConn
open_conn = record (on_read init) { channel = some ch; state = connected }

-- Two bytes, as far as there is room, then EAGAIN.
abbrev socket : ℕ → ℕ → ReadResult
socket zero (suc (suc space)) = bytes (some 1 ∷ some 2 ∷ [])
socket n space = again

socket_fits : (n space : ℕ) → IsFitting space (socket n space)
socket_fits zero zero = tt
socket_fits zero (suc zero) = tt
socket_fits zero (suc (suc n)) = omega arith
socket_fits (suc n) space = tt

abbrev five : List Cell
five = some 1 ∷ some 2 ∷ some 3 ∷ some 4 ∷ some 5 ∷ []

-- A socket that takes one byte, and then fails.
abbrev one_byte : ℕ → ℕ → WriteResult
one_byte zero (suc len) = took 1
one_byte n len = write_broken

one_byte_within : (n len : ℕ) → TakesWithin len (one_byte n len)
one_byte_within zero zero = tt
one_byte_within zero (suc len) = omega arith
one_byte_within (suc n) len = tt

isend_again-unfinished_example :
    isend small (λ n len. write_again) 9 open_conn ch five 5 0 ≡ unfinished
isend_again-unfinished_example =
    isend_again-unfinished small (λ n len. write_again) (λ n len. refl) 9 open_conn ch five 5 0
      (omega arith)

-- The peer sends two bytes, the client tries to send, and poll reports nothing more.
abbrev events : List ConnEvent
events = writable true ∷ readable true ∷ sends Buffer.init ∷ readable false ∷ []

attach-run_events-Safe_example :
    Safe handshaking
      (run_events keep small socket one_byte 9 (attach keep (on_read init) (pos 7)) events)
attach-run_events-Safe_example =
    attach-run_events-Safe keep small socket one_byte (λ s. (refl, refl)) 9 (on_read init) (pos 7)
      events refl
