-- ===== src/TcpConn/Making.antt =====
-- tcpConn.cpp: how connections are made.
use net_library.Base.{ℕ, ◌≡◌, refl, Bool}
use net_library.Base.Int.{ℤ}
use net_library.Buffer.{Buffer}
use net_library.TcpConn.{TcpConn, done, WriteResult, init, attach, send}
use net_library.TcpConn.Message.{send-none}

-- connect, of a host and a port: the fatalif only writes to the log, and nothing follows it.
pub connect : TcpConn → TcpConn
connect s = s

-- createConnect, of a host and a port.
pub create_connect : TcpConn
unfolding connect
create_connect = connect init

-- The connection that createConnect attaches to a descriptor. There is no return statement, so that
-- the pointer to it which the client gets is undefined. A new connection has no channel and no callback.
pub create_attached : ℤ → TcpConn
create_attached fd = attach (λ s. s) init fd

-- A connection that createConnect makes for a host has no channel, and `send` leaves it and the message
-- as they are.
pub create_connect-send :
    (grants : ℕ → Bool) (sent : ℕ → ℕ → WriteResult) (fuel : ℕ) (msg : Buffer)
    → send grants sent fuel create_connect msg ≡ done (create_connect, msg)
unfolding create_connect connect
create_connect-send grants sent fuel msg = send-none grants sent fuel create_connect msg refl
