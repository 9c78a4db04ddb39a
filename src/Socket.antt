-- ===== src/Socket.antt =====
-- core/socket.h and core/socket.cpp (`RsSocket`): a socket of the library st, with its time limits
-- and its counts of bytes. What a call of st moves is a parameter; `ReceiveBuffer` has the bytes of
-- `read`. A call gives the error code that it returns. That counts are an `int64_t` is left out.
pub mod Counts
use rabbitstreamer.Prelude.{ℕ, zero, suc, ◌+◌, ◌^◌, ◌-◌, Bool, ◌==◌, if◌then◌else◌}
use rabbitstreamer.ReceiveBuffer.{error_success, error_socket_read, error_socket_timeout}

-- `error_code.h`
abbrev pub error_socket_read_fully : ℕ
error_socket_read_fully = 1008

abbrev pub error_socket_write : ℕ
error_socket_write = 1009

-- What a call of st returns: how many bytes it has moved, or -1 with `ETIME` or another `errno`.
pub data Moved : Type 0 where
  moved : ℕ → Moved
  timed_out failed : Moved

pub record Socket : Type 0 where
  pub send_timeout : ℕ
  pub recv_timeout : ℕ
  pub recv_bytes : ℕ
  pub send_bytes : ℕ

-- The word of `ST_UTIME_NO_TIMEOUT`, which is -1.
abbrev pub no_timeout : ℕ
no_timeout = 2 ^ 64 - 1

-- The constructor.
unfoldable pub create : Socket
create = record {
  send_timeout = no_timeout;
  recv_timeout = no_timeout;
  recv_bytes = 0;
  send_bytes = 0;
}

unfoldable pub is_never_timeout : ℕ → Bool
is_never_timeout timeout_us = timeout_us == no_timeout

unfoldable pub set_recv_timeout : ℕ → Socket → Socket
set_recv_timeout timeout_us s = record s { recv_timeout = timeout_us }

unfoldable pub set_send_timeout : ℕ → Socket → Socket
set_send_timeout timeout_us s = record s { send_timeout = timeout_us }

unfoldable pub read : Moved → Socket → ℕ × Socket
read (moved zero) s = (error_socket_read, s)
read (moved (suc n)) s = (error_success, record s { recv_bytes = s.recv_bytes + suc n })
read timed_out s = (error_socket_timeout, s)
read failed s = (error_socket_read, s)

-- `read_fully`, for `size` bytes
unfoldable pub read_fully : ℕ → Moved → Socket → ℕ × Socket
read_fully size (moved n) s =
    if n == size
    then (error_success, record s { recv_bytes = s.recv_bytes + n })
    else (error_socket_read_fully, s)
read_fully size timed_out s = (error_socket_timeout, s)
read_fully size failed s = (error_socket_read_fully, s)

-- `write`, and `writev`, which does the same with what `st_writev` returns
unfoldable pub write : Moved → Socket → ℕ × Socket
write (moved zero) s = (error_socket_write, s)
write (moved (suc n)) s = (error_success, record s { send_bytes = s.send_bytes + suc n })
write timed_out s = (error_socket_timeout, s)
write failed s = (error_socket_write, s)
