-- ===== src/Socket/Counts.antt =====
-- What the counts of core/socket.cpp say after any calls.
use rabbitstreamer.Prelude.{
  ℕ, zero, suc, refl, ◌+◌, ◌≡◌, ◌==◌, if◌then◌else◌, List, [], ◌∷◌, length, arith,
}
use rabbitstreamer.ReceiveBuffer.{
  StRead, received, timed_out, failed, SocketRead, bytes, error, read_result, error_success,
}
use rabbitstreamer.Socket.{Moved, moved, Socket, read, read_fully, write}
use rabbitstreamer.Socket

-- The calls that move bytes.
pub data Call : Type 0 where
  reads : Moved → Call
  reads_fully : ℕ → Moved → Call
  writes : Moved → Call

unfoldable pub call : Call → Socket → ℕ × Socket
call (reads r) s = read r s
call (reads_fully size r) s = read_fully size r s
call (writes r) s = write r s

-- How many bytes a call has moved.
abbrev pub amount : Moved → ℕ
amount (moved n) = n
amount Socket.timed_out = 0
amount Socket.failed = 0

abbrev pub in_bytes : Call → ℕ
in_bytes (reads r) = amount r
in_bytes (reads_fully size r) = amount r
in_bytes (writes r) = 0

abbrev pub out_bytes : Call → ℕ
out_bytes (reads r) = 0
out_bytes (reads_fully size r) = 0
out_bytes (writes r) = amount r

-- The calls one after the other, with the sums of the bytes of those that return no error.
pub record Progress : Type 0 where
  pub socket : Socket
  pub came_in : ℕ
  pub went_out : ℕ

unfoldable pub run : List Call → Progress → Progress
run [] p = p
run (c ∷ cs) p =
    let (code, s) = call c p.socket in
    run cs (
      if code == error_success
      then record {
        socket = s;
        came_in = p.came_in + in_bytes c;
        went_out = p.went_out + out_bytes c;
      }
      else record p { socket = s })

-- The counts differ from the sums as much as before.
pub record Same (p p' : Progress) : Type 0 where
  pub came_in : p'.socket.recv_bytes + p.came_in ≡ p.socket.recv_bytes + p'.came_in
  pub went_out : p'.socket.send_bytes + p.went_out ≡ p.socket.send_bytes + p'.went_out
  pub recv_timeout : p'.socket.recv_timeout ≡ p.socket.recv_timeout
  pub send_timeout : p'.socket.send_timeout ≡ p.socket.send_timeout

-- A call that returns no error adds what it has moved to its count, and any other call adds
-- nothing.
call_adds :
    (c : Call) (s : Socket)
    → ((call c s).1.recv_timeout ≡ s.recv_timeout)
      × ((call c s).1.send_timeout ≡ s.send_timeout)
      × ((call c s).1.recv_bytes
          ≡ s.recv_bytes + (if (call c s).0 == error_success then in_bytes c else 0))
      × ((call c s).1.send_bytes
          ≡ s.send_bytes + (if (call c s).0 == error_success then out_bytes c else 0))
unfolding call read read_fully write
call_adds (reads (moved zero)) s = ground arith
call_adds (reads (moved (suc n))) s = ground arith
call_adds (reads Socket.timed_out) s = ground arith
call_adds (reads Socket.failed) s = ground arith
call_adds (reads_fully size (moved n)) s = ground arith
call_adds (reads_fully size Socket.timed_out) s = ground arith
call_adds (reads_fully size Socket.failed) s = ground arith
call_adds (writes (moved zero)) s = ground arith
call_adds (writes (moved (suc n))) s = ground arith
call_adds (writes Socket.timed_out) s = ground arith
call_adds (writes Socket.failed) s = ground arith

-- Whatever calls are made, each count grows by exactly the bytes of those of its calls that return
-- no error, and no call changes the time limits. In particular the bytes of a `read_fully` that ends
-- early are not counted.
pub run-Same : (cs : List Call) (p : Progress) → Same p (run cs p)
unfolding run
run-Same [] p = record { came_in = refl; went_out = refl; recv_timeout = refl; send_timeout = refl }
run-Same (c ∷ cs) p =
    let (code, s) = call c p.socket in
    let next : Progress =
      if code == error_success
      then record {
        socket = s;
        came_in = p.came_in + in_bytes c;
        went_out = p.went_out + out_bytes c;
      }
      else record p { socket = s } in
    let rest = run-Same cs next in
    let added = call_adds c p.socket in
    record {
      came_in = ground (arith, rest.came_in, added);
      went_out = ground (arith, rest.went_out, added);
      recv_timeout = ground (arith, rest.recv_timeout, added);
      send_timeout = ground (arith, rest.send_timeout, added);
    }

-- What `ReceiveBuffer` takes for a result of `read` has the error code that `read` returns, and as
-- many bytes as it counts.
abbrev pub moved_by : StRead → Moved
moved_by (received bs) = moved (length bs)
moved_by timed_out = Socket.timed_out
moved_by failed = Socket.failed

abbrev pub Agrees : SocketRead → ℕ × Socket → Socket → Type 0
Agrees (bytes bs) (code, s') s = (code ≡ error_success) × (s'.recv_bytes ≡ s.recv_bytes + length bs)
Agrees (error e) (code, s') s = (code ≡ e) × (s'.recv_bytes ≡ s.recv_bytes)

pub read-Agrees : (r : StRead) (s : Socket) → Agrees (read_result r) (read (moved_by r) s) s
unfolding read read_result
read-Agrees (received []) s = (refl, refl)
read-Agrees (received (b ∷ bs)) s = (refl, refl)
read-Agrees timed_out s = (refl, refl)
read-Agrees failed s = (refl, refl)
