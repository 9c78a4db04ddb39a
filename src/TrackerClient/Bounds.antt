-- ===== src/TrackerClient/Bounds.antt =====
-- How many packets a super peer can take from the tracker
-- (`loop` of protocol/sp/sp_tracker_connector.cpp).
use rabbitstreamer.Prelude.{
  drop, ◌++◌, ap, length-append, length-drop, Ensures-ok, >>=-ok, ◌+◌, ◌*◌, ◌≤◌, ◌≢◌, arith, true,
  length, All, ℕ, ◌≡◌, refl, List, [], ◌∷◌, Option, none, some, Result, ok, ◌>>=◌, Ensures, holds,
  Ensures-bind, Ensures-if,
}
use rabbitstreamer.SourceManager.{SourceManager}
use rabbitstreamer.Message.Ts2SpWelcome
use rabbitstreamer.Streamer.{initialize}
use rabbitstreamer.Message.{open_packet, Packet}
use rabbitstreamer.Message.Framing.{length-new_array}
use rabbitstreamer.TrackerClient.{
  create, udp_max_packet_size, TrackerClient, Outside, write_packed, send_register, send_res_list,
  get_welcome, get_sp_list, get_res_interval, handle, loop,
}

-- The receive buffer is where and what it was.
abbrev At : List ℕ → TrackerClient × Option (List ℕ) → Type 0
At mem r = r.0.recv_buf ≡ mem

module _ (o : Outside) (sources : SourceManager) (c : TrackerClient) where
  write_packed-At : (r : Result (List ℕ)) → Ensures (At c.recv_buf) (write_packed r c)
  unfolding write_packed
  write_packed-At r = Ensures-bind (At c.recv_buf) r _ (λ p e. holds (c, some p) refl)

  send_res_list-At : Ensures (At c.recv_buf) (send_res_list o sources c)
  unfolding send_res_list
  send_res_list-At = Ensures-if (At c.recv_buf) _ _ _ (holds (c, none) refl) (write_packed-At _)

  get_res_interval-At : Ensures (At c.recv_buf) (get_res_interval o sources c)
  unfolding get_res_interval send_register
  get_res_interval-At = Ensures-if (At c.recv_buf) _ _ _ send_res_list-At (write_packed-At _)

  get_welcome-At : (body : List ℕ) → Ensures (At c.recv_buf) (get_welcome body c)
  unfolding get_welcome
  get_welcome-At body =
      Ensures-bind (At c.recv_buf) (Ts2SpWelcome.parse (initialize body)) _
        (λ m e. holds (record c { sp_id = m.0.sp_uuid; register_flag = true }, none) refl)

  handle-At : (p : Packet) → Ensures (At c.recv_buf) (handle o sources p c)
  unfolding handle get_sp_list
  handle-At p = Ensures-if (At c.recv_buf) _ _ _ (get_welcome-At p.body) (
      Ensures-if (At c.recv_buf) _ _ _ (holds (c, none) refl)
        (Ensures-if (At c.recv_buf) _ _ _ get_res_interval-At (holds (c, none) refl)))

open_packet-long : (mem : List ℕ) (p : Packet) → open_packet mem ≡ ok p → 5 ≤ length mem
unfolding open_packet
open_packet-long mem p e = ground (arith, e)

-- What stands at `recv_buf` after a packet is stored there.
length-stored :
    (buf mem : List ℕ)
    → length buf ≤ length mem
    → length (buf ++ drop (length buf) mem) ≡ length mem
length-stored buf mem h =
    omega (arith, length-append buf (drop (length buf) mem), length-drop (length buf) mem)

-- A packet that is taken lies in the buffer, of which five bytes less are left.
loop-moves :
    (o : Outside) (sources : SourceManager) (buf : List ℕ) (c : TrackerClient)
    (r : TrackerClient × Option (List ℕ))
    → length buf ≢ 0
    → loop o sources (some buf) c ≡ ok r
    → length r.0.recv_buf + 5 ≡ length c.recv_buf
unfolding loop
loop-moves o sources buf c r some_bytes e =
    let mem = buf ++ drop (length buf) c.recv_buf in
    let next = record c { recv_buf = drop 5 mem } in
    let received = open_packet mem >>= λ p. handle o sources p next in
    let same : received ≡ ok r = ground (arith, e) in
    let fits : length buf ≤ length c.recv_buf = ground (arith, e) in
    let (p, opened, handled) = >>=-ok (open_packet mem) (λ p. handle o sources p next) same in
    let left : r.0.recv_buf ≡ drop 5 mem =
      Ensures-ok (At next.recv_buf) (handle o sources p next) r (handle-At o sources next p)
        handled in
    let long : length r.0.recv_buf ≡ length (drop 5 mem) = ap (λ (l : List ℕ). length l) left in
    omega (
      arith,
      long,
      length-drop 5 mem,
      length-stored buf c.recv_buf fits,
      open_packet-long mem p opened,
    )

-- The super peer takes one packet after the other, each with what its handler takes from outside.
unfoldable pub run : List (Outside × SourceManager × List ℕ) → TrackerClient → Result TrackerClient
run [] c = ok c
run ((o, sources, buf) ∷ packets) c = loop o sources (some buf) c >>= λ r. run packets r.0

-- Each packet has taken five bytes of the buffer.
run_bounds :
    (packets : List (Outside × SourceManager × List ℕ)) (c c' : TrackerClient)
    → All (λ (p : Outside × SourceManager × List ℕ). length p.2 ≢ 0) packets
    → run packets c ≡ ok c'
    → length c'.recv_buf + 5 * length packets ≡ length c.recv_buf
unfolding run
run_bounds [] c c' some_bytes e = ground (arith, e)
run_bounds ((o, sources, buf) ∷ packets) c c' some_bytes e =
    let (r, first, rest) = >>=-ok (loop o sources (some buf) c) (λ r. run packets r.0) e in
    let moved = loop-moves o sources buf c r some_bytes.0 first in
    let all = run_bounds packets r.0 c' some_bytes.1 rest in omega arith

-- A super peer that has just started takes at most 13107 packets from the tracker, none of them
-- empty, before a call ends in a fault: its receive buffer moves on by five bytes with each packet
-- and is never set back.
pub run-le :
    (memory : List ℕ) (fresh : ℕ → ℕ) (packets : List (Outside × SourceManager × List ℕ))
    (c : TrackerClient)
    → All (λ (p : Outside × SourceManager × List ℕ). length p.2 ≢ 0) packets
    → run packets (create memory fresh) ≡ ok c
    → length packets ≤ 13107
unfolding create
run-le memory fresh packets c some_bytes e = omega (
  arith,
  run_bounds packets (create memory fresh) c some_bytes e,
  length-new_array fresh udp_max_packet_size,
)
