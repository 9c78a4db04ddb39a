-- ===== src/PeerServer/Idle.antt =====
-- How a connection from which nothing comes is closed (`loop` of protocol/sp/sp_np_connector.cpp,
-- which `thread_loop` of core/thread.cpp repeats).
use rabbitstreamer.Prelude.{
  ltb, ℕ, zero, suc, ◌+◌, ◌≤◌, ◌<◌, ◌≡◌, ◌≢◌, if◌then◌else◌, List, ◌++◌, Result, ok, ◌>>=◌,
}
use rabbitstreamer.ReceiveBuffer.{error_success, Connection, ReceiveBuffer, error, read_result}
use rabbitstreamer.ReceiveBuffer.Room.{IsValid, Room}
use rabbitstreamer.SourceManager.{SourceManager}
use rabbitstreamer.PeerServer.{PeerServer, Outside, idle_rounds, loop}

-- What a thread has done so far: the connection, `no_receive_counter`, and what has been written.
pub record Progress (W : Type 0) : Type 0 where
  pub server : PeerServer
  pub no_receive_counter : ℕ
  pub sent : List (List ℕ)
  pub conn : W

module _ {W : Type 0} (io : Connection W) (fresh : ℕ → List ℕ) where
  -- The `while` loop of `thread_loop`, for at most so many rounds. The hooks around `loop` do
  -- nothing, and its result changes nothing.
  unfoldable pub rounds : Outside → SourceManager → ℕ → Progress W → Result (Progress W)
  rounds o sources zero p = ok p
  rounds o sources (suc n) p =
      let next = loop io fresh o sources p.server p.no_receive_counter p.conn >>= λ r.
      rounds o sources n (record {
        server = r.server;
        no_receive_counter = r.no_receive_counter;
        sent = p.sent ++ r.sent;
        conn = r.conn;
      }) in
      if p.server.loop_flag then next else ok p

-- No read brings a byte.
abbrev pub Silent : {W : Type 0} → Connection W → Type 0
Silent {W} io =
    (w : W) (n : ℕ)
    → (code : ℕ) × (read_result (io.st_read w n).0 ≡ error code) × (code ≢ error_success)

-- A buffer with less than the size of a message in it.
pub record Short (b : ReceiveBuffer) : Type 0 where
  pub valid : IsValid b
  pub short : b.end_ptr < b.curr_ptr + 4
  pub large : 4 ≤ b.buffer_size

module _ {W : Type 0} (io : Connection W) (fresh : ℕ → List ℕ) (silent : Silent io) where
  -- A call fails and leaves such a buffer.
  abbrev Fails : Result (ℕ × ReceiveBuffer × W) → Type 0
  Fails r =
      (code : ℕ) × (b' : ReceiveBuffer) × (w' : W) × (r ≡ ok (code, b', w'))
      × Short b'
      × (code ≢ error_success)

  -- What `n` rounds have done.
  pub record Waited (n : ℕ) (p p' : Progress W) : Type 0 where
    pub loop_flag : p'.server.loop_flag ≡ ltb (p.no_receive_counter + n) idle_rounds
    pub counter :
        p'.no_receive_counter
        ≡ (if ltb (p.no_receive_counter + n) idle_rounds then p.no_receive_counter + n else 0)
    pub sent : p'.sent ≡ p.sent
