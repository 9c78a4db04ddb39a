-- ===== src/Dispatch/Peers.antt =====
-- The packets that peers send to the tracker (protocol/tracker/tracker_np_connector.cpp).
use rabbitstreamer.Prelude.{◌++◌, ◌∙◌, ℕ, ◌≡◌, refl, List, some, Result, ok, fault, ◌>>=◌, arith}
use rabbitstreamer.Streamer.{Streamer, Reader, initialize}
use rabbitstreamer.Message.{Message, Packet, open_packet, receive, pack}
use rabbitstreamer.Message.Np2TsLogin
use rabbitstreamer.Message.Np2TsReqRes
use rabbitstreamer.Message.Np2TsReport
use rabbitstreamer.Message.Np2TsNeedPeers
use rabbitstreamer.Message.Np2TsReqInterval
use rabbitstreamer.Message.Np2TsLogout
use rabbitstreamer.Dispatch.{
  NpMessage, login, req_res, report, need_peers, req_interval, logout, parsed, np_message,
  handle_np_packet,
}

-- What a packet at the start of this memory is made of that is received as a message.
pub record Opened {M : Type 0} (parse : Reader M) (mem : List ℕ) (tag : ℕ) (m : M) : Type 0 where
  pub packet : Packet
  pub rest : Streamer
  pub opened : open_packet mem ≡ ok packet
  pub typed : packet.msg_type ≡ tag
  pub read : parse (initialize packet.body) ≡ ok (m, rest)

-- What `receive` makes of the packet and of what is parsed.
abbrev answer : {M : Type 0} → Packet → M × Streamer → Result (ℕ × M)
answer p s = ok (p.msg_type, s.0)

module _ {M : Type 0} (c : Message M) (mem : List ℕ) (tag : ℕ) (m : M) where
  by_parse :
      (p : Packet) (r : Result (M × Streamer))
      → open_packet mem ≡ ok p
      → c.parse (initialize p.body) ≡ r
      → (r >>= answer p) ≡ ok (tag, m)
      → Opened c.parse mem tag m
  by_parse p (ok (m', st)) e f g = record {
    packet = p;
    rest = st;
    opened = e;
    typed = ground (arith, g);
    read = f ∙ ground (arith, g);
  }
  by_parse p (fault x) e f g = ground arith

  by_open :
      (r : Result Packet)
      → open_packet mem ≡ r
      → (r >>= λ p. c.parse (initialize p.body) >>= answer p) ≡ ok (tag, m)
      → Opened c.parse mem tag m
  by_open (ok p) e g = by_parse p (c.parse (initialize p.body)) e refl g
  by_open (fault x) e g = ground arith

  pub receive-Opened : receive c mem ≡ ok (tag, m) → Opened c.parse mem tag m
  unfolding receive
  receive-Opened g = by_open (open_packet mem) refl g

-- `pack` of the message's class.
abbrev pub np_pack : (ℕ → ℕ) → NpMessage → Result (List ℕ)
np_pack memory (login m) = pack Np2TsLogin.message memory m
np_pack memory (req_res m) = pack Np2TsReqRes.message memory m
np_pack memory (report m) = pack Np2TsReport.message memory m
np_pack memory (need_peers m) = pack Np2TsNeedPeers.message memory m
np_pack memory (req_interval m) = pack Np2TsReqInterval.message memory m
np_pack memory (logout m) = pack Np2TsLogout.message memory m

-- The fields are in range, and it is no report.
abbrev pub NpFits : NpMessage → Type 0
NpFits (login m) = Np2TsLogin.IsValid m
NpFits (req_res m) = Np2TsReqRes.IsValid m
NpFits (report m) = ⊥
NpFits (need_peers m) = Np2TsNeedPeers.IsValid m
NpFits (req_interval m) = Np2TsReqInterval.IsValid m
NpFits (logout m) = Np2TsLogout.IsValid m

pub parsed_lem :
    {M N : Type 0} (parse : Reader M) (wrap : M → N) (body : List ℕ) (m : M) (st : Streamer)
    → parse (initialize body) ≡ ok (m, st)
    → parsed parse wrap body ≡ ok (some (wrap m))
unfolding parsed
parsed_lem parse wrap body m st e = rw e refl

-- Every message of a peer but a report that has fields in range is packed, in any memory, into a
-- packet that the tracker takes for the same message, whatever its receive buffer holds behind it.
pub handle_np_packet-np_pack :
    (memory : ℕ → ℕ) (m : NpMessage)
    → NpFits m
    → (payload : List ℕ) × (np_pack memory m ≡ ok payload)
      × ((behind : List ℕ) → handle_np_packet payload behind ≡ ok (some m))
unfolding handle_np_packet np_message
handle_np_packet-np_pack memory (login m) v =
    let t = Np2TsLogin.Np2TsLogin-RoundTrips memory m v in
    let o = λ (behind : List ℕ).
      receive-Opened Np2TsLogin.message (t.payload ++ behind) Np2TsLogin.tag m
        (t.received behind) in
    (
      t.payload,
      t.packed,
      λ behind. ground (
        arith,
        (o behind).opened,
        (o behind).typed,
        t.some_bytes,
        parsed_lem Np2TsLogin.parse login (o behind).packet.body m (o behind).rest (o behind).read,
      ),
    )
handle_np_packet-np_pack memory (req_res m) v =
    let t = Np2TsReqRes.Np2TsReqRes-RoundTrips memory m v in
    let o = λ (behind : List ℕ).
      receive-Opened Np2TsReqRes.message (t.payload ++ behind) Np2TsReqRes.tag m
        (t.received behind) in
    (
      t.payload,
      t.packed,
      λ behind. ground (
        arith,
        (o behind).opened,
        (o behind).typed,
        t.some_bytes,
        parsed_lem Np2TsReqRes.parse req_res (o behind).packet.body m (o behind).rest
            (o behind).read,
      ),
    )
handle_np_packet-np_pack memory (need_peers m) v =
    let t = Np2TsNeedPeers.Np2TsNeedPeers-RoundTrips memory m v in
    let o = λ (behind : List ℕ).
      receive-Opened Np2TsNeedPeers.message (t.payload ++ behind) Np2TsNeedPeers.tag m
        (t.received behind) in
    (
      t.payload,
      t.packed,
      λ behind. ground (
        arith,
        (o behind).opened,
        (o behind).typed,
        t.some_bytes,
        parsed_lem Np2TsNeedPeers.parse need_peers (o behind).packet.body m (o behind).rest
            (o behind).read,
      ),
    )
handle_np_packet-np_pack memory (req_interval m) v =
    let t = Np2TsReqInterval.Np2TsReqInterval-RoundTrips memory m v in
    let o = λ (behind : List ℕ).
      receive-Opened Np2TsReqInterval.message (t.payload ++ behind) Np2TsReqInterval.tag m
        (t.received behind) in
    (
      t.payload,
      t.packed,
      λ behind. ground (
        arith,
        (o behind).opened,
        (o behind).typed,
        t.some_bytes,
        parsed_lem Np2TsReqInterval.parse req_interval (o behind).packet.body m (o behind).rest
            (o behind).read,
      ),
    )
handle_np_packet-np_pack memory (logout m) v =
    let t = Np2TsLogout.Np2TsLogout-RoundTrips memory m v in
    let o = λ (behind : List ℕ).
      receive-Opened Np2TsLogout.message (t.payload ++ behind) Np2TsLogout.tag m
        (t.received behind) in
    (
      t.payload,
      t.packed,
      λ behind. ground (
        arith,
        (o behind).opened,
        (o behind).typed,
        t.some_bytes,
        parsed_lem Np2TsLogout.parse logout (o behind).packet.body m (o behind).rest
            (o behind).read,
      ),
    )
handle_np_packet-np_pack memory (report m) v = absurd v
