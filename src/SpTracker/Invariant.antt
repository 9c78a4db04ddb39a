-- ===== src/SpTracker/Invariant.antt =====
-- What every packet keeps in protocol/tracker/tracker_sp_connector.cpp, whatever its message.
use rabbitstreamer.Prelude.{
  drop, ◌++◌, subst, ℕ, refl, ◌≡◌, ◌≢◌, ◌∙◌, ap, List, [], ◌∷◌, some, Result, ok, fault, ◌>>=◌,
  length, dec_le, Ensures, holds, failed, Ensures-if, Ensures-bind, Ensures-find, Ensures-ok,
  >>=-ok, out_of_bounds, arith,
}
use rabbitstreamer.StreamManager.{
  ChannelNode, StreamManager, str_rank, assign, get_channel, get_node, insert_channel,
  get_other_addresses,
}
use rabbitstreamer.StreamManager.Laws.{IsFull, IsValid, get_node-insert_channel}
use rabbitstreamer.Dispatch.{SpMessage, register, status, res_list, get_sp, leave, handle_sp_packet}
use rabbitstreamer.Uuid.Laws.{generate_uuid_text}
use rabbitstreamer.Uuid.{generate_uuid, uuid_text}
use rabbitstreamer.SpTracker.{
  packet, register_node, set_hashes, written, Sp2TsStatus, Sp2TsResList, Sp2TsRegister, Outside,
  Sent, nothing, send_welcome, get_register, get_res_list, send_sp_list, get_sp_list, get_status,
  handle, handle_udp_packet,
}
use rabbitstreamer.SpTracker.Updates.{copy_hashes_short}

-- The super peer that a message changes: itself, or the one that gets the new UUID.
abbrev pub sender : Outside → SpMessage → List ℕ
sender o (register m) = uuid_text o.rand
sender o (status m) = m.sp_uuid
sender o (res_list m) = m.sp_uuid
sender o (get_sp m) = m.sp_uuid
sender o (leave m) = m.sp_uuid

-- All arrays are as long as they say, and a super peer is known as it was.
abbrev Same : List ℕ → StreamManager → StreamManager → Type 0
Same other s s' = IsValid s' × (get_node other s' ≡ get_node other s)

abbrev pub Kept : List ℕ → StreamManager → StreamManager × Sent → Type 0
Kept other s (s', p) = IsValid s' × (get_node other s' ≡ get_node other s)

module _ (o : Outside) (other : List ℕ) (s : StreamManager) (v : IsValid s) where
  assign_short : (node : ChannelNode) → ¬ IsFull node → assign o.now node ≡ fault out_of_bounds
  unfolding assign
  assign_short node short = ground (arith, copy_hashes_short node.resource_count node.hashes)

  insert_channel-short :
      (uuid : List ℕ) (node : ChannelNode)
      → ¬ IsFull node
      → Ensures (Same other s) (insert_channel o.now uuid node s)
  unfolding insert_channel
  insert_channel-short uuid node short =
      let never : (n : ChannelNode) → assign o.now node ≢ ok n =
        λ n e. cc (assign_short node short) in
      Ensures-bind (Same other s) (get_channel o.now uuid s) _ (λ there e.
        Ensures-find (Same other s) there _ _
          (Ensures-bind (Same other s) (assign o.now node) _ (λ n f. absurd (never n f)))
          (λ copy e. Ensures-bind (Same other s) (assign o.now node) _ (λ n f. absurd (never n f))))

  insert_channel-Same :
      (uuid : List ℕ) (node : ChannelNode)
      → str_rank other ≢ str_rank uuid
      → Ensures (Same other s) (insert_channel o.now uuid node s)
  insert_channel-Same uuid node ne = elim (dec_le node.resource_count (length node.hashes)) [
    | yes full ↦
        let (s', e, v', found) = get_node-insert_channel o.now uuid other node s v full in
        rw e (holds s' (v', ground (arith, found)))
    | no short ↦ insert_channel-short uuid node short
  ]

  same-Kept : (p : Sent) → Ensures (Kept other s) (ok (s, p))
  same-Kept p = holds (s, p) (v, refl)

  -- A change that is not answered.
  changed-Kept :
      (r : Result StreamManager)
      → Ensures (Same other s) r
      → Ensures (Kept other s) (r >>= λ s'. ok (s', nothing))
  changed-Kept (ok s') (holds _ h) = holds (s', nothing) h
  changed-Kept (fault e) h = failed e

  get_register-Kept :
      (m : Sp2TsRegister)
      → str_rank other ≢ str_rank (uuid_text o.rand)
      → Ensures (Kept other s) (get_register o m s)
  unfolding get_register send_welcome
  get_register-Kept m ne = Ensures-bind (Kept other s) (generate_uuid o.rand) _ (λ uuid e.
      let ne' : str_rank other ≢ str_rank uuid = rw (← generate_uuid_text o.rand uuid e) ne in
      let inserted = insert_channel-Same uuid (register_node o m) ne' in
      Ensures-bind (Kept other s) (insert_channel o.now uuid (register_node o m) s) _ (λ s' f.
        Ensures-bind (Kept other s) _ _
          (λ payload g. holds (s', packet payload) (Ensures-ok (Same other s) _ s' inserted f))))

  get_res_list-Kept :
      (m : Sp2TsResList)
      → str_rank other ≢ str_rank m.sp_uuid
      → Ensures (Kept other s) (get_res_list o m s)
  unfolding get_res_list
  get_res_list-Kept m ne = Ensures-bind (Kept other s) (get_channel o.now m.sp_uuid s) _ (λ found e.
      Ensures-find (Kept other s) found _ _ (same-Kept nothing) (λ node f.
        Ensures-bind (Kept other s) (set_hashes m.resource_count m.res_info) _
          (λ hs g. changed-Kept _ (insert_channel-Same m.sp_uuid _ ne))))

  send_sp_list-Kept : (uuid : List ℕ) → Ensures (Kept other s) (send_sp_list o uuid s)
  unfolding send_sp_list
  send_sp_list-Kept uuid = Ensures-bind (Kept other s) (get_other_addresses uuid s) _ (λ addrs e.
      Ensures-if (Kept other s) _ _ _ (same-Kept nothing)
        (Ensures-bind (Kept other s) _ _ (λ payload f. same-Kept (written payload))))

  get_status-Kept :
      (m : Sp2TsStatus)
      → str_rank other ≢ str_rank m.sp_uuid
      → Ensures (Kept other s) (get_status o m s)
  unfolding get_status
  get_status-Kept m ne = Ensures-bind (Kept other s) (get_channel o.now m.sp_uuid s) _ (λ found e.
      Ensures-find (Kept other s) found _ _ (same-Kept nothing)
        (λ node f. changed-Kept _ (insert_channel-Same m.sp_uuid _ ne)))

  handle-Kept :
      (m : SpMessage)
      → str_rank other ≢ str_rank (sender o m)
      → Ensures (Kept other s) (handle o m s)
  unfolding handle get_sp_list
  handle-Kept (register m) ne = get_register-Kept m ne
  handle-Kept (status m) ne = get_status-Kept m ne
  handle-Kept (res_list m) ne = get_res_list-Kept m ne
  handle-Kept (get_sp m) ne = send_sp_list-Kept m.sp_uuid
  handle-Kept (leave m) ne = same-Kept nothing

-- What a packet is taken for, if anything, is not from this super peer.
abbrev pub NotSent : List ℕ → Outside → List ℕ → List ℕ → Type 0
NotSent other o buf behind =
    (m : SpMessage)
    → handle_sp_packet buf behind ≡ ok (some m)
    → str_rank other ≢ str_rank (sender o m)

pub handle_udp_packet-Kept :
    (o : Outside) (buf behind other : List ℕ) (s : StreamManager)
    → IsValid s
    → NotSent other o buf behind
    → Ensures (Kept other s) (handle_udp_packet o buf behind s)
unfolding handle_udp_packet
handle_udp_packet-Kept o buf behind other s v others =
    Ensures-bind (Kept other s) (handle_sp_packet buf behind) _ (λ m e.
      Ensures-find (Kept other s) m _ _ (same-Kept o other s v nothing)
        (λ n f. handle-Kept o other s v n (others n (e ∙ ap ok f))))

-- The tracker takes one packet after the other, each with what its handler takes from outside. The
-- listener stores each of them at the start of the same buffer (`loop` of core/udp_listener.cpp), so
-- what an earlier packet left stands behind a shorter one.
unfoldable pub run : List (Outside × List ℕ) → List ℕ → StreamManager → Result StreamManager
run [] mem s = ok s
run ((o, buf) ∷ packets) mem s =
    let behind = drop (length buf) mem in
    handle_udp_packet o buf behind s >>= λ r. run packets (buf ++ behind) r.0

-- None of the packets is taken for a message from this super peer.
abbrev pub NotFrom : List ℕ → List (Outside × List ℕ) → List ℕ → Type 0
NotFrom other [] mem = Unit {0}
NotFrom other ((o, buf) ∷ packets) mem =
    let behind = drop (length buf) mem in
    NotSent other o buf behind × NotFrom other packets (buf ++ behind)

-- Whatever packets the tracker takes from super peers one after the other into the same memory, also
-- ones that are shorter or longer than their headers say, if none of them is taken for a message
-- from a given super peer and none ends in a fault, then its map stays in order with all arrays as
-- long as they say, and it still knows of that super peer exactly what it knew before.
pub run_keeps_super_peer :
    (packets : List (Outside × List ℕ)) (mem other : List ℕ) (s s' : StreamManager)
    → IsValid s
    → NotFrom other packets mem
    → run packets mem s ≡ ok s'
    → IsValid s' × (get_node other s' ≡ get_node other s)
unfolding run
run_keeps_super_peer [] mem other s s' v others e =
    let same : s ≡ s' = cc in
    subst (λ t. IsValid t × (get_node other t ≡ get_node other s)) same (v, refl)
run_keeps_super_peer ((o, buf) ∷ packets) mem other s s' v others e =
    let behind = drop (length buf) mem in
    let (r, first, rest) =
      >>=-ok (handle_udp_packet o buf behind s) (λ r. run packets (buf ++ behind) r.0) e in
    let (v', found) =
      Ensures-ok (Kept other s) (handle_udp_packet o buf behind s) r
        (handle_udp_packet-Kept o buf behind other s v others.0) first in
    let (still, found') =
      run_keeps_super_peer packets (buf ++ drop (length buf) mem) other r.0 s' v' others.1 rest in
    (still, found' ∙ found)
