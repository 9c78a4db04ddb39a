-- ===== src/PeerServer/Relay.antt =====
-- A block on its way from a capture server (protocol/sp/sp_cs_connector.cpp) to a peer
-- (protocol/sp/sp_np_connector.cpp).
use rabbitstreamer.Prelude.{
  ℕ, suc, ap, subst, ◌∙◌, ◌+◌, ◌%◌, ◌^◌, ◌<◌, ◌≡◌, ◌==◌, false, true, List, [], ◌∷◌, ◌++◌, Option,
  some, ok, length, take, take_append, arith,
}
use rabbitstreamer.Message.Framing.{frame}
use rabbitstreamer.Message.Sp2SpPushList.{Sp2SpPushList}
use rabbitstreamer.Message.Sp2SpPushList
use rabbitstreamer.Message.Sp2SpResponse
use rabbitstreamer.CoreStruct.{md5_len}
use rabbitstreamer.BufferQueue.{media_block_size, BufferQueue}
use rabbitstreamer.BufferQueue.Window.{Holds}
use rabbitstreamer.BitrateCalculator.{BitrateCalculator, update_buffersize}
use rabbitstreamer.SourceManager.{hash_rank, get_buffer_queue}
use rabbitstreamer.SourceManager.Laws.{IsValid}
use rabbitstreamer.CaptureServer.{CaptureServer, get_block}
use rabbitstreamer.CaptureServer
use rabbitstreamer.CaptureServer.Blocks.{block_message, get_block_lem}
use rabbitstreamer.PeerServer.{PeerServer, Outside, insert_sorted, sort, get_push_list}
use rabbitstreamer.PeerServer.Push.{block_packet, held_packets, count_held}
use rabbitstreamer.PeerServer.Requests.{request, get_push_list_lem}

-- The packet with a block that fills its buffer.
abbrev pub full_packet : List ℕ → ℕ → List ℕ → List ℕ
full_packet hash i block = frame (9 + md5_len + 4 + media_block_size) Sp2SpResponse.tag (
    Sp2SpResponse.wire (record {
      resource_md5 = hash;
      block_id = i;
      block_size = media_block_size;
      block_data = block;
    }))

block_packet-full :
    (content : ℕ → List ℕ) (n : ℕ) (o : Outside) (hash : List ℕ) (i : ℕ)
    → length (content i) ≡ media_block_size
    → block_packet content n o hash i ≡ full_packet hash i (content i)
block_packet-full content n o hash i e =
    let cut : take media_block_size (content i ++ o.behind (i % n)) ≡ content i =
      subst (λ (s : ℕ). take s (content i ++ o.behind (i % n)) ≡ content i) e
        (take_append (content i) (o.behind (i % n))) in
    ap
      (λ b. frame (9 + md5_len + 4 + media_block_size) Sp2SpResponse.tag (
        Sp2SpResponse.wire (record {
          resource_md5 = hash;
          block_id = i;
          block_size = media_block_size;
          block_data = b;
        })))
      cut

held_one :
    (content : ℕ → List ℕ) (n k : ℕ) (o : Outside) (hash : List ℕ)
    → 0 < n
    → held_packets content n (suc k) o hash (sort (k ∷ [])) ≡ block_packet content n o hash k ∷ []
unfolding held_packets sort insert_sorted
held_one content n k o hash pos = ground arith

-- A registered capture server, whose channel holds the last n of k blocks of 16384 bytes each,
-- sends block k. If a peer that has been sent the media type then asks for that block, the answer
-- is one packet: the one that core/p2p_protocol.h lays out for the block's number and exactly the
-- bytes of the capture server's message. Counting the rates of the two connections is to end
-- without a fault.
pub block_relayed :
    (content : ℕ → List ℕ) (n k : ℕ) (o : CaptureServer.Outside) (c : CaptureServer)
    (q : BufferQueue) (logged : Option ℕ) (calculator : BitrateCalculator) (behind other : List ℕ)
    (o' : Outside) (m : Sp2SpPushList) (msg_size : ℕ) (more : List ℕ) (p : PeerServer)
    (calculator' : BitrateCalculator)
    → IsValid c.sources
    → get_buffer_queue c.chnl_hash c.sources ≡ some q
    → Holds content n k q
    → k < 2 ^ 31
    → ((i : ℕ) → length (content i) ≡ media_block_size)
    → update_buffersize o.tv (length (content k)) c.calculator ≡ ok (logged, calculator)
    → (hash_rank other == hash_rank c.chnl_hash) ≡ false
    → Sp2SpPushList.IsValid m
    → m.resource_md5 ≡ c.chnl_hash
    → m.block_array ≡ k ∷ []
    → msg_size ≡ 5 + length (request m)
    → msg_size < 2 ^ 31
    → p.media_type_flag ≡ true
    → count_held o' n (suc k) 0 (sort (k ∷ [])) p.calculator ≡ ok calculator'
    → (c' : CaptureServer) × (get_block o (block_message k (content k) ++ behind) c ≡ ok c')
      × (get_push_list o' c'.sources msg_size (request m ++ more) p
          ≡ ok (record p { calculator = calculator' }, full_packet c.chnl_hash k (content k) ∷ []))
block_relayed content n k o c q logged calculator behind other o' m msg_size more p calculator'
      valid channel held fits whole counted apart v hash asks size small sent counted' =
    let (c', got, taken, others) =
      get_block_lem content n k o c q logged calculator valid channel held fits
        (omega (arith, whole k)) (omega (arith, whole k)) counted behind other apart in
    let sorted : sort m.block_array ≡ sort (k ∷ []) = ap sort asks in
    let (answer, order, same) =
      get_push_list_lem content n (suc k) o' c'.sources taken.queue m msg_size more p calculator' v
        (rw hash taken.channel) taken.holds (λ i. omega (arith, whole i)) size small sent
        (rw sorted counted') in
    let one : held_packets content n (suc k) o' m.resource_md5 (sort m.block_array)
        ≡ full_packet c.chnl_hash k (content k) ∷ [] =
      rw (sorted, hash)
        (held_one content n k o' c.chnl_hash held.some_buffer
          ∙ ap (λ x. x ∷ []) (block_packet-full content n o' c.chnl_hash k (whole k))) in
    (c', got, answer ∙ ap (λ l. ok (record p { calculator = calculator' }, l)) one)
