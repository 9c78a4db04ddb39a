-- ===== src/PeerServer/Push.antt =====
-- How the blocks that a peer asks for reach it (`send_push_list` and `send_one_block` of
-- protocol/sp/sp_np_connector.cpp).
use rabbitstreamer.Prelude.{
  >>=-ok, ℕ, suc, refl, sym, ◌∙◌, ◌+◌, ◌%◌, ◌≤◌, ◌<◌, ◌≡◌, ◌==◌, ◌&&◌, ltb, leb, Bool, false, true,
  if◌then◌else◌, List, [], ◌∷◌, ◌++◌, Option, some, Result, ok, ◌>>=◌, length, length-append,
  length-take, take, take_all, drop, dec_lt, Bool-cases, inl, inr, arith,
}
use rabbitstreamer.CoreStruct.{md5_len}
use rabbitstreamer.Message.Framing.{frame}
use rabbitstreamer.Message.Sp2SpPushList.{Sp2SpPushList, Sp2SpPushList-parse}
use rabbitstreamer.Message.Sp2SpPushList
use rabbitstreamer.Message.Sp2SpResponse.{Sp2SpResponse, Sp2SpResponse-pack}
use rabbitstreamer.Message.Sp2SpResponse
use rabbitstreamer.BufferQueue.{media_block_size, BufferQueue}
use rabbitstreamer.BufferQueue.Window.{Holds}
use rabbitstreamer.BufferQueue.Read.{dequeue_gone}
use rabbitstreamer.BitrateCalculator.{BitrateCalculator, update_buffersize}
use rabbitstreamer.SourceManager.{SourceManager, get_buffer_queue, dequeue_block}
use rabbitstreamer.SourceManager.Publish.{dequeue_block-held}
use rabbitstreamer.MessageReader.{copy_bytes}
use rabbitstreamer.PeerServer.{
  PeerServer, Outside, block_bytes, send_one_block, send_blocks, send_push_list, sort,
}
use rabbitstreamer.PeerServer.Sort.{sort_short}

-- Whether block `i` is one of the last `n` of `k` blocks.
abbrev pub is_held : ℕ → ℕ → ℕ → Bool
is_held n k i = ltb i k && leb k (i + n)

-- The message with block `i`; behind a block that is too short it has what the buffer holds there.
abbrev pub block_response : (ℕ → List ℕ) → ℕ → Outside → List ℕ → ℕ → Sp2SpResponse
block_response content n o hash i = record {
  resource_md5 = hash;
  block_id = i;
  block_size = media_block_size;
  block_data = take media_block_size (content i ++ o.behind (i % n));
}

-- The packet of that message, as core/p2p_protocol.h lays it out.
abbrev pub block_packet : (ℕ → List ℕ) → ℕ → Outside → List ℕ → ℕ → List ℕ
block_packet content n o hash i =
    frame (9 + md5_len + 4 + media_block_size) Sp2SpResponse.tag
      (Sp2SpResponse.wire (block_response content n o hash i))

-- The packets of those blocks that are held, in the order of the list.
unfoldable pub held_packets : (ℕ → List ℕ) → ℕ → ℕ → Outside → List ℕ → List ℕ → List (List ℕ)
held_packets content n k o hash [] = []
held_packets content n k o hash (i ∷ is) =
    let rest = held_packets content n k o hash is in
    if is_held n k i then block_packet content n o hash i ∷ rest else rest

-- What the calculator is after those packets have been sent, from a place of the list on.
unfoldable pub count_held :
    Outside → ℕ → ℕ → ℕ → List ℕ → BitrateCalculator → Result BitrateCalculator
count_held o n k place [] calculator = ok calculator
count_held o n k place (i ∷ is) calculator =
    let counted = update_buffersize (o.tv place) media_block_size calculator >>= λ r.
    count_held o n k (suc place) is r.1 in
    let rest = count_held o n k (suc place) is calculator in if is_held n k i then counted else rest

module _ (content : ℕ → List ℕ) (n k : ℕ) (o : Outside) (sources : SourceManager) (hash : List ℕ)
    (q : BufferQueue) (channel : get_buffer_queue hash sources ≡ some q)
    (held : Holds content n k q) (sized_hash : length hash ≡ md5_len)
    (whole : (i : ℕ) → media_block_size ≤ length (content i) + length (o.behind (i % n))) where
  block_response-IsValid : (i : ℕ) → Sp2SpResponse.IsValid (block_response content n o hash i)
  block_response-IsValid i = record {
    resource_md5 = sized_hash;
    length-block_data = omega (
      arith,
      length-take media_block_size (content i ++ o.behind (i % n)),
      length-append (content i) (o.behind (i % n)),
      whole i,
    );
    small = omega arith;
  }

  copied :
      (i : ℕ)
      → copy_bytes media_block_size (content i ++ o.behind (i % n))
        ≡ ok (
          take media_block_size (content i ++ o.behind (i % n)),
          drop media_block_size (content i ++ o.behind (i % n)),
        )
  unfolding copy_bytes
  copied i =
      let enough : media_block_size ≤ length (content i ++ o.behind (i % n)) =
        omega (arith, length-append (content i) (o.behind (i % n)), whole i) in
      let e : leb media_block_size (length (content i ++ o.behind (i % n))) ≡ true = ground arith in
      rw e refl

  block_bytes_lem :
      (i : ℕ)
      → i < k
      → k ≤ i + n
      → block_bytes o sources hash (i % n) media_block_size
        ≡ ok (take media_block_size (content i ++ o.behind (i % n)))
  unfolding block_bytes
  block_bytes_lem i lo hi =
      let (found, buf) = dequeue_block-held content n k i sources hash q channel held lo hi in
      rw (block_bytes, channel, buf, copied i) refl

  send_held :
      (place i : ℕ) (c : PeerServer) (logged : Option ℕ) (calculator : BitrateCalculator)
      → i < k
      → k ≤ i + n
      → update_buffersize (o.tv place) media_block_size c.calculator ≡ ok (logged, calculator)
      → send_one_block o sources hash place i c
        ≡ ok (record c { calculator = calculator }, block_packet content n o hash i ∷ [])
  unfolding send_one_block Sp2SpResponse.reserve_pack_size
  send_held place i c logged calculator lo hi counted =
      let (found, buf) = dequeue_block-held content n k i sources hash q channel held lo hi in
      let same : take md5_len hash ≡ hash = take_all md5_len hash (omega arith) in
      let packed =
        Sp2SpResponse-pack o.memory o.unset_response (block_response content n o hash i)
          (block_response-IsValid i) in
      ground (arith, found, block_bytes_lem i lo hi, same, packed, counted)

  send_gone :
      (place i : ℕ) (c : PeerServer)
      → is_held n k i ≡ false
      → send_one_block o sources hash place i c ≡ ok (c, [])
  unfolding send_one_block dequeue_block
  send_gone place i c gone = ground (
    arith,
    channel,
    dequeue_gone content n k q held i
        (elim (dec_lt i k) [ yes h ↦ inr (ground arith) | no h ↦ inl (omega arith) ]),
  )

  send_blocks_lem :
      (is : List ℕ) (place : ℕ) (c : PeerServer) (calculator : BitrateCalculator)
      → count_held o n k place is c.calculator ≡ ok calculator
      → send_blocks o sources hash place is c
        ≡ ok (record c { calculator = calculator }, held_packets content n k o hash is)
  unfolding send_blocks held_packets count_held
  send_blocks_lem [] place c calculator counted = ground (arith, counted)
  send_blocks_lem (i ∷ is) place c calculator counted = elim (Bool-cases (is_held n k i)) [
    | inl here ↦
        let all : (update_buffersize (o.tv place) media_block_size c.calculator >>= λ r.
        count_held o n k (suc place) is r.1)
            ≡ ok calculator =
          ground (arith, counted) in
        let (r, first, later) =
          >>=-ok (update_buffersize (o.tv place) media_block_size c.calculator)
            (λ r. count_held o n k (suc place) is r.1) all in
        ground (
          arith,
          send_held place i c r.0 r.1 (ground arith) (ground arith) first,
          send_blocks_lem is (suc place) (record c { calculator = r.1 }) calculator later,
        )
    | inr gone ↦ ground (
      arith,
      send_gone place i c gone,
      send_blocks_lem is (suc place) c calculator (ground (arith, counted)),
    )
  ]

  sorted_lem :
      (m : Sp2SpPushList)
      → Sp2SpPushList.IsValid m
      → (if ltb 1 m.block_count then sort m.block_array else m.block_array) ≡ sort m.block_array
  sorted_lem m v = elim (dec_lt 1 m.block_count) [
    | yes h ↦ ground arith
    | no h ↦
        let same = sort_short m.block_array m.block_count (omega arith) v.length-block_array in
        ground (arith, same)
  ]

  no_blocks : (ids : List ℕ) → length ids ≡ 0 → sort ids ≡ []
  unfolding sort
  no_blocks [] h = refl
  no_blocks (x ∷ xs) h = absurd (omega arith)

  pub answer_lem :
      (m : Sp2SpPushList) (c : PeerServer) (calculator : BitrateCalculator)
      → Sp2SpPushList.IsValid m
      → count_held o n k 0 (sort m.block_array) c.calculator ≡ ok calculator
      → (if m.block_count == 0
          then ok (c, [])
          else send_push_list o sources hash m.block_count m.block_array c)
        ≡ ok (
          record c { calculator = calculator },
          held_packets content n k o hash (sort m.block_array),
        )
  unfolding send_push_list
  answer_lem m c calculator v counted =
      let sent = send_blocks_lem (sort m.block_array) 0 c calculator counted in
      elim (Bool-cases (m.block_count == 0)) [
        | inl no_block ↦
            let e = no_blocks m.block_array (ground (arith, v.length-block_array)) in
            let start : send_blocks o sources hash 0 (sort m.block_array) c ≡ ok (c, []) =
              rw e (unfold send_blocks in refl) in
            rw no_block (sym start ∙ sent)
        | inr some_block ↦ rw (some_block, sorted_lem m v) sent
      ]
