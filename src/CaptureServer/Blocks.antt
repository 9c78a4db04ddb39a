-- ===== src/CaptureServer/Blocks.antt =====
-- How a block of a capture server reaches its channel (protocol/sp/sp_cs_connector.cpp).
use rabbitstreamer.Prelude.{
  >>=-ok, ◌>>=◌, ℕ, suc, refl, sym, ap, subst, ◌∙◌, ◌+◌, ◌^◌, ◌≤◌, ◌<◌, ◌≡◌, ◌==◌, false, List,
  ◌++◌, append_assoc, Option, some, ok, length, length-append, take, drop, take-append-drop, arith,
}
use rabbitstreamer.Streamer.Bytes.{le, length-le}
use rabbitstreamer.BufferQueue.{media_block_size, BufferQueue}
use rabbitstreamer.BufferQueue.Window.{Holds}
use rabbitstreamer.BitrateCalculator.{BitrateCalculator, update_buffersize}
use rabbitstreamer.ReceiveBuffer.{error_success, Connection, ReceiveBuffer}
use rabbitstreamer.ReceiveBuffer.Room.{unused}
use rabbitstreamer.ReceiveBuffer.Room
use rabbitstreamer.ReceiveBuffer.Supply.{Delivers}
use rabbitstreamer.SourceManager.{SourceManager, hash_rank, get_buffer_queue}
use rabbitstreamer.SourceManager.Laws.{IsValid}
use rabbitstreamer.SourceManager.Publish.{publish_block-Holds}
use rabbitstreamer.MessageReader.{get_as_type}
use rabbitstreamer.MessageReader.Fields.{
  copy_bytes-append, get_as_type-le_4, get_as_type-le_1, get_as_type_some,
}
use rabbitstreamer.MessageReader.Delivery.{next_message-Found}
use rabbitstreamer.CaptureServer.{
  CaptureServer, Outside, block_tag, put_block, get_block, handle, handle_next, loop,
}

-- A block behind its number and its size; its first four bytes are the data offset.
abbrev pub block_message : ℕ → List ℕ → List ℕ
block_message block_id block = le 4 block_id ++ (le 4 (length block) ++ block)

-- What is read of a block's message before the block.
get_block-read :
    (o : Outside) (c : CaptureServer) (block_id : ℕ) (block more : List ℕ) (sources : SourceManager)
    (logged : Option ℕ) (calculator : BitrateCalculator)
    → block_id < 2 ^ 32
    → 4 ≤ length block
    → length block < 2 ^ 32
    → put_block block_id (length block) (block ++ more) c ≡ ok sources
    → update_buffersize o.tv (length block) c.calculator ≡ ok (logged, calculator)
    → get_block o (block_message block_id block ++ more) c
      ≡ ok (record c { sources = sources; calculator = calculator })
unfolding get_block
get_block-read o c block_id block more sources logged calculator h some_offset k put counted =
    let regroup : block_message block_id block ++ more
        ≡ le 4 block_id ++ (le 4 (length block) ++ (block ++ more)) =
      simp append_assoc in
    rw regroup (
      ground (
        arith,
        get_as_type-le_4 block_id (le 4 (length block) ++ (block ++ more)) h,
        get_as_type-le_4 (length block) (block ++ more) k,
        get_as_type_some 4 (block ++ more) (omega (arith, length-append block more)),
        put,
        counted,
      ))

-- What a super peer has after it has taken block k of a channel that held the last of k blocks.
pub record Taken (content : ℕ → List ℕ) (n k : ℕ) (hash : List ℕ) (b : ReceiveBuffer)
    (c' : CaptureServer) : Type 0 where
  pub queue : BufferQueue
  pub valid : IsValid c'.sources
  pub same_hash : c'.chnl_hash ≡ hash
  pub same_buffer : c'.cs_buffer ≡ b
  pub channel : get_buffer_queue hash c'.sources ≡ some queue
  pub holds : Holds content n (suc k) queue

module _ (content : ℕ → List ℕ) (n k : ℕ) (o : Outside) (c : CaptureServer) (q : BufferQueue)
    (logged : Option ℕ) (calculator : BitrateCalculator) (v : IsValid c.sources)
    (channel : get_buffer_queue c.chnl_hash c.sources ≡ some q) (held : Holds content n k q)
    (id_fits : k < 2 ^ 31) (some_offset : 4 ≤ length (content k))
    (fits : length (content k) ≤ media_block_size)
    (counted : update_buffersize o.tv (length (content k)) c.calculator
      ≡ ok (logged, calculator)) where
  -- A hash that does not belong to the channel.
  abbrev Apart : List ℕ → Type 0
  Apart other = (hash_rank other == hash_rank c.chnl_hash) ≡ false

  put_block_lem :
      (more other : List ℕ)
      → Apart other
      → (s' : SourceManager) × (q' : BufferQueue) × (put_block k
            (length (content k))
            (content k ++ more)
            c
          ≡ ok s')
        × IsValid s'
        × (get_buffer_queue c.chnl_hash s' ≡ some q')
        × Holds content n (suc k) q'
        × (get_buffer_queue other s' ≡ get_buffer_queue other c.sources)
  unfolding put_block
  put_block_lem more other ne =
      let (s', q', published, v', found, held', others) =
        publish_block-Holds content n k c.sources c.chnl_hash other q v channel held ne in
      (
        s',
        q',
        ground (
          arith,
          channel,
          copy_bytes-append (length (content k)) (content k) more refl,
          published,
        ),
        v',
        found,
        held',
        others,
      )

  -- A block of at most 16384 bytes, with its data offset in front, of a registered capture server
  -- whose channel holds the last of k blocks is taken as block k: the channel then holds the last of
  -- k + 1 blocks with their content, data offset included, whatever stands in memory behind the
  -- message, and the channels under all hashes that differ from this one not only in capitals are
  -- what they were. The rate of the connection is counted, where that does not end in a fault.
  pub get_block_lem :
      (more other : List ℕ)
      → Apart other
      → (c' : CaptureServer) × (get_block o (block_message k (content k) ++ more) c ≡ ok c')
        × Taken content n k c.chnl_hash c.cs_buffer c'
        × (get_buffer_queue other c'.sources ≡ get_buffer_queue other c.sources)
  get_block_lem more other ne =
      let (s', q', put, v', found, held', others) = put_block_lem more other ne in
      (
        record c { sources = s'; calculator = calculator },
        get_block-read o c k (content k) more s' logged calculator (omega arith) some_offset
            (omega arith) put counted,
        record {
          queue = q';
          valid = v';
          same_hash = refl;
          same_buffer = refl;
          channel = found;
          holds = held';
        },
        others,
      )

  -- The same for a message of which the first bytes of the memory are known, behind its type.
  handle_block :
      (mem other : List ℕ)
      → Apart other
      → take (9 + length (content k)) mem ≡ le 1 block_tag ++ block_message k (content k)
      → (c' : CaptureServer) × ((get_as_type 1 mem >>= λ r. handle o r.0 r.1 c) ≡ ok c')
        × Taken content n k c.chnl_hash c.cs_buffer c'
        × (get_buffer_queue other c'.sources ≡ get_buffer_queue other c.sources)
  unfolding handle
  handle_block mem other ne e =
      let size = 9 + length (content k) in
      let more = drop size mem in
      let whole : mem ≡ le 1 block_tag ++ (block_message k (content k) ++ more) =
        sym (take-append-drop size mem)
        ∙ ap (λ l. l ++ more) e
        ∙ append_assoc (le 1 block_tag) _ more in
      let (c', got, taken, others) = get_block_lem more other ne in
      (
        c',
        rw (whole, get_as_type-le_1 block_tag (block_message k (content k) ++ more) (omega arith))
            (ground (arith, got)),
        taken,
        others,
      )

-- What a super peer finds in its buffer and on the connection of a registered capture server whose
-- channel holds the last of k blocks, k less than 2^31, starts with the message of block k, whose
-- content is 4 to 16384 bytes long. The connection gives a byte to each call that asks for one as
-- long as any are to come, the buffer is valid, the message would fit from its unused bytes on, and
-- to count the bytes of the block (`update_buffersize`) does not end in a fault, as it does where it
-- divides by zero. Then `loop` returns success and the channel holds the last of k + 1 blocks with
-- their content; the channels under all hashes that differ from this one not only in capitals are
-- what they were, and what follows the message is left for the next call.
pub loop_block :
    {W : Type 0} (io : Connection W) (fresh : ℕ → List ℕ) (content : ℕ → List ℕ) (n k : ℕ)
    (o : Outside) (c : CaptureServer) (w : W) (q : BufferQueue) (logged : Option ℕ)
    (calculator : BitrateCalculator) (rest other : List ℕ)
    → ((i : ℕ) → length (fresh i) ≡ i)
    → Delivers io
    → Room.IsValid c.cs_buffer
    → c.cs_buffer.curr_ptr + (13 + length (content k)) ≤ c.cs_buffer.buffer_size
    → unused c.cs_buffer ++ io.pending w
      ≡ le 4 (13 + length (content k)) ++ ((le 1 block_tag ++ block_message k (content k)) ++ rest)
    → IsValid c.sources
    → get_buffer_queue c.chnl_hash c.sources ≡ some q
    → Holds content n k q
    → k < 2 ^ 31
    → 4 ≤ length (content k)
    → length (content k) ≤ media_block_size
    → update_buffersize o.tv (length (content k)) c.calculator ≡ ok (logged, calculator)
    → (hash_rank other == hash_rank c.chnl_hash) ≡ false
    → (c' : CaptureServer) × (w' : W) × (b : ReceiveBuffer) × (loop io fresh o c w
        ≡ ok (error_success, c', w'))
      × Taken content n k c.chnl_hash b c'
      × (get_buffer_queue other c'.sources ≡ get_buffer_queue other c.sources)
      × Room.IsValid c'.cs_buffer
      × (unused c'.cs_buffer ++ io.pending w' ≡ rest)
unfolding loop handle_next
loop_block io fresh content n k o c w q logged calculator rest other sized delivers valid room
      stream v channel held id_fits some_offset fits counted ne =
    let body = le 1 block_tag ++ block_message k (content k) in
    let long : length body ≡ 9 + length (content k) = omega (
      arith,
      length-append (le 1 block_tag) (block_message k (content k)),
      length-append (le 4 k) (le 4 (length (content k)) ++ content k),
      length-append (le 4 (length (content k))) (content k),
      length-le,
    ) in
    let f =
      next_message-Found io fresh sized delivers c.cs_buffer w (13 + length (content k)) body rest
        valid (omega (arith, long)) (omega (arith, long)) (omega arith) room stream in
    let c1 = record c { cs_buffer = f.buffer } in
    let (c', handled, taken, others) =
      handle_block content n k o c1 q logged calculator v channel held id_fits some_offset fits
        counted f.memory other ne (subst (λ i. take i f.memory ≡ body) long f.starts) in
    let (r, read, done) = >>=-ok (get_as_type 1 f.memory) (λ r. handle o r.0 r.1 c1) handled in
    (
      c',
      f.conn,
      f.buffer,
      ground (arith, f.found, read, done),
      taken,
      others,
      subst Room.IsValid (sym taken.same_buffer) f.valid,
      subst (λ b. unused b ++ io.pending f.conn ≡ rest) (sym taken.same_buffer) f.left,
    )
