-- ===== src/PeerServer.antt =====
-- protocol/sp/sp_np_connector.h and protocol/sp/sp_np_connector.cpp (`RsNpSpProtocol`): what a super
-- peer does with the requests of a peer. The packets that a call gives to the socket are part of its
-- result; what the socket's `write` returns is only printed. `no_receive_counter` is one variable
-- for all connections. A block number from 2 ^ 31 on, which the source reads as a negative one,
-- belongs to no block. `std::sort` is an insertion sort.
pub mod Sort
pub mod Push
pub mod Requests
pub mod Relay
pub mod Idle
mod Tests
use rabbitstreamer.Prelude.{
  ℕ, zero, suc, ◌+◌, ◌-◌, ◌^◌, Bool, true, false, ltb, leb, ◌==◌, if◌then◌else◌, List, [], ◌∷◌,
  ◌++◌, Option, none, some, Result, ok, fault, out_of_bounds, ◌>>=◌, length, take,
}
use rabbitstreamer.CoreStruct.{md5_len}
use rabbitstreamer.Streamer.{initialize}
use rabbitstreamer.Message.{pack}
use rabbitstreamer.Message.Sp2SpPushList.{Sp2SpPushList}
use rabbitstreamer.Message.Sp2SpPushList
use rabbitstreamer.Message.Sp2SpMediatype.{Sp2SpMediatype}
use rabbitstreamer.Message.Sp2SpMediatype
use rabbitstreamer.Message.Sp2SpResponse.{Sp2SpResponse}
use rabbitstreamer.Message.Sp2SpResponse
use rabbitstreamer.BufferQueue.{buffer_at}
use rabbitstreamer.BitrateCalculator.{BitrateCalculator, Timeval, update_buffersize}
use rabbitstreamer.ReceiveBuffer.{error_success, Connection, ReceiveBuffer}
use rabbitstreamer.SourceManager.{
  SourceManager, SourceStatus, get_buffer_queue, get_source_list, get_header, dequeue_block,
}
use rabbitstreamer.MessageReader.{copy_bytes, get_as_type, Next, stopped, message, next_message}

pub record PeerServer : Type 0 where
  pub np_buffer : ReceiveBuffer
  pub media_type_flag : Bool
  pub calculator : BitrateCalculator
  pub loop_flag : Bool

-- What a handler takes from outside: the memory of a new payload, the fields of messages that are
-- left unset, what stands in the buffer of a block behind the block, and what `gettimeofday` gives
-- once the block at a place in the request has been sent.
pub record Outside : Type 0 where
  pub memory : ℕ → ℕ
  pub unset_mediatype : Sp2SpMediatype
  pub unset_response : Sp2SpResponse
  pub behind : ℕ → List ℕ
  pub tv : ℕ → Option Timeval

-- The connection afterwards, and the packets that it writes.
abbrev pub Reply : Type 0
Reply = Result (PeerServer × List (List ℕ))

-- `SP2SP_PUSHLIST`
abbrev pub pushlist_tag : ℕ
pushlist_tag = 0x50

-- After so many rounds without a message a connection is closed.
abbrev pub idle_rounds : ℕ
idle_rounds = 150

-- `memcmp` of two hashes
abbrev pub same_bytes : List ℕ → List ℕ → Bool
same_bytes [] [] = true
same_bytes [] (y ∷ ys) = false
same_bytes (x ∷ xs) [] = false
same_bytes (x ∷ xs) (y ∷ ys) = if x == y then same_bytes xs ys else false

-- One round of the loop of `send_media_type` for the channel that is asked for. Of its name, and
-- the zero behind it, two bytes are sent.
unfoldable pub describe : SourceStatus → Sp2SpMediatype → Result Sp2SpMediatype
describe st m = do
  (name, end) ← copy_bytes 2 (st.chnl_name ++ 0 ∷ [])
  ok (record m {
    block_start_id = 0;
    block_num = 2 ^ 32 - 1;
    program_name = name;
    program_name_size = 2;
    program_time = 0;
    channel_name = name;
    channel_name_size = 2;
  })

-- The loop of `send_media_type`.
unfoldable pub describe_source : List SourceStatus → Sp2SpMediatype → Result Sp2SpMediatype
describe_source [] m = ok m
describe_source (st ∷ sts) m =
    let rest = describe_source sts m in
    if same_bytes (take md5_len st.chnl_hash) m.resource_md5 then describe st m else rest

unfoldable pub send_media_type : Outside → SourceManager → List ℕ → PeerServer → Reply
send_media_type o sources resource_hash c = elim (get_header resource_hash sources).1 [
  | none ↦ ok (c, [])
  | some (header, size) ↦ do
    (media_type, end) ← copy_bytes size header
    m ← describe_source (get_source_list sources) (record o.unset_mediatype {
      resource_md5 = take md5_len resource_hash;
      media_type_size = size;
      media_type = media_type;
    })
    payload ← pack (Sp2SpMediatype.message o.unset_mediatype) o.memory m
    ok (record c { media_type_flag = true }, payload ∷ [])
]

-- The `size` bytes at the pointer that `dequeue_block` sets to the buffer `index` of a channel.
unfoldable pub block_bytes : Outside → SourceManager → List ℕ → ℕ → ℕ → Result (List ℕ)
block_bytes o sources hash index size = elim (get_buffer_queue hash sources) [
  | none ↦ fault out_of_bounds
  | some q ↦ do
    buf ← buffer_at q index
    (block, end) ← copy_bytes size (buf.buffer ++ o.behind index)
    ok block
]

-- `send_one_block`, for the block number at the place `i` of the request
unfoldable pub send_one_block : Outside → SourceManager → List ℕ → ℕ → ℕ → PeerServer → Reply
send_one_block o sources resource_hash i id c = dequeue_block resource_hash id sources >>= λ found.
    elim found.1 [
      | none ↦ ok (c, [])
      | some (index, size) ↦ do
        block ← block_bytes o sources resource_hash index size
        payload ← pack (Sp2SpResponse.message o.unset_response) o.memory (record {
          resource_md5 = take md5_len resource_hash;
          block_id = id;
          block_size = size;
          block_data = block;
        })
        (logged, calculator) ← update_buffersize (o.tv i) size c.calculator
        ok (record c { calculator = calculator }, payload ∷ [])
    ]

-- The loop of `send_push_list`, from the place `i` on.
unfoldable pub send_blocks : Outside → SourceManager → List ℕ → ℕ → List ℕ → PeerServer → Reply
send_blocks o sources resource_hash i [] c = ok (c, [])
send_blocks o sources resource_hash i (id ∷ ids) c = do
  (c', sent) ← send_one_block o sources resource_hash i id c
  (c'', more) ← send_blocks o sources resource_hash (suc i) ids c'
  ok (c'', sent ++ more)

-- `std::sort`
unfoldable pub insert_sorted : ℕ → List ℕ → List ℕ
insert_sorted x [] = x ∷ []
insert_sorted x (y ∷ ys) =
    let rest = insert_sorted x ys in if leb x y then x ∷ (y ∷ ys) else y ∷ rest

unfoldable pub sort : List ℕ → List ℕ
sort [] = []
sort (x ∷ xs) = insert_sorted x (sort xs)

unfoldable pub send_push_list : Outside → SourceManager → List ℕ → ℕ → List ℕ → PeerServer → Reply
send_push_list o sources resource_hash count array c =
    send_blocks o sources resource_hash 0 (if ltb 1 count then sort array else array) c

-- `streamer.initialize(msg, msg_size - 5); pushlist_msg.parse(&streamer);`, where `msg_size` is the
-- word of an `int`. The streamer knows that size only: where it is more than what is allocated,
-- it reads past the end.
unfoldable pub parse_push_list : ℕ → List ℕ → Result Sp2SpPushList
parse_push_list msg_size msg =
    let size = if ltb msg_size (2 ^ 31) then msg_size - 5 else 0 in
    elim (Sp2SpPushList.parse (initialize (take size msg))) [
      | ok (m, st) ↦ ok m
      | fault e ↦ if ltb (length msg) size then fault out_of_bounds else fault e
    ]

unfoldable pub get_push_list : Outside → SourceManager → ℕ → List ℕ → PeerServer → Reply
get_push_list o sources msg_size msg c = do
  m ← parse_push_list msg_size msg
  (c', sent) ← if c.media_type_flag then ok (c, []) else send_media_type o sources m.resource_md5 c
  (c'', blocks) ←
      (if m.block_count == 0
        then ok (c', [])
        else send_push_list o sources m.resource_md5 m.block_count m.block_array c')
  ok (c'', sent ++ blocks)

-- A round without a message: the connection and `no_receive_counter` afterwards. The descriptor is
-- closed where `loop_flag` is cleared.
unfoldable pub idle : PeerServer → ℕ → PeerServer × ℕ
idle c no_receive_counter =
    if suc no_receive_counter == idle_rounds
    then (record c { loop_flag = false }, 0)
    else (c, suc no_receive_counter)

-- The `switch` of `loop`
unfoldable pub handle : Outside → SourceManager → ℕ → ℕ → List ℕ → PeerServer → Reply
handle o sources msg_type msg_size msg c =
    let pushed = get_push_list o sources msg_size msg c in
    if msg_type == pushlist_tag then pushed else ok (c, [])

-- What `loop` leaves behind: what it returns, the connection, `no_receive_counter`, and what it
-- has written.
pub record Round (W : Type 0) : Type 0 where
  pub code : ℕ
  pub server : PeerServer
  pub no_receive_counter : ℕ
  pub sent : List (List ℕ)
  pub conn : W

module _ {W : Type 0} (io : Connection W) (fresh : ℕ → List ℕ) where
  -- `loop` after it has looked for a message.
  unfoldable pub handle_next :
      Outside → SourceManager → Next × ReceiveBuffer × W → PeerServer → ℕ → Result (Round W)
  handle_next o sources (stopped code, b, w) c counter =
      let (c', counter') = idle (record c { np_buffer = b }) counter in
      ok (record { code = code; server = c'; no_receive_counter = counter'; sent = []; conn = w })
  handle_next o sources (message msg_size mem, b, w) c counter = do
    (msg_type, msg) ← get_as_type 1 mem
    (c', sent) ← handle o sources msg_type msg_size msg (record c { np_buffer = b })
    ok (record {
      code = error_success;
      server = c';
      no_receive_counter = counter;
      sent = sent;
      conn = w;
    })

  unfoldable pub loop : Outside → SourceManager → PeerServer → ℕ → W → Result (Round W)
  loop o sources c counter w =
      next_message io fresh c.np_buffer w >>= λ r. handle_next o sources r c counter
