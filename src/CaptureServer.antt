-- ===== src/CaptureServer.antt =====
-- protocol/sp/sp_cs_connector.h and protocol/sp/sp_cs_connector.cpp (`RsCsSpProtocol`): what a super
-- peer does with the messages of a capture server. The manager of the channels is a singleton and
-- part of the state. The class `MD5` is third-party code and a parameter; what is printed is left
-- out. A message is the memory from a pointer on, as far as the buffer is allocated: no handler
-- looks at the size of its message.
pub mod Blocks
pub mod Register
mod Tests
use rabbitstreamer.Prelude.{
  ℕ, zero, suc, ◌-◌, ◌^◌, Bool, true, false, ltb, leb, ◌==◌, if◌then◌else◌, List, [], ◌∷◌, Option,
  none, some, Result, ok, fault, out_of_bounds, ◌>>=◌, length, drop,
}
use rabbitstreamer.CoreStruct.{md5_len}
use rabbitstreamer.BufferQueue.{media_block_size, BufferQueue, MediaTypeHeader}
use rabbitstreamer.BitrateCalculator.{BitrateCalculator, Timeval, update_buffersize}
use rabbitstreamer.ReceiveBuffer.{error_success, Connection, ReceiveBuffer}
use rabbitstreamer.SourceManager.{SourceManager, get_buffer_queue, create_source, add_header}
use rabbitstreamer.SourceManager.Publish.{publish_block}
use rabbitstreamer.MessageReader.{copy_bytes, get_as_type, Next, stopped, message, next_message}

pub record CaptureServer : Type 0 where
  pub chnl_hash : List ℕ
  pub cs_buffer : ReceiveBuffer
  pub calculator : BitrateCalculator
  pub sources : SourceManager

-- What a handler takes from outside: the time at which a channel is created, what `gettimeofday`
-- gives, the digest of `MD5`, and what stands in new memory and in the header of a new channel.
pub record Outside : Type 0 where
  pub now : ℕ
  pub tv : Option Timeval
  pub hex_digest : List ℕ → List ℕ
  pub memory : List ℕ
  pub header : MediaTypeHeader

-- `CS2SP_REGISTER`
abbrev pub register_tag : ℕ
register_tag = 0x10

-- `CS2SP_UPDATE`
abbrev pub update_tag : ℕ
update_tag = 0x11

-- `CS2SP_BLOCK`
abbrev pub block_tag : ℕ
block_tag = 0x12

-- `CS2SP_MEDIA_TYPE`
abbrev pub media_type_tag : ℕ
media_type_tag = 0x13

-- The text that starts at a pointer; without a final zero it is read past its end.
unfoldable pub c_string : List ℕ → Result (List ℕ)
c_string [] = fault out_of_bounds
c_string (c ∷ cs) = let rest = c_string cs >>= λ s. ok (c ∷ s) in if c == 0 then ok [] else rest

-- `malloc` and `memcpy` for the word of a size of a signed type of `bits` bits: a negative one asks
-- for more than there is.
unfoldable pub copy_signed : ℕ → ℕ → List ℕ → Result (List ℕ × List ℕ)
copy_signed bits size mem =
    let copied = copy_bytes size mem in
    if leb (2 ^ (bits - 1)) size then fault out_of_bounds else copied

unfoldable pub get_mediatype : List ℕ → CaptureServer → Result CaptureServer
get_mediatype msg c = do
  (mediatype_size, behind) ← get_as_type 4 msg
  elim (get_buffer_queue c.chnl_hash c.sources) [
    | none ↦ ok c
    | some q ↦ do
      (header, end) ← copy_signed 32 mediatype_size behind
      ok (record c { sources = (add_header c.chnl_hash header mediatype_size c.sources).1 })
  ]

-- The end of `get_register`, from the size of the header on.
unfoldable pub register_header : ℕ → List ℕ → CaptureServer → Result CaptureServer
register_header header_size msg c =
    let added = copy_signed 32 header_size msg >>= λ r.
    ok (record c { sources = (add_header c.chnl_hash r.0 header_size c.sources).1 }) in
    if header_size == 0 then ok c else added

-- `get_register`. The name has no final zero of its own.
unfoldable pub get_register : Outside → List ℕ → CaptureServer → Result CaptureServer
get_register o msg c = do
  (channel_size, msg1) ← get_as_type 1 msg
  (channel_name, msg2) ← copy_signed 8 channel_size msg1
  (user_id, msg3) ← get_as_type 4 msg2
  (user_password, msg4) ← copy_bytes md5_len msg3
  (block_size, msg5) ← get_as_type 4 msg4
  (file_size, msg6) ← get_as_type 4 msg5
  (bit_rate, msg7) ← get_as_type 4 msg6
  (is_source, msg8) ← get_as_type 1 msg7
  (header_size, msg9) ← get_as_type 4 msg8
  name ← c_string channel_name
  let hash = o.hex_digest channel_name
  let created = create_source o.header o.memory o.now hash name true c.sources
  register_header header_size msg9 (record c { chnl_hash = hash; sources = created.1 })

-- The channel with the new block. Without a channel `block_data` is a null pointer; a block that is
-- larger than the buffer is written past its end, as is one of negative size.
unfoldable pub put_block : ℕ → ℕ → List ℕ → CaptureServer → Result SourceManager
put_block block_id block_size from c = elim (get_buffer_queue c.chnl_hash c.sources) [
  | none ↦ if block_size == 0 then ok c.sources else fault out_of_bounds
  | some q ↦
      let stored = copy_bytes block_size from >>= λ r.
      publish_block c.chnl_hash block_id r.0 c.sources >>= λ p. ok p.1 in
      if ltb media_block_size block_size then fault out_of_bounds else stored
]

-- `get_block`. The block is copied from `data_offset` on.
unfoldable pub get_block : Outside → List ℕ → CaptureServer → Result CaptureServer
get_block o msg c = do
  (block_id, msg1) ← get_as_type 4 msg
  (block_size, msg2) ← get_as_type 4 msg1
  (data_offset, msg3) ← get_as_type 4 msg2
  sources ← put_block block_id block_size msg2 c
  (logged, calculator) ← update_buffersize o.tv block_size c.calculator
  ok (record c { sources = sources; calculator = calculator })

-- The `switch` of `loop`, for the memory behind the type.
unfoldable pub handle : Outside → ℕ → List ℕ → CaptureServer → Result CaptureServer
handle o msg_type msg c =
    if msg_type == register_tag
    then get_register o msg c
    else if msg_type == update_tag
    then ok c
    else if msg_type == block_tag
    then get_block o msg c
    else if msg_type == media_type_tag
    then get_mediatype msg c
    else ok c

module _ {W : Type 0} (io : Connection W) (fresh : ℕ → List ℕ) where
  -- The end of `loop`: what it returns, and the state of the connection
  unfoldable pub handle_next :
      Outside → Next × ReceiveBuffer × W → CaptureServer → Result (ℕ × CaptureServer × W)
  handle_next o (stopped code, b, w) c = ok (code, record c { cs_buffer = b }, w)
  handle_next o (message msg_size mem, b, w) c = do
    (msg_type, msg) ← get_as_type 1 mem
    c' ← handle o msg_type msg (record c { cs_buffer = b })
    ok (error_success, c', w)

  unfoldable pub loop : Outside → CaptureServer → W → Result (ℕ × CaptureServer × W)
  loop o c w = next_message io fresh c.cs_buffer w >>= λ r. handle_next o r c
