-- ===== src/CaptureServer/Register.antt =====
-- How a capture server registers its channel (`get_register` of protocol/sp/sp_cs_connector.cpp).
use rabbitstreamer.Prelude.{
  ◌∙◌, sym, ap, ℕ, refl, ◌-◌, ◌^◌, ◌<◌, ◌≡◌, ◌≢◌, ◌==◌, false, true, List, ◌++◌, Option, none, some,
  ok, length, arith,
}
use rabbitstreamer.CoreStruct.{md5_len}
use rabbitstreamer.Streamer.Bytes.{le}
use rabbitstreamer.BufferQueue.{BufferQueue, reserve_buffer}
use rabbitstreamer.BufferQueue
use rabbitstreamer.SourceManager.{
  max_buffer_size, SourceManager, hash_rank, error_success, get_buffer_queue, create_source,
  get_header,
}
use rabbitstreamer.SourceManager.Laws.{or_new, IsValid, create_source_lem, get_header-add_header}
use rabbitstreamer.MessageReader.Fields.{copy_bytes-append, get_as_type-le_4, get_as_type-le_1}
use rabbitstreamer.CaptureServer.{
  BufferQueue, CaptureServer, Outside, c_string, copy_signed, register_header, get_register,
}

-- What a registration says; the bit rate is the word of a `float`.
pub record Registration : Type 0 where
  pub channel_name : List ℕ
  pub user_id : ℕ
  pub user_password : List ℕ
  pub block_size : ℕ
  pub file_size : ℕ
  pub bit_rate : ℕ
  pub is_source : ℕ
  pub header : List ℕ

-- The fields are in the range of their types, and the name ends with a zero.
pub record IsSound (m : Registration) : Type 0 where
  pub short_name : length m.channel_name < 2 ^ 7
  pub name : List ℕ
  pub terminated : c_string m.channel_name ≡ ok name
  pub user_id : m.user_id < 2 ^ 32
  pub user_password : length m.user_password ≡ md5_len
  pub block_size : m.block_size < 2 ^ 32
  pub file_size : m.file_size < 2 ^ 32
  pub bit_rate : m.bit_rate < 2 ^ 32
  pub is_source : m.is_source < 2 ^ 8
  pub short_header : length m.header < 2 ^ 31
  pub some_header : length m.header ≢ 0

-- The message, with what stands in memory behind it.
abbrev pub wire : Registration → List ℕ → List ℕ
wire m more =
    le 1 (length m.channel_name)
    ++ (m.channel_name
        ++ (le 4 m.user_id
            ++ (m.user_password
                ++ (le 4 m.block_size
                    ++ (le 4 m.file_size
                        ++ (le 4 m.bit_rate
                            ++ (le 1 m.is_source
                                ++ (le 4 (length m.header) ++ (m.header ++ more)))))))))

copy_signed-append :
    (bits n : ℕ) (bs more : List ℕ)
    → length bs ≡ n
    → n < 2 ^ (bits - 1)
    → copy_signed bits n (bs ++ more) ≡ ok (bs, more)
unfolding copy_signed
copy_signed-append bits n bs more is small = ground (arith, copy_bytes-append n bs more is)

-- What `get_register` has read when it comes to the header.
get_register-read :
    (o : Outside) (m : Registration) (more : List ℕ) (c : CaptureServer) (s : IsSound m)
    → get_register o (wire m more) c
      ≡ register_header (length m.header) (m.header ++ more) (record c {
        chnl_hash = o.hex_digest m.channel_name;
        sources =
            (create_source o.header o.memory o.now
              (o.hex_digest m.channel_name)
              s.name
              true
              c.sources).1;
      })
unfolding get_register
get_register-read o m more c s =
    let t8 = le 4 (length m.header) ++ (m.header ++ more) in
    let t7 = le 1 m.is_source ++ t8 in
    let t6 = le 4 m.bit_rate ++ t7 in
    let t5 = le 4 m.file_size ++ t6 in
    let t4 = le 4 m.block_size ++ t5 in
    let t3 = m.user_password ++ t4 in
    let t2 = le 4 m.user_id ++ t3 in
    let short : length m.channel_name < 2 ^ 8 = omega (arith, s.short_name) in
    let short_header : length m.header < 2 ^ 32 = omega (arith, s.short_header) in
    rw
      (
        get_as_type-le_1 (length m.channel_name) (m.channel_name ++ t2) short,
        copy_signed-append 8 (length m.channel_name) m.channel_name t2 refl s.short_name,
        get_as_type-le_4 m.user_id t3 s.user_id,
        copy_bytes-append md5_len m.user_password t4 s.user_password,
        get_as_type-le_4 m.block_size t5 s.block_size,
        get_as_type-le_4 m.file_size t6 s.file_size,
        get_as_type-le_4 m.bit_rate t7 s.bit_rate,
        get_as_type-le_1 m.is_source t8 s.is_source,
        get_as_type-le_4 (length m.header) (m.header ++ more) short_header,
        s.terminated,
      )
      refl

-- A header that is not empty goes to a channel that is there.
register_header-stored :
    (header more hash other : List ℕ) (s : SourceManager) (c : CaptureServer) (q : BufferQueue)
    → c.chnl_hash ≡ hash
    → c.sources ≡ s
    → length header ≢ 0
    → length header < 2 ^ 31
    → IsValid s
    → get_buffer_queue hash s ≡ some q
    → (hash_rank other == hash_rank hash) ≡ false
    → (c' : CaptureServer) × (register_header (length header) (header ++ more) c ≡ ok c')
      × (c'.chnl_hash ≡ hash)
      × IsValid c'.sources
      × (get_header hash c'.sources ≡ (error_success, some (header, length header)))
      × (get_header other c'.sources ≡ get_header other s)
unfolding register_header
register_header-stored header more hash other s c q named holds full short v found ne =
    let (s', added, v', here) =
      get_header-add_header s hash hash q header (length header) v found in
    let (s2, added2, v2, there) =
      get_header-add_header s hash other q header (length header) v found in
    let same : s2 ≡ s' = ap (λ r. r.1) (sym added2 ∙ added) in
    (
      record c { sources = s' },
      ground (
        arith,
        named,
        holds,
        added,
        copy_signed-append 32 (length header) header more refl short,
      ),
      named,
      v',
      ground (arith, here),
      ground (arith, there, same, ne),
    )

some_queue :
    (old : Option BufferQueue) (new : BufferQueue) → (q : BufferQueue) × (or_new old new ≡ some q)
some_queue (some q) new = (q, refl)
some_queue none new = (new, refl)

-- A registration that is sound and has a header creates the channel that the digest of its name
-- leads to, if there is none, and gives it the header; the connection is from then on that of this
-- channel. The channels under all hashes that differ from this one not only in capitals have the
-- headers that they had.
pub get_register_lem :
    (o : Outside) (m : Registration) (more other : List ℕ) (c : CaptureServer)
    → IsSound m
    → IsValid c.sources
    → (hash_rank other == hash_rank (o.hex_digest m.channel_name)) ≡ false
    → (c' : CaptureServer) × (get_register o (wire m more) c ≡ ok c')
      × (c'.chnl_hash ≡ o.hex_digest m.channel_name)
      × IsValid c'.sources
      × (get_header (o.hex_digest m.channel_name) c'.sources
          ≡ (error_success, some (m.header, length m.header)))
      × (get_header other c'.sources ≡ get_header other c.sources)
unfolding get_header
get_register_lem o m more other c s v ne =
    let hash = o.hex_digest m.channel_name in
    let (s1, created, v1, there) =
      create_source_lem o.header o.memory o.now hash s.name true c.sources hash v in
    let (s2, created2, v2, elsewhere) =
      create_source_lem o.header o.memory o.now hash s.name true c.sources other v in
    let same : s2 ≡ s1 = ap (λ r. r.1) (sym created2 ∙ created) in
    let (q, is_q) = some_queue (get_buffer_queue hash c.sources) (
      reserve_buffer o.memory max_buffer_size
        (BufferQueue.create o.header o.now hash s.name true)) in
    let found : get_buffer_queue hash s1 ≡ some q = ground (arith, there, is_q) in
    let kept : get_header other s1 ≡ get_header other c.sources =
      ground (arith, elsewhere, same, ne) in
    let (c', stored, named, v', here, others) =
      register_header-stored m.header more hash other s1
        (record c {
          chnl_hash = hash;
          sources = (create_source o.header o.memory o.now hash s.name true c.sources).1;
        })
        q refl (ap (λ r. r.1) created) s.some_header s.short_header v1 found ne in
    (c', get_register-read o m more c s ∙ stored, named, v', here, others ∙ kept)
