-- ===== src/Message/Framing.antt =====
-- When a message of core/message.cpp comes back from the packet that `pack` makes of it.
use rabbitstreamer.Prelude.{
  false, ◌==◌, sub32_exact, take_append, sub32, Fault, fault, ℕ, zero, suc, ◌+◌, ◌-◌, ◌≤◌, ◌<◌, ◌≡◌,
  refl, ap, ◌∙◌, List, [], ◌++◌, append-nil, length, length-append, drop_all, ok, ◌^◌, arith,
}
use rabbitstreamer.Streamer.{initialize, get_buffer, overwrite}
use rabbitstreamer.Streamer.Bytes.{le, from_le, length-le}
use rabbitstreamer.Streamer.Laws.{Writes, Reads, then-Writes, write_int-Writes}
use rabbitstreamer.Streamer.Faults.{Fails, then-Fails}
use rabbitstreamer.Message.{Message, header_size, new_array, payload_of, pack, open_packet, receive}

pub length-new_array : (memory : ℕ → ℕ) (n : ℕ) → length (new_array memory n) ≡ n
unfolding new_array
length-new_array memory zero = refl
length-new_array memory (suc n) = ap suc (length-new_array memory n)

-- The packet of a message: the size, the type and the body.
abbrev pub frame : ℕ → ℕ → List ℕ → List ℕ
frame size tag body = le 4 size ++ (le 1 tag ++ body)

length-frame :
    (size tag : ℕ) (body : List ℕ) → length (frame size tag body) ≡ header_size + length body
length-frame size tag body = omega (
  arith,
  length-append (le 4 size) (le 1 tag ++ body),
  length-append (le 1 tag) body,
  length-le 4 size,
  length-le 1 tag,
)

get_buffer-overwrite :
    (bs mem : List ℕ) → length mem ≡ length bs → get_buffer (overwrite bs (initialize mem)) ≡ bs
unfolding get_buffer overwrite initialize
get_buffer-overwrite bs mem e = rw (drop_all (length bs) mem (omega arith), append-nil)

-- `pack` makes the packet and nothing else: whatever the memory held, all of it is overwritten.
pub pack-frame :
    {M : Type 0} (c : Message M) (memory : ℕ → ℕ) (m : M) (tag : ℕ) (body : List ℕ)
    → Writes (c.pack_submsg m) (le 1 tag ++ body)
    → c.reserve_pack_size m ≡ header_size + length body
    → pack c memory m ≡ ok (frame (c.reserve_pack_size m) tag body)
unfolding pack
pack-frame c memory m tag body w e =
    let size = c.reserve_pack_size m in
    let mem = new_array memory size in
    let bs = frame size tag body in
    let filled : length mem ≡ length bs =
      omega (arith, length-new_array memory size, length-frame size tag body) in
    let fits : length bs ≤ length (initialize mem).after = unfold initialize in omega arith in
    ap payload_of ((then-Writes (write_int-Writes size) w).run (initialize mem) fits)
    ∙ ap ok (get_buffer-overwrite bs mem filled)

body_size : (size : ℕ) → header_size ≤ size → size < 2 ^ 31 → sub32 size header_size ≡ size - 5
body_size size h k = sub32_exact size 5 h (omega arith)

-- Whatever the memory holds behind the packet.
pub open_packet-frame :
    (size tag : ℕ) (body behind : List ℕ)
    → size ≡ header_size + length body
    → size < 2 ^ 31
    → tag < 2 ^ 8
    → open_packet (frame size tag body ++ behind)
      ≡ ok (record { msg_size = size; msg_type = tag; body = body })
unfolding open_packet le from_le
open_packet-frame size tag body behind e h k =
    let exact : size - 5 ≡ length body = omega arith in
    ground (arith, body_size size (omega arith) h, exact, take_append body behind)

-- What `pack` makes is received again as the same message, whatever the memory holds behind it.
pub record RoundTrips {M : Type 0} (c : Message M) (memory : ℕ → ℕ) (tag : ℕ) (m : M) : Type 0 where
  pub payload : List ℕ
  pub packed : pack c memory m ≡ ok payload
  pub sized : length payload ≡ c.reserve_pack_size m
  pub some_bytes : (length payload == 0) ≡ false
  pub received : (behind : List ℕ) → receive c (payload ++ behind) ≡ ok (tag, m)

receive-frame :
    {M : Type 0} (c : Message M) (m : M) (size tag : ℕ) (body behind : List ℕ)
    → Reads c.parse body m
    → size ≡ header_size + length body
    → size < 2 ^ 31
    → tag < 2 ^ 8
    → receive c (frame size tag body ++ behind) ≡ ok (tag, m)
unfolding receive initialize
receive-frame c m size tag body behind r e h k =
    let parsed = rw append-nil at (r.run [] []) in
    rw (open_packet-frame size tag body behind e h k) (rw (parsed, receive))

pub RoundTrips-pack :
    {M : Type 0} (c : Message M) (memory : ℕ → ℕ) (m : M) (tag : ℕ) (body : List ℕ)
    → Writes (c.pack_submsg m) (le 1 tag ++ body)
    → Reads c.parse body m
    → c.reserve_pack_size m ≡ header_size + length body
    → c.reserve_pack_size m < 2 ^ 31
    → tag < 2 ^ 8
    → RoundTrips c memory tag m
RoundTrips-pack c memory m tag body w r e h k = record {
  payload = frame (c.reserve_pack_size m) tag body;
  packed = pack-frame c memory m tag body w e;
  sized = omega (arith, length-frame (c.reserve_pack_size m) tag body);
  some_bytes = ground (arith, e, length-frame (c.reserve_pack_size m) tag body);
  received = λ behind. receive-frame c m (c.reserve_pack_size m) tag body behind r e h k;
}

-- `pack` ends in the fault in which `pack_submsg` ends on the room that the size leaves.
pub pack-Fails :
    {M : Type 0} (c : Message M) (memory : ℕ → ℕ) (m : M) (n : ℕ) (e : Fault)
    → Fails (c.pack_submsg m) n e
    → c.reserve_pack_size m ≡ 4 + n
    → pack c memory m ≡ fault e
unfolding pack payload_of
pack-Fails c memory m n e f h =
    let size = c.reserve_pack_size m in
    let mem = new_array memory size in
    let whole : length (initialize mem).after ≡ length (le 4 size) + n =
      unfold initialize in omega (arith, length-new_array memory size, length-le 4 size) in
    ap payload_of ((then-Fails (write_int-Writes size) f).run (initialize mem) whole)
