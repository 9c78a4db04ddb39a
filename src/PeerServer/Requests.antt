-- ===== src/PeerServer/Requests.antt =====
-- How a request for blocks is answered as a whole (`get_push_list` of
-- protocol/sp/sp_np_connector.cpp).
use rabbitstreamer.Prelude.{
  append-nil, take_append, subst, ℕ, ◌+◌, ◌-◌, ◌%◌, ◌^◌, ◌≤◌, ◌<◌, ◌≡◌, true, List, [], ◌++◌, some,
  ok, length, take, arith,
}
use rabbitstreamer.Message.Sp2SpPushList.{Sp2SpPushList, Sp2SpPushList-parse}
use rabbitstreamer.Message.Sp2SpPushList
use rabbitstreamer.BufferQueue.{media_block_size, BufferQueue}
use rabbitstreamer.BufferQueue.Window.{Holds}
use rabbitstreamer.BitrateCalculator.{BitrateCalculator}
use rabbitstreamer.SourceManager.{SourceManager, get_buffer_queue}
use rabbitstreamer.PeerServer.{PeerServer, Outside, sort, parse_push_list, get_push_list}
use rabbitstreamer.PeerServer.Sort.{sort_lem, occurrences, Ascends}
use rabbitstreamer.PeerServer.Push.{held_packets, count_held, answer_lem}

-- What a peer sends behind the type to ask for blocks.
abbrev pub request : Sp2SpPushList → List ℕ
request m = Sp2SpPushList.wire m

parse_push_list_lem :
    (m : Sp2SpPushList) (msg_size : ℕ) (more : List ℕ)
    → Sp2SpPushList.IsValid m
    → msg_size ≡ 5 + length (request m)
    → msg_size < 2 ^ 31
    → parse_push_list msg_size (request m ++ more) ≡ ok m
unfolding parse_push_list
parse_push_list_lem m msg_size more v e small =
    let cut : take (msg_size - 5) (request m ++ more) ≡ request m =
      subst (λ (i : ℕ). take i (request m ++ more) ≡ request m)
        (let e' : length (request m) ≡ msg_size - 5 = omega arith in e')
        (take_append (request m) more) in
    let parsed = rw append-nil at (Sp2SpPushList-parse m [] v) in ground (arith, cut, parsed)

-- On a connection that has been sent the media type of a channel, a message asks for blocks of
-- that channel, which holds the last n of k blocks. The request is answered by the packets of those
-- blocks that are held, in ascending order and each as often as it is asked for, and by nothing
-- else; each has the 16384 bytes from the start of the block's buffer on. The media type is not
-- sent again. Where counting the rate of the connection does not end in a fault, nothing does.
pub get_push_list_lem :
    (content : ℕ → List ℕ) (n k : ℕ) (o : Outside) (sources : SourceManager) (q : BufferQueue)
    (m : Sp2SpPushList) (msg_size : ℕ) (more : List ℕ) (c : PeerServer)
    (calculator : BitrateCalculator)
    → Sp2SpPushList.IsValid m
    → get_buffer_queue m.resource_md5 sources ≡ some q
    → Holds content n k q
    → ((i : ℕ) → media_block_size ≤ length (content i) + length (o.behind (i % n)))
    → msg_size ≡ 5 + length (request m)
    → msg_size < 2 ^ 31
    → c.media_type_flag ≡ true
    → count_held o n k 0 (sort m.block_array) c.calculator ≡ ok calculator
    → (get_push_list o sources msg_size (request m ++ more) c
        ≡ ok (
          record c { calculator = calculator },
          held_packets content n k o m.resource_md5 (sort m.block_array),
        ))
      × Ascends 0 (sort m.block_array)
      × ((v : ℕ) → occurrences v (sort m.block_array) ≡ occurrences v m.block_array)
unfolding get_push_list
get_push_list_lem content n k o sources q m msg_size more c calculator v channel held whole size
      small sent counted =
    let answered =
      answer_lem content n k o sources m.resource_md5 q channel held v.resource_md5 whole m c
        calculator v counted in
    (
      ground (arith, parse_push_list_lem m msg_size more v size small, sent, answered),
      (sort_lem m.block_array).0,
      (sort_lem m.block_array).1,
    )
