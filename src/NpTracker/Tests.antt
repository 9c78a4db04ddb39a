-- ===== src/NpTracker/Tests.antt =====
-- protocol/tracker/tracker_np_connector.cpp with one peer and one super peer.
use rabbitstreamer.Prelude.{
  ◌⊎◌, drop, length, ℕ, suc, refl, sym, subst, ◌∙◌, ◌≡◌, ◌≢◌, ◌||◌, false, true, List, [], ◌∷◌,
  none, some, ok, fault, out_of_bounds, replicate, arith,
}
use rabbitstreamer.CoreStruct.{uuid_length, md5_len}
use rabbitstreamer.StdMap.{find, erase, case_rank, to_lower}
use rabbitstreamer.StdMap.Laws.{IsSorted}
use rabbitstreamer.StreamManager.{
  str_rank, ChannelNode, get_sp_address, find_hash, same_text, first_byte,
}
use rabbitstreamer.NpCoordinator.{NpNode, new_node, get_node, delete_node, can_serve}
use rabbitstreamer.Message.Np2TsLogin.{Np2TsLogin}
use rabbitstreamer.Message.Np2TsLogin
use rabbitstreamer.Message.Np2TsReport.{Np2TsReport}
use rabbitstreamer.Message.Np2TsNeedPeers.{Np2TsNeedPeers}
use rabbitstreamer.Message.Np2TsLogout
use rabbitstreamer.Message.Np2TsReqInterval.{Np2TsReqInterval}
use rabbitstreamer.Message.Np2TsReqRes.{Np2TsReqRes}
use rabbitstreamer.Message.Np2TsLogout.{Np2TsLogout}
use rabbitstreamer.Dispatch.{NpMessage, report, need_peers, req_interval, logout, handle_np_packet}
use rabbitstreamer.Dispatch.Peers.{np_pack, handle_np_packet-np_pack}
use rabbitstreamer.Uuid.Laws.{IsSmall, IsLarge}
use rabbitstreamer.NpTracker.{
  Outside, NpTracker, get_login, get_req_res, get_logout, handle, handle_udp_packet,
}
use rabbitstreamer.NpTracker.Address.{is_nat_ip, dotted, host_order, inside_range, is_nat_ip_lem}
use rabbitstreamer.NpTracker.Handlers.{Welcomed, SenderFits, get_login_lem}
use rabbitstreamer.NpTracker.Requests.{NoneServes, get_req_res_alone}
use rabbitstreamer.NpTracker.Unknown.{Refused, handle_unknown}
use rabbitstreamer.NpTracker.Peers.{NotSent, sender, run, run_keeps_peer}

abbrev outside : Outside
outside = record {
  now = 20;
  rand = λ i. suc i;
  cp_random = 3;
  sin_port = 4000;
  s_addr = 16909060;
  memory = λ i. 204;
  should_quit = true;
  interval_size = 77;
}

abbrev key_a : List ℕ
key_a = replicate uuid_length 97

abbrev key_b : List ℕ
key_b = replicate uuid_length 98

abbrev hash_h : List ℕ
hash_h = 104 ∷ []

-- A peer that has not reported any blocks.
abbrev node_a : NpNode
node_a = record (new_node 10) {
  digits = key_a;
  interval_array = record { start = 3; size = 4 } ∷ [];
}

abbrev super_peer : ChannelNode
super_peer = record {
  last_recv_report_time = 10;
  user_id = 1;
  pswd = [];
  service_port = 2;
  resource_count = 1;
  con_num = 3;
  exceed_max_conn = false;
  bandwidth = 4;
  sp_address = record { sin_family = 2; sin_port = 80; s_addr = 5 };
  sp_service = 0;
  hashes = record { hash = hash_h; block_interval = record { start = 3; size = 4 } } ∷ [];
}

abbrev one : NpTracker
one = record {
  peers = (key_a, node_a) ∷ [];
  streams = (key_b, super_peer) ∷ [];
  last_send_blockinterval = record { start = 0; size = 0 };
}

one-IsSorted : IsSorted str_rank 0 one.peers
one-IsSorted = ground arith

a_known : get_node key_a one.peers ≡ some node_a
unfolding get_node find
a_known = ground arith

b_unknown : get_node key_b one.peers ≡ none
unfolding get_node find case_rank to_lower
b_unknown = refl

is_nat_ip_lem_example : is_nat_ip (dotted 172 20 1 2) ≡ (
    inside_range (host_order 10 0 0 0) (host_order 10 255 255 255) (host_order 172 20 1 2)
    || inside_range (host_order 172 16 0 0) (host_order 172 31 255 255) (host_order 172 20 1 2)
    || inside_range (host_order 192 168 0 0) (host_order 192 168 255 255) (host_order 172 20 1 2))
is_nat_ip_lem_example =
    is_nat_ip_lem 172 20 1 2 (omega arith) (omega arith) (omega arith) (omega arith)

abbrev a_login : Np2TsLogin
a_login = record {
  login_id = 1;
  password = replicate md5_len 5;
  client_version = 6;
  listening_port = 5000;
  local_ip_list_size = 1;
  ip_addr = 16777226 ∷ [];
}

a_login-IsValid : Np2TsLogin.IsValid a_login
a_login-IsValid = record {
  login_id = omega arith;
  password = refl;
  client_version = omega arith;
  listening_port = omega arith;
  local_ip_list_size = omega arith;
  ip_addr = omega arith;
  length-ip_addr = refl;
}

outside-Fits : SenderFits outside
outside-Fits = omega arith

get_login_lem_example :
    (IsLarge outside.rand × (get_login outside a_login one ≡ fault out_of_bounds))
    ⊎ ((IsSmall outside.rand
          × (a_login.local_ip_list_size ≡ 0)
          × (get_login outside a_login one ≡ ok (one, none)))
        ⊎ (IsSmall outside.rand × (a_login.local_ip_list_size ≢ 0) × Welcomed outside a_login one))
get_login_lem_example = get_login_lem outside a_login one outside-Fits a_login-IsValid one-IsSorted

abbrev a_request : Np2TsReqRes
a_request = record { uuid = key_a; resource_md5 = hash_h }

a_serves_no_other : NoneServes hash_h key_a 0 one.peers
unfolding can_serve
a_serves_no_other = ground arith

h_provided : get_sp_address hash_h 1 one.streams ≡ ok (super_peer.sp_address ∷ [])
unfolding get_sp_address find_hash same_text first_byte
h_provided = refl

get_req_res_alone_example : get_req_res outside a_request one ≡ fault out_of_bounds
get_req_res_alone_example =
    get_req_res_alone outside a_request one node_a super_peer.sp_address [] (λ i. omega arith)
      a_known a_serves_no_other h_provided

handle_unknown_example :
    ((m : Np2TsReport) → m.uuid ≡ key_b → Refused outside one (handle outside (report m) one))
    × ((m : Np2TsReqInterval)
        → m.uuid ≡ key_b
        → Refused outside one (handle outside (req_interval m) one))
    × ((m : Np2TsNeedPeers) → m.uuid ≡ key_b → handle outside (need_peers m) one ≡ ok (one, none))
    × ((m : Np2TsLogout) → m.uuid ≡ key_b → handle outside (logout m) one ≡ ok (one, none))
handle_unknown_example = handle_unknown outside one key_b b_unknown

-- The peer b logs out.
abbrev two : NpTracker
two = record one { peers = (key_a, node_a) ∷ (key_b, record node_a { digits = key_b }) ∷ [] }

two-IsSorted : IsSorted str_rank 0 two.peers
unfolding case_rank to_lower
two-IsSorted = omega arith

abbrev from_b : NpMessage
from_b = logout (record { uuid = key_b })

from_b-IsValid : Np2TsLogout.IsValid (record { uuid = key_b })
from_b-IsValid = record { uuid = refl }

abbrev packet_b :
    (payload : List ℕ) × (np_pack outside.memory from_b ≡ ok payload)
    × ((behind : List ℕ) → handle_np_packet payload behind ≡ ok (some from_b))
packet_b = handle_np_packet-np_pack outside.memory from_b from_b-IsValid

a_not_b : str_rank key_a ≢ str_rank key_b
unfolding case_rank to_lower
a_not_b = omega arith

NotSent-key_a : (behind : List ℕ) → NotSent key_a outside packet_b.0 behind
NotSent-key_a behind m e =
    let taken_for : ok (some from_b) ≡ ok (some m) = sym (packet_b.2 behind) ∙ e in
    let same : from_b ≡ m = cc in
    subst (λ n. str_rank key_a ≢ str_rank (sender outside n)) same a_not_b

b_left : delete_node key_b two.peers ≡ one.peers
unfolding delete_node erase case_rank to_lower
b_left = refl

taken : run ((outside, packet_b.0) ∷ []) (replicate 60 7) two ≡ ok one
unfolding run handle_udp_packet handle get_logout
taken = ground (arith, packet_b.2 (drop (length packet_b.0) (replicate 60 7)), b_left)

run_keeps_peer_example :
    IsSorted str_rank 0 one.peers
    × (get_node key_a one.peers ≡ get_node key_a two.peers)
    × (one.streams ≡ two.streams)
run_keeps_peer_example =
    run_keeps_peer ((outside, packet_b.0) ∷ []) (replicate 60 7) key_a two one two-IsSorted
      (NotSent-key_a _, tt) taken
