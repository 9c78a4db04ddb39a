-- ===== src/SpTracker/Tests.antt =====
-- protocol/tracker/tracker_sp_connector.cpp with two super peers.
use rabbitstreamer.Prelude.{
  drop, length, ℕ, suc, refl, sym, subst, ◌∙◌, ◌≡◌, ◌≢◌, false, List, [], ◌∷◌, some, ok, replicate,
  arith,
}
use rabbitstreamer.CoreStruct.{uuid_length}
use rabbitstreamer.StdMap.{find, case_rank, to_lower}
use rabbitstreamer.StreamManager.{ChannelNode, StreamManager, str_rank, get_node}
use rabbitstreamer.StreamManager.Laws.{IsValid}
use rabbitstreamer.Message.Sp2TsStatus.{Sp2TsStatus}
use rabbitstreamer.Message.Sp2TsStatus
use rabbitstreamer.Dispatch.{status, handle_sp_packet}
use rabbitstreamer.Dispatch.SuperPeers.{sp_pack, handle_sp_packet-sp_pack}
use rabbitstreamer.SpTracker.{Outside, handle, handle_udp_packet}
use rabbitstreamer.SpTracker.Updates.{get_status_lem}
use rabbitstreamer.SpTracker.Invariant.{NotSent, sender, run, run_keeps_super_peer}

abbrev outside : Outside
outside = record {
  now = 20;
  rand = λ i. suc i;
  sin_port = 4000;
  s_addr = 16909060;
  this = 1;
  memory = λ i. 204;
}

abbrev key_a : List ℕ
key_a = replicate uuid_length 97

abbrev key_b : List ℕ
key_b = replicate uuid_length 98

abbrev node : ChannelNode
node = record {
  last_recv_report_time = 10;
  user_id = 1;
  pswd = [];
  service_port = 2;
  resource_count = 1;
  con_num = 3;
  exceed_max_conn = false;
  bandwidth = 4;
  sp_address = record { sin_family = 2; sin_port = 80; s_addr = 5 };
  sp_service = 0;
  hashes = record { hash = replicate 32 104; block_interval = record { start = 3; size = 4 } } ∷ [];
}

abbrev two : StreamManager
two = (key_a, node) ∷ (key_b, node) ∷ []

two-IsValid : IsValid two
unfolding case_rank to_lower
two-IsValid = record { sorted = omega arith; full = omega arith }

b_known : get_node key_b two ≡ some node
unfolding get_node find case_rank to_lower
b_known = refl

-- The super peer b reports its load.
abbrev load : Sp2TsStatus
load = record {
  sp_uuid = key_b;
  resource_count = 1;
  connection_num = 9;
  bandwidth = 8;
  exceed_max_connection = 1;
}

load-IsValid : Sp2TsStatus.IsValid load
load-IsValid = record {
  sp_uuid = refl;
  resource_count = omega arith;
  connection_num = omega arith;
  bandwidth = omega arith;
  exceed_max_connection = omega arith;
}

abbrev packet_b :
    (payload : List ℕ) × (sp_pack outside.memory (status load) ≡ ok payload)
    × ((behind : List ℕ) → handle_sp_packet payload behind ≡ ok (some (status load)))
packet_b = handle_sp_packet-sp_pack outside.memory (status load) load-IsValid

a_not_b : str_rank key_a ≢ str_rank key_b
unfolding case_rank to_lower
a_not_b = omega arith

NotSent-key_a : (behind : List ℕ) → NotSent key_a outside packet_b.0 behind
NotSent-key_a behind m e =
    let taken_for : ok (some (status load)) ≡ ok (some m) = sym (packet_b.2 behind) ∙ e in
    let same : status load ≡ m = cc in
    subst (λ n. str_rank key_a ≢ str_rank (sender outside n)) same a_not_b

-- What the tracker knows afterwards.
abbrev later : StreamManager
later = (get_status_lem outside load two node two-IsValid b_known (omega arith)).0

taken : run ((outside, packet_b.0) ∷ []) (replicate 60 7) two ≡ ok later
unfolding run handle_udp_packet handle
taken = ground (
  arith,
  packet_b.2 (drop (length packet_b.0) (replicate 60 7)),
  (get_status_lem outside load two node two-IsValid b_known (omega arith)).1,
)

run_keeps_super_peer_example : IsValid later × (get_node key_a later ≡ get_node key_a two)
run_keeps_super_peer_example =
    run_keeps_super_peer ((outside, packet_b.0) ∷ []) (replicate 60 7) key_a two later two-IsValid
      (NotSent-key_a _, tt) taken
