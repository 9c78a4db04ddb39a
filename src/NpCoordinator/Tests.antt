-- ===== src/NpCoordinator/Tests.antt =====
-- protocol/tracker/tracker_np_manager.cpp with one peer.
use rabbitstreamer.Prelude.{
  ◌⊎◌, fault, no_fuel, ℕ, suc, ◌≡◌, ◌≤◌, ◌<◌, List, [], ◌∷◌, length, ok, All,
}
use rabbitstreamer.CoreStruct.{NetAddress, PeerInfoWithAddr}
use rabbitstreamer.NpCoordinator.{NpNode, NpCoordinator, get_np_address}
use rabbitstreamer.NpCoordinator.Rounds.{Offers}
use rabbitstreamer.NpCoordinator.Laws.{get_np_address_lem}

abbrev hash_h : List ℕ
hash_h = 104 ∷ []

abbrev key_a : List ℕ
key_a = 97 ∷ []

abbrev key_b : List ℕ
key_b = 98 ∷ []

abbrev home : NetAddress
home = record { sin_family = 2; sin_port = 80; s_addr = 1 }

abbrev node_a : NpNode
node_a = record {
  digits = key_a;
  last_recv_report_time = 10;
  version = 1;
  port = 80;
  client_address = record { outer_ip = home; subnet_ip = home };
  core_info = record { word = 5 };
  trans_info = record {
    total_down_bytes = 1;
    total_up_bytes = 2;
    curr_down_speed = 3;
    curr_up_speed = 4;
    avg_down_speed = 5;
    avg_up_speed = 6;
  };
  playing_block = 1;
  current_buffering_time = 2;
  buffered_count = 3;
  buffered_time = 4;
  connect_fail_count = 5;
  incoming_connection_count = 6;
  outgoing_connection_count = 7;
  avg_incoming_connection_elapsed_time = 8;
  avg_outgoing_connection_elapsed_time = 9;
  msg_percent = 10;
  count_interval = 1;
  interval_array = record { start = 3; size = 4 } ∷ [];
  channel_id_md5 = record { hash = hash_h; block_interval = record { start = 3; size = 4 } };
}

abbrev one : NpCoordinator
one = (key_a, node_a) ∷ []

-- A `rand` that counts.
abbrev counting : ℕ → ℕ
counting i = suc i

get_np_address_lem_example :
    ((l : List PeerInfoWithAddr) × (get_np_address counting hash_h key_b 10 4 one ≡ ok l)
      × All (Offers hash_h key_b 4 one) l
      × (length l ≤ 10))
    ⊎ ((get_np_address counting hash_h key_b 10 4 one ≡ fault no_fuel)
        × (¬ ((i : ℕ) → 0 < counting i)))
get_np_address_lem_example = get_np_address_lem counting hash_h key_b 10 4 one
