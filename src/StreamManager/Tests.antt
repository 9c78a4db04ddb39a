-- ===== src/StreamManager/Tests.antt =====
-- protocol/tracker/tracker_streamer_manager.cpp with two super peers.
use rabbitstreamer.Prelude.{
  none, fault, out_of_bounds, ◌≤◌, ℕ, ◌≡◌, ◌≤◌, ◌==◌, refl, false, if◌then◌else◌, List, [], ◌∷◌,
  take, some, ok, arith,
}
use rabbitstreamer.StdMap.{find, case_rank, to_lower}
use rabbitstreamer.StreamManager.{
  ChannelNode, StreamManager, str_rank, get_node, insert_channel, get_channel_count, timer_check,
  get_other_addresses, get_sp_address,
}
use rabbitstreamer.StreamManager.Laws.{IsValid, copied, get_node-insert_channel}
use rabbitstreamer.StreamManager.Idle.{get_node-timer_check}
use rabbitstreamer.StreamManager.Addresses.{
  listed, elsewhere, provides, get_other_addresses_overflows, get_other_addresses_lem,
  get_sp_address_lem,
}

abbrev hash_h : List ℕ
hash_h = 104 ∷ []

abbrev node_at : ℕ → ChannelNode
node_at time = record {
  last_recv_report_time = time;
  user_id = 1;
  pswd = [];
  service_port = 2;
  resource_count = 1;
  con_num = 3;
  exceed_max_conn = false;
  bandwidth = 4;
  sp_address = record { sin_family = 2; sin_port = 80; s_addr = time };
  sp_service = 0;
  hashes = record { hash = hash_h; block_interval = record { start = 3; size = 4 } } ∷ [];
}

abbrev key_a : List ℕ
key_a = 97 ∷ []

abbrev key_b : List ℕ
key_b = 98 ∷ []

abbrev two : StreamManager
two = (key_a, node_at 10) ∷ (key_b, node_at 200) ∷ []

two-IsValid : IsValid two
unfolding case_rank to_lower
two-IsValid = record { sorted = omega arith; full = omega arith }

a_known : get_node key_a two ≡ some (node_at 10)
unfolding get_node find
a_known = ground arith

b_known : get_node key_b two ≡ some (node_at 200)
unfolding get_node find case_rank to_lower
b_known = refl

get_node-insert_channel_example :
    (m' : StreamManager) × (insert_channel 300 key_a (node_at 5) two ≡ ok m')
    × IsValid m'
    × (get_node key_b m' ≡ (
        if str_rank key_b == str_rank key_a
        then some (copied 300 (node_at 5))
        else get_node key_b two))
get_node-insert_channel_example =
    get_node-insert_channel 300 key_a key_b (node_at 5) two two-IsValid (omega arith)

-- The clock goes from 250 to 251 between the two nodes.
abbrev clock : ℕ → ℕ
clock i = if i == 0 then 250 else 251

clock_late : (i : ℕ) → clock i ≤ 251
clock_late i = ground arith

get_node-timer_check_example :
    IsValid (timer_check clock two) × (get_node key_b (timer_check clock two) ≡ some (node_at 200))
get_node-timer_check_example =
    get_node-timer_check clock 251 key_b two (node_at 200) two-IsValid clock_late b_known
      (omega arith)

get_other_addresses_lem_example :
    get_other_addresses key_a two ≡ ok (listed (elsewhere (node_at 10).sp_address) two)
get_other_addresses_lem_example = get_other_addresses_lem key_a two (node_at 10) a_known

get_sp_address_lem_example :
    get_sp_address hash_h 1 two ≡ ok (take 1 (listed (provides hash_h) two))
get_sp_address_lem_example = get_sp_address_lem hash_h 1 two two-IsValid.full

abbrev key_c : List ℕ
key_c = 99 ∷ []

c_unknown : get_node key_c two ≡ none
unfolding get_node find case_rank to_lower
c_unknown = refl

two_known : 2 ≤ get_channel_count two
unfolding get_channel_count
two_known = omega arith

get_other_addresses_overflows_example : get_other_addresses key_c two ≡ fault out_of_bounds
get_other_addresses_overflows_example = get_other_addresses_overflows key_c two c_unknown two_known
