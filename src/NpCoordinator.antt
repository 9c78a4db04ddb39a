-- ===== src/NpCoordinator.antt =====
-- protocol/tracker/tracker_np_manager.h and protocol/tracker/tracker_np_manager.cpp
-- (`RsTrackerNpCoordinator`): the peers that the tracker knows, by their UUIDs, with `NPNode` of
-- core/struct_define.h. `npnode_map` alone points to a node, so the map holds the node itself. The
-- `new` of a node succeeds. The clock and `rand` are parameters.
pub mod Rounds
pub mod Laws
mod Tests
use rabbitstreamer.Prelude.{
  ℕ, zero, suc, ◌-◌, ◌%◌, ◌/◌, ◌+◌, ◌*◌, Bool, true, false, not, ◌&&◌, ◌||◌, ltb, ◌==◌,
  if◌then◌else◌, List, [], ◌∷◌, ◌++◌, Option, none, some, Result, ok, fault, no_fuel, ◌>>=◌, length,
  drop, set, get_elem?,
}
use rabbitstreamer.CoreStruct.{NetAddress, P2PAddress, CorePeerInfo, TransferInfo, PeerInfoWithAddr}
use rabbitstreamer.IntervalArray.{IntervalArray}
use rabbitstreamer.IntervalArray.Queries.{find_block}
use rabbitstreamer.StdMap.{StdMap, find, insert, erase, update}
use rabbitstreamer.StreamManager.{Md5HashStr, str_rank, same_hash}

-- `struct NPNode`
pub record NpNode : Type 0 where
  pub digits : List ℕ
  pub last_recv_report_time : ℕ
  pub version : ℕ
  pub port : ℕ
  pub client_address : P2PAddress
  pub core_info : CorePeerInfo
  pub trans_info : TransferInfo
  pub playing_block : ℕ
  pub current_buffering_time : ℕ
  pub buffered_count : ℕ
  pub buffered_time : ℕ
  pub connect_fail_count : ℕ
  pub incoming_connection_count : ℕ
  pub outgoing_connection_count : ℕ
  pub avg_incoming_connection_elapsed_time : ℕ
  pub avg_outgoing_connection_elapsed_time : ℕ
  pub msg_percent : ℕ
  pub count_interval : ℕ
  pub interval_array : IntervalArray
  pub channel_id_md5 : Md5HashStr

abbrev pub NpCoordinator : Type 0
NpCoordinator = StdMap (List ℕ) NpNode

-- `memset(this, 0, sizeof(NetAddress))`
abbrev pub zero_address : NetAddress
zero_address = record { sin_family = 0; sin_port = 0; s_addr = 0 }

-- `NPNode::NPNode`, which sets all but the time to zero bytes
unfoldable pub new_node : ℕ → NpNode
new_node now = record {
  digits = [];
  last_recv_report_time = now;
  version = 0;
  port = 0;
  client_address = record { outer_ip = zero_address; subnet_ip = zero_address };
  core_info = record { word = 0 };
  trans_info = record {
    total_down_bytes = 0;
    total_up_bytes = 0;
    curr_down_speed = 0;
    curr_up_speed = 0;
    avg_down_speed = 0;
    avg_up_speed = 0;
  };
  playing_block = 0;
  current_buffering_time = 0;
  buffered_count = 0;
  buffered_time = 0;
  connect_fail_count = 0;
  incoming_connection_count = 0;
  outgoing_connection_count = 0;
  avg_incoming_connection_elapsed_time = 0;
  avg_outgoing_connection_elapsed_time = 0;
  msg_percent = 0;
  count_interval = 0;
  interval_array = [];
  channel_id_md5 = record { hash = []; block_interval = record { start = 0; size = 0 } };
}

-- `NPNode::operator=`, which takes one field from another one
unfoldable pub assign : NpNode → NpNode
assign node = record node { incoming_connection_count = node.avg_incoming_connection_elapsed_time }

-- `MAX_IDLE_TIME_SEC`
abbrev pub max_idle_time_sec : ℕ
max_idle_time_sec = 600

-- The loop of `timer_check`, which reads the clock once for each node.
unfoldable pub check_idle : (ℕ → ℕ) → ℕ → NpCoordinator → NpCoordinator
check_idle clock i [] = []
check_idle clock i ((k, node) ∷ m) =
    let rest = check_idle clock (suc i) m in
    if ltb max_idle_time_sec (clock i - node.last_recv_report_time) then rest else (k, node) ∷ rest

unfoldable pub timer_check : (ℕ → ℕ) → NpCoordinator → NpCoordinator
timer_check clock m = check_idle clock 0 m

unfoldable pub get_node : List ℕ → NpCoordinator → Option NpNode
get_node digits m = find str_rank digits m

unfoldable pub insert_node : List ℕ → NpNode → NpCoordinator → NpCoordinator
insert_node digits node m = elim (get_node digits m) [
  | none ↦ (insert str_rank digits (assign node) m).0
  | some old ↦ update str_rank digits (λ o. assign node) m
]

unfoldable pub delete_node : List ℕ → NpCoordinator → NpCoordinator
delete_node digits m = erase str_rank digits m

-- The peer is another one of the same channel, and has the block.
unfoldable pub can_serve : List ℕ → List ℕ → ℕ → NpNode → Bool
can_serve hash uuid block node =
    same_hash hash node.channel_id_md5
    && not (str_rank node.digits == str_rank uuid)
    && find_block node.interval_array block

-- What is copied to an entry of `pPeerInfoWithAddr`.
abbrev pub info_of : NpNode → PeerInfoWithAddr
info_of node = record { core = node.core_info; address = node.client_address }

module _ (hash uuid : List ℕ) (block : ℕ) where
  -- The inner loop of `get_np_address`, with `room` entries left: what it adds, and whether it stops
  -- before the end of the map. `iLimit` stays 0, so only these two end it.
  unfoldable pub scan : ℕ → NpCoordinator → List PeerInfoWithAddr × Bool
  scan room [] = ([], false)
  scan zero ((k, node) ∷ m) = ([], true)
  scan (suc room) ((k, node) ∷ m) =
      let (rest, early) = scan (suc room) m in
      let (more, full) = scan room m in
      if can_serve hash uuid block node then (info_of node ∷ more, full) else (rest, early)

-- `groupID[id]`; -1 is `none`
unfoldable pub group_at : List (Option ℕ) → ℕ → Option ℕ
group_at groups id = elim (get_elem? groups id) [ some g ↦ g | none ↦ none ]

-- The loop that picks a group: `left` rounds are left, and `rand` has been called `i` times.
unfoldable pub pick : (ℕ → ℕ) → ℕ → ℕ → List (Option ℕ) → Option ℕ → Option ℕ × List (Option ℕ)
pick rand i zero groups pos = (pos, groups)
pick rand i (suc left) groups pos =
    let id = rand i % length groups in
    let same = pick rand (suc i) left groups pos in
    let next = pick rand (suc i) left (set groups id none) (group_at groups id) in
    if rand i == 0 then same else next

-- `for (int i = 0; i < iRange; i++) groupID.push_back(i)`, from `i` on
unfoldable pub group_ids : ℕ → ℕ → List (Option ℕ)
group_ids i zero = []
group_ids i (suc n) = some i ∷ group_ids (suc i) n

-- The outer loop of `get_np_address`, with a bound on its rounds.
unfoldable pub rounds :
    List ℕ
    → List ℕ
    → ℕ
    → (ℕ → ℕ)
    → ℕ
    → ℕ
    → List (Option ℕ)
    → ℕ
    → NpCoordinator
    → Result (List PeerInfoWithAddr)
rounds hash uuid block rand zero i groups room m = fault no_fuel
rounds hash uuid block rand (suc fuel) i groups room m =
    let (pos, groups') = pick rand i (length groups) groups (some 0) in
    elim pos [
      | none ↦ ok []
      | some p ↦
          let (found, early) = scan hash uuid block room (drop (p * 30) m) in
          let left = room - length found in
          let more = rounds hash uuid block rand fuel (i + length groups) groups' left m in
          if early || left == 0 then ok found else more >>= λ l. ok (found ++ l)
    ]

-- `get_np_address`. Where `rand` is never 0 a group is used up in each round.
unfoldable pub get_np_address :
    (ℕ → ℕ) → List ℕ → List ℕ → ℕ → ℕ → NpCoordinator → Result (List PeerInfoWithAddr)
get_np_address rand hash uuid count block m =
    let range = length m / 30 + 1 in
    rounds hash uuid block rand (suc range) 1 (group_ids 0 range) count m
