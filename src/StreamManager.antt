-- ===== src/StreamManager.antt =====
-- protocol/tracker/tracker_streamer_manager.h and protocol/tracker/tracker_streamer_manager.cpp
-- (`RsTrackerStreamManager`): the super peers that the tracker knows, by their UUIDs, with
-- `ChannelNode` and `map_str` of core/struct_define.h. `channel_map` alone points to a node, so the
-- map holds the node itself. The `new` of a node succeeds. The clock is a parameter.
pub mod Laws
pub mod Idle
pub mod Addresses
mod Tests
use rabbitstreamer.Prelude.{
  ℕ, zero, suc, ◌-◌, ◌%◌, ◌+◌, Bool, true, false, not, ◌&&◌, ltb, leb, ◌==◌, if◌then◌else◌, List,
  [], ◌∷◌, Option, none, some, Result, ok, fault, out_of_bounds, ◌>>=◌, length, take, drop,
}
use mathlib.Core.Option
use rabbitstreamer.CoreStruct.{md5_len, uuid_length, NetAddress}
use rabbitstreamer.IntervalArray.{BlockInterval}
use rabbitstreamer.StdMap.{StdMap, case_rank, find, insert, erase, update}

-- `class MD5_Hash_Str`
pub record Md5HashStr : Type 0 where
  pub hash : List ℕ
  pub block_interval : BlockInterval

-- `struct ChannelNode`. `sp_service` is a pointer that this code only copies.
pub record ChannelNode : Type 0 where
  pub last_recv_report_time : ℕ
  pub user_id : ℕ
  pub pswd : List ℕ
  pub service_port : ℕ
  pub resource_count : ℕ
  pub con_num : ℕ
  pub exceed_max_conn : Bool
  pub bandwidth : ℕ
  pub sp_address : NetAddress
  pub sp_service : ℕ
  pub hashes : List Md5HashStr

abbrev pub StreamManager : Type 0
StreamManager = StdMap (List ℕ) ChannelNode

-- `map_str::operator<`
abbrev pub str_rank : List ℕ → ℕ
str_rank str = case_rank uuid_length str

-- `NetAddress::operator==`
unfoldable pub same_address : NetAddress → NetAddress → Bool
same_address a b = a.s_addr == b.s_addr && a.sin_port == b.sin_port

-- The byte at the start of a text, which ends with a zero.
unfoldable pub first_byte : List ℕ → ℕ
first_byte [] = 0
first_byte (c ∷ s) = c

-- `strncmp(a, b, n) == 0`
unfoldable pub same_text : ℕ → List ℕ → List ℕ → Bool
same_text zero a b = true
same_text (suc n) a b =
    let rest = same_text n (drop 1 a) (drop 1 b) in
    if not (first_byte a == first_byte b) then false else if first_byte a == 0 then true else rest

-- `MD5_Hash_Str::operator==`
abbrev pub same_hash : List ℕ → Md5HashStr → Bool
same_hash hash h = same_text md5_len h.hash hash

-- The loop of `ChannelNode::operator=`: the first `n` entries of the array.
unfoldable pub copy_hashes : ℕ → List Md5HashStr → Result (List Md5HashStr)
copy_hashes zero hs = ok []
copy_hashes (suc n) [] = fault out_of_bounds
copy_hashes (suc n) (h ∷ hs) = do rest ← copy_hashes n hs; ok (h ∷ rest)

-- `ChannelNode::operator=`: the copy, which has the time at which it is made
unfoldable pub assign : ℕ → ChannelNode → Result ChannelNode
assign now node = do
  hashes ← copy_hashes node.resource_count node.hashes
  ok (record node { last_recv_report_time = now; hashes = hashes })

-- `MAX_IDLE_TIME_SEC`
abbrev pub max_idle_time_sec : ℕ
max_idle_time_sec = 100

-- The loop of `timer_check`, which reads the clock once for each node.
unfoldable pub check_idle : (ℕ → ℕ) → ℕ → StreamManager → StreamManager
check_idle clock i [] = []
check_idle clock i ((k, node) ∷ m) =
    let rest = check_idle clock (suc i) m in
    if ltb max_idle_time_sec (clock i - node.last_recv_report_time) then rest else (k, node) ∷ rest

unfoldable pub timer_check : (ℕ → ℕ) → StreamManager → StreamManager
timer_check clock m = check_idle clock 0 m

unfoldable pub get_channel_count : StreamManager → ℕ
get_channel_count m = length m

-- `get_channel`: what it copies to `*Node`, or `none` where it returns -1
unfoldable pub get_channel : ℕ → List ℕ → StreamManager → Result (Option ChannelNode)
get_channel now key m = elim (find str_rank key m) [
  | none ↦ ok none
  | some node ↦ assign now node >>= λ copy. ok (some copy)
]

unfoldable pub get_node : List ℕ → StreamManager → Option ChannelNode
get_node key m = find str_rank key m

unfoldable pub insert_channel : ℕ → List ℕ → ChannelNode → StreamManager → Result StreamManager
insert_channel now key chnl m = get_channel now key m >>= λ there. elim there [
  | none ↦ assign now chnl >>= λ node. ok (insert str_rank key node m).0
  | some copy ↦ assign now chnl >>= λ node. ok (update str_rank key (λ old. node) m)
]

unfoldable pub delete_channel : List ℕ → StreamManager → StreamManager
delete_channel key m = erase str_rank key m

-- The inner loop of `get_channel_interval`, over the first `n` entries of `pHash`.
unfoldable pub find_hash : ℕ → List ℕ → List Md5HashStr → Result (Option Md5HashStr)
find_hash zero hash hs = ok none
find_hash (suc n) hash [] = fault out_of_bounds
find_hash (suc n) hash (h ∷ hs) =
    let rest = find_hash n hash hs in if same_hash hash h then ok (some h) else rest

-- `get_channel_interval`, or `none` where it returns 1
unfoldable pub get_channel_interval : List ℕ → StreamManager → Result (Option BlockInterval)
get_channel_interval hash [] = ok none
get_channel_interval hash ((k, node) ∷ m) =
    let rest = get_channel_interval hash m in
    find_hash node.resource_count hash node.hashes >>= λ found. elim found [
      | some h ↦ ok (some h.block_interval)
      | none ↦ rest
    ]

-- `NULL == sel || sel[0] != address`
unfoldable pub is_other : Option NetAddress → NetAddress → Bool
is_other none a = true
is_other (some sel) a = not (same_address sel a)

-- The loop of `get_cp_address` over an array with `room` more places.
unfoldable pub collect : Option NetAddress → ℕ → StreamManager → Result (List NetAddress)
collect sel room [] = ok []
collect sel zero ((k, node) ∷ m) =
    let rest = collect sel zero m in
    if is_other sel node.sp_address then fault out_of_bounds else rest
collect sel (suc room) ((k, node) ∷ m) =
    let rest = collect sel (suc room) m in
    let more = collect sel room m >>= λ l. ok (node.sp_address ∷ l) in
    if is_other sel node.sp_address then more else rest

-- `get_cp_address` for all super peers but the one with the given UUID
unfoldable pub get_other_addresses : List ℕ → StreamManager → Result (List NetAddress)
get_other_addresses uuid m =
    let sel = Option.map (λ (node : ChannelNode). node.sp_address) (find str_rank uuid m) in
    if leb (get_channel_count m) 1 then ok [] else collect sel (get_channel_count m - 1) m

unfoldable pub addresses : StreamManager → List NetAddress
addresses [] = []
addresses ((k, node) ∷ m) = node.sp_address ∷ addresses m

-- `get_cp_address` for `count` super peers, where `random` is what `rand` returns
unfoldable pub get_cp_address : ℕ → ℕ → StreamManager → List NetAddress
get_cp_address random count m =
    let max_pos = length m - count in
    let pos = if ltb 0 max_pos then random % max_pos else 0 in take count (drop pos (addresses m))

-- `get_sp_address`: up to `count` super peers that have the resource
unfoldable pub get_sp_address : List ℕ → ℕ → StreamManager → Result (List NetAddress)
get_sp_address hash zero m = ok []
get_sp_address hash (suc count) [] = ok []
get_sp_address hash (suc count) ((k, node) ∷ m) =
    let rest = get_sp_address hash (suc count) m in
    let more = get_sp_address hash count m >>= λ l. ok (node.sp_address ∷ l) in
    find_hash node.resource_count hash node.hashes >>= λ found. elim found [
      | some h ↦ more
      | none ↦ rest
    ]
