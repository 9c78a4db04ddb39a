-- ===== src/SpTracker/Updates.antt =====
-- What protocol/tracker/tracker_sp_connector.cpp makes of the resources and the status of a super
-- peer that it knows.
use rabbitstreamer.Prelude.{
  take-take, length-take, ℕ, zero, suc, refl, ◌≡◌, ◌==◌, ◌≤◌, ◌<◌, not, if◌then◌else◌, List, [],
  ◌∷◌, some, ok, fault, out_of_bounds, length, take, take_all, arith,
}
use rabbitstreamer.StreamManager.{
  Md5HashStr, ChannelNode, StreamManager, str_rank, copy_hashes, assign, get_node, get_channel,
  insert_channel,
}
use rabbitstreamer.StreamManager.Laws.{
  IsFull, IsValid, copied, assign_lem, find-IsFull, get_node-insert_channel,
}
use rabbitstreamer.Message.Sp2TsResList.{Sp2TsResList, ResourceInfo}
use rabbitstreamer.Message.Sp2TsStatus.{Sp2TsStatus}
use rabbitstreamer.SpTracker.{Outside, nothing, set_hashes, get_res_list, get_status}

-- The entry of `pHash` for a resource.
abbrev pub hash_of : ResourceInfo → Md5HashStr
hash_of r = record { hash = r.res_md5; block_interval = r.block_interval }

unfoldable pub hashes_of : List ResourceInfo → List Md5HashStr
hashes_of [] = []
hashes_of (r ∷ rs) = hash_of r ∷ hashes_of rs

set_hashes_lem :
    (n : ℕ) (rs : List ResourceInfo) → length rs ≡ n → set_hashes n rs ≡ ok (hashes_of rs)
unfolding set_hashes hashes_of
set_hashes_lem zero [] e = refl
set_hashes_lem zero (r ∷ rs) e = absurd (omega arith)
set_hashes_lem (suc n) [] e = absurd (omega arith)
set_hashes_lem (suc n) (r ∷ rs) e = ground (arith, set_hashes_lem n rs)

pub length-hashes : (rs : List ResourceInfo) → length (hashes_of rs) ≡ length rs
unfolding hashes_of
length-hashes [] = refl
length-hashes (r ∷ rs) = omega (arith, length-hashes rs)

get_channel-known :
    (now : ℕ) (uuid : List ℕ) (s : StreamManager) (node : ChannelNode)
    → IsValid s
    → get_node uuid s ≡ some node
    → get_channel now uuid s ≡ ok (some (copied now node))
unfolding get_channel get_node
get_channel-known now uuid s node v e =
    ground (arith, e, assign_lem now node (find-IsFull uuid s node v.full e))

known-IsFull :
    (uuid : List ℕ) (s : StreamManager) (node : ChannelNode)
    → IsValid s
    → get_node uuid s ≡ some node
    → IsFull node
unfolding get_node
known-IsFull uuid s node v e = find-IsFull uuid s node v.full e

-- A list of resources, as long as it says, of a known super peer is not answered. Afterwards the
-- super peer is known, with the time of the call, to have exactly the listed resources with their
-- intervals in that order; all else that is known of it and of all others is what it was, and all
-- arrays are as long as they say.
pub get_res_list_lem :
    (o : Outside) (m : Sp2TsResList) (s : StreamManager) (node : ChannelNode)
    → IsValid s
    → get_node m.sp_uuid s ≡ some node
    → length m.res_info ≡ m.resource_count
    → (s' : StreamManager) × (get_res_list o m s ≡ ok (s', nothing))
      × IsValid s'
      × ((other : List ℕ)
          → get_node other s' ≡ (
              if str_rank other == str_rank m.sp_uuid
              then some (record node {
                last_recv_report_time = o.now;
                resource_count = m.resource_count;
                hashes = hashes_of m.res_info;
              })
              else get_node other s))
unfolding get_res_list
get_res_list_lem o m s node v known sized =
    let new = record (copied o.now node) {
      last_recv_report_time = o.now;
      resource_count = m.resource_count;
      hashes = hashes_of m.res_info;
    } in
    let full : IsFull new = omega (arith, length-hashes m.res_info) in
    let (s', inserted, v', self) = get_node-insert_channel o.now m.sp_uuid m.sp_uuid new s v full in
    (
      s',
      ground (
        arith,
        get_channel-known o.now m.sp_uuid s node v known,
        set_hashes_lem m.resource_count m.res_info sized,
        inserted,
      ),
      v',
      λ other.
          let (s'', inserted', v'', found) =
            get_node-insert_channel o.now m.sp_uuid other new s v full in
          ground (
            arith,
            inserted,
            inserted',
            found,
            take_all m.resource_count (hashes_of m.res_info),
            length-hashes m.res_info,
          ),
    )

-- A status that counts no more resources than the super peer is known to have is not answered.
-- Afterwards the super peer is known with the time of the call, the given load, and the first ones
-- of its resources, as many as the status counts; all else that is known of it and of all others
-- is what it was, and all arrays are as long as they say.
pub get_status_lem :
    (o : Outside) (m : Sp2TsStatus) (s : StreamManager) (node : ChannelNode)
    → IsValid s
    → get_node m.sp_uuid s ≡ some node
    → m.resource_count ≤ node.resource_count
    → (s' : StreamManager) × (get_status o m s ≡ ok (s', nothing))
      × IsValid s'
      × ((other : List ℕ)
          → get_node other s' ≡ (
              if str_rank other == str_rank m.sp_uuid
              then some (record node {
                last_recv_report_time = o.now;
                resource_count = m.resource_count;
                con_num = m.connection_num;
                bandwidth = m.bandwidth;
                exceed_max_conn = not (m.exceed_max_connection == 0);
                hashes = take m.resource_count node.hashes;
              })
              else get_node other s))
unfolding get_status
get_status_lem o m s node v known fewer =
    let new = record (copied o.now node) {
      last_recv_report_time = o.now;
      resource_count = m.resource_count;
      con_num = m.connection_num;
      bandwidth = m.bandwidth;
      exceed_max_conn = not (m.exceed_max_connection == 0);
    } in
    let full : IsFull new =
      omega (
        arith,
        length-take node.resource_count node.hashes,
        known-IsFull m.sp_uuid s node v known,
      ) in
    let (s', inserted, v', self) = get_node-insert_channel o.now m.sp_uuid m.sp_uuid new s v full in
    (
      s',
      ground (arith, get_channel-known o.now m.sp_uuid s node v known, inserted),
      v',
      λ other.
          let (s'', inserted', v'', found) =
            get_node-insert_channel o.now m.sp_uuid other new s v full in
          ground (
            arith,
            inserted,
            inserted',
            found,
            take-take m.resource_count node.resource_count node.hashes fewer,
          ),
    )

pub copy_hashes_short :
    (n : ℕ) (hs : List Md5HashStr) → length hs < n → copy_hashes n hs ≡ fault out_of_bounds
unfolding copy_hashes
copy_hashes_short zero hs h = absurd (omega arith)
copy_hashes_short (suc n) [] h = refl
copy_hashes_short (suc n) (x ∷ hs) h = ground (arith, copy_hashes_short n hs)

-- A status of a known super peer that counts more resources than its last list had makes the
-- tracker read past the end of the array of its resources.
pub get_status_overreads :
    (o : Outside) (m : Sp2TsStatus) (s : StreamManager) (node : ChannelNode)
    → IsValid s
    → get_node m.sp_uuid s ≡ some node
    → node.resource_count < m.resource_count
    → get_status o m s ≡ fault out_of_bounds
unfolding get_status insert_channel assign
get_status_overreads o m s node v known more = ground (
  arith,
  get_channel-known o.now m.sp_uuid s node v known,
  copy_hashes_short m.resource_count (take node.resource_count node.hashes),
  length-take node.resource_count node.hashes,
)
