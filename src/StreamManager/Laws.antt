-- ===== src/StreamManager/Laws.antt =====
-- What the tracker knows of a super peer after each change
-- (protocol/tracker/tracker_streamer_manager.cpp).
use rabbitstreamer.Prelude.{
  length-take, ℕ, zero, suc, refl, ◌≤◌, ◌≡◌, ◌==◌, if◌then◌else◌, List, [], ◌∷◌, Option, none, some,
  ok, arith, length, take,
}
use rabbitstreamer.StdMap.{find, insert, update, erase}
use rabbitstreamer.StdMap.Laws.{
  find_same, IsSorted, find-insert, find-update, find-erase, insert-IsSorted, update-IsSorted,
  erase-IsSorted,
}
use rabbitstreamer.StreamManager.{
  Md5HashStr, ChannelNode, StreamManager, str_rank, copy_hashes, assign, get_channel, get_node,
  insert_channel, delete_channel,
}

-- `pHash` has as many entries as `resourceCount` says.
abbrev pub IsFull : ChannelNode → Type 0
IsFull node = node.resource_count ≤ length node.hashes

abbrev pub AllFull : StreamManager → Type 0
AllFull [] = Unit {0}
AllFull ((k, node) ∷ m) = IsFull node × AllFull m

-- The map is in the order of its keys, and the arrays of its nodes are as long as they say.
pub record IsValid (m : StreamManager) : Type 0 where
  pub sorted : IsSorted str_rank 0 m
  pub full : AllFull m

copy_hashes_lem : (n : ℕ) (hs : List Md5HashStr) → n ≤ length hs → copy_hashes n hs ≡ ok (take n hs)
unfolding copy_hashes
copy_hashes_lem zero hs h = refl
copy_hashes_lem (suc n) [] h = absurd (omega arith)
copy_hashes_lem (suc n) (x ∷ hs) h = ground (arith, copy_hashes_lem n hs)

-- The copy that `operator=` makes.
abbrev pub copied : ℕ → ChannelNode → ChannelNode
copied now node = record node {
  last_recv_report_time = now;
  hashes = take node.resource_count node.hashes;
}

pub assign_lem :
    (now : ℕ) (node : ChannelNode) → IsFull node → assign now node ≡ ok (copied now node)
unfolding assign
assign_lem now node h = ground (arith, copy_hashes_lem node.resource_count node.hashes h)

pub find-IsFull :
    (key : List ℕ) (m : StreamManager) (node : ChannelNode)
    → AllFull m
    → find str_rank key m ≡ some node
    → IsFull node
unfolding find
find-IsFull key [] node f e = ground arith
find-IsFull key ((k, n) ∷ m) node f e = ground (arith, find-IsFull key m node f.1)

insert-AllFull :
    (key : List ℕ) (node : ChannelNode) (m : StreamManager)
    → AllFull m
    → IsFull node
    → AllFull (insert str_rank key node m).0
unfolding insert
insert-AllFull key node [] f h = ground arith
insert-AllFull key node ((k, n) ∷ m) f h = ground (arith, insert-AllFull key node m f.1 h)

update-AllFull :
    (key : List ℕ) (node : ChannelNode) (m : StreamManager)
    → AllFull m
    → IsFull node
    → AllFull (update str_rank key (λ old. node) m)
unfolding update
update-AllFull key node [] f h = tt
update-AllFull key node ((k, n) ∷ m) f h = ground (arith, update-AllFull key node m f.1 h)

copied-IsFull : (now : ℕ) (node : ChannelNode) → IsFull node → IsFull (copied now node)
copied-IsFull now node h = omega (arith, length-take node.resource_count node.hashes)

-- Where all arrays are as long as they say, a super peer that registers is afterwards found under
-- every UUID that equals its own up to capitals, as the copy of the given node that has the time of
-- the call, whether it was known before or not; under every other UUID nothing changes.
pub get_node-insert_channel :
    (now : ℕ) (key other : List ℕ) (chnl : ChannelNode) (m : StreamManager)
    → IsValid m
    → IsFull chnl
    → (m' : StreamManager) × (insert_channel now key chnl m ≡ ok m')
      × IsValid m'
      × (get_node other m'
          ≡ (if str_rank other == str_rank key then some (copied now chnl) else get_node other m))
unfolding insert_channel get_channel get_node
get_node-insert_channel now key other chnl m v h = by_case (find str_rank key m) refl
  where
    by_case :
        (found : Option ChannelNode)
        → find str_rank key m ≡ found
        → (m' : StreamManager) × (insert_channel now key chnl m ≡ ok m')
          × IsValid m'
          × (get_node other m' ≡ (
              if str_rank other == str_rank key then some (copied now chnl) else get_node other m))
    by_case none e = (
      (insert str_rank key (copied now chnl) m).0,
      ground (arith, assign_lem now chnl h),
      record {
        sorted = insert-IsSorted str_rank 0 key (copied now chnl) m v.sorted (omega arith);
        full = insert-AllFull key (copied now chnl) m v.full (copied-IsFull now chnl h);
      },
      find-insert str_rank 0 key other (copied now chnl) m v.sorted e,
    )
    by_case (some node) e = (
      update str_rank key (λ old. copied now chnl) m,
      ground (arith, assign_lem now chnl h, assign_lem now node (find-IsFull key m node v.full e)),
      record {
        sorted = update-IsSorted str_rank 0 key (λ old. copied now chnl) m v.sorted;
        full = update-AllFull key (copied now chnl) m v.full (copied-IsFull now chnl h);
      },
      ground (
        arith,
        find-update str_rank 0 key other (λ old. copied now chnl) m v.sorted,
        find_same str_rank key other m,
      ),
    )

erase-AllFull : (key : List ℕ) (m : StreamManager) → AllFull m → AllFull (erase str_rank key m)
unfolding erase
erase-AllFull key [] f = tt
erase-AllFull key ((k, n) ∷ m) f = ground (arith, erase-AllFull key m f.1)

-- After a super peer has been deleted it is not found, and all others are what they were.
pub get_node-delete_channel :
    (key other : List ℕ) (m : StreamManager)
    → IsValid m
    → IsValid (delete_channel key m)
      × (get_node other (delete_channel key m)
          ≡ (if str_rank other == str_rank key then none else get_node other m))
unfolding delete_channel get_node
get_node-delete_channel key other m v = (
  record { sorted = erase-IsSorted str_rank 0 key m v.sorted; full = erase-AllFull key m v.full },
  find-erase str_rank 0 key other m v.sorted,
)
