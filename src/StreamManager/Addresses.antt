-- ===== src/StreamManager/Addresses.antt =====
-- The lists of super peers that protocol/tracker/tracker_streamer_manager.cpp makes.
use rabbitstreamer.Prelude.{
  ℕ, zero, suc, refl, ◌≤◌, ◌<◌, ◌-◌, ◌≡◌, Bool, true, false, not, ◌||◌, List, [], ◌∷◌, length, take,
  none, some, if◌then◌else◌, ok, fault, out_of_bounds, arith, Bool-cases, inl, inr, ◌⊎◌,
}
use rabbitstreamer.CoreStruct.{NetAddress}
use rabbitstreamer.StdMap.{find}
use rabbitstreamer.StreamManager.{
  ChannelNode, StreamManager, Md5HashStr, str_rank, same_address, same_hash, is_other, collect,
  get_channel_count, get_node, get_other_addresses, find_hash, get_sp_address,
}
use rabbitstreamer.StreamManager.Laws.{AllFull}

-- The addresses of the nodes that pass the test, in the order of the map.
unfoldable pub listed : (ChannelNode → Bool) → StreamManager → List NetAddress
listed p [] = []
listed p ((k, node) ∷ m) = let rest = listed p m in if p node then node.sp_address ∷ rest else rest

-- All nodes with another address than the given one.
abbrev pub elsewhere : NetAddress → ChannelNode → Bool
elsewhere a node = not (same_address a node.sp_address)

same_self : (a : NetAddress) → same_address a a ≡ true
unfolding same_address
same_self a = ground arith

listed-le : (p : ChannelNode → Bool) (m : StreamManager) → length (listed p m) ≤ length m
unfolding listed
listed-le p [] = omega arith
listed-le p ((k, node) ∷ m) = ground (arith, listed-le p m)

-- A node is not elsewhere than itself.
listed_less :
    (key : List ℕ) (m : StreamManager) (node : ChannelNode)
    → find str_rank key m ≡ some node
    → length (listed (elsewhere node.sp_address) m) < length m
unfolding listed find
listed_less key [] node e = ground arith
listed_less key ((k, n) ∷ m) node e =
    ground (
      arith,
      same_self n.sp_address,
      listed-le (elsewhere node.sp_address) m,
      listed_less key m node,
    )

length_zero : (l : List NetAddress) → length l < 1 → l ≡ []
length_zero [] h = refl
length_zero (a ∷ l) h = absurd (omega arith)

collect_lem :
    (a : NetAddress) (room : ℕ) (m : StreamManager)
    → length (listed (elsewhere a) m) ≤ room
    → collect (some a) room m ≡ ok (listed (elsewhere a) m)
unfolding collect listed is_other
collect_lem a room [] h = refl
collect_lem a zero ((k, n) ∷ m) h = ground (arith, collect_lem a zero m)
collect_lem a (suc room) ((k, n) ∷ m) h =
    ground (arith, collect_lem a (suc room) m, collect_lem a room m)

-- For a super peer that is known under its UUID, the list of the others is made without a fault and
-- has exactly the addresses of the known super peers that differ from its own, in the order of the
-- map.
pub get_other_addresses_lem :
    (uuid : List ℕ) (m : StreamManager) (node : ChannelNode)
    → get_node uuid m ≡ some node
    → get_other_addresses uuid m ≡ ok (listed (elsewhere node.sp_address) m)
unfolding get_other_addresses get_node get_channel_count
get_other_addresses_lem uuid m node e =
    let less = listed_less uuid m node e in
    ground (
      arith,
      e,
      less,
      collect_lem node.sp_address (length m - 1) m,
      length_zero (listed (elsewhere node.sp_address) m),
    )

collect_overflows :
    (room : ℕ) (m : StreamManager) → room < length m → collect none room m ≡ fault out_of_bounds
unfolding collect is_other
collect_overflows room [] h = absurd (omega arith)
collect_overflows zero ((k, n) ∷ m) h = refl
collect_overflows (suc room) ((k, n) ∷ m) h = ground (arith, collect_overflows room m)

-- For a UUID that is not known, where two or more super peers are known, `get_cp_address` writes
-- past the end of the list, which has a place for all of them but one.
pub get_other_addresses_overflows :
    (uuid : List ℕ) (m : StreamManager)
    → get_node uuid m ≡ none
    → 2 ≤ get_channel_count m
    → get_other_addresses uuid m ≡ fault out_of_bounds
unfolding get_other_addresses get_node get_channel_count
get_other_addresses_overflows uuid m e h = ground (arith, collect_overflows (length m - 1) m)

-- One of the first `n` entries has the hash.
unfoldable pub has_hash : List ℕ → List Md5HashStr → Bool
has_hash hash [] = false
has_hash hash (h ∷ hs) = same_hash hash h || has_hash hash hs

abbrev pub provides : List ℕ → ChannelNode → Bool
provides hash node = has_hash hash (take node.resource_count node.hashes)

-- How the search in a node's array ends.
abbrev Finds : ℕ → List ℕ → List Md5HashStr → Type 0
Finds n hash hs =
    ((h : Md5HashStr) × (find_hash n hash hs ≡ ok (some h)) × (has_hash hash (take n hs) ≡ true))
    ⊎ ((find_hash n hash hs ≡ ok none) × (has_hash hash (take n hs) ≡ false))

find_hash-Finds : (n : ℕ) (hash : List ℕ) (hs : List Md5HashStr) → n ≤ length hs → Finds n hash hs
unfolding find_hash has_hash
find_hash-Finds zero hash hs h = inr (refl, refl)
find_hash-Finds (suc n) hash [] h = absurd (omega arith)
find_hash-Finds (suc n) hash (x ∷ hs) h = elim (Bool-cases (same_hash hash x)) [
  | inl same ↦ inl (x, ground (arith, same), ground (arith, same))
  | inr other ↦ elim (find_hash-Finds n hash hs (omega arith)) [
    | inl (y, e, f) ↦ inl (y, ground (arith, other, e), ground (arith, other, f))
    | inr (e, f) ↦ inr (ground (arith, other, e), ground (arith, other, f))
  ]
]

-- Where all arrays are as long as they say, `get_sp_address` makes, without a fault, the list of the
-- first `count` addresses, in the order of the map, of super peers that have the resource among the
-- first `resourceCount` entries of their array.
pub get_sp_address_lem :
    (hash : List ℕ) (count : ℕ) (m : StreamManager)
    → AllFull m
    → get_sp_address hash count m ≡ ok (take count (listed (provides hash) m))
unfolding get_sp_address listed
get_sp_address_lem hash zero m f = refl
get_sp_address_lem hash (suc count) [] f = refl
get_sp_address_lem hash (suc count) ((k, node) ∷ m) f =
    elim (find_hash-Finds node.resource_count hash node.hashes f.0) [
      | inl (h, e, has) ↦ ground (arith, e, has, get_sp_address_lem hash count m f.1)
      | inr (e, lacks) ↦ ground (arith, e, lacks, get_sp_address_lem hash (suc count) m f.1)
    ]
