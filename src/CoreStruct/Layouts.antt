-- ===== src/CoreStruct/Layouts.antt =====
-- The structures of core/core_struct.h keep their value when they are copied into a buffer and out.
use rabbitstreamer.Prelude.{ℕ, ◌<◌, ◌≡◌, refl, length, ◌^◌, arith}
use rabbitstreamer.Streamer.Bytes.{le, from_le}
use rabbitstreamer.Streamer.Laws.{Writes, Reads, read_nbytes-Reads, write_nbytes-Writes, map-Reads}
use rabbitstreamer.IntervalArray.{BlockInterval}
use rabbitstreamer.CoreStruct.{
  NetAddress, P2PAddress, CorePeerInfo, TransferInfo, TransferInfoFits, transfer_info,
  PeerInfoWithAddr, Layout, read_object, write_object, net_address, p2p_address, core_peer_info,
  peer_info_with_addr, block_interval, in_addr, float32, NetAddressFits, P2PAddressFits,
  CorePeerInfoFits, PeerInfoWithAddrFits, BlockIntervalFits,
}

pub write_object-Writes :
    {A : Type 0} (l : Layout A) (a : A) → Writes (write_object l a) (l.to_bytes a)
unfolding write_object
write_object-Writes l a = write_nbytes-Writes (l.to_bytes a)

-- The value comes back.
pub record Returns {A : Type 0} (l : Layout A) (a : A) : Type 0 where
  pub full : length (l.to_bytes a) ≡ l.sizeof
  pub same : l.of_bytes (l.to_bytes a) ≡ a

pub read_object-Reads :
    {A : Type 0} (l : Layout A) (a : A) → Returns l a → Reads (read_object l) (l.to_bytes a) a
unfolding read_object
read_object-Reads l a r =
    rw r.same at (map-Reads l.of_bytes (read_nbytes-Reads l.sizeof (l.to_bytes a) r.full))

pub net_address-Returns : (a : NetAddress) → NetAddressFits a → Returns net_address a
unfolding le from_le
net_address-Returns a h = ground arith

pub p2p_address-Returns : (a : P2PAddress) → P2PAddressFits a → Returns p2p_address a
unfolding le from_le
p2p_address-Returns a h = ground arith

pub core_peer_info-Returns : (a : CorePeerInfo) → CorePeerInfoFits a → Returns core_peer_info a
unfolding le from_le
core_peer_info-Returns a h = ground arith

pub peer_info_with_addr-Returns :
    (a : PeerInfoWithAddr) → PeerInfoWithAddrFits a → Returns peer_info_with_addr a
unfolding le from_le
peer_info_with_addr-Returns a h = ground arith

pub block_interval-Returns : (a : BlockInterval) → BlockIntervalFits a → Returns block_interval a
unfolding le from_le
block_interval-Returns a h = ground arith

pub in_addr-Returns : (a : ℕ) → a < 2 ^ 32 → Returns in_addr a
unfolding le from_le
in_addr-Returns a h = ground arith

pub transfer_info-Returns : (t : TransferInfo) → TransferInfoFits t → Returns transfer_info t
unfolding le from_le
transfer_info-Returns t h = ground arith

pub float32-Returns : (a : ℕ) → a < 2 ^ 32 → Returns float32 a
unfolding le from_le
float32-Returns a h = ground arith

-- The size does not depend on the value.
pub net_address-length : (a : NetAddress) → length (net_address.to_bytes a) ≡ 8
unfolding le
net_address-length a = refl

pub peer_info_with_addr-length :
    (p : PeerInfoWithAddr) → length (peer_info_with_addr.to_bytes p) ≡ 20
unfolding le
peer_info_with_addr-length p = refl

pub in_addr-length : (a : ℕ) → length (in_addr.to_bytes a) ≡ 4
unfolding le
in_addr-length a = refl

pub block_interval-length : (i : BlockInterval) → length (block_interval.to_bytes i) ≡ 8
unfolding le
block_interval-length i = refl

pub core_peer_info-length : (c : CorePeerInfo) → length (core_peer_info.to_bytes c) ≡ 4
unfolding le
core_peer_info-length c = refl

pub transfer_info-length : (t : TransferInfo) → length (transfer_info.to_bytes t) ≡ 32
unfolding le
transfer_info-length t = refl
