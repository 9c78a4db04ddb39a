-- ===== src/CoreStruct.antt =====
-- core/core_struct.h: the structures that messages carry, and their bytes in memory, which the
-- program copies with `memcpy`. Bit fields and floats are kept as the words that hold them.
pub mod Layouts
use rabbitstreamer.Prelude.{
  ℕ, ◌≤◌, ◌<◌, ◌≡◌, refl, ◌++◌, List, take, drop, length, length-append, Bool, true, false, ◌&&◌,
  ◌||◌, ◌==◌, leb, if◌then◌else◌, not, ◌/◌, ◌%◌, ◌^◌, uint_max, arith,
}
use rabbitstreamer.Streamer.{Streamer, Writer, Reader, ◌>>=◌, return, read_nbytes, write_nbytes}
use rabbitstreamer.Streamer.Bytes.{le, from_le, length-le}
use rabbitstreamer.IntervalArray.{BlockInterval}

abbrev pub md5_len : ℕ
md5_len = 32

abbrev pub uuid_length : ℕ
uuid_length = 16

-- `class NetAddress`; the port and the address stay in network order, as numbers of this machine.
pub record NetAddress : Type 0 where
  pub sin_family : ℕ
  pub sin_port : ℕ
  pub s_addr : ℕ

-- `class P2PAddress`
pub record P2PAddress : Type 0 where
  pub outer_ip : NetAddress
  pub subnet_ip : NetAddress

-- `class CorePeerInfo`, all of whose fields share one 32-bit word
pub record CorePeerInfo : Type 0 where
  pub word : ℕ

-- `class PeerInfoWithAddr`
pub record PeerInfoWithAddr : Type 0 where
  pub core : CorePeerInfo
  pub address : P2PAddress

-- `class TransferInfo`
pub record TransferInfo : Type 0 where
  pub total_down_bytes : ℕ
  pub total_up_bytes : ℕ
  pub curr_down_speed : ℕ
  pub curr_up_speed : ℕ
  pub avg_down_speed : ℕ
  pub avg_up_speed : ℕ

-- How a type lies in memory: `sizeof`, and the two directions of `memcpy`.
pub record Layout (A : Type 0) : Type 0 where
  pub sizeof : ℕ
  pub to_bytes : A → List ℕ
  pub of_bytes : List ℕ → A

-- `memcpy(&x, streamer->read_nbytes(sizeof(x)), sizeof(x))`
unfoldable pub read_object : {A : Type 0} → Layout A → Reader A
read_object l = read_nbytes l.sizeof >>= λ bs. return (l.of_bytes bs)

-- `streamer->write_nbytes((char *)&x, sizeof(x))`
unfoldable pub write_object : {A : Type 0} → Layout A → A → Writer
write_object l a = write_nbytes (l.to_bytes a)

abbrev pub net_address : Layout NetAddress
net_address = record {
  sizeof = 8;
  to_bytes = λ a. le 2 a.sin_family ++ (le 2 a.sin_port ++ le 4 a.s_addr);
  of_bytes = λ bs. record {
    sin_family = from_le (take 2 bs);
    sin_port = from_le (take 2 (drop 2 bs));
    s_addr = from_le (take 4 (drop 4 bs));
  };
}

abbrev pub p2p_address : Layout P2PAddress
p2p_address = record {
  sizeof = 16;
  to_bytes = λ a. net_address.to_bytes a.outer_ip ++ net_address.to_bytes a.subnet_ip;
  of_bytes = λ bs. record {
    outer_ip = net_address.of_bytes (take 8 bs);
    subnet_ip = net_address.of_bytes (take 8 (drop 8 bs));
  };
}

abbrev pub core_peer_info : Layout CorePeerInfo
core_peer_info = record {
  sizeof = 4;
  to_bytes = λ c. le 4 c.word;
  of_bytes = λ bs. record { word = from_le (take 4 bs) };
}

abbrev pub peer_info_with_addr : Layout PeerInfoWithAddr
peer_info_with_addr = record {
  sizeof = 20;
  to_bytes = λ p. core_peer_info.to_bytes p.core ++ p2p_address.to_bytes p.address;
  of_bytes = λ bs. record {
    core = core_peer_info.of_bytes (take 4 bs);
    address = p2p_address.of_bytes (take 16 (drop 4 bs));
  };
}

abbrev pub transfer_info : Layout TransferInfo
transfer_info = record {
  sizeof = 32;
  to_bytes = λ t.
      le 8 t.total_down_bytes
      ++ (le 8 t.total_up_bytes
          ++ (le 4 t.curr_down_speed
              ++ (le 4 t.curr_up_speed ++ (le 4 t.avg_down_speed ++ le 4 t.avg_up_speed))));
  of_bytes = λ bs. record {
    total_down_bytes = from_le (take 8 bs);
    total_up_bytes = from_le (take 8 (drop 8 bs));
    curr_down_speed = from_le (take 4 (drop 16 bs));
    curr_up_speed = from_le (take 4 (drop 20 bs));
    avg_down_speed = from_le (take 4 (drop 24 bs));
    avg_up_speed = from_le (take 4 (drop 28 bs));
  };
}

abbrev pub block_interval : Layout BlockInterval
block_interval = record {
  sizeof = 8;
  to_bytes = λ i. le 4 i.start ++ le 4 i.size;
  of_bytes = λ bs. record { start = from_le (take 4 bs); size = from_le (take 4 (drop 4 bs)) };
}

-- `in_addr`
abbrev pub in_addr : Layout ℕ
in_addr = record { sizeof = 4; to_bytes = λ a. le 4 a; of_bytes = λ bs. from_le (take 4 bs) }

-- A `float`, as the word that holds it
abbrev pub float32 : Layout ℕ
float32 = record { sizeof = 4; to_bytes = λ a. le 4 a; of_bytes = λ bs. from_le (take 4 bs) }

-- Every field is in the range of its C type.
abbrev pub NetAddressFits : NetAddress → Type 0
NetAddressFits a = (a.sin_family < 2 ^ 16) × (a.sin_port < 2 ^ 16) × (a.s_addr < 2 ^ 32)

abbrev pub P2PAddressFits : P2PAddress → Type 0
P2PAddressFits a = NetAddressFits a.outer_ip × NetAddressFits a.subnet_ip

abbrev pub CorePeerInfoFits : CorePeerInfo → Type 0
CorePeerInfoFits c = c.word < 2 ^ 32

abbrev pub PeerInfoWithAddrFits : PeerInfoWithAddr → Type 0
PeerInfoWithAddrFits p = CorePeerInfoFits p.core × P2PAddressFits p.address

abbrev pub BlockIntervalFits : BlockInterval → Type 0
BlockIntervalFits i = (i.start < 2 ^ 32) × (i.size < 2 ^ 32)

abbrev pub TransferInfoFits : TransferInfo → Type 0
TransferInfoFits t =
    (t.total_down_bytes < 2 ^ 64)
    × (t.total_up_bytes < 2 ^ 64)
    × (t.curr_down_speed < 2 ^ 32)
    × (t.curr_up_speed < 2 ^ 32)
    × (t.avg_down_speed < 2 ^ 32)
    × (t.avg_up_speed < 2 ^ 32)
