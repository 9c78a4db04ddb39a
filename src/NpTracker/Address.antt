-- ===== src/NpTracker/Address.antt =====
-- core/core_struct.h (`NetAddress::IsNatIP`) and the addresses in `get_login` of
-- protocol/tracker/tracker_np_connector.cpp: the address at which the tracker lets others find a
-- peer in its own network.
use rabbitstreamer.Prelude.{
  ap, [], ◌∷◌, refl, false, uint_max, true, if◌then◌else◌, arith, ◌||◌, ◌==◌, ◌/◌, ◌&&◌, some, ◌≡◌,
  ◌^◌, ◌%◌, none, leb, ◌<◌, ◌+◌, ◌*◌, Option, List, Bool, ℕ,
}
use rabbitstreamer.NpCoordinator.{zero_address}
use rabbitstreamer.CoreStruct.{NetAddress, P2PAddress}

-- `AF_INET`
abbrev pub af_inet : ℕ
af_inet = 2

-- `NetAddress::IsNatIP`, for the `s_addr` of the address: its bytes lie in network order, so the
-- lowest one is the first.
unfoldable pub is_nat_ip : ℕ → Bool
is_nat_ip s_addr =
    let first = s_addr % 256 in
    let second = s_addr / 256 % 256 in
    if first == 10
    then true
    else if first == 192
    then second == 168
    else if first == 172
    then leb 16 second && leb second 31
    else false

-- The loop of `get_login` over the local addresses of the peer: `subnetIP` and `natAddr`.
unfoldable pub find_nat :
    NetAddress → ℕ → List ℕ → NetAddress → NetAddress → NetAddress × NetAddress
find_nat remote port [] subnet nat = (subnet, nat)
find_nat remote port (a ∷ addrs) subnet nat =
    let same = a == remote.s_addr in
    let local : NetAddress = record { sin_family = af_inet; sin_port = port; s_addr = a } in
    find_nat remote port addrs
      (if same then record subnet { sin_port = port; s_addr = uint_max } else subnet)
      (if is_nat_ip a then local else if same then remote else nat)

-- `node.clientAddress` at the end of that loop and of the `if` behind it
unfoldable pub client_address : NetAddress → ℕ → List ℕ → P2PAddress
client_address remote port addrs =
    let nat_addr : NetAddress = record { sin_family = af_inet; sin_port = 0; s_addr = 0 } in
    let (subnet, nat) = find_nat remote port addrs zero_address nat_addr in
    record { outer_ip = remote; subnet_ip = if is_nat_ip nat.s_addr then nat else subnet }

-- A number between two others, both included.
abbrev pub inside_range : ℕ → ℕ → ℕ → Bool
inside_range lo hi x = leb lo x && leb x hi

-- Four bytes as an address in network order.
abbrev pub dotted : ℕ → ℕ → ℕ → ℕ → ℕ
dotted a b c d = a + b * 2 ^ 8 + c * 2 ^ 16 + d * 2 ^ 24

-- The same address as the number that it is written for.
abbrev pub host_order : ℕ → ℕ → ℕ → ℕ → ℕ
host_order a b c d = a * 2 ^ 24 + b * 2 ^ 16 + c * 2 ^ 8 + d

-- `IsNatIP` holds of the address with the bytes a.b.c.d exactly if that lies between 10.0.0.0 and
-- 10.255.255.255, between 172.16.0.0 and 172.31.255.255, or between 192.168.0.0 and
-- 192.168.255.255.
pub is_nat_ip_lem :
    (a b c d : ℕ)
    → a < 256
    → b < 256
    → c < 256
    → d < 256
    → is_nat_ip (dotted a b c d) ≡ (
        inside_range (host_order 10 0 0 0) (host_order 10 255 255 255) (host_order a b c d)
        || inside_range (host_order 172 16 0 0) (host_order 172 31 255 255) (host_order a b c d)
        || inside_range (host_order 192 168 0 0) (host_order 192 168 255 255) (host_order a b c d))
unfolding is_nat_ip
is_nat_ip_lem a b c d ha hb hc hd = ground arith

module _ (remote : NetAddress) (port : ℕ) where
  -- The last of the local addresses that is a private one or that of the sender.
  abbrev last_of : ℕ → Option ℕ → Option ℕ
  last_of a (some b) = some b
  last_of a none = if is_nat_ip a || a == remote.s_addr then some a else none

  unfoldable pub last_known : List ℕ → Option ℕ
  last_known [] = none
  last_known (a ∷ addrs) = last_of a (last_known addrs)

  abbrev pub local : ℕ → NetAddress
  local a = record { sin_family = af_inet; sin_port = port; s_addr = a }

  -- What `find_nat` makes of the two addresses, by that last address.
  abbrev Left : NetAddress × NetAddress → Option ℕ → NetAddress × NetAddress → Type 0
  Left before none after = after ≡ before
  Left before (some a) after =
      (after.1 ≡ (if is_nat_ip a then local a else remote))
      × ((is_nat_ip a || a == remote.s_addr) ≡ true)
      × (after.0.sin_family ≡ before.0.sin_family)
      × ((is_nat_ip a ≡ false) → (after.0.sin_port ≡ port) × (after.0.s_addr ≡ uint_max))

  -- One round of the loop, for what it leaves and the last address of the rest.
  Left-step :
      (a : ℕ) (subnet nat : NetAddress) (rest : Option ℕ) (after : NetAddress × NetAddress)
      → Left
          (
            if a == remote.s_addr
                then record subnet { sin_port = port; s_addr = uint_max }
                else subnet,
            if is_nat_ip a then local a else if a == remote.s_addr then remote else nat,
          )
          rest
          after
      → Left (subnet, nat) (last_of a rest) after
  Left-step a subnet nat none after h = ground arith
  Left-step a subnet nat (some b) after h = ground arith

  find_nat-Left :
      (addrs : List ℕ) (subnet nat : NetAddress)
      → Left (subnet, nat) (last_known addrs) (find_nat remote port addrs subnet nat)
  unfolding find_nat last_known
  find_nat-Left [] subnet nat = refl
  find_nat-Left (a ∷ addrs) subnet nat =
      Left-step a subnet nat (last_known addrs) (find_nat remote port (a ∷ addrs) subnet nat) (
        find_nat-Left addrs
          (if a == remote.s_addr
            then record subnet { sin_port = port; s_addr = uint_max }
            else subnet)
          (if is_nat_ip a then local a else if a == remote.s_addr then remote else nat))

  -- The subnet address by that last address.
  abbrev pub subnet_by : Option ℕ → NetAddress
  subnet_by none = zero_address
  subnet_by (some a) =
      if is_nat_ip a then local a else record { sin_family = 0; sin_port = port; s_addr = uint_max }

  abbrev unset_address : NetAddress
  unset_address = record { sin_family = af_inet; sin_port = 0; s_addr = 0 }

  subnet_by-Left :
      (l : Option ℕ) (after : NetAddress × NetAddress)
      → Left (zero_address, unset_address) l after
      → (if is_nat_ip after.1.s_addr then after.1 else after.0) ≡ subnet_by l
  unfolding is_nat_ip
  subnet_by-Left none after h = ground arith
  subnet_by-Left (some a) after h = ground arith

  -- The subnet address that the tracker keeps of a peer follows from the last of its local
  -- addresses that is a private one or equals the address of its packet. A private one is kept
  -- itself, with the listening port; otherwise the port is kept with the address
  -- 255.255.255.255, which says that the peer is not behind a NAT; without such an address all of
  -- the subnet address is zero. The outer address is that of the packet.
  pub client_address_lem :
      (addrs : List ℕ)
      → client_address remote port addrs
        ≡ record { outer_ip = remote; subnet_ip = subnet_by (last_known addrs) }
  unfolding client_address
  client_address_lem addrs =
      let found = find_nat remote port addrs zero_address unset_address in
      ap (λ (a : NetAddress). record { outer_ip = remote; subnet_ip = a })
        (subnet_by-Left (last_known addrs) found (find_nat-Left addrs zero_address unset_address))
