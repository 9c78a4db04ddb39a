-- ===== src/NpTracker/Handlers.antt =====
-- What protocol/tracker/tracker_np_connector.cpp answers to a login, and which peers a packet
-- can change.
use rabbitstreamer.Prelude.{
  ap, ℕ_discrete, inl, inr, ◌⊎◌, fault, out_of_bounds, append-nil, append-nil, ◌^◌, ◌<◌, ℕ,
  if◌then◌else◌, refl, ◌≡◌, ◌≢◌, ◌==◌, List, [], ◌∷◌, Option, none, some, ok, take_all, All, arith,
}
use rabbitstreamer.CoreStruct.{P2PAddress, uuid_length, NetAddressFits, P2PAddressFits}
use rabbitstreamer.StdMap.Laws.{IsSorted}
use rabbitstreamer.StreamManager.{str_rank}
use rabbitstreamer.NpCoordinator.{NpNode, insert_node, new_node, NpCoordinator, get_node}
use rabbitstreamer.NpCoordinator.Laws.{get_node-insert_node}
use rabbitstreamer.Message.Framing.{RoundTrips}
use rabbitstreamer.Message.{receive}
use rabbitstreamer.Message.Np2TsLogin.{Np2TsLogin}
use rabbitstreamer.Message.Np2TsLogin
use rabbitstreamer.Message.Ts2NpWelcome
use rabbitstreamer.Uuid.{uuid_text}
use rabbitstreamer.Uuid.Laws.{
  IsSmall, IsLarge, IsSmall-or_IsLarge, generate_uuid_small, generate_uuid_overflows,
}
use rabbitstreamer.NpTracker.{
  Outside, NpTracker, remote_normal, login_node, send_welcome, get_login,
}
use rabbitstreamer.NpTracker.Address.{client_address, last_known, subnet_by, client_address_lem}

-- The port and the address of the sender are in the range of their types.
abbrev pub SenderFits : Outside → Type 0
SenderFits o = NetAddressFits (remote_normal o)

last_known-lt :
    (o : Outside) (port : ℕ) (addrs : List ℕ) (a : ℕ)
    → All (λ b. b < 2 ^ 32) addrs
    → last_known (remote_normal o) port addrs ≡ some a
    → a < 2 ^ 32
unfolding last_known
last_known-lt o port [] a h e = ground arith
last_known-lt o port (b ∷ addrs) a h e = ground (arith, last_known-lt o port addrs a h.1)

subnet_by-Fits :
    (o : Outside) (port : ℕ) (l : Option ℕ)
    → port < 2 ^ 16
    → ((a : ℕ) → l ≡ some a → a < 2 ^ 32)
    → NetAddressFits (subnet_by (remote_normal o) port l)
subnet_by-Fits o port none p h = omega arith
subnet_by-Fits o port (some a) p h = ground (arith, h a refl)

client_address-Fits :
    (o : Outside) (port : ℕ) (addrs : List ℕ)
    → SenderFits o
    → port < 2 ^ 16
    → All (λ b. b < 2 ^ 32) addrs
    → P2PAddressFits (client_address (remote_normal o) port addrs)
client_address-Fits o port addrs f p h = rw (client_address_lem (remote_normal o) port addrs) (
  f,
  subnet_by-Fits o port (last_known (remote_normal o) port addrs) p
      (λ a e. last_known-lt o port addrs a h e),
)

-- The welcome that a login is answered with.
abbrev pub welcome : Outside → Np2TsLogin → Ts2NpWelcome.Ts2NpWelcome
welcome o m = record {
  uuid = uuid_text o.rand;
  peer_ip = client_address (remote_normal o) m.listening_port m.ip_addr;
}

welcome-RoundTrips :
    (o : Outside) (m : Np2TsLogin)
    → IsSmall o.rand
    → SenderFits o
    → Np2TsLogin.IsValid m
    → RoundTrips Ts2NpWelcome.message o.memory Ts2NpWelcome.tag (welcome o m)
welcome-RoundTrips o m small f v =
    Ts2NpWelcome.Ts2NpWelcome-RoundTrips o.memory (welcome o m) (record {
      uuid = (generate_uuid_small o.rand small).1;
      peer_ip = client_address-Fits o m.listening_port m.ip_addr f v.listening_port v.ip_addr;
    })

get_login-welcome :
    (o : Outside) (m : Np2TsLogin) (s : NpTracker)
    → IsSmall o.rand
    → SenderFits o
    → Np2TsLogin.IsValid m
    → m.local_ip_list_size ≢ 0
    → (t : RoundTrips Ts2NpWelcome.message o.memory Ts2NpWelcome.tag (welcome o m)) × (get_login o m
          s
        ≡ ok (
          record s {
            peers = insert_node (uuid_text o.rand) (login_node o (uuid_text o.rand) m) s.peers;
          },
          some t.payload,
        ))
unfolding get_login send_welcome login_node
get_login-welcome o m s small f v some_address =
    let t = welcome-RoundTrips o m small f v in
    let (made, sized) = generate_uuid_small o.rand small in
    (t, ground (arith, made, take_all uuid_length (uuid_text o.rand), t.packed))

-- What the tracker knows of a peer that has just logged in. The subnet address follows from the
-- last local address of the peer that is a private one or equals the address of its packet.
pub record LoggedIn (o : Outside) (m : Np2TsLogin) (node : NpNode) : Type 0 where
  pub named : node.digits ≡ uuid_text o.rand
  pub versioned : node.version ≡ m.client_version
  pub listening : node.port ≡ m.listening_port
  pub from_port : node.client_address.outer_ip.sin_port ≡ o.sin_port
  pub from_address : node.client_address.outer_ip.s_addr ≡ o.s_addr
  pub in_subnet :
      node.client_address.subnet_ip
      ≡ subnet_by
          (remote_normal o)
          m.listening_port
          (last_known (remote_normal o) m.listening_port m.ip_addr)
  pub heard : node.last_recv_report_time ≡ o.now
  pub no_channel : node.channel_id_md5.hash ≡ []
  pub no_blocks : node.interval_array ≡ []

login_node-LoggedIn :
    (o : Outside) (m : Np2TsLogin) → LoggedIn o m (login_node o (uuid_text o.rand) m)
unfolding login_node new_node
login_node-LoggedIn o m =
    let known = client_address_lem (remote_normal o) m.listening_port m.ip_addr in
    record {
      named = refl;
      versioned = refl;
      listening = refl;
      from_port = ap (λ (a : P2PAddress). a.outer_ip.sin_port) known;
      from_address = ap (λ (a : P2PAddress). a.outer_ip.s_addr) known;
      in_subnet = ap (λ (a : P2PAddress). a.subnet_ip) known;
      heard = refl;
      no_channel = refl;
      no_blocks = refl;
    }

-- The login is answered with a welcome, and the peer is known from then on, the others as before.
pub record Welcomed (o : Outside) (m : Np2TsLogin) (s : NpTracker) : Type 0 where
  pub peers : NpCoordinator
  pub payload : List ℕ
  pub node : NpNode
  pub message : Ts2NpWelcome.Ts2NpWelcome
  pub answered : get_login o m s ≡ ok (record s { peers = peers }, some payload)
  pub received : receive Ts2NpWelcome.message payload ≡ ok (Ts2NpWelcome.tag, message)
  pub told_uuid : message.uuid ≡ uuid_text o.rand
  pub told_address : message.peer_ip ≡ node.client_address
  pub known : LoggedIn o m node
  pub sorted : IsSorted str_rank 0 peers
  pub found :
      (other : List ℕ)
      → get_node other peers ≡ (
          if str_rank other == str_rank (uuid_text o.rand)
          then some node
          else get_node other s.peers)

get_login-Welcomed :
    (o : Outside) (m : Np2TsLogin) (s : NpTracker)
    → IsSmall o.rand
    → SenderFits o
    → Np2TsLogin.IsValid m
    → m.local_ip_list_size ≢ 0
    → IsSorted str_rank 0 s.peers
    → Welcomed o m s
unfolding login_node new_node
get_login-Welcomed o m s small f v some_address sorted =
    let (t, e) = get_login-welcome o m s small f v some_address in
    let stored = λ (other : List ℕ).
      get_node-insert_node (uuid_text o.rand) other (login_node o (uuid_text o.rand) m) s.peers
        sorted in
    record {
      peers = insert_node (uuid_text o.rand) (login_node o (uuid_text o.rand) m) s.peers;
      payload = t.payload;
      node = login_node o (uuid_text o.rand) m;
      message = welcome o m;
      answered = e;
      received = rw append-nil at (t.received []);
      told_uuid = refl;
      told_address = refl;
      known = login_node-LoggedIn o m;
      sorted = (stored (uuid_text o.rand)).0;
      found = λ other. (stored other).1;
    }

get_login-no_address :
    (o : Outside) (m : Np2TsLogin) (s : NpTracker)
    → IsSmall o.rand
    → m.local_ip_list_size ≡ 0
    → get_login o m s ≡ ok (s, none)
unfolding get_login
get_login-no_address o m s small none_named =
    ground (arith, (generate_uuid_small o.rand small).0, none_named)

get_login-large :
    (o : Outside) (m : Np2TsLogin) (s : NpTracker)
    → IsLarge o.rand
    → get_login o m s ≡ fault out_of_bounds
unfolding get_login
get_login-large o m s large = ground (arith, generate_uuid_overflows o.rand large)

-- One of three things happens to a valid login from a sender whose address is in range, where the
-- map of peers is in order. If one of the four calls of `rand` returns 65536 or more, the tracker
-- writes past the array for the UUID. If all return less and the login names no local address, it
-- is not answered and nothing changes. If all return less and it names one, it is answered with a
-- packet that the peer receives as the welcome with its new UUID and the address that the tracker
-- keeps of it. The peer is then found under that UUID, with its version and port, the address that
-- its packet came from, the subnet address that its local addresses lead to, the time of the call,
-- no channel and no blocks; all other peers are what they were, and so is what is known of super
-- peers.
pub get_login_lem :
    (o : Outside) (m : Np2TsLogin) (s : NpTracker)
    → SenderFits o
    → Np2TsLogin.IsValid m
    → IsSorted str_rank 0 s.peers
    → (IsLarge o.rand × (get_login o m s ≡ fault out_of_bounds))
      ⊎ ((IsSmall o.rand × (m.local_ip_list_size ≡ 0) × (get_login o m s ≡ ok (s, none)))
          ⊎ (IsSmall o.rand × (m.local_ip_list_size ≢ 0) × Welcomed o m s))
get_login_lem o m s f v sorted = elim (IsSmall-or_IsLarge o.rand) [
  | inr large ↦ inl (large, get_login-large o m s large)
  | inl small ↦ elim (ℕ_discrete m.local_ip_list_size 0) [
    | yes none_named ↦ inr (inl (small, none_named, get_login-no_address o m s small none_named))
    | no some_address ↦
        inr (inr (small, some_address, get_login-Welcomed o m s small f v some_address sorted))
  ]
]
