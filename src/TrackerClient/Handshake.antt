-- ===== src/TrackerClient/Handshake.antt =====
-- How a super peer (protocol/sp/sp_tracker_connector.cpp) registers at the tracker
-- (protocol/tracker/tracker_sp_connector.cpp), from both ends.
use rabbitstreamer.Prelude.{
  ◌++◌, drop, [], ◌≢◌, ℕ, refl, ◌≤◌, ◌≡◌, true, List, none, some, ok, length, arith,
}
use rabbitstreamer.SourceManager.{SourceManager}
use rabbitstreamer.StreamManager.{ChannelNode, StreamManager, get_node}
use rabbitstreamer.StreamManager.Laws.{IsValid}
use rabbitstreamer.Message.{receive}
use rabbitstreamer.Message.Sp2TsRegister.{Sp2TsRegister}
use rabbitstreamer.Message.Sp2TsRegister
use rabbitstreamer.Message.Ts2SpWelcome
use rabbitstreamer.Dispatch.{register, handle_sp_packet}
use rabbitstreamer.Dispatch.Peers.{receive-Opened}
use rabbitstreamer.Uuid.{uuid_text}
use rabbitstreamer.Uuid.Laws.{IsSmall}
use rabbitstreamer.SpTracker.{nothing, packet, register_node}
use rabbitstreamer.SpTracker
use rabbitstreamer.SpTracker.Register.{get_register_lem}
use rabbitstreamer.TrackerClient.{TrackerClient, Outside, get_welcome, handle, loop}

-- The registration that a super peer sends.
abbrev pub registration : Outside → TrackerClient → Sp2TsRegister
registration o c = record { user_id = o.user_id; password = o.password; service_port = c.sp_port }

loop-welcome :
    (o : Outside) (sources : SourceManager) (buf uuid : List ℕ) (c : TrackerClient)
    → ((behind : List ℕ)
        → receive Ts2SpWelcome.message (buf ++ behind)
          ≡ ok (Ts2SpWelcome.tag, record { sp_uuid = uuid }))
    → length buf ≡ 21
    → 21 ≤ length c.recv_buf
    → loop o sources (some buf) c
      ≡ ok (
        record c {
          sp_id = uuid;
          register_flag = true;
          recv_buf = drop 5 (buf ++ drop (length buf) c.recv_buf);
        },
        none,
      )
unfolding loop handle get_welcome
loop-welcome o sources buf uuid c e sized room =
    let mem = buf ++ drop (length buf) c.recv_buf in
    let t =
      receive-Opened Ts2SpWelcome.message mem Ts2SpWelcome.tag (record { sp_uuid = uuid })
        (e (drop (length buf) c.recv_buf)) in
    ground (arith, t.opened, t.typed, t.read)

-- What the tracker knows of a super peer that has just registered: its port and account, the
-- address that its packet came from, the time of the call, and no resources.
pub record Registered (o : Outside) (t : SpTracker.Outside) (c : TrackerClient) (node : ChannelNode)
    : Type 0 where
  pub port : node.service_port ≡ c.sp_port
  pub account : node.user_id ≡ o.user_id
  pub from_port : node.sp_address.sin_port ≡ t.sin_port
  pub from_address : node.sp_address.s_addr ≡ t.s_addr
  pub heard : node.last_recv_report_time ≡ t.now
  pub counted : node.resource_count ≡ 0
  pub no_resources : node.hashes ≡ []

-- The tracker answers the packet, the answer makes the super peer registered, and under the UUID
-- that it then has, the tracker knows it.
pub record Shaken (o : Outside) (t : SpTracker.Outside) (sources : SourceManager)
    (c : TrackerClient) (s : StreamManager) (sent behind : List ℕ) : Type 0 where
  pub small : IsSmall t.rand
  pub answer : List ℕ
  pub streams : StreamManager
  pub client : TrackerClient
  pub node : ChannelNode
  pub replied : SpTracker.handle_udp_packet t sent behind s ≡ ok (streams, packet answer)
  pub some_bytes : length answer ≢ 0
  pub taken : loop o sources (some answer) c ≡ ok (client, none)
  pub registered : client.register_flag ≡ true
  pub found : get_node client.sp_id streams ≡ some node
  pub known : Registered o t c node
  pub valid : IsValid streams

module _ (o : Outside) (t : SpTracker.Outside) (sources : SourceManager) (c : TrackerClient)
    (s : StreamManager) (sent behind : List ℕ) where
  -- The tracker takes the packet for the registration.
  abbrev pub Taken : Type 0
  Taken = handle_sp_packet sent behind ≡ ok (some (register (registration o c)))

  pub small-Shaken :
      Taken
      → 21 ≤ length c.recv_buf
      → IsSmall t.rand
      → IsValid s
      → Shaken o t sources c s sent behind
  unfolding SpTracker.handle_udp_packet SpTracker.handle register_node
  small-Shaken taken room small v =
      let (s', answer, replied, received, sized, v', found) =
        get_register_lem t (registration o c) s small v in
      record {
        small = small;
        answer = answer;
        streams = s';
        client = record c {
          sp_id = uuid_text t.rand;
          register_flag = true;
          recv_buf = drop 5 (answer ++ drop (length answer) c.recv_buf);
        };
        node = register_node t (registration o c);
        replied = ground (arith, taken, replied);
        some_bytes = omega arith;
        taken = loop-welcome o sources answer (uuid_text t.rand) c received sized room;
        registered = refl;
        found = ground (arith, found (uuid_text t.rand));
        known = record {
          port = refl;
          account = refl;
          from_port = refl;
          from_address = refl;
          heard = refl;
          counted = refl;
          no_resources = refl;
        };
        valid = v';
      }
