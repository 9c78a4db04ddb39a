-- ===== src/Dispatch/SuperPeers.antt =====
-- The packets that super peers send to the tracker (protocol/tracker/tracker_sp_connector.cpp).
use rabbitstreamer.Prelude.{◌++◌, ◌∙◌, ℕ, ◌≡◌, List, some, Result, ok, arith}
use rabbitstreamer.Message.{pack}
use rabbitstreamer.Message.Sp2TsRegister
use rabbitstreamer.Message.Sp2TsStatus
use rabbitstreamer.Message.Sp2TsResList
use rabbitstreamer.Message.Sp2TsSpList
use rabbitstreamer.Message.Sp2TsLogout
use rabbitstreamer.Dispatch.{
  SpMessage, register, status, res_list, get_sp, leave, sp_message, handle_sp_packet,
}
use rabbitstreamer.Dispatch.Peers.{receive-Opened, parsed_lem}

-- `pack` of the message's class.
abbrev pub sp_pack : (ℕ → ℕ) → SpMessage → Result (List ℕ)
sp_pack memory (register m) = pack Sp2TsRegister.message memory m
sp_pack memory (status m) = pack Sp2TsStatus.message memory m
sp_pack memory (res_list m) = pack Sp2TsResList.message memory m
sp_pack memory (get_sp m) = pack Sp2TsSpList.message memory m
sp_pack memory (leave m) = pack Sp2TsLogout.message memory m

-- The fields are in range.
abbrev pub SpFits : SpMessage → Type 0
SpFits (register m) = Sp2TsRegister.IsValid m
SpFits (status m) = Sp2TsStatus.IsValid m
SpFits (res_list m) = Sp2TsResList.IsValid m
SpFits (get_sp m) = Sp2TsSpList.IsValid m
SpFits (leave m) = Sp2TsLogout.IsValid m

-- What the tracker takes a message for: a logout for the request for the list of super peers.
abbrev pub taken_for : SpMessage → SpMessage
taken_for (register m) = register m
taken_for (status m) = status m
taken_for (res_list m) = res_list m
taken_for (get_sp m) = get_sp m
taken_for (leave m) = get_sp (record { sp_uuid = m.sp_uuid })

-- Every message of a super peer that has fields in range is packed, in any memory, into a packet
-- that the tracker takes for the same message, whatever its receive buffer holds behind it, except
-- that it takes a logout for the request for the list of super peers with the same UUID.
pub handle_sp_packet-sp_pack :
    (memory : ℕ → ℕ) (m : SpMessage)
    → SpFits m
    → (payload : List ℕ) × (sp_pack memory m ≡ ok payload)
      × ((behind : List ℕ) → handle_sp_packet payload behind ≡ ok (some (taken_for m)))
unfolding handle_sp_packet sp_message
handle_sp_packet-sp_pack memory (register m) v =
    let t = Sp2TsRegister.Sp2TsRegister-RoundTrips memory m v in
    let o = λ (behind : List ℕ).
      receive-Opened Sp2TsRegister.message (t.payload ++ behind) Sp2TsRegister.tag m
        (t.received behind) in
    (
      t.payload,
      t.packed,
      λ behind. ground (
        arith,
        (o behind).opened,
        (o behind).typed,
        t.some_bytes,
        parsed_lem Sp2TsRegister.parse register (o behind).packet.body m (o behind).rest
            (o behind).read,
      ),
    )
handle_sp_packet-sp_pack memory (status m) v =
    let t = Sp2TsStatus.Sp2TsStatus-RoundTrips memory m v in
    let o = λ (behind : List ℕ).
      receive-Opened Sp2TsStatus.message (t.payload ++ behind) Sp2TsStatus.tag m
        (t.received behind) in
    (
      t.payload,
      t.packed,
      λ behind. ground (
        arith,
        (o behind).opened,
        (o behind).typed,
        t.some_bytes,
        parsed_lem Sp2TsStatus.parse status (o behind).packet.body m (o behind).rest
            (o behind).read,
      ),
    )
handle_sp_packet-sp_pack memory (res_list m) v =
    let t = Sp2TsResList.Sp2TsResList-RoundTrips memory m v in
    let o = λ (behind : List ℕ).
      receive-Opened Sp2TsResList.message (t.payload ++ behind) Sp2TsResList.tag m
        (t.received behind) in
    (
      t.payload,
      t.packed,
      λ behind. ground (
        arith,
        (o behind).opened,
        (o behind).typed,
        t.some_bytes,
        parsed_lem Sp2TsResList.parse res_list (o behind).packet.body m (o behind).rest
            (o behind).read,
      ),
    )
handle_sp_packet-sp_pack memory (get_sp m) v =
    let t = Sp2TsSpList.Sp2TsSpList-RoundTrips memory m v in
    let o = λ (behind : List ℕ).
      receive-Opened Sp2TsSpList.message (t.payload ++ behind) Sp2TsSpList.tag m
        (t.received behind) in
    (
      t.payload,
      t.packed,
      λ behind. ground (
        arith,
        (o behind).opened,
        (o behind).typed,
        t.some_bytes,
        parsed_lem Sp2TsSpList.parse get_sp (o behind).packet.body m (o behind).rest
            (o behind).read,
      ),
    )
handle_sp_packet-sp_pack memory (leave m) v =
    let request : Sp2TsSpList.Sp2TsSpList = record { sp_uuid = m.sp_uuid } in
    let t = Sp2TsSpList.Sp2TsSpList-RoundTrips memory request (record { sp_uuid = v.sp_uuid }) in
    let o = λ (behind : List ℕ).
      receive-Opened Sp2TsSpList.message (t.payload ++ behind) Sp2TsSpList.tag request
        (t.received behind) in
    (
      t.payload,
      Sp2TsLogout.Sp2TsLogout-pack memory m ∙ t.packed,
      λ behind. ground (
        arith,
        (o behind).opened,
        (o behind).typed,
        t.some_bytes,
        parsed_lem Sp2TsSpList.parse get_sp (o behind).packet.body request (o behind).rest
            (o behind).read,
      ),
    )
