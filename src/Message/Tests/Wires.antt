-- ===== src/Message/Tests/Wires.antt =====
-- Messages of core/message.cpp with one direction that works, or none, on concrete values.
use rabbitstreamer.Prelude.{ℕ, [], ◌∷◌, replicate, refl, ◌≡◌, fault, assertion}
use rabbitstreamer.CoreStruct.{uuid_length, CorePeerInfo, TransferInfo}
use rabbitstreamer.IntervalArray.{BlockInterval}
use rabbitstreamer.Message.{pack}
use rabbitstreamer.Message.Np2TsReport

-- What a new array holds.
abbrev stale : ℕ → ℕ
stale i = 204

abbrev peer : CorePeerInfo
peer = record { word = 1 }

abbrev interval : BlockInterval
interval = record { start = 3; size = 4 }

abbrev transfer : TransferInfo
transfer = record {
  total_down_bytes = 1;
  total_up_bytes = 2;
  curr_down_speed = 3;
  curr_up_speed = 4;
  avg_down_speed = 5;
  avg_up_speed = 6;
}

abbrev report_sample : Np2TsReport.Np2TsReport
report_sample = record {
  uuid = replicate uuid_length 7;
  coreinfo = peer;
  interval_count = 1;
  blockinterval = interval ∷ [];
  transferinfo = transfer;
  playing_block = 1;
  current_buffering_time = 2;
  buffered_count = 3;
  buffered_time = 4;
  connect_fail_count = 5;
  incoming_connection_count = 6;
  outgoing_connection_count = 7;
  avg_incoming_connection_elapsed_time = 8;
  avg_outgoing_connection_elapsed_time = 9;
  message_percent = 10;
}

report_sample-IsValid : Np2TsReport.IsValid report_sample
report_sample-IsValid = record { uuid = refl; length-blockinterval = refl }

Np2TsReport-pack_aborts_example : pack Np2TsReport.message stale report_sample ≡ fault assertion
Np2TsReport-pack_aborts_example =
    Np2TsReport.Np2TsReport-pack_aborts stale report_sample report_sample-IsValid
