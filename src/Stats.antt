-- ===== src/Stats.antt =====
-- internal/stats/traffic.go: the counters of packets and bytes, which wrap at 2^64, and what
-- internal/serverrole/tcp.go counts of a frame. Each Add is atomic, so that a run of calls is a list.
pub mod Totals
pub mod Tests
use engarde.Shared.{ℕ, ◌+◌, ◌%◌, ◌^◌, List, [], ◌∷◌, Bool, true, false, ◌==◌, length, if◌then◌else◌}
use engarde.Shared.Int.{ℤ, pos, negsuc}
use engarde.Tcpstream.Frame.{Frame, frame_data, header_size}

pub record Counters : Type 0 where
  pub rx_packets : ℕ
  pub rx_bytes : ℕ
  pub tx_packets : ℕ
  pub tx_bytes : ℕ
  pub drop_packets : ℕ
  pub drop_bytes : ℕ
  pub skipped_packets : ℕ
  pub skipped_bytes : ℕ

abbrev pub new_counters : Counters
new_counters = record {
  rx_packets = 0;
  rx_bytes = 0;
  tx_packets = 0;
  tx_bytes = 0;
  drop_packets = 0;
  drop_bytes = 0;
  skipped_packets = 0;
  skipped_bytes = 0;
}

-- atomic.Uint64.Add.
abbrev pub add_u64 : ℕ → ℕ → ℕ
add_u64 a b = (a + b) % 2 ^ 64

-- `if bytes < 0 { bytes = 0 }`, and the conversion to uint64.
abbrev pub clamped : ℤ → ℕ
clamped (pos n) = n
clamped (negsuc n) = 0

unfoldable pub record_rx : ℤ → Counters → Counters
record_rx bytes c = record c {
  rx_packets = add_u64 c.rx_packets 1;
  rx_bytes = add_u64 c.rx_bytes (clamped bytes);
}

unfoldable pub record_tx : ℤ → Counters → Counters
record_tx bytes c = record c {
  tx_packets = add_u64 c.tx_packets 1;
  tx_bytes = add_u64 c.tx_bytes (clamped bytes);
}

unfoldable pub record_drop : ℤ → Counters → Counters
record_drop bytes c = record c {
  drop_packets = add_u64 c.drop_packets 1;
  drop_bytes = add_u64 c.drop_bytes (clamped bytes);
}

unfoldable pub record_skip : ℤ → Counters → Counters
record_skip bytes c = record c {
  skipped_packets = add_u64 c.skipped_packets 1;
  skipped_bytes = add_u64 c.skipped_bytes (clamped bytes);
}

pub record Traffic : Type 0 where
  pub data_counters : Counters
  pub control_counters : Counters

-- What a frame counts as, and with how many bytes.
abbrev pub frame_bytes : Frame → ℕ
frame_bytes f =
    if f.type_code == frame_data then length f.payload else header_size + length f.payload

-- recordTCPFrameRX, recordTCPFrameTX, and the Drop and Skip of tcpCarrierObserver, by the counter's operation.
unfoldable pub record_frame : (ℤ → Counters → Counters) → Frame → Traffic → Traffic
record_frame op f t =
    if f.type_code == frame_data
    then record t { data_counters = op (pos (frame_bytes f)) t.data_counters }
    else record t { control_counters = op (pos (frame_bytes f)) t.control_counters }

-- The calls of one counter.
pub data Call : Type 0 where
  rx tx drops skips : ℤ → Call

unfoldable pub call : Call → Counters → Counters
unfolding record_rx record_tx record_drop record_skip
call (rx b) c = record_rx b c
call (tx b) c = record_tx b c
call (drops b) c = record_drop b c
call (skips b) c = record_skip b c

unfoldable pub run : List Call → Counters → Counters
unfolding call
run [] c = c
run (e ∷ es) c = run es (call e c)
