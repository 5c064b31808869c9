-- ===== src/Stats/Totals.antt =====
-- internal/stats/traffic.go: what the counters add up to.
use engarde.Shared.{ℕ, ◌+◌, ◌%◌, ◌^◌, ◌≡◌, List, [], ◌∷◌, arith}
use engarde.Shared.Int.{ℤ}
use engarde.Stats.{Counters, clamped, add_u64, Call, rx, tx, drops, skips, call, run}

-- What is to be counted: the packets and the bytes of one kind of call.
pub record Total : Type 0 where
  pub packets : ℕ
  pub bytes : ℕ

abbrev plus : ℤ → Total → Total
plus b t = record { packets = 1 + t.packets; bytes = clamped b + t.bytes }

abbrev pub total_rx : List Call → Total
total_rx [] = record { packets = 0; bytes = 0 }
total_rx (rx b ∷ es) = plus b (total_rx es)
total_rx (tx b ∷ es) = total_rx es
total_rx (drops b ∷ es) = total_rx es
total_rx (skips b ∷ es) = total_rx es

abbrev pub total_tx : List Call → Total
total_tx [] = record { packets = 0; bytes = 0 }
total_tx (rx b ∷ es) = total_tx es
total_tx (tx b ∷ es) = plus b (total_tx es)
total_tx (drops b ∷ es) = total_tx es
total_tx (skips b ∷ es) = total_tx es

abbrev pub total_drop : List Call → Total
total_drop [] = record { packets = 0; bytes = 0 }
total_drop (rx b ∷ es) = total_drop es
total_drop (tx b ∷ es) = total_drop es
total_drop (drops b ∷ es) = plus b (total_drop es)
total_drop (skips b ∷ es) = total_drop es

abbrev pub total_skip : List Call → Total
total_skip [] = record { packets = 0; bytes = 0 }
total_skip (rx b ∷ es) = total_skip es
total_skip (tx b ∷ es) = total_skip es
total_skip (drops b ∷ es) = total_skip es
total_skip (skips b ∷ es) = plus b (total_skip es)

-- A counter that began at `before` and has wrapped as often as it must, as numbers modulo 2^64.
abbrev pub CountsTo : ℕ → ℕ → ℕ → Type 0
CountsTo before total after = after % 2 ^ 64 ≡ add_u64 before total

pub record CountsAll (c c' : Counters) (es : List Call) : Type 0 where
  rx_packets : CountsTo c.rx_packets (total_rx es).packets c'.rx_packets
  rx_bytes : CountsTo c.rx_bytes (total_rx es).bytes c'.rx_bytes
  tx_packets : CountsTo c.tx_packets (total_tx es).packets c'.tx_packets
  tx_bytes : CountsTo c.tx_bytes (total_tx es).bytes c'.tx_bytes
  drop_packets : CountsTo c.drop_packets (total_drop es).packets c'.drop_packets
  drop_bytes : CountsTo c.drop_bytes (total_drop es).bytes c'.drop_bytes
  skipped_packets : CountsTo c.skipped_packets (total_skip es).packets c'.skipped_packets
  skipped_bytes : CountsTo c.skipped_bytes (total_skip es).bytes c'.skipped_bytes

counts_more : (a b t r : ℕ) → CountsTo (add_u64 a b) t r → CountsTo a (b + t) r
counts_more a b t r h = omega (arith, h)

counts_none : (a : ℕ) → CountsTo a 0 a
counts_none a = omega arith

-- After any calls of RecordRX, RecordTX, RecordDrop and RecordSkip each of the eight counters has grown,
-- modulo 2^64, by the number of its own calls or by their bytes, a negative size counting as none, and
-- no call counts anywhere else.
pub run-CountsAll : (es : List Call) (c : Counters) → CountsAll c (run es c) es
unfolding run call
run-CountsAll [] c = record {
  rx_packets = counts_none c.rx_packets;
  rx_bytes = counts_none c.rx_bytes;
  tx_packets = counts_none c.tx_packets;
  tx_bytes = counts_none c.tx_bytes;
  drop_packets = counts_none c.drop_packets;
  drop_bytes = counts_none c.drop_bytes;
  skipped_packets = counts_none c.skipped_packets;
  skipped_bytes = counts_none c.skipped_bytes;
}
run-CountsAll (rx b ∷ es) c =
    let v = run-CountsAll es (call (rx b) c) in
    record {
      rx_packets =
          counts_more c.rx_packets 1 (total_rx es).packets (run es (call (rx b) c)).rx_packets
            v.rx_packets;
      rx_bytes =
          counts_more c.rx_bytes (clamped b) (total_rx es).bytes (run es (call (rx b) c)).rx_bytes
            v.rx_bytes;
      tx_packets = v.tx_packets;
      tx_bytes = v.tx_bytes;
      drop_packets = v.drop_packets;
      drop_bytes = v.drop_bytes;
      skipped_packets = v.skipped_packets;
      skipped_bytes = v.skipped_bytes;
    }
run-CountsAll (tx b ∷ es) c =
    let v = run-CountsAll es (call (tx b) c) in
    record {
      rx_packets = v.rx_packets;
      rx_bytes = v.rx_bytes;
      tx_packets =
          counts_more c.tx_packets 1 (total_tx es).packets (run es (call (tx b) c)).tx_packets
            v.tx_packets;
      tx_bytes =
          counts_more c.tx_bytes (clamped b) (total_tx es).bytes (run es (call (tx b) c)).tx_bytes
            v.tx_bytes;
      drop_packets = v.drop_packets;
      drop_bytes = v.drop_bytes;
      skipped_packets = v.skipped_packets;
      skipped_bytes = v.skipped_bytes;
    }
run-CountsAll (drops b ∷ es) c =
    let v = run-CountsAll es (call (drops b) c) in
    record {
      rx_packets = v.rx_packets;
      rx_bytes = v.rx_bytes;
      tx_packets = v.tx_packets;
      tx_bytes = v.tx_bytes;
      drop_packets =
          counts_more c.drop_packets 1 (total_drop es).packets
            (run es (call (drops b) c)).drop_packets v.drop_packets;
      drop_bytes =
          counts_more c.drop_bytes (clamped b) (total_drop es).bytes
            (run es (call (drops b) c)).drop_bytes v.drop_bytes;
      skipped_packets = v.skipped_packets;
      skipped_bytes = v.skipped_bytes;
    }
run-CountsAll (skips b ∷ es) c =
    let v = run-CountsAll es (call (skips b) c) in
    record {
      rx_packets = v.rx_packets;
      rx_bytes = v.rx_bytes;
      tx_packets = v.tx_packets;
      tx_bytes = v.tx_bytes;
      drop_packets = v.drop_packets;
      drop_bytes = v.drop_bytes;
      skipped_packets =
          counts_more c.skipped_packets 1 (total_skip es).packets
            (run es (call (skips b) c)).skipped_packets v.skipped_packets;
      skipped_bytes =
          counts_more c.skipped_bytes (clamped b) (total_skip es).bytes
            (run es (call (skips b) c)).skipped_bytes v.skipped_bytes;
    }
