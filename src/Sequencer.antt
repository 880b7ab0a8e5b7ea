-- ===== src/Sequencer.antt =====
-- `GlobalSequencer` (core/GlobalSequencer.hpp). `fetch_add` is one atomic step on the state; the
-- epoch is what the operating system's clock said at construction, an argument.
pub mod Stamps
use fast_little_market.Common.{ℕ, add64}

pub record Sequencer : Type 0 where
  pub epoch_ns : ℕ
  pub seq_counter : ℕ

pub start : ℕ → Sequencer
start os_nano_time = record { epoch_ns = os_nano_time; seq_counter = 0 }

-- The stamp, and the sequencer after it.
unfoldable pub next_timestamp_ns : Sequencer → ℕ × Sequencer
next_timestamp_ns s =
    (add64 s.epoch_ns s.seq_counter, record s { seq_counter = add64 s.seq_counter 1 })
