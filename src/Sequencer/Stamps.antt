-- ===== src/Sequencer/Stamps.antt =====
-- The stamps that one sequencer gives, over many calls.
use fast_little_market.Common.{ℕ, zero, suc, ◌+◌, ◌%◌, ◌<◌, ◌≡◌, ◌≢◌, arith, u64_mod, u32_mod, refl}
use fast_little_market.Sequencer.{Sequencer, next_timestamp_ns}

-- The sequencer after `n` calls.
pub after_calls : ℕ → Sequencer → Sequencer
after_calls zero s = s
after_calls (suc n) s = after_calls n (next_timestamp_ns s).1

pub epoch-after_calls : (n : ℕ) (s : Sequencer) → (after_calls n s).epoch_ns ≡ s.epoch_ns
unfolding after_calls next_timestamp_ns
epoch-after_calls zero s = refl
epoch-after_calls (suc n) s = epoch-after_calls n (next_timestamp_ns s).1

counter-after_calls :
    (n : ℕ) (s : Sequencer)
    → (after_calls n s).seq_counter % u64_mod ≡ (s.seq_counter + n) % u64_mod
unfolding after_calls next_timestamp_ns
counter-after_calls zero s = omega arith
counter-after_calls (suc n) s = omega (arith, counter-after_calls n (next_timestamp_ns s).1)

-- Two stamps that lie fewer than 2^32 calls apart differ, also when only their low halves are kept.
pub stamp-after_calls-ne :
    (s : Sequencer) (k : ℕ)
    → 0 < k
    → k < u32_mod
    → (next_timestamp_ns (after_calls k s)).0 % u32_mod ≢ (next_timestamp_ns s).0 % u32_mod
unfolding next_timestamp_ns
stamp-after_calls-ne s k h h' e = omega (arith, counter-after_calls k s, epoch-after_calls k s)
