-- ===== src/Order/Pack.antt =====
-- What the packing of an id and a stamp into one word keeps.
use fast_little_market.Common.{ℕ, ◌<◌, ◌≡◌, u32_mod, u64_mod, arith}
use fast_little_market.Order.{pack, unpack}

-- `unpack` gives back the id and the stamp that `pack` packed, when both are 32-bit words.
pub unpack-pack :
    (id ts : ℕ)
    → id < u32_mod
    → ts < u32_mod
    → ((unpack (pack id ts)).id ≡ id) × ((unpack (pack id ts)).timestamp_ns ≡ ts)
unfolding pack unpack
unpack-pack id ts h k = omega arith

pub pack-unpack :
    (id_ns : ℕ) → id_ns < u64_mod → pack (unpack id_ns).id (unpack id_ns).timestamp_ns ≡ id_ns
unfolding pack unpack
pack-unpack id_ns h = omega arith

pub pack-lt : (id ts : ℕ) → pack id ts < u64_mod
unfolding pack
pack-lt id ts = omega arith
