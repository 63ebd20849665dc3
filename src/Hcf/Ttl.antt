-- ===== src/Hcf/Ttl.antt =====
-- The arithmetic of hop counts.
use librefw.Base.{ℕ, ◌+◌, ◌≤◌, ◌<◌, ◌≡◌, ◌⊎◌, ◌&&◌, some, arith, leb, if◌then◌else◌}
use librefw.Base.Int.{pos}
use librefw.Hcf.{hcf_get_initial_ttl, hop_count, verdict}

-- For a TTL below 256 the initial TTL is the least of the three guesses that is not below the TTL,
-- and the hop count is the difference: it neither wraps in its `u8` nor exceeds 126.
pub hop_count_bounds :
    (ttl : ℕ)
    → ttl < 256
    → (hop_count ttl + ttl ≡ hcf_get_initial_ttl ttl)
      × (ttl ≤ hcf_get_initial_ttl ttl)
      × (hop_count ttl ≤ 126)
      × ((hcf_get_initial_ttl ttl ≡ 64)
          ⊎ (((hcf_get_initial_ttl ttl ≡ 128) × (64 < ttl))
              ⊎ ((hcf_get_initial_ttl ttl ≡ 255) × (128 < ttl))))
unfolding hop_count hcf_get_initial_ttl
hop_count_bounds ttl h = ground arith

-- For TTLs below 256, a packet passes against an entry that was learnt from another TTL exactly if
-- the hop counts of the two are at most two apart.
pub verdict-near :
    (ttl learnt : ℕ)
    → ttl < 256
    → learnt < 256
    → verdict ttl (some (record { hc = hop_count learnt; ttl = learnt })) ≡ (
        if leb (hop_count ttl) (hop_count learnt + 2) && leb (hop_count learnt) (hop_count ttl + 2)
        then pos 1
        else pos 0)
unfolding verdict hop_count hcf_get_initial_ttl
verdict-near ttl learnt h h' = ground arith
