-- ===== src/Relayer/Startup/Blocks.antt =====
-- The first blocks that the listeners of relayer/relayer/src read after main.rs has started them.
use most_aleph_zero_bridge.Common.{
  ℕ, ◌+◌, ◌≤◌, ◌<◌, ◌≡◌, Bool, Option, none, some, ok, arith, u32_size, if◌then◌else◌,
}
use most_aleph_zero_bridge.Relayer.Blocks.{read_first_unprocessed_block_number}
use most_aleph_zero_bridge.Relayer.Startup.{sync_from_block, Config, Caches, override_caches}

-- The next block after the cached one, or the default.
abbrev pub next_block : Option ℕ → ℕ → ℕ
next_block none default_block = default_block
next_block (some cached) default_block = cached + 1

-- A cached number after which there is a block.
abbrev pub HasNext : Option ℕ → Type 0
HasNext none = Unit {0}
HasNext (some cached) = cached + 1 < u32_size

-- Numbers given on the command line.
abbrev pub IsGiven : Config → ℕ → ℕ → Type 0
IsGiven config from_azero from_eth =
    (config.default_sync_from_block_azero ≡ sync_from_block from_azero)
    × (config.default_sync_from_block_eth ≡ sync_from_block from_eth)
    × (from_azero < u32_size)
    × (from_eth < u32_size)

-- Once `main` has gone through the cache overrides, each listener starts at the block given on the
-- command line (at 1 in place of 0) if its cache is overridden, and otherwise after the cached
-- block, or at the given one without a cached block; in no case at block 0. The numbers given have
-- 32 bits, and so do those after the cached ones.
pub first_blocks :
    (config : Config) (from_azero from_eth : ℕ) (azero_written eth_written : Bool) (before : Caches)
    {after : Caches}
    → IsGiven config from_azero from_eth
    → HasNext before.azero_last_block
    → HasNext before.eth_last_block
    → override_caches config azero_written eth_written before ≡ ok after
    → let first_azero =
        read_first_unprocessed_block_number after.azero_last_block
          config.default_sync_from_block_azero in
      let first_eth =
        read_first_unprocessed_block_number after.eth_last_block
          config.default_sync_from_block_eth in
      (first_azero ≡ (
        if config.override_azero_cache
        then sync_from_block from_azero
        else next_block before.azero_last_block (sync_from_block from_azero)))
      × (first_eth ≡ (
          if config.override_eth_cache
          then sync_from_block from_eth
          else next_block before.eth_last_block (sync_from_block from_eth)))
      × (1 ≤ first_azero)
      × (1 ≤ first_eth)
unfolding sync_from_block override_caches read_first_unprocessed_block_number
first_blocks config from_azero from_eth azero_written eth_written before given has_azero has_eth e =
    ground arith
