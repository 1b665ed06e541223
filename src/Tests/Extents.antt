-- ===== src/Tests/Extents.antt =====
-- The theorems on the pool of extents, the new list of a write and the inode record: two slices with
-- a hole between them, and a file of two extents.
use xasmos.Base.{
  ℕ, ◌+◌, ◌^◌, ◌<◌, ◌≡◌, refl, Bool, true, some, [], ◌∷◌, ◌++◌, ◌==◌, if◌then◌else◌, arith,
}
use xasmos.Exfs.Volume.{exfs_ok, ExfsFile, ExfsExtent, Nodes}
use xasmos.Exfs.Inodes.{Decoding, inode_encode, inode_decode}
use xasmos.Exfs.Pool.{slice_cap_for, pool_min_cap, pool_reserve, pool_compact}
use xasmos.Exfs.Pool.Slots.{Capacity, slice_cap_for-Capacity}
use xasmos.Exfs.Pool.Reserve.{Reserved, pool_reserve-Reserved}
use xasmos.Exfs.Pool.Pack.{PoolFits}
use xasmos.Exfs.Pool.Compact.{Compacted, pool_compact-Compacted}
use xasmos.Exfs.Runs.{
  Staged, stage_list, walk_stage, stage_fresh, stage_add, cut_start, cut_len, blocks_from,
}
use xasmos.Exfs.Runs.Blocks.{length, run, spread, between}
use xasmos.Exfs.Runs.Stage.{IsSmall, blocks_of, stage_list-Adds}
use xasmos.Exfs.Inodes.RoundTrip.{IsInline, Restored, inode_decode-encode}
use xasmos.Tests.Exfs.{zeros, no_file, no_extent, no_nodes, made}

slice_cap_for-Capacity_example :
    (c : ℕ) × (slice_cap_for 300 ≡ some c) × Capacity pool_min_cap 300 c
slice_cap_for-Capacity_example = slice_cap_for-Capacity 300 (omega arith)

pool_reserve-Reserved_example : Reserved zeros 300 no_nodes (pool_reserve zeros 300 no_nodes)
pool_reserve-Reserved_example = pool_reserve-Reserved zeros 300 no_nodes (omega arith) (omega arith)

-- A file with `n` extents in a slice of eight.
abbrev sliced : ℕ → ℕ → ExfsFile
sliced off n = record no_file { used = true; n = n; ext_off = off; ext_cap = 8 }

-- Two files, the second of them in front, with a hole between their slices.
abbrev scattered : Nodes
scattered = record no_nodes {
  files = λ i. if i == 0 then sliced 24 3 else if i == 1 then sliced 8 2 else no_file;
  pool = λ i. record { start = 100 + i; len = 1 };
}

scattered-PoolFits : PoolFits scattered.files
scattered-PoolFits = record {
  inside = λ i p l. ground arith;
  room = λ i p l. ground arith;
  apart = λ i j p q l k n. ground arith;
}

pool_compact-Compacted_example : Compacted scattered (pool_compact zeros scattered)
pool_compact-Compacted_example = pool_compact-Compacted zeros scattered scattered-PoolFits

-- A file of six blocks in two extents, and one fresh run of two blocks.
abbrev old_runs : ℕ → ExfsExtent
old_runs i = if i == 0 then record { start = 100; len = 4 } else record { start = 200; len = 2 }

abbrev fresh_runs : ℕ → ExfsExtent
fresh_runs i = record { start = 300; len = 2 }

old-IsSmall : IsSmall old_runs
unfolding IsSmall
old-IsSmall i = ground arith

fresh-IsSmall : IsSmall fresh_runs
unfolding IsSmall
fresh-IsSmall i = omega arith

none-IsSmall : IsSmall (λ i. no_extent)
unfolding IsSmall
none-IsSmall i = omega arith

old_blocks : length (spread 2 0 old_runs) < 2 ^ 64
unfolding spread run
old_blocks = omega arith

abbrev built : Bool × Staged
built = stage_list 2 old_runs 6 2 3 1 fresh_runs (λ i. no_extent)

built_ok :
    (stage_list 2 old_runs (blocks_from 2 0 0 old_runs) 2 3 1 fresh_runs (λ i. no_extent)).0 ≡ true
unfolding stage_list walk_stage stage_fresh stage_add cut_start cut_len blocks_from
built_ok = refl

stage_list-Adds_example :
    blocks_of
      (stage_list 2 old_runs (blocks_from 2 0 0 old_runs) 2 3 1 fresh_runs (λ i. no_extent)).1
    ≡ between 0 2 0 (spread 2 0 old_runs)
      ++ (spread 1 0 fresh_runs
          ++ between (3 + 1) (length (spread 2 0 old_runs)) 0 (spread 2 0 old_runs))
stage_list-Adds_example =
    stage_list-Adds 2 2 3 1 old_runs fresh_runs (λ i. no_extent) old-IsSmall fresh-IsSmall
      none-IsSmall old_blocks (omega arith) built_ok

-- The new list in memory: blocks 100 and 101, 300 and 301, 200 and 201.
built_blocks : blocks_of built.1 ≡ 100 ∷ 101 ∷ 300 ∷ 301 ∷ 200 ∷ 201 ∷ []
unfolding stage_list walk_stage stage_fresh stage_add cut_start cut_len spread run
built_blocks = refl

abbrev stored : ExfsFile
stored = record no_file {
  used = true;
  size = 24000;
  name = λ i. if i == 0 then b'|' else if i == 1 then b'a' else 0;
  n = 2;
}

stored-IsInline : IsInline stored old_runs
stored-IsInline = record {
  used = refl;
  type = omega arith;
  size = omega arith;
  few = omega arith;
  chainless = refl;
  bytes = λ i p. ground arith;
  terminated = refl;
  start = λ i p. ground arith;
  len = λ i p. ground arith;
}

abbrev nothing_decoded : Decoding
nothing_decoded = record { file = no_file; stage = λ i. no_extent; page = zeros }

inode_decode-encode_example :
    (d : Decoding) × (inode_decode (inode_encode stored old_runs zeros) made nothing_decoded
      ≡ (exfs_ok, d))
    × Restored stored old_runs d
inode_decode-encode_example =
    inode_decode-encode stored old_runs zeros made nothing_decoded stored-IsInline
