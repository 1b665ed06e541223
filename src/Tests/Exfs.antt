-- ===== src/Tests/Exfs.antt =====
-- The theorems on the file system: a volume of 64 blocks on a device that accepts every write.
use xasmos.Base.{ℕ, ◌≡◌, refl, Bool, true, false, Option, none, some, [], ◌∷◌, arith, ap}
use xasmos.Block.Device.{
  ok, BlkOps, BlkDev, blk_sector_size, blk_sector_count, blk_write, run_write, check, check_range,
}
use xasmos.Exfs.GroupMap.{
  GMap, GMapEntry, done, drop_cache, gmap_format, format_from, gwrite, slot_block,
}
use xasmos.Exfs.Superblock.{inodes, sb_encode, fields_ok, all_from}
use xasmos.Exfs.Volume.{
  ExfsStatus, exfs_ok, ExfsFile, ExfsExtent, Nodes, Volume, type_file, type_dir, geometry, blk_put,
  itab_area,
}
use xasmos.Exfs.Names.{
  NodeName, exfs_create, exfs_mkdir, exfs_delete, make_node, make_in, free_node, new_node,
}
use xasmos.Exfs.Names.Tree.{IsTree}
use xasmos.Exfs.Mount.{exfs_format, attach, format_attached, empty_nodes, fresh_volume, name_bin}
use xasmos.Exfs.Lifecycle.Calls.{
  names, commit, Reached, formatted, step, Reached-IsTree, perform, IsValid, first_dirs-IsTree,
}
use xasmos.Exfs.Names.Delete.{create, Deleted, exfs_delete-Deleted}
use xasmos.Exfs.GroupOps.{gmap_init, gmap_flush, flush_from, gmap_export}
use xasmos.Exfs.Inodes.{apply_deferred, apply_from}
use xasmos.Exfs.Commit.{
  exfs_commit, commit_dirty, chains_needed, room_for, commit_chains, commit_chain, take_chain,
  write_chain, commit_map, write_table, sb_fields, write_super, write_page,
}
use xasmos.Exfs.Names.Spells.{IsText}
use xasmos.Exfs.Names.Make.{Made, create_mkdir-Made}
use xasmos.Exfs.Commit.Outcome.{Committed, exfs_commit-Committed}

abbrev Nothing : Type 0
Nothing = Unit {0}

abbrev sink : BlkOps Nothing
sink = record {
  read = some (λ d lba n buf. (ok, buf));
  write = some (λ d lba n buf. (ok, d));
  flush = none;
}

abbrev small_device : BlkDev Nothing
small_device = record { ctx = tt; ops = some sink; sector_size = 4096; sector_count = 64 }

abbrev pub zeros : ℕ → ℕ
zeros i = 0

abbrev pub no_file : ExfsFile
no_file = record {
  used = false;
  type = 0;
  size = 0;
  name = zeros;
  n = 0;
  ext_off = 0;
  ext_cap = 0;
  nchain = 0;
  chain = zeros;
  dirty = false;
}

abbrev pub no_extent : ExfsExtent
no_extent = record { start = 0; len = 0 }

abbrev pub no_nodes : Nodes
no_nodes = record {
  files = λ i. no_file;
  pool = λ i. no_extent;
  pool_used = zeros;
  defer = λ i. no_extent;
  ndefer = 0;
  fresh = λ i. no_extent;
  stage = λ i. no_extent;
  nstage = 0;
  dirty = false;
}

abbrev no_entry : GMapEntry
no_entry = record { bits = zeros; g = 0; valid = false; dirty = false; stamp = 0 }

abbrev no_map : GMap Nothing
no_map = record {
  dev = small_device;
  spb = 1;
  total = 0;
  gb = 0;
  ngroups = 0;
  slot = zeros;
  written = λ i. false;
  free = zeros;
  cache = λ i. no_entry;
  clock = 0;
}

abbrev no_volume : Volume Nothing
no_volume = record {
  spb = 0;
  total = 0;
  gen = 0;
  itab_start = 0;
  mounted = false;
  broken = false;
  gm = no_map;
  hint = 0;
  nodes = no_nodes;
  page = zeros;
  itab = zeros;
}

abbrev volume_of : Option (ExfsStatus × Volume Nothing) → Volume Nothing
volume_of none = no_volume
volume_of (some (rc, v)) = v

abbrev status_of : Option (ExfsStatus × Volume Nothing) → Option ExfsStatus
status_of none = none
status_of (some (rc, v)) = some rc

abbrev format_result : Option (ExfsStatus × Volume Nothing)
format_result = exfs_format zeros (some small_device) no_volume

unstuck :
    (r : Option (ExfsStatus × Volume Nothing))
    → status_of r ≡ some exfs_ok
    → r ≡ some (exfs_ok, volume_of r)
unstuck none e = absurd (cc)
unstuck (some (exfs_ok, v)) e = refl
unstuck (some (rc, v)) e = absurd (cc)

abbrev attached : Volume Nothing
attached = record no_volume {
  spb = 1;
  total = 64;
  gm = record no_map { total = 64; gb = 32768; ngroups = 1; cache = drop_cache no_map.cache };
}

attach_ok : attach (some small_device) no_volume ≡ some attached
unfolding attach geometry blk_sector_size blk_sector_count gmap_init
attach_ok = refl

abbrev mapped : Bool × GMap Nothing
mapped = format_from 1 0 zeros attached.gm

map_ok : (gmap_format zeros attached.gm).0 ≡ done
unfolding gmap_format format_from gwrite blk_write run_write check check_range slot_block
map_ok = refl

abbrev pub made : Volume Nothing
made = fresh_volume (record attached { gm = (gmap_format zeros attached.gm).1 })

room_zero : (free : ℕ) → room_for (some 0) free ≡ exfs_ok
unfolding room_for
room_zero free = ground arith

chains_none : chains_needed inodes 0 0 made.nodes.files ≡ some 0
unfolding chains_needed fresh_volume empty_nodes make_node make_in free_node new_node
chains_none = refl

chained_ok : (commit_chains inodes 0 made).0 ≡ exfs_ok
unfolding commit_chains commit_chain take_chain write_chain fresh_volume empty_nodes make_node
    make_in free_node new_node
chained_ok = refl

map_written : (commit_map (commit_chains inodes 0 made).1).0 ≡ exfs_ok
unfolding commit_chains commit_chain take_chain write_chain fresh_volume empty_nodes make_node
    make_in free_node new_node commit_map apply_deferred apply_from gmap_format format_from gwrite
    blk_write run_write check check_range slot_block gmap_flush flush_from write_table blk_put
    itab_area sb_fields gmap_export sb_encode fields_ok all_from write_super write_page
map_written = refl

dirty_made : made.nodes.dirty ≡ true
unfolding fresh_volume make_node make_in free_node new_node empty_nodes
dirty_made = refl

commit_ok : (exfs_commit made).0 ≡ exfs_ok
unfolding exfs_commit commit_dirty fresh_volume
commit_ok = rw (dirty_made, chains_none, room_zero, chained_ok) map_written

format_made : exfs_format zeros (some small_device) no_volume ≡ some (exfs_ok, (exfs_commit made).1)
unfolding exfs_format format_attached
format_made =
    rw (attach_ok, map_ok) (ap (λ (rc : ExfsStatus). some (rc, (exfs_commit made).1)) commit_ok)

-- The name "|a".
abbrev name_a : NodeName
name_a = b'|' ∷ b'a' ∷ []

-- A formatted volume, after a file is made and committed.
abbrev later : Volume Nothing
later = perform commit (perform (names (create name_a)) (exfs_commit made).1)

later-Reached : Reached later
unfolding IsValid IsText
later-Reached = step commit tt (
    step (names (create name_a)) (omega arith)
      (formatted zeros (some small_device) no_volume format_made))

Reached-IsTree_example : IsTree later.nodes.files
Reached-IsTree_example = Reached-IsTree later later-Reached

name_a-IsText : IsText name_a
unfolding IsText
name_a-IsText = omega arith

create_mkdir-Made_example :
    Made name_a type_file made (exfs_create name_a made)
    × Made name_a type_dir made (exfs_mkdir name_a made)
create_mkdir-Made_example = create_mkdir-Made name_a made name_a-IsText

bin-IsText : IsText name_bin
unfolding IsText
bin-IsText = omega arith

made-IsTree : IsTree made.nodes.files
unfolding fresh_volume
made-IsTree = first_dirs-IsTree no_nodes

exfs_delete-Deleted_example : Deleted name_bin made (exfs_delete name_bin made)
exfs_delete-Deleted_example = exfs_delete-Deleted name_bin made bin-IsText made-IsTree

exfs_commit-Committed_example : Committed made (exfs_commit made)
exfs_commit-Committed_example = exfs_commit-Committed made
