-- ===== src/Exfs/Lifecycle/Calls.antt =====
-- source/core/exfs/exfs.c: the volume from its formatting through any sequence of calls.
use xasmos.Base.{
  ℕ, ◌<◌, ◌≡◌, refl, ap, sym, true, false, not, Option, none, some, ltb, arith, if_both,
  some-injective,
}
use xasmos.Block.Device.{Buffer, BlkDev}
use xasmos.Exfs.GroupMap.{gmap_format}
use xasmos.Exfs.GroupOps.{is_done}
use xasmos.Exfs.Superblock.{inodes}
use xasmos.Exfs.Volume.{ExfsStatus, exfs_ok, eio, Nodes, Volume, type_dir}
use xasmos.Exfs.Names.{
  NodeName, find, find_from, same_from, free_node, name_ok, no_double_bar, parent_ok, parent_at,
  last_bar, put_name, new_node, make_in, make_node,
}
use xasmos.Exfs.Names.Spells.{IsText}
use xasmos.Exfs.Names.Stat.{Holds}
use xasmos.Exfs.Names.Tree.{IsTree}
use xasmos.Exfs.Names.Grow.{make_in-IsTree}
use xasmos.Exfs.Names.Delete.{NodeCall, name_of, call, call-IsTree}
use xasmos.Exfs.Write.{exfs_write}
use xasmos.Exfs.WriteAt.{exfs_write_at}
use xasmos.Exfs.Commit.{exfs_commit}
use xasmos.Exfs.Commit.Outcome.{
  Committed, clean, durable, refused, broken_off, exfs_commit-Committed,
}
use xasmos.Exfs.Mount.{
  attach, empty_nodes, name_user, name_root, name_bin, name_boot, add_dir, first_dirs, fresh_volume,
  format_attached, exfs_format,
}
use xasmos.Exfs.Lifecycle.Same.{SameNames, SameNames-refl, IsTree-same}
use xasmos.Exfs.Lifecycle.Writes.{SameNames-write}
use xasmos.Exfs.Lifecycle.Splices.{SameNames-write_at}

-- A call that changes the volume. `junk` is what local arrays held.
pub data VolumeCall : Type 0 where
  names : NodeCall → VolumeCall
  write : (junk : ℕ → ℕ) → NodeName → Buffer → ℕ → VolumeCall
  write_at : (junk : ℕ → ℕ) → NodeName → ℕ → Buffer → ℕ → VolumeCall
  commit : VolumeCall

unfoldable pub IsValid : VolumeCall → Type 0
IsValid (names c) = IsText (name_of c)
IsValid (write junk name buf len) = Unit
IsValid (write_at junk name off buf len) = Unit
IsValid commit = Unit

unfoldable pub perform {ℓ} : {D : Type ℓ} → VolumeCall → Volume D → Volume D
perform (names c) v = call c v
perform (write junk name buf len) v = (exfs_write junk name buf len v).1
perform (write_at junk name off buf len) v = (exfs_write_at junk name off buf len v).1
perform commit v = (exfs_commit v).1

SameNames-committed {ℓ} :
    {D : Type ℓ} (v : Volume D) (r : ExfsStatus × Volume D)
    → Committed v r
    → SameNames v.nodes r.1.nodes
unfolding SameNames
SameNames-committed v r (clean m b d) = SameNames-refl v.nodes
SameNames-committed v r (refused e) = SameNames-refl v.nodes
SameNames-committed v r (durable g a m b z d f n p) =
    λ i. record { used = (n i).used; type = (n i).type; name = (n i).name }
SameNames-committed v r (broken_off e b g n p) =
    λ i. record { used = (n i).used; type = (n i).type; name = (n i).name }

commit-IsTree {ℓ} :
    {D : Type ℓ} (v : Volume D) → IsTree v.nodes.files → IsTree (exfs_commit v).1.nodes.files
commit-IsTree v tree =
    IsTree-same v.nodes (exfs_commit v).1.nodes
      (SameNames-committed v (exfs_commit v) (exfs_commit-Committed v)) tree

perform-IsTree {ℓ} :
    {D : Type ℓ} (c : VolumeCall) (v : Volume D)
    → IsValid c
    → IsTree v.nodes.files
    → IsTree (perform c v).nodes.files
unfolding perform IsValid
perform-IsTree (names c) v x tree = call-IsTree c v x tree
perform-IsTree (write junk name buf len) v x tree =
    IsTree-same v.nodes _ (SameNames-write junk name buf len v) tree
perform-IsTree (write_at junk name off buf len) v x tree =
    IsTree-same v.nodes _ (SameNames-write_at junk name off buf len v) tree
perform-IsTree commit v x tree = commit-IsTree v tree

unused : (s : Nodes) (i : ℕ) → i < inodes → ((empty_nodes s).files i).used ≡ false
unfolding empty_nodes
unused s i p = let in_range : ltb i inodes ≡ true = ground arith in rw in_range refl

empty-IsTree : (s : Nodes) → IsTree (empty_nodes s).files
unfolding Holds
empty-IsTree s = record {
  spelled = λ i p u. let e = unused s i p in absurd (cc);
  unique = λ i j n x h h'. let e = unused s i h.0 in let u = h.1 in absurd (cc);
  named = λ i n x h. let e = unused s i h.0 in let u = h.1 in absurd (cc);
  rooted = λ i n x h. let e = unused s i h.0 in let u = h.1 in absurd (cc);
}

-- One of the directories that formatting makes.
add_dir-IsTree :
    (s : NodeName) (t : Nodes)
    → IsText s
    → IsTree t.files
    → name_ok s ≡ true
    → find s t.files ≡ none
    → parent_ok s t.files ≡ true
    → IsTree (add_dir s t).files
unfolding make_node
add_dir-IsTree s t x tree named fresh parent =
    make_in-IsTree (free_node inodes 0 t.files) s type_dir t x tree refl named fresh parent

pub first_dirs-IsTree : (s : Nodes) → IsTree (first_dirs (empty_nodes s)).files
unfolding IsText free_node find find_from same_from name_ok no_double_bar parent_ok parent_at
    last_bar empty_nodes make_node make_in new_node put_name
first_dirs-IsTree s =
    let t0 = empty_nodes s in
    let t1 = add_dir name_user t0 in
    let t2 = add_dir name_root t1 in
    let t3 = add_dir name_bin t2 in
    let one = add_dir-IsTree name_user t0 (omega arith) (empty-IsTree s) refl refl refl in
    let two = add_dir-IsTree name_root t1 (omega arith) one refl refl refl in
    let three = add_dir-IsTree name_bin t2 (omega arith) two refl refl refl in
    add_dir-IsTree name_boot t3 (omega arith) three refl refl refl

format_attached-IsTree {ℓ} :
    {D : Type ℓ} (junk : Buffer) (o : Option (Volume D)) (v : Volume D)
    → format_attached junk o ≡ some (exfs_ok, v)
    → IsTree v.nodes.files
unfolding format_attached fresh_volume
format_attached-IsTree junk none v e = absurd (cc)
format_attached-IsTree {D = D} junk (some u) v e =
    let r = gmap_format junk u.gm in
    let u' = record u { gm = r.1 } in
    if_both (λ (q : ExfsStatus × Volume D). some q ≡ some (exfs_ok, v) → IsTree v.nodes.files)
      (not (is_done r.0)) (eio, u') (exfs_commit (fresh_volume u'))
      (λ _ e.
        let p = some-injective e in absurd (eio-ok (ap (λ (q : ExfsStatus × Volume D). q.0) p)))
      (λ _ e.
        let p = some-injective e in
        let q = ap (λ (q : ExfsStatus × Volume D). q.1) p in
        rw (sym q) (commit-IsTree (fresh_volume u') (first_dirs-IsTree u.nodes)))
      e
  where
    eio-ok : eio ≡ exfs_ok → ⊥
    eio-ok e = absurd (cc)

-- The states of a volume: formatted, and after calls whose names have no zero byte.
pub data Reached {ℓ} {D : Type ℓ} : Volume D → Type ℓ where
  formatted :
      {v : Volume D} (junk : Buffer) (d : Option (BlkDev D)) (v0 : Volume D)
      → exfs_format junk d v0 ≡ some (exfs_ok, v)
      → Reached v
  step : {v : Volume D} (c : VolumeCall) → IsValid c → Reached v → Reached (perform c v)

-- On a volume that `exfs_format` made, after any sequence of `exfs_create`, `exfs_mkdir`,
-- `exfs_delete`, `exfs_write`, `exfs_write_at` and `exfs_commit`, failed calls included, the names form a
-- tree: every used inode has a well-formed name of its own, and its parent is the root or a directory of
-- the volume. The names that the calls make and delete have no zero byte.
pub Reached-IsTree {ℓ} : {D : Type ℓ} (v : Volume D) → Reached v → IsTree v.nodes.files
unfolding exfs_format
Reached-IsTree v (formatted junk d v0 e) = format_attached-IsTree junk (attach d v0) v e
Reached-IsTree v (step {v = u} c x r) = perform-IsTree c u x (Reached-IsTree u r)
