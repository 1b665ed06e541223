-- ===== src/Exfs/Names/Delete.antt =====
-- source/core/exfs/exfs.c: the outcome of `exfs_delete`, and the tree of names after a call.
use cubical.Cubical.Foundations.Prelude.{fun_ext}
use xasmos.Base.{
  ℕ, ◌≡◌, ◌≢◌, refl, ap, true, false, not, ◌&&◌, Option, none, some, ◌==◌, if◌then◌else◌, arith,
  update, inl, inr, Bool-cases, if_both, ==_iff,
}
use xasmos.Exfs.Superblock.{inodes}
use xasmos.Exfs.Volume.{
  ExfsStatus, exfs_ok, enoent, ExfsFile, Nodes, Volume, type_file, type_dir, is_success,
}
use xasmos.Exfs.Inodes.{defer_file}
use xasmos.Exfs.Names.{
  NodeName, find, find_from, has_children, drop_node, delete_found, with_nodes, exfs_create,
  exfs_mkdir, exfs_delete, exfs_stat, is_root, Amount, amount, failed, stat_at,
}
use xasmos.Exfs.Names.Spells.{
  IsText, Spells-unique, same_from-Spells, hit, find_from-some, find_from-cong,
}
use xasmos.Exfs.Names.Stat.{Holds, find-Holds}
use xasmos.Exfs.Names.Make.{name_ok-root}
use xasmos.Exfs.Names.Tree.{IsTree}
use xasmos.Exfs.Names.Grow.{add_node-IsTree}
use xasmos.Exfs.Names.Prune.{
  emptied, FileDeferred, done, full, defer_file-FileDeferred, IsTree-rest,
}

-- The table after `exfs_delete` of inode `i`.
abbrev cut : ℕ → (ℕ → ExfsFile) → (ℕ → ExfsFile)
cut i files = update files i (record (emptied (files i)) { used = false; dirty = true })

module _ (s : NodeName) (i : ℕ) (files : ℕ → ExfsFile) (x : IsText s) (tree : IsTree files)
    (held : Holds files i s) where
  -- Every other name keeps its answer.
  stat-rest :
      (t : NodeName)
      → IsText t
      → t ≢ s
      → stat_at (find t (cut i files)) (cut i files) ≡ stat_at (find t files) files
  unfolding find Holds
  stat-rest t y apart =
      rw (find_from-cong inodes 0 t t files (cut i files) same_hit)
        (go (find_from inodes 0 t files) refl)
    where
      other : hit t (files i) ≡ true → ⊥
      other h =
          let spelled = same_from-Spells t (files i).name 0 y (ground (arith, h)) in
          apart (Spells-unique t s (files i).name 0 y x spelled held.2)

      same_hit : (j : ℕ) → hit t (cut i files j) ≡ hit t (files j)
      same_hit j = elim (Bool-cases (j == i)) [
        | inl e ↦ elim (Bool-cases (hit t (files i))) [
          | inl h ↦ absurd (other h)
          | inr h ↦ rw e (rw ((==_iff j i).0 e, h) refl)
        ]
        | inr e ↦ rw e refl
      ]

      go :
          (o : Option ℕ)
          → find_from inodes 0 t files ≡ o
          → stat_at o (cut i files) ≡ stat_at o files
      go none e = refl
      go (some j) e = elim (Bool-cases (j == i)) [
        | inl q ↦ rw q (ap amount (rw ((==_iff j i).0 q) refl))
        | inr q ↦ rw q refl
      ]

  -- The name is gone.
  stat-gone : stat_at (find s (cut i files)) (cut i files) ≡ failed enoent
  unfolding find Holds
  stat-gone = go (find_from inodes 0 s (cut i files)) refl
    where
      go :
          (o : Option ℕ)
          → find_from inodes 0 s (cut i files) ≡ o
          → stat_at o (cut i files) ≡ failed enoent
      go none e = refl
      go (some j) e =
          let h = find_from-some inodes 0 j s (cut i files) e in
          elim (Bool-cases (j == i)) [
            | inl q ↦ absurd (ground (arith, h.2))
            | inr q ↦
                let seen : hit s (files j) ≡ true = rw q at (h.2) in
                let spelled = same_from-Spells s (files j).name 0 x (ground (arith, seen)) in
                let at : Holds files j s = (omega arith, ground (arith, seen), spelled) in
                absurd (ground (arith, tree.unique j i s x at held))
          ]

-- On success the name had the type `k` and is gone, every other name keeps its answer, and a directory
-- had no children; on any error nothing has changed.
pub data Deleted {ℓ} {D : Type ℓ} (s : NodeName) (v : Volume D)
    : ExfsStatus × Volume D → Type ℓ where
  deleted :
      {v' : Volume D} (k : ℕ)
      → exfs_stat s v ≡ amount k
      → (k ≡ type_dir → has_children s v.nodes.files ≡ false)
      → exfs_stat s v' ≡ failed enoent
      → ((t : NodeName) → IsText t → t ≢ s → exfs_stat t v' ≡ exfs_stat t v)
      → IsTree v'.nodes.files
      → Deleted s v (exfs_ok, v')
  kept : {e : ExfsStatus} → is_success e ≡ false → Deleted s v (e, v)

cut-eq :
    (i : ℕ) (files g : ℕ → ExfsFile)
    → g ≡ update files i (emptied (files i))
    → update g i (record (g i) { used = false; dirty = true }) ≡ cut i files
cut-eq i files g e = rw e (fun_ext same)
  where
    once : ℕ → ExfsFile
    once = update files i (emptied (files i))

    same :
        (j : ℕ) → update once i (record (once i) { used = false; dirty = true }) j ≡ cut i files j
    same j = elim (Bool-cases (j == i)) [
      | inl q ↦ let self : (i == i) ≡ true = ground arith in rw (q, self) refl
      | inr q ↦ rw q refl
    ]

module _ {ℓ} {D : Type ℓ} (s : NodeName) (v : Volume D) (x : IsText s)
    (tree : IsTree v.nodes.files) where
  drop_node-Deleted :
      (i : ℕ) (r : ExfsStatus × Nodes)
      → find s v.nodes.files ≡ some i
      → ((v.nodes.files i).type ≡ type_dir → has_children s v.nodes.files ≡ false)
      → FileDeferred i v.nodes r
      → Deleted s v (with_nodes v (drop_node i r))
  unfolding drop_node exfs_stat
  drop_node-Deleted i r e leafless full = kept refl
  drop_node-Deleted i r e leafless (done {s'} files) =
      let held = find-Holds s v.nodes.files i x e in
      let root = name_ok-root s x (tree.named i s x held) in
      let same = cut-eq i v.nodes.files s'.files files in
      deleted (v.nodes.files i).type (rw (root, e) refl) leafless
        (rw (root, same) (stat-gone s i v.nodes.files x tree held))
        (λ t y apart.
          ap (λ (a : Amount). if is_root t then amount type_dir else a)
            (rw same (stat-rest s i v.nodes.files x tree held t y apart)))
        (rw same (
          IsTree-rest s i v.nodes.files (cut i v.nodes.files) x tree held (λ j q. rw q refl)
            (ground arith) leafless))

  delete_found-Deleted :
      (o : Option ℕ)
      → find s v.nodes.files ≡ o
      → Deleted s v (with_nodes v (delete_found s o v.nodes))
  unfolding delete_found
  delete_found-Deleted none e = kept refl
  delete_found-Deleted (some i) e =
      if_both (λ (r : ExfsStatus × Nodes). Deleted s v (with_nodes v r))
        (((v.nodes.files i).type == type_dir) && has_children s v.nodes.files) _ _ (λ _. kept refl)
        (λ q.
          drop_node-Deleted i (defer_file i v.nodes) e (λ dir. ground arith)
            (defer_file-FileDeferred i v.nodes))

  -- For a volume whose names form a tree and a name without a zero byte: if `exfs_delete` succeeds,
  -- `exfs_stat` gave a type before, which is not that of a directory with children, finds nothing
  -- afterwards, answers as before for every other name, and the names still form a tree. If it fails,
  -- the volume is unchanged.
  pub exfs_delete-Deleted : Deleted s v (exfs_delete s v)
  unfolding exfs_delete
  exfs_delete-Deleted =
      let P = λ (r : ExfsStatus × Volume D). Deleted s v r in
      if_both P (not v.mounted) _ _ (λ _. kept refl)
        λ _.
          if_both P v.broken _ _ (λ _. kept refl)
            λ _. delete_found-Deleted (find s v.nodes.files) refl

-- The calls that change names.
pub data NodeCall : Type 0 where
  create mkdir delete : NodeName → NodeCall

abbrev pub name_of : NodeCall → NodeName
name_of (create s) = s
name_of (mkdir s) = s
name_of (delete s) = s

unfoldable pub call {ℓ} : {D : Type ℓ} → NodeCall → Volume D → Volume D
call (create s) v = (exfs_create s v).1
call (mkdir s) v = (exfs_mkdir s v).1
call (delete s) v = (exfs_delete s v).1

Deleted-IsTree {ℓ} :
    {D : Type ℓ} (s : NodeName) (v : Volume D) (r : ExfsStatus × Volume D)
    → IsTree v.nodes.files
    → Deleted s v r
    → IsTree r.1.nodes.files
Deleted-IsTree s v r tree (deleted k a b c d t) = t
Deleted-IsTree s v r tree (kept e) = tree

pub call-IsTree {ℓ} :
    {D : Type ℓ} (c : NodeCall) (v : Volume D)
    → IsText (name_of c)
    → IsTree v.nodes.files
    → IsTree (call c v).nodes.files
unfolding call exfs_create exfs_mkdir
call-IsTree (create s) v x tree = add_node-IsTree s type_file v x tree
call-IsTree (mkdir s) v x tree = add_node-IsTree s type_dir v x tree
call-IsTree (delete s) v x tree =
    Deleted-IsTree s v (exfs_delete s v) tree (exfs_delete-Deleted s v x tree)
