-- ===== src/Exfs/Names/Make.antt =====
-- source/core/exfs/exfs.c: the outcome of `exfs_create` and `exfs_mkdir`.
use xasmos.Base.{
  ℕ, ◌≡◌, ◌≢◌, refl, true, false, not, Option, none, some, [], ◌∷◌, if◌then◌else◌, arith, ap,
  if_both,
}
use xasmos.Exfs.Superblock.{inodes}
use xasmos.Exfs.Volume.{ExfsStatus, exfs_ok, enoent, is_success, Volume, type_file, type_dir}
use xasmos.Exfs.Names.{
  NodeName, find, free_node, make_in, make_node, name_ok, is_root, parent_ok, add_node, with_nodes,
  is_some, exfs_create, exfs_mkdir, exfs_stat, Amount, amount, failed,
}
use xasmos.Exfs.Names.Spells.{IsText}
use xasmos.Exfs.Names.Stat.{is_some-none, free_node-some, stat-made, stat-new}

-- On success the name was free and now has the type, and every other name keeps its answer; on any
-- error nothing has changed.
pub data Made {ℓ} {D : Type ℓ} (s : NodeName) (type : ℕ) (v : Volume D)
    : ExfsStatus × Volume D → Type ℓ where
  made :
      {v' : Volume D}
      → exfs_stat s v ≡ failed enoent
      → exfs_stat s v' ≡ amount type
      → ((t : NodeName) → IsText t → t ≢ s → exfs_stat t v' ≡ exfs_stat t v)
      → Made s type v (exfs_ok, v')
  kept : {e : ExfsStatus} → is_success e ≡ false → Made s type v (e, v)

pub name_ok-root : (s : NodeName) → IsText s → name_ok s ≡ true → is_root s ≡ false
unfolding name_ok is_root IsText
name_ok-root [] x e = ground arith
name_ok-root (c ∷ []) x e = ground arith
name_ok-root (c ∷ (d ∷ s)) x e = ground arith

module _ {ℓ} {D : Type ℓ} (s : NodeName) (type : ℕ) (v : Volume D) (x : IsText s) where
  make_in-Made :
      (o : Option ℕ)
      → free_node inodes 0 v.nodes.files ≡ o
      → name_ok s ≡ true
      → find s v.nodes.files ≡ none
      → Made s type v (with_nodes v (make_in o s type v.nodes))
  unfolding make_in exfs_stat
  make_in-Made none e named fresh = kept refl
  make_in-Made (some i) e named fresh =
      let h = free_node-some inodes 0 i v.nodes.files e in
      made (rw (name_ok-root s x named, fresh) refl)
        (rw (name_ok-root s x named) (stat-new s type i v.nodes.files x (omega arith) h.2 fresh))
        (λ t y apart.
          ap (λ (a : Amount). if is_root t then amount type_dir else a)
            (stat-made s type i v.nodes.files x (omega arith) h.2 t y apart))

  add_node-Made : Made s type v (add_node s type v)
  unfolding add_node make_node
  add_node-Made =
      let P = λ (r : ExfsStatus × Volume D). Made s type v r in
      if_both P (not v.mounted) _ _ (λ _. kept refl)
        λ _.
          if_both P v.broken _ _ (λ _. kept refl)
            λ _.
              if_both P (not (name_ok s)) _ _ (λ _. kept refl)
                λ named.
                  if_both P (is_some (find s v.nodes.files)) _ _ (λ _. kept refl)
                    λ fresh.
                      if_both P (not (parent_ok s v.nodes.files)) _ _ (λ _. kept refl)
                        λ _.
                          make_in-Made (free_node inodes 0 v.nodes.files) refl (ground arith)
                            (is_some-none _ fresh)

-- For a name without a zero byte, `exfs_create` and `exfs_mkdir` do as follows. If the call succeeds,
-- `exfs_stat` found nothing under the name before, finds a file (a directory) under it afterwards,
-- and answers as before for every other name. If it fails, the volume is unchanged.
pub create_mkdir-Made {ℓ} :
    {D : Type ℓ} (s : NodeName) (v : Volume D)
    → IsText s
    → Made s type_file v (exfs_create s v) × Made s type_dir v (exfs_mkdir s v)
unfolding exfs_create exfs_mkdir
create_mkdir-Made s v x = (add_node-Made s type_file v x, add_node-Made s type_dir v x)
