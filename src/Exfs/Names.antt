-- ===== src/Exfs/Names.antt =====
-- source/core/exfs/exfs.c: names, and the calls that make, remove and list nodes. The name that a
-- caller passes is the list of its bytes before the terminator, none of them zero.
pub mod Spells
pub mod Stat
pub mod Make
pub mod Tree
pub mod Grow
pub mod Prune
pub mod Delete
use xasmos.Base.{
  ℕ, zero, suc, ◌+◌, ◌-◌, Bool, true, false, not, ◌&&◌, Option, none, some, List, [], ◌∷◌, ◌++◌,
  ltb, leb, ◌==◌, if◌then◌else◌, update,
}
use xasmos.Exfs.Superblock.{inodes}
use xasmos.Exfs.Volume.{
  ExfsStatus, exfs_ok, enoent, enospc, enofs, eexist, einval, ebroken, eisdir, enotempty, ExfsFile,
  Nodes, Volume, CharArray, name_max, type_file, type_dir, set_file,
}
use xasmos.Exfs.Inodes.{defer_file}

abbrev pub NodeName : Type 0
NodeName = List ℕ

abbrev pub length : NodeName → ℕ
length [] = 0
length (c ∷ s) = suc (length s)

-- name[i], where the terminator stands behind the last byte
abbrev pub char_at : NodeName → ℕ → ℕ
char_at [] i = 0
char_at (c ∷ s) zero = c
char_at (c ∷ s) (suc i) = char_at s i

abbrev pub take : ℕ → NodeName → NodeName
take zero s = []
take (suc n) [] = []
take (suc n) (c ∷ s) = c ∷ take n s

-- while (*a != '\0' && *a == *b) { a++; b++; } ... *a == *b
unfoldable pub same_from : CharArray → ℕ → NodeName → Bool
same_from a i [] = a i == 0
same_from a i (c ∷ s) =
    let rest = same_from a (i + 1) s in if not (a i == 0) && (a i == c) then rest else a i == c

unfoldable pub find_from : ℕ → ℕ → NodeName → (ℕ → ExfsFile) → Option ℕ
find_from zero i name files = none
find_from (suc n) i name files =
    let rest = find_from n (i + 1) name files in
    if not (files i).used then rest else if same_from (files i).name 0 name then some i else rest

-- The index of the file; `none` is the null pointer.
unfoldable pub find : NodeName → (ℕ → ExfsFile) → Option ℕ
find name files = find_from inodes 0 name files

-- The last loop of `name_ok`: the byte before comes in.
unfoldable pub no_double_bar : ℕ → NodeName → Bool
no_double_bar prev [] = true
no_double_bar prev (c ∷ s) = not ((c == b'|') && (prev == b'|')) && no_double_bar c s

unfoldable pub name_ok : NodeName → Bool
name_ok name =
    let n = length name in
    (char_at name 0 == b'|')
    && leb 2 n
    && leb n name_max
    && not (char_at name (n - 1) == b'|')
    && no_double_bar 0 name

unfoldable pub is_root : NodeName → Bool
is_root name = (char_at name 0 == b'|') && (char_at name 1 == 0)

-- `last` in `parent_ok`; `none` is -1.
unfoldable pub last_bar : ℕ → Option ℕ → NodeName → Option ℕ
last_bar i last [] = last
last_bar i last (c ∷ s) = last_bar (i + 1) (if c == b'|' then some i else last) s

abbrev pub is_dir : Option ℕ → (ℕ → ExfsFile) → Bool
is_dir none files = false
is_dir (some i) files = (files i).type == type_dir

-- A name without a bar does not pass `name_ok`.
unfoldable pub parent_at : Option ℕ → NodeName → (ℕ → ExfsFile) → Bool
parent_at none name files = false
parent_at (some last) name files =
    if last == 0 then true else is_dir (find (take last name) files) files

unfoldable pub parent_ok : NodeName → (ℕ → ExfsFile) → Bool
parent_ok name files = parent_at (last_bar 0 none name) name files

-- The loop that copies the name, from index `k` on, and its terminator.
unfoldable pub put_name : NodeName → ℕ → CharArray → CharArray
put_name [] k a = update a k 0
put_name (c ∷ s) k a = put_name s (k + 1) (update a k c)

unfoldable pub free_node : ℕ → ℕ → (ℕ → ExfsFile) → Option ℕ
free_node zero i files = none
free_node (suc n) i files =
    let rest = free_node n (i + 1) files in if (files i).used then rest else some i

unfoldable pub new_node : NodeName → ℕ → ExfsFile → ExfsFile
new_node name type f = record f {
  used = true;
  type = type;
  size = 0;
  n = 0;
  ext_off = 0;
  ext_cap = 0;
  nchain = 0;
  dirty = true;
  name = put_name name 0 f.name;
}

unfoldable pub make_in : Option ℕ → NodeName → ℕ → Nodes → ExfsStatus × Nodes
make_in none name type s = (enospc, s)
make_in (some i) name type s =
    (exfs_ok, record (set_file i (new_node name type (s.files i)) s) { dirty = true })

unfoldable pub make_node : NodeName → ℕ → Nodes → ExfsStatus × Nodes
make_node name type s = make_in (free_node inodes 0 s.files) name type s

-- while (k < dl && g->name[k] == dir[k]) k++ reaches `dl`
unfoldable pub prefix_from : CharArray → ℕ → NodeName → Bool
prefix_from a k [] = true
prefix_from a k (c ∷ s) = (a k == c) && prefix_from a (k + 1) s

abbrev pub is_child : NodeName → ExfsFile → Bool
is_child dir g = g.used && (g.name (length dir) == b'|') && prefix_from g.name 0 dir

unfoldable pub children_from : ℕ → ℕ → NodeName → (ℕ → ExfsFile) → Bool
children_from zero i dir files = false
children_from (suc n) i dir files =
    let rest = children_from n (i + 1) dir files in if is_child dir (files i) then true else rest

unfoldable pub has_children : NodeName → (ℕ → ExfsFile) → Bool
has_children dir files = children_from inodes 0 dir files

abbrev pub with_nodes {ℓ} : {D : Type ℓ} → Volume D → ExfsStatus × Nodes → ExfsStatus × Volume D
with_nodes v (rc, s) = (rc, record v { nodes = s })

abbrev pub is_some : Option ℕ → Bool
is_some none = false
is_some (some i) = true

-- The body that `exfs_create` and `exfs_mkdir` share.
unfoldable pub add_node {ℓ} : {D : Type ℓ} → NodeName → ℕ → Volume D → ExfsStatus × Volume D
add_node name type v =
    if not v.mounted
    then (enofs, v)
    else if v.broken
    then (ebroken, v)
    else if not (name_ok name)
    then (einval, v)
    else if is_some (find name v.nodes.files)
    then (eexist, v)
    else if not (parent_ok name v.nodes.files)
    then (enoent, v)
    else with_nodes v (make_node name type v.nodes)

unfoldable pub exfs_create {ℓ} : {D : Type ℓ} → NodeName → Volume D → ExfsStatus × Volume D
exfs_create name v = add_node name type_file v

unfoldable pub exfs_mkdir {ℓ} : {D : Type ℓ} → NodeName → Volume D → ExfsStatus × Volume D
exfs_mkdir name v = add_node name type_dir v

-- The last part of `exfs_delete`, after `defer_file`.
unfoldable pub drop_node : ℕ → ExfsStatus × Nodes → ExfsStatus × Nodes
drop_node i (exfs_ok, s) = (
  exfs_ok,
  record (set_file i (record (s.files i) { used = false; dirty = true }) s) { dirty = true },
)
drop_node i (rc, s) = (rc, s)

unfoldable pub delete_found : NodeName → Option ℕ → Nodes → ExfsStatus × Nodes
delete_found name none s = (enoent, s)
delete_found name (some i) s =
    if ((s.files i).type == type_dir) && has_children name s.files
    then (enotempty, s)
    else drop_node i (defer_file i s)

unfoldable pub exfs_delete {ℓ} : {D : Type ℓ} → NodeName → Volume D → ExfsStatus × Volume D
exfs_delete name v =
    if not v.mounted
    then (enofs, v)
    else if v.broken
    then (ebroken, v)
    else with_nodes v (delete_found name (find name v.nodes.files) v.nodes)

-- A result that is a number, or an error.
pub data Amount : Type 0 where
  amount : ℕ → Amount
  failed : ExfsStatus → Amount

abbrev pub stat_at : Option ℕ → (ℕ → ExfsFile) → Amount
stat_at none files = failed enoent
stat_at (some i) files = amount (files i).type

unfoldable pub exfs_stat {ℓ} : {D : Type ℓ} → NodeName → Volume D → Amount
exfs_stat name v =
    if is_root name then amount type_dir else stat_at (find name v.nodes.files) v.nodes.files

unfoldable pub exfs_size {ℓ} : {D : Type ℓ} → NodeName → Volume D → Amount
exfs_size name v =
    let found : Amount = elim (find name v.nodes.files) [
      | none ↦ failed enoent
      | some i ↦
          if not ((v.nodes.files i).type == type_file)
          then failed eisdir
          else amount (v.nodes.files i).size
    ] in
    if not v.mounted then failed enofs else found
