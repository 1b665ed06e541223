-- ===== src/Sys/Calls.antt =====
-- Quotas, `sys_alloc`, `sys_free` and `sys_info` of sys.c, and the quota check of load_amd64.c.
use xasmos.Base.{
  ℕ, ◌-◌, ◌%◌, ◌^◌, Bool, true, false, not, ◌&&◌, ◌||◌, Option, none, some, ltb, leb, ◌==◌,
  if◌then◌else◌, update, bit_and,
}
use xasmos.Ledger.Table.{owner_kernel, invalid}
use xasmos.Ledger.Ops.{
  Kernel, Usage, Release, ok, estale, ebusy, erights, xtok_alloc_ram, xtok_owner_usage,
  xtok_release_owned,
}

abbrev pub owner_max : ℕ
owner_max = 64

pub record Quota : Type 0 where
  pub frames : ℕ
  pub tokens : ℕ
  pub set : Bool

-- `g_quota`.
abbrev pub Quotas : Type 0
Quotas = ℕ → Quota

-- `g_def_frames` and `g_def_tokens`, which nothing writes.
abbrev pub def_frames : ℕ
def_frames = 2048

abbrev pub def_tokens : ℕ
def_tokens = 256

-- `none` is the result -1.
unfoldable pub xproc_set_quota : ℕ → ℕ → ℕ → Quotas → Option Quotas
xproc_set_quota owner max_frames max_tokens q =
    if (owner == owner_kernel) || leb owner_max owner
    then none
    else some (update q owner (record { frames = max_frames; tokens = max_tokens; set = true }))

unfoldable pub quota_of : ℕ → Quotas → Usage
quota_of owner q =
    if ltb owner owner_max && (q owner).set
    then record { frames = (q owner).frames; tokens = (q owner).tokens }
    else record { frames = def_frames; tokens = def_tokens }

-- The status codes of xproc.h that these calls return.
pub data Status : Type 0 where
  success nosys inval nomem badtoken perm busy range nomap : Status

-- READ | WRITE | EXECUTE | MAP | RELEASE
abbrev pub user_rights : ℕ
user_rights = 47

-- `rights & ~(UINT64)XSYS_USER_RIGHTS`
abbrev pub beyond_user_rights : ℕ → ℕ
beyond_user_rights rights = bit_and rights (2 ^ 64 - 1 - user_rights)

-- What is left of the saved frame: rax as a status, and rdx.
pub record Reply : Type 0 where
  pub rax : Status
  pub rdx : ℕ

abbrev pub fail : Status → Kernel → Reply × Kernel
fail s k = (record { rax = s; rdx = 0 }, k)

unfoldable pub sys_alloc : ℕ → ℕ → ℕ → Quotas → Kernel → Reply × Kernel
sys_alloc owner n rights q k =
    let max = quota_of owner q in
    let used = xtok_owner_usage owner k.ledger in
    let (tok, k') = xtok_alloc_ram owner n (rights % 2 ^ 32) k in
    if (n == 0) || (rights == 0)
    then fail inval k
    else if not (beyond_user_rights rights == 0)
    then fail perm k
    else if leb max.tokens used.tokens
    then fail nomem k
    else if ltb max.frames n || ltb (max.frames - n) used.frames
    then fail nomem k
    else if tok == invalid
    then fail nomem k'
    else (record { rax = success; rdx = tok }, k')

unfoldable pub free_status : Release → Status
free_status ok = success
free_status ebusy = busy
free_status erights = perm
free_status estale = badtoken

unfoldable pub sys_free : ℕ → ℕ → Kernel → Status × Kernel
sys_free owner tok k = let (r, k') = xtok_release_owned tok owner k in (free_status r, k')

-- The value, or XERR_INVAL.
unfoldable pub sys_info : ℕ → ℕ → Quotas → Kernel → Option ℕ
sys_info owner what q k =
    let max = quota_of owner q in
    let used = xtok_owner_usage owner k.ledger in
    if what == 0
    then some used.frames
    else if what == 1
    then some max.frames
    else if what == 2
    then some used.tokens
    else if what == 3
    then some max.tokens
    else none

-- `xlb_quota_ok` of load_amd64.c, which asks `xproc_quota_get` for the limits.
unfoldable pub xlb_quota_ok : ℕ → ℕ → ℕ → Quotas → Kernel → Bool
xlb_quota_ok owner frames tokens q k =
    let max = quota_of owner q in
    let used = xtok_owner_usage owner k.ledger in
    if ltb max.frames used.frames || ltb max.tokens used.tokens
    then false
    else if ltb (max.frames - used.frames) frames
    then false
    else if ltb (max.tokens - used.tokens) tokens
    then false
    else true
