-- ===== src/Sys/Spaces.antt =====
-- `sys_map`, `sys_unmap`, `xsys_resource` and `xproc_reap` of sys.c, over the address spaces.
use xasmos.Base.{
  ℕ, zero, suc, ◌+◌, Bool, true, false, Option, none, some, List, [], ◌∷◌, ltb, ◌==◌, if◌then◌else◌,
}
use xasmos.Ledger.Ops.{Release, xtok_reclaim, xtok_owner_tokens}
use xasmos.Paging.Tables.{Xas}
use xasmos.Paging.Spaces.{XAspace, Vm, xas_map, xas_unmap, xas_revoke_token, xas_destroy}
use xasmos.Sys.Calls.{
  Quotas, Status, success, nosys, inval, nomem, badtoken, perm, busy, range, nomap, sys_alloc,
  sys_free, sys_info,
}

unfoldable pub map_xas_err : Xas → Status
map_xas_err Xas.ok = success
map_xas_err Xas.arg = inval
map_xas_err Xas.wx = perm
map_xas_err Xas.range = range
map_xas_err Xas.token = badtoken
map_xas_err Xas.owner = badtoken
map_xas_err Xas.rights = perm
map_xas_err Xas.busy = busy
map_xas_err Xas.nomem = nomem
map_xas_err Xas.notmapped = nomap

abbrev pub xsys_alloc : ℕ
xsys_alloc = 4

abbrev pub xsys_map : ℕ
xsys_map = 5

abbrev pub xsys_unmap : ℕ
xsys_unmap = 6

abbrev pub xsys_free : ℕ
xsys_free = 7

abbrev pub xsys_info : ℕ
xsys_info = 8

-- The registers that a resource syscall reads.
pub record Frame : Type 0 where
  pub rax : ℕ
  pub rdi : ℕ
  pub rsi : ℕ
  pub rdx : ℕ

unfoldable pub sys_map : XAspace → Frame → Vm → Status × Vm
sys_map space f v =
    let (r, v') = xas_map (some space) f.rsi f.rdi f.rdx v in
    if ltb 0xFFFFFFFF f.rdx then (inval, v) else (map_xas_err r, v')

unfoldable pub sys_unmap : XAspace → Frame → Vm → Status × Vm
sys_unmap space f v = let (r, v') = xas_unmap (some space) f.rdi v in (map_xas_err r, v')

-- What rax holds afterwards: a status code, or a value that `sys_info` reports.
pub data Answer : Type 0 where
  status : Status → Answer
  value : ℕ → Answer

abbrev pub info_answer : Option ℕ → Answer
info_answer none = status inval
info_answer (some n) = value n

-- rax, rdx and the state afterwards.
unfoldable pub xsys_resource : XAspace → Frame → Quotas → Vm → Answer × ℕ × Vm
xsys_resource space f q v =
    let owner = space.owner_id in
    let (reply, ka) = sys_alloc owner f.rdi f.rsi q v.kernel in
    let (freed, kf) = sys_free owner f.rdi v.kernel in
    let (mapped, vm) = sys_map space f v in
    let (unmapped, vu) = sys_unmap space f v in
    if f.rax == xsys_alloc
    then (status reply.rax, reply.rdx, record v { kernel = ka })
    else if f.rax == xsys_map
    then (status mapped, f.rdx, vm)
    else if f.rax == xsys_unmap
    then (status unmapped, f.rdx, vu)
    else if f.rax == xsys_free
    then (status freed, f.rdx, record v { kernel = kf })
    else if f.rax == xsys_info
    then (info_answer (sys_info owner f.rdi q v.kernel), f.rdx, v)
    else (status nosys, f.rdx, v)

abbrev pub is_ok : Release → Bool
is_ok Release.ok = true
is_ok r = false

-- The loop over one batch of tokens: how many were reclaimed.
unfoldable pub reap_batch : List ℕ → Vm → ℕ × Vm
reap_batch [] v = (0, v)
reap_batch (tok ∷ rest) v =
    let unmapped = (xas_revoke_token tok v).1 in
    let (r, k) = xtok_reclaim tok unmapped.kernel in
    let (n, v') = reap_batch rest (record unmapped { kernel = k }) in
    (if is_ok r then n + 1 else n, v')

abbrev pub is_empty : List ℕ → Bool
is_empty [] = true
is_empty (x ∷ xs) = false

-- `for (;;)`, with a bound on the rounds; `none` means that the bound was too small.
unfoldable pub reap_tokens : ℕ → ℕ → ℕ → Vm → Option (ℕ × Vm)
reap_tokens zero owner total v = none
reap_tokens (suc rounds) owner total v =
    let list = xtok_owner_tokens owner 64 v.kernel.ledger in
    let (progress, v') = reap_batch list v in
    let rest = reap_tokens rounds owner (total + progress) v' in
    if is_empty list then some (total, v) else if progress == 0 then some (total, v') else rest

-- The count of tokens reclaimed, the space and the state; `none` is a bound that was too small.
unfoldable pub reap_space : XAspace → Option (ℕ × Vm) → Option (ℕ × Option XAspace × Vm)
reap_space space none = none
reap_space space (some (total, v)) =
    let (space', v') = xas_destroy (some space) v in some (total, space', v')

-- Each round but the last reclaims a token, and the table has 4096 of them.
unfoldable pub xproc_reap : Option XAspace → Vm → Option (ℕ × Option XAspace × Vm)
xproc_reap none v = some (0, none, v)
xproc_reap (some space) v =
    let reaped = reap_tokens 4098 space.owner_id 0 v in
    if space.live then reap_space space reaped else some (0, some space, v)
