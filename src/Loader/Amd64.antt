-- ===== src/Loader/Amd64.antt =====
-- source/arch/amd64/kernel/xeret/load_amd64.c: the backend of the loader over the ledger and the
-- address spaces.
use xasmos.Base.{
  ℕ, ◌+◌, ◌*◌, ◌/◌, ◌%◌, ◌^◌, Bool, true, false, Option, none, some, ◌==◌, if◌then◌else◌, update,
}
use xasmos.Ledger.Table.{invalid}
use xasmos.Ledger.Ops.{xtok_alloc_ram, xtok_ram_info, xtok_reclaim}
use xasmos.Paging.Tables.{Xas}
use xasmos.Paging.Spaces.{XAspace, Vm, xas_map, xas_unmap}
use xasmos.Sys.Calls.{Quotas, xlb_quota_ok}
use xasmos.Loader.Load.{Backend}

abbrev pub granted : ℕ → Option ℕ
granted tok = if tok == invalid then none else some tok

unfoldable pub xlb_alloc : ℕ → ℕ → ℕ → Vm → Option ℕ × Vm
xlb_alloc owner frames rights v =
    let (tok, k) = xtok_alloc_ram owner frames rights v.kernel in
    (granted tok, record v { kernel = k })

-- The physical address: memory is identity-mapped. A token that is not live gives 0.
unfoldable pub xlb_kernel_ptr : ℕ → Vm → ℕ
xlb_kernel_ptr tok v = elim (xtok_ram_info tok v.kernel.ledger) [ none ↦ 0 | some (phys, n) ↦ phys ]

unfoldable pub xlb_release : ℕ → Vm → Vm
xlb_release tok v = record v { kernel = (xtok_reclaim tok v.kernel).1 }

abbrev pub is_mapped : Xas → Bool
is_mapped Xas.ok = true
is_mapped r = false

unfoldable pub xlb_map : XAspace → ℕ → ℕ → ℕ → Vm → Bool × Vm
xlb_map space va tok perms v =
    let (r, v') = xas_map (some space) va tok perms v in (is_mapped r, v')

-- Its result is not read.
unfoldable pub xlb_unmap : XAspace → ℕ → Vm → Vm
xlb_unmap space va v = (xas_unmap (some space) va v).1

-- The 64-bit word `w` with byte `i` of it replaced.
abbrev put_byte : ℕ → ℕ → ℕ → ℕ
put_byte w i x = w / 2 ^ (8 * (i + 1)) * 2 ^ (8 * (i + 1)) + x * 2 ^ (8 * i) + w % 2 ^ (8 * i)

-- The write of a byte at a physical address.
unfoldable pub store_byte : ℕ → ℕ → Vm → Vm
store_byte addr x v =
    let k = v.kernel in
    record v {
      kernel = record k {
        ram = update k.ram (addr / 8) (put_byte (k.ram (addr / 8)) (addr % 8) x);
      };
    }

abbrev pub amd64 : Quotas → Backend XAspace Vm
amd64 q = record {
  quota_ok = λ owner frames tokens v. xlb_quota_ok owner frames tokens q v.kernel;
  alloc = xlb_alloc;
  kernel_ptr = xlb_kernel_ptr;
  store = store_byte;
  release = xlb_release;
  map = xlb_map;
  unmap = xlb_unmap;
}
