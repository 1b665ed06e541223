-- ===== src/Ledger/Table.antt =====
-- The table of token_ledger.c: its entries, the packing of tokens, and the functions that run under
-- the ledger's lock.
use xasmos.Base.{
  ℕ, zero, suc, ◌+◌, ◌-◌, ◌*◌, ◌/◌, ◌%◌, ◌^◌, Bool, true, false, not, Option, none, some, ltb, leb,
  ◌==◌, if◌then◌else◌, add32, update,
}

abbrev pub kind_none : ℕ
kind_none = 0

abbrev pub kind_ram : ℕ
kind_ram = 1

abbrev pub right_read : ℕ
right_read = 1

abbrev pub right_write : ℕ
right_write = 2

abbrev pub right_execute : ℕ
right_execute = 4

abbrev pub right_map : ℕ
right_map = 8

abbrev pub right_release : ℕ
right_release = 32

abbrev pub table_slots : ℕ
table_slots = 4096

abbrev pub invalid : ℕ
invalid = 0

abbrev pub owner_kernel : ℕ
owner_kernel = 0

pub record XTokenEntry : Type 0 where
  pub generation : ℕ
  pub kind : ℕ
  pub owner_id : ℕ
  pub rights : ℕ
  pub phys : ℕ
  pub n_frames : ℕ
  pub live : Bool
  pub map_count : ℕ

-- `g_table`, `g_live` and `g_next_hint`.
pub record Ledger : Type 0 where
  pub table : ℕ → XTokenEntry
  pub live_count : ℕ
  pub next_hint : ℕ

-- The halves of a token do not overlap, so the `|` of the code is a sum.
unfoldable pub pack_token : ℕ → ℕ → ℕ
pack_token slot gen = slot * 2 ^ 32 % 2 ^ 64 + gen

abbrev pub slot_of : ℕ → ℕ
slot_of tok = tok / 2 ^ 32 % 2 ^ 32

abbrev pub gen_of : ℕ → ℕ
gen_of tok = tok % 2 ^ 32

-- The slot of the entry that a token names, if the token is live.
unfoldable pub lookup_live : ℕ → Ledger → Option ℕ
lookup_live tok l =
    if tok == invalid
    then none
    else if leb table_slots (slot_of tok)
    then none
    else if not (l.table (slot_of tok)).live
    then none
    else if not ((l.table (slot_of tok)).generation == gen_of tok)
    then none
    else some (slot_of tok)

-- The scan of `claim_slot`: rounds left, and rounds made.
unfoldable pub claim_from : ℕ → ℕ → Ledger → Option ℕ
claim_from zero i l = none
claim_from (suc rounds) i l =
    let idx = add32 l.next_hint i % table_slots in
    let rest = claim_from rounds (i + 1) l in if (l.table idx).live then rest else some idx

unfoldable pub claim_slot : Ledger → Option ℕ
claim_slot l = claim_from table_slots 0 l

-- An entry that was never sealed.
abbrev pub blank_entry : XTokenEntry
blank_entry = record {
  generation = 1;
  kind = kind_none;
  owner_id = 0;
  rights = 0;
  phys = 0;
  n_frames = 0;
  live = false;
  map_count = 0;
}

-- `xtok_init`. The array has `table_slots` cells, all of them alike.
unfoldable pub xtok_init : Ledger
xtok_init = record { table = λ _. blank_entry; live_count = 0; next_hint = 0 }

-- The entry that `seal_ram_locked` writes: generation and map count stay.
abbrev pub sealed_entry : XTokenEntry → ℕ → ℕ → ℕ → ℕ → XTokenEntry
sealed_entry e owner phys n rights = record e {
  kind = kind_ram;
  owner_id = owner;
  rights = rights;
  phys = phys;
  n_frames = n;
  live = true;
}

-- The slot is sealed, and the scan starts behind it next time.
unfoldable pub seal_slot : ℕ → ℕ → ℕ → ℕ → ℕ → Ledger → ℕ × Ledger
seal_slot slot owner phys n rights l = (
  pack_token slot (l.table slot).generation,
  record {
    table = update l.table slot (sealed_entry (l.table slot) owner phys n rights);
    live_count = add32 l.live_count 1;
    next_hint = add32 slot 1 % table_slots;
  },
)

unfoldable pub seal_claimed : Option ℕ → ℕ → ℕ → ℕ → ℕ → Ledger → ℕ × Ledger
seal_claimed none owner phys n rights l = (invalid, l)
seal_claimed (some slot) owner phys n rights l = seal_slot slot owner phys n rights l

unfoldable pub seal_ram_locked : ℕ → ℕ → ℕ → ℕ → Ledger → ℕ × Ledger
seal_ram_locked owner phys n rights l =
    if phys == 0
    then (invalid, l)
    else if n == 0
    then (invalid, l)
    else seal_claimed (claim_slot l) owner phys n rights l

-- The next generation of a slot: 0 is never used.
abbrev pub next_generation : ℕ → ℕ
next_generation g = let g' = add32 g 1 in if g' == 0 then 1 else g'

abbrev pub released_entry : XTokenEntry → XTokenEntry
released_entry e = record blank_entry { generation = next_generation e.generation }

-- The ledger's part of a release: the entry is wiped, and its generation moves on.
unfoldable pub wipe_slot : ℕ → Ledger → Ledger
wipe_slot slot l = record l {
  table = update l.table slot (released_entry (l.table slot));
  live_count = if ltb 0 l.live_count then l.live_count - 1 else l.live_count;
}
