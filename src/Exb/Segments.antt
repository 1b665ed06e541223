-- ===== src/Exb/Segments.antt =====
-- What the checks of one segment, and of all segments together, establish.
use xasmos.Base.{
  ℕ, zero, suc, ◌+◌, ◌-◌, ◌*◌, ◌/◌, ◌%◌, ◌^◌, ◌≤◌, ◌<◌, ◌≡◌, ◌≢◌, ◌⊎◌, refl, ap, Bool, true, false,
  arith, ◌==◌, bit_and, add64, Bool-cases, inl, inr,
}
use xasmos.Exb.Image.{
  Image, le32, overlap, Error, Checked, passed, rejected, ◌>>=◌, ◌>>◌, reject_if, ExbSeg, page,
  va_min, va_limit,
}
use xasmos.Exb.Parse.{Tables, seg_vend, check_flags, check_memory, check_file, check_against}

pub le32-lt : (img : Image) (p : ℕ) → le32 img p < 2 ^ 32
unfolding le32
le32-lt img p = omega arith

-- Inversion of a guarded step.
pub reject-passed {ℓ} :
    {A : Type ℓ} (b : Bool) (e : Error) (k : Checked A) {a : A}
    → (reject_if b e >> k) ≡ passed a
    → (b ≡ false) × (k ≡ passed a)
reject-passed true e k h = absurd (cc)
reject-passed false e k h = (refl, h)

pub then-passed {ℓ} :
    {A : Type ℓ} (m : Checked (Unit {0})) (k : Checked A) {a : A}
    → (m >> k) ≡ passed a
    → (m ≡ passed tt) × (k ≡ passed a)
then-passed (passed tt) k h = (refl, h)
then-passed (rejected e) k h = absurd (cc)

or_else {ℓ} : {A : Type ℓ} → A → Checked A → A
or_else d (passed a) = a
or_else d (rejected e) = d

pub passed-injective {ℓ} : {A : Type ℓ} {a b : A} → passed a ≡ passed b → a ≡ b
unfolding or_else
passed-injective {a = a} h = ap (or_else a) h

pub bind-passed {ℓ κ} :
    {A : Type ℓ} {B : Type κ} (m : Checked A) (k : A → Checked B) {b : B}
    → (m >>= k) ≡ passed b
    → (a : A) × (m ≡ passed a) × (k a ≡ passed b)
bind-passed (passed a) k h = (a, refl, h)
bind-passed (rejected e) k h = absurd (cc)

-- A segment that may be mapped: known flags, readable, never both writable and executable; page
-- aligned inside the user range, with the pages that its memory needs; file data inside the file.
pub record IsSegment (size : ℕ) (s : ExbSeg) : Type 0 where
  pub readable : bit_and s.flags 1 ≢ 0
  pub known : bit_and s.flags (2 ^ 32 - 1 - 7) ≡ 0
  pub exclusive : (bit_and s.flags 2 ≡ 0) ⊎ (bit_and s.flags 4 ≡ 0)
  pub aligned : s.vaddr % page ≡ 0
  pub above : va_min ≤ s.vaddr
  pub below : s.vaddr + s.pages * page ≤ va_limit
  pub occupied : 0 < s.mem_size
  pub covered : s.mem_size ≤ s.pages * page
  pub tight : s.pages * page < s.mem_size + page
  pub file_le : s.file_size ≤ s.mem_size
  pub file_in : s.file_off + s.file_size ≤ size
  pub end_exact : seg_vend s ≡ s.vaddr + s.pages * page

pub check_flags_lem :
    (reserved fl : ℕ)
    → check_flags reserved fl ≡ passed tt
    → (bit_and fl 1 ≢ 0)
      × (bit_and fl (2 ^ 32 - 1 - 7) ≡ 0)
      × ((bit_and fl 2 ≡ 0) ⊎ (bit_and fl 4 ≡ 0))
unfolding check_flags
check_flags_lem reserved fl h = ground arith

pub check_memory_lem :
    (s : ExbSeg)
    → s.pages ≡ add64 s.mem_size (page - 1) / page
    → check_memory s ≡ passed tt
    → (s.vaddr % page ≡ 0)
      × (va_min ≤ s.vaddr)
      × (s.vaddr + s.pages * page ≤ va_limit)
      × (0 < s.mem_size)
      × (s.mem_size ≤ s.pages * page)
      × (s.pages * page < s.mem_size + page)
      × (seg_vend s ≡ s.vaddr + s.pages * page)
unfolding check_memory
check_memory_lem s e h = ground arith

pub check_file_lem :
    (t : Tables) (size : ℕ) (s : ExbSeg)
    → s.file_off < 2 ^ 32
    → s.file_size < 2 ^ 32
    → check_file t size s ≡ passed tt
    → (s.file_size ≤ s.mem_size) × (s.file_off + s.file_size ≤ size)
unfolding check_file
check_file_lem t size s ho hf h = ground arith

-- The segments checked against do not meet the new one in memory.
pub check_against_lem :
    (n j i : ℕ) (segs : ℕ → ExbSeg) (s : ExbSeg)
    → check_against n j segs s ≡ passed tt
    → j ≤ i
    → i < j + n
    → overlap s.vaddr (seg_vend s) (segs i).vaddr (seg_vend (segs i)) ≡ false
unfolding check_against
check_against_lem zero j i segs s h a b = absurd (omega arith)
check_against_lem (suc n) j i segs s h a b = elim (Bool-cases (j == i)) [
  | inl e ↦ let e' : j ≡ i = ground arith in rw (← e') (ground arith)
  | inr e ↦ check_against_lem n (j + 1) i segs s (ground arith) (ground arith) (omega arith)
]
