-- ===== src/Exfs/Inodes/RoundTrip.antt =====
-- source/core/exfs/exfs.c: decoding a record undoes encoding it, for a file without a chain.
use xasmos.Base.{
  ℕ, zero, suc, ◌+◌, ◌-◌, ◌%◌, ◌^◌, ◌≤◌, ◌<◌, ◌≡◌, refl, ap, ◌∙◌, true, false, not, ◌&&◌, ltb, leb,
  ◌==◌, if◌then◌else◌, arith, update, inl, inr, Bool-cases,
}
use xasmos.Exfs.Format.{Page, get32, get64}
use xasmos.Exfs.Volume.{exfs_ok, ExfsFile, ExfsExtent, Volume, name_max, exfs_inl}
use xasmos.Exfs.Inodes.{
  inode_encode, first_chain, get_extent, stage_extents, decode_fields, Decoding, walk_chain,
  inode_decode,
}
use xasmos.Exfs.Inodes.Record.{
  ninl, flag, encoded, wrote, inode_encode-encoded, front32, front64, base-front, named-name,
  read_used, read_type, read_size, read_chain, read_ninl,
}

-- A used file whose fields fit their cells and whose extents all stand in the inode.
pub record IsInline (f : ExfsFile) (exts : ℕ → ExfsExtent) : Type 0 where
  pub used : f.used ≡ true
  pub type : f.type < 2 ^ 32
  pub size : f.size < 2 ^ 64
  pub few : f.n ≤ exfs_inl
  pub chainless : f.nchain ≡ 0
  pub bytes : (i : ℕ) → i ≤ name_max → f.name i < 2 ^ 8
  pub terminated : f.name name_max ≡ 0
  pub start : (i : ℕ) → i < f.n → (exts i).start < 2 ^ 64
  pub len : (i : ℕ) → i < f.n → (exts i).len < 2 ^ 32

-- The decoded file is the file, without a slice yet, and its extents are in `V.stage`.
pub record Restored (f : ExfsFile) (exts : ℕ → ExfsExtent) (d : Decoding) : Type 0 where
  pub used : d.file.used ≡ true
  pub type : d.file.type ≡ f.type
  pub size : d.file.size ≡ f.size
  pub name : (i : ℕ) → i ≤ name_max → d.file.name i ≡ f.name i
  pub n : d.file.n ≡ f.n
  pub nchain : d.file.nchain ≡ 0
  pub ext_cap : d.file.ext_cap ≡ 0
  pub dirty : d.file.dirty ≡ false
  pub start : (i : ℕ) → i < f.n → (d.stage i).start ≡ (exts i).start
  pub len : (i : ℕ) → i < f.n → (d.stage i).len ≡ (exts i).len

stage_extents-cell :
    (c at i n j : ℕ) (r : Page) (stage : ℕ → ExfsExtent)
    → stage_extents c at i n r stage j
      ≡ (if leb n j && ltb j (n + c) then get_extent at (i + (j - n)) r else stage j)
unfolding stage_extents
stage_extents-cell zero at i n j r stage = ground arith
stage_extents-cell (suc c) at i n j r stage =
    let rest = stage_extents-cell c at (i + 1) (n + 1) j r (update stage n (get_extent at i r)) in
    elim (Bool-cases (j == n)) [
      | inl e ↦
          let back : i + (j - n) ≡ i = ground arith in
          ground (arith, rest, ap (λ (k : ℕ). get_extent at k r) back)
      | inr e ↦ elim (Bool-cases (leb n j)) [
        | inl q ↦
            let on : i + (j - n) ≡ i + 1 + (j - (n + 1)) = ground arith in
            ground (arith, rest, ap (λ (k : ℕ). get_extent at k r) on)
        | inr q ↦ ground (arith, rest)
      ]
    ]

module _ {ℓ} {D : Type ℓ} (f : ExfsFile) (exts : ℕ → ExfsExtent) (r : Page) (v : Volume D)
    (d : Decoding) (h : IsInline f exts) where
  abbrev fields : ExfsFile
  fields = decode_fields (encoded f exts r) d.file

  abbrev result : Decoding
  result = record d {
    file = record fields { n = get32 120 (encoded f exts r) };
    stage = stage_extents (get32 120 (encoded f exts r)) 128 0 0 (encoded f exts r) d.stage;
  }

  count : get32 120 (encoded f exts r) ≡ f.n
  count =
      let all : ninl f r ≡ f.n = ground (arith, h.few) in
      front32 f exts r 120 (omega arith) ∙ read_ninl f r ∙ omega (arith, all, h.few)

  is_used : not (get32 0 (encoded f exts r) == 0) ≡ true
  is_used =
      let one : flag f r ≡ 1 = rw h.used refl in
      let at : get32 0 (encoded f exts r) ≡ flag f r % 2 ^ 32 =
        front32 f exts r 0 (omega arith) ∙ read_used f r in
      ground (arith, at, one)

  no_chain : get64 112 (encoded f exts r) ≡ 0
  no_chain =
      let none : first_chain f ≡ 0 = ground (arith, h.chainless) in
      front64 f exts r 112 (omega arith) ∙ read_chain f r ∙ rw none refl

  decoded : inode_decode (encoded f exts r) v d ≡ (exfs_ok, result)
  unfolding inode_decode walk_chain decode_fields
  decoded =
      let small : ltb exfs_inl (get32 120 (encoded f exts r)) ≡ false =
        ground (arith, count, h.few) in
      rw (is_used, small, no_chain) refl

  name_cell : (i : ℕ) → i ≤ name_max → fields.name i ≡ f.name i
  unfolding decode_fields
  name_cell i p =
      let w = wrote f exts r in
      let cell : encoded f exts r (16 + i) ≡ f.name i % 256 =
        w.front (16 + i) (omega arith)
        ∙ base-front f r (16 + i) (omega arith)
        ∙ named-name f r i (omega arith) in
      ground (arith, cell, h.bytes i, h.terminated)

  stage_cell : (i : ℕ) → i < f.n → result.stage i ≡ get_extent 128 i (encoded f exts r)
  stage_cell i p =
      let back : 0 + (i - 0) ≡ i = omega arith in
      ground (
        arith,
        count,
        stage_extents-cell (get32 120 (encoded f exts r)) 128 0 0 i (encoded f exts r) d.stage,
        ap (λ (k : ℕ). get_extent 128 k (encoded f exts r)) back,
      )

  Restored-result : Restored f exts result
  unfolding decode_fields get_extent
  Restored-result =
      let w = wrote f exts r in
      let all : ninl f r ≡ f.n = ground (arith, h.few) in
      record {
        used = is_used;
        type = front32 f exts r 4 (omega arith) ∙ read_type f r ∙ omega (arith, h.type);
        size = front64 f exts r 8 (omega arith) ∙ read_size f r ∙ omega (arith, h.size);
        name = name_cell;
        n = count;
        nchain = refl;
        ext_cap = refl;
        dirty = refl;
        start = λ i p.
            ap (λ (e : ExfsExtent). e.start) (stage_cell i p)
            ∙ w.start i (omega (arith, all))
            ∙ omega (arith, h.start i p);
        len = λ i p.
            ap (λ (e : ExfsExtent). e.len) (stage_cell i p)
            ∙ w.len i (omega (arith, all))
            ∙ omega (arith, h.len i p);
      }

-- For a used file whose fields fit their cells and whose extents all stand in the inode: decoding the
-- record that `inode_encode` writes succeeds and gives back its type, size, name and extents, whatever
-- the buffers held before.
pub inode_decode-encode {ℓ} :
    {D : Type ℓ} (f : ExfsFile) (exts : ℕ → ExfsExtent) (r : Page) (v : Volume D) (d : Decoding)
    → IsInline f exts
    → (d' : Decoding) × (inode_decode (inode_encode f exts r) v d ≡ (exfs_ok, d'))
      × Restored f exts d'
inode_decode-encode f exts r v d h =
    rw (inode_encode-encoded f exts r)
      (result f exts r v d h, decoded f exts r v d h, Restored-result f exts r v d h)
