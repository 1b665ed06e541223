-- ===== src/Exfs/Inodes/Record.antt =====
-- source/core/exfs/exfs.c: a record of the inode table, written and read back.
use xasmos.Base.{
  ℕ, ◌+◌, ◌-◌, ◌*◌, ◌%◌, ◌^◌, ◌≤◌, ◌<◌, ◌≡◌, ◌⊎◌, refl, ap, ◌∙◌, ltb, ◌==◌, if◌then◌else◌, arith,
  for_up, for_up_inv, inl, inr, Bool-cases,
}
use xasmos.Exfs.Format.{Page, put8, put32, put64, get32, get64}
use xasmos.Exfs.Format.Fields.{
  put32-outside, put64-outside, get32-cong, get64-cong, get32-put32, get64-put64, put_bytes,
}
use xasmos.Exfs.Volume.{ExfsFile, ExfsExtent, name_max, exfs_inl}
use xasmos.Exfs.Inodes.{inode_bytes, put_extent, first_chain, inode_encode}

-- The extents after the loop that writes them, and the bytes before them.
pub record Extents (exts : ℕ → ExfsExtent) (base : Page) (k : ℕ) (r : Page) : Type 0 where
  pub front : (j : ℕ) → j < 128 → r j ≡ base j
  pub start : (i : ℕ) → i < k → get64 (128 + i * 16) r ≡ (exts i).start % 2 ^ 64
  pub len : (i : ℕ) → i < k → get32 (128 + i * 16 + 8) r ≡ (exts i).len % 2 ^ 32

put_extent-outside :
    (exts : ℕ → ExfsExtent) (k j : ℕ) (r : Page)
    → (j < 128 + k * 16) ⊎ (128 + k * 16 + 12 ≤ j)
    → put_extent 128 exts k r j ≡ r j
unfolding put_extent
put_extent-outside exts k j r (inl h) =
    put32-outside (128 + k * 16 + 8) (exts k).len j _ (inl (omega arith))
    ∙ put64-outside (128 + k * 16) (exts k).start j r (inl h)
put_extent-outside exts k j r (inr h) =
    put32-outside (128 + k * 16 + 8) (exts k).len j _ (inr (omega arith))
    ∙ put64-outside (128 + k * 16) (exts k).start j r (inr (omega arith))

put_extent-get :
    (exts : ℕ → ExfsExtent) (k : ℕ) (r : Page)
    → (get64 (128 + k * 16) (put_extent 128 exts k r) ≡ (exts k).start % 2 ^ 64)
      × (get32 (128 + k * 16 + 8) (put_extent 128 exts k r) ≡ (exts k).len % 2 ^ 32)
unfolding put_extent
put_extent-get exts k r =
    let at = 128 + k * 16 in
    let q = put64 at (exts k).start r in
    (
      get64-cong at (put32 (at + 8) (exts k).len q) q
            (λ j a b. put32-outside (at + 8) (exts k).len j q (inl (omega arith)))
          ∙ get64-put64 at (exts k).start r,
      get32-put32 (at + 8) (exts k).len q,
    )

Extents-step :
    (exts : ℕ → ExfsExtent) (base : Page) (k : ℕ) (r : Page)
    → Extents exts base k r
    → Extents exts base (k + 1) (put_extent 128 exts k r)
Extents-step exts base k r h =
    let new = put_extent-get exts k r in
    let kept64 = λ (i : ℕ) (p : i < k).
      get64-cong (128 + i * 16) (put_extent 128 exts k r) r
        (λ j a b. put_extent-outside exts k j r (inl (omega arith))) in
    let kept32 = λ (i : ℕ) (p : i < k).
      get32-cong (128 + i * 16 + 8) (put_extent 128 exts k r) r
        (λ j a b. put_extent-outside exts k j r (inl (omega arith))) in
    record {
      front = λ j p. put_extent-outside exts k j r (inl (omega arith)) ∙ h.front j p;
      start = λ i p. elim (Bool-cases (i == k)) [
        | inl e ↦ let same : i ≡ k = ground arith in rw same new.0
        | inr e ↦ let below : i < k = ground arith in kept64 i below ∙ h.start i below
      ];
      len = λ i p. elim (Bool-cases (i == k)) [
        | inl e ↦ let same : i ≡ k = ground arith in rw same new.1
        | inr e ↦ let below : i < k = ground arith in kept32 i below ∙ h.len i below
      ];
    }

put-Extents :
    (exts : ℕ → ExfsExtent) (base : Page) (n : ℕ)
    → Extents exts base n (for_up n 0 (put_extent 128 exts) base)
put-Extents exts base n =
    for_up_inv (Extents exts base) (put_extent 128 exts) n 0 n
      (λ k r a b h. Extents-step exts base k r h) base (omega arith)
      (record {
        front = λ j p. refl;
        start = λ i p. absurd (omega arith);
        len = λ i p. absurd (omega arith);
      })

-- The bytes of the record before the extents, in the steps of `inode_encode`.
module _ (f : ExfsFile) (r : Page) where
  abbrev pub flag : ℕ
  flag = if f.used then 1 else 0

  abbrev pub ninl : ℕ
  ninl = if ltb f.n exfs_inl then f.n else exfs_inl

  abbrev pub flagged : Page
  flagged = put32 0 flag (for_up inode_bytes 0 (λ i p. put8 i 0 p) r)

  abbrev pub typed : Page
  typed = put32 4 f.type flagged

  abbrev pub sized : Page
  sized = put64 8 f.size typed

  abbrev pub named : Page
  named = for_up (name_max + 1) 0 (λ i p. put8 (16 + i) (f.name i) p) sized

  abbrev pub base : Page
  base = put32 120 ninl (put64 112 (first_chain f) named)

  pub base-front : (j : ℕ) → j < 112 → base j ≡ named j
  base-front j p =
      put32-outside 120 ninl j (put64 112 (first_chain f) named) (inl (omega arith))
      ∙ put64-outside 112 (first_chain f) j named (inl p)

  pub named-front : (j : ℕ) → j < 16 → named j ≡ sized j
  named-front j p = ground (arith, put_bytes 96 16 f.name sized j)

  pub named-name : (i : ℕ) → i < 96 → named (16 + i) ≡ f.name i % 256
  named-name i p =
      let back : 16 + i - 16 ≡ i = omega arith in
      ground (arith, put_bytes 96 16 f.name sized (16 + i), ap f.name back)

  base-sized : (j : ℕ) → j < 16 → base j ≡ sized j
  base-sized j p = base-front j (omega arith) ∙ named-front j p

  pub read_used : get32 0 base ≡ flag % 2 ^ 32
  read_used =
      get32-cong 0 base flagged (λ j a b.
        base-sized j (omega arith)
        ∙ put64-outside 8 f.size j typed (inl (omega arith))
        ∙ put32-outside 4 f.type j flagged (inl (omega arith)))
      ∙ get32-put32 0 flag _

  pub read_type : get32 4 base ≡ f.type % 2 ^ 32
  read_type =
      get32-cong 4 base typed
        (λ j a b. base-sized j (omega arith) ∙ put64-outside 8 f.size j typed (inl (omega arith)))
      ∙ get32-put32 4 f.type flagged

  pub read_size : get64 8 base ≡ f.size % 2 ^ 64
  read_size =
      get64-cong 8 base sized (λ j a b. base-sized j (omega arith)) ∙ get64-put64 8 f.size typed

  pub read_chain : get64 112 base ≡ first_chain f % 2 ^ 64
  read_chain =
      let q = put64 112 (first_chain f) named in
      get64-cong 112 base q (λ j a b. put32-outside 120 ninl j q (inl (omega arith)))
      ∙ get64-put64 112 (first_chain f) named

  pub read_ninl : get32 120 base ≡ ninl % 2 ^ 32
  read_ninl = get32-put32 120 ninl _

-- What `inode_encode` leaves, from the record's own words.
module _ (f : ExfsFile) (exts : ℕ → ExfsExtent) (r : Page) where
  abbrev pub encoded : Page
  encoded = for_up (ninl f r) 0 (put_extent 128 exts) (base f r)

  pub wrote : Extents exts (base f r) (ninl f r) encoded
  wrote = put-Extents exts (base f r) (ninl f r)

  pub inode_encode-encoded : inode_encode f exts r ≡ encoded
  unfolding inode_encode
  inode_encode-encoded = refl

  pub front32 : (at : ℕ) → at + 4 ≤ 128 → get32 at encoded ≡ get32 at (base f r)
  front32 at p = get32-cong at encoded (base f r) (λ j a b. wrote.front j (omega arith))

  pub front64 : (at : ℕ) → at + 8 ≤ 128 → get64 at encoded ≡ get64 at (base f r)
  front64 at p = get64-cong at encoded (base f r) (λ j a b. wrote.front j (omega arith))
