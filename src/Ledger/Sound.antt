-- ===== src/Ledger/Sound.antt =====
-- The invariant that ties the table of token_ledger.c to the bitmap of physical.c, and the steps of
-- the operations that change both.
use xasmos.Base.{
  ℕ, ◌+◌, ◌/◌, ◌%◌, ◌≤◌, ◌<◌, ◌≡◌, ◌≢◌, refl, Bool, true, false, not, ◌&&◌, arith, ◌==◌, if_both,
  update, ◌∙◌,
}
use xasmos.Physical.State.{PhysBitmap, bit_test, phys_free_frames, frame_size}
use xasmos.Physical.Range.{
  IsValid, Freed, in_range, phys_free_frames-Freed, phys_free_frames-IsValid,
}
use xasmos.Physical.Laws.{Allocated}
use xasmos.Ledger.Table.{
  Ledger, XTokenEntry, seal_slot, wipe_slot, sealed_entry, released_entry, kind_ram, table_slots,
  xtok_init,
}
use xasmos.Ledger.Ops.{free_entry}
use xasmos.Ledger.Inv.{IsEntry, IsLedger, xtok_init-IsLedger}
use xasmos.Physical.Contract.{free-Allocated}
use xasmos.Ledger.Seal.{seal_slot-IsLedger, wipe_slot-IsLedger}

-- Whether frame `g` is one of the entry's frames.
abbrev pub covers : XTokenEntry → ℕ → Bool
covers e g = e.live && in_range (e.phys / frame_size) e.n_frames g

-- What the table of tokens and the bitmap say of one another.
pub record Backed (t : ℕ → XTokenEntry) (p : PhysBitmap) : Type 0 where
  pub aligned : (s : ℕ) → (t s).live ≡ true → (t s).phys % frame_size ≡ 0
  pub inside :
      (s : ℕ) → (t s).live ≡ true → (t s).phys / frame_size + (t s).n_frames ≤ p.total_frames
  pub used : (s g : ℕ) → covers (t s) g ≡ true → bit_test p g ≡ false
  pub apart : (r s g : ℕ) → covers (t r) g ≡ true → covers (t s) g ≡ true → (r == s) ≡ true

pub record IsSound (l : Ledger) (p : PhysBitmap) : Type 0 where
  pub ledger : IsLedger l
  pub physical : IsValid p
  pub reserved : bit_test p 0 ≡ false
  pub backed : Backed l.table p

-- The entry that a seal writes holds the frames of the allocation.
abbrev Fresh : XTokenEntry → ℕ → ℕ → Type 0
Fresh e addr n = (e.phys ≡ addr) × (e.n_frames ≡ n) × (e.live ≡ true)

seal-Backed :
    (t : ℕ → XTokenEntry) (s n addr : ℕ) (e : XTokenEntry) (p q : PhysBitmap)
    → (t s).live ≡ false
    → Fresh e addr n
    → Allocated n p addr q
    → Backed t p
    → Backed (update t s e) q
seal-Backed t s n addr e p q dead fresh a b = record {
  aligned = λ i h. ground (arith, b.aligned i, a.aligned);
  inside = λ i h. ground (arith, b.inside i, a.inside, a.now_used.total);
  used = λ i g h. ground (arith, b.used i g, a.now_used.bit g);
  apart = λ i j g h k. ground (arith, b.apart i j g, b.used i g, b.used j g, a.was_free g);
}

pub free_entry-Freed :
    (t : ℕ → XTokenEntry) (s : ℕ) (p : PhysBitmap)
    → IsValid p
    → IsEntry (t s)
    → (t s).live ≡ true
    → Backed t p
    → Freed ((t s).phys / frame_size) (t s).n_frames p (free_entry (t s) p)
      × IsValid (free_entry (t s) p)
unfolding free_entry
free_entry-Freed t s p v w live b =
    if_both (λ q. Freed ((t s).phys / frame_size) (t s).n_frames p q × IsValid q)
      (((t s).kind == kind_ram) && not ((t s).phys == 0) && not ((t s).n_frames == 0)) _ _
      (λ _. (
        phys_free_frames-Freed (t s).phys (t s).n_frames p v (b.aligned s live) (b.inside s live),
        phys_free_frames-IsValid (t s).phys (t s).n_frames p v,
      ))
      (λ h. absurd (ground (arith, w.ram live, w.frames live)))

wipe-Backed :
    (t : ℕ → XTokenEntry) (s : ℕ) (e : XTokenEntry) (p q : PhysBitmap)
    → (t s).live ≡ true
    → e.live ≡ false
    → Freed ((t s).phys / frame_size) (t s).n_frames p q
    → Backed t p
    → Backed (update t s e) q
wipe-Backed t s e p q live dead f b = record {
  aligned = λ i h. ground (arith, b.aligned i);
  inside = λ i h. ground (arith, b.inside i, f.total);
  used = λ i g h. ground (arith, b.used i g, b.apart i s g, f.bit g);
  apart = λ i j g h k. ground (arith, b.apart i j g);
}

Backed-same :
    (t : ℕ → XTokenEntry) (p q : PhysBitmap)
    → q.total_frames ≡ p.total_frames
    → ((g : ℕ) → bit_test q g ≡ bit_test p g)
    → Backed t p
    → Backed t q
Backed-same t p q e h b = record {
  aligned = b.aligned;
  inside = λ i l. rw e (b.inside i l);
  used = λ i g c. h g ∙ b.used i g c;
  apart = b.apart;
}

pub xtok_init-IsSound : (p : PhysBitmap) → IsValid p → bit_test p 0 ≡ false → IsSound xtok_init p
unfolding xtok_init
xtok_init-IsSound p v r = record {
  ledger = unfold xtok_init in xtok_init-IsLedger;
  physical = v;
  reserved = r;
  backed = record {
    aligned = λ s h. cc;
    inside = λ s h. cc;
    used = λ s g h. cc;
    apart = λ r s g h k. cc;
  };
}

-- A seal of freshly allocated frames keeps the invariant.
pub seal_slot-IsSound :
    (s owner addr n rights : ℕ) (l : Ledger) (p q : PhysBitmap)
    → IsSound l p
    → s < table_slots
    → (l.table s).live ≡ false
    → addr ≢ 0
    → n ≢ 0
    → Allocated n p addr q
    → IsSound (seal_slot s owner addr n rights l).1 q
seal_slot-IsSound s owner addr n rights l p q v hs dead ha hn a = record {
  ledger = seal_slot-IsLedger s owner addr n rights l v.ledger hs dead ha hn;
  physical = a.valid;
  reserved = ground (arith, a.now_used.bit 0, v.reserved);
  backed =
      unfold seal_slot in
      seal-Backed l.table s n addr (sealed_entry (l.table s) owner addr n rights) p q dead
        (refl, refl, refl) a v.backed;
}

-- So does giving the frames back at once.
pub undo-IsSound :
    (addr n : ℕ) (l : Ledger) (p q : PhysBitmap)
    → IsSound l p
    → Allocated n p addr q
    → IsSound l (phys_free_frames addr n q)
undo-IsSound addr n l p q v a =
    let back = free-Allocated n addr p q v.physical a in
    record {
      ledger = v.ledger;
      physical = back.4;
      reserved = back.0 0 ∙ v.reserved;
      backed = Backed-same l.table p (phys_free_frames addr n q) back.3 back.0 v.backed;
    }

-- And so does wiping a live slot and freeing its frames.
pub wipe_slot-IsSound :
    (s : ℕ) (l : Ledger) (p : PhysBitmap)
    → IsSound l p
    → s < table_slots
    → (l.table s).live ≡ true
    → IsSound (wipe_slot s l) (free_entry (l.table s) p)
wipe_slot-IsSound s l p v hs live =
    let f = free_entry-Freed l.table s p v.physical (v.ledger.entry s) live v.backed in
    record {
      ledger = wipe_slot-IsLedger s l v.ledger hs live;
      physical = f.1;
      reserved =
          ground
            (arith, f.0.bit 0, v.reserved, v.backed.aligned s live, (v.ledger.entry s).frames live);
      backed =
          unfold wipe_slot in
          wipe-Backed l.table s (released_entry (l.table s)) p (free_entry (l.table s) p) live refl
            f.0 v.backed;
    }
