-- ===== src/Paging/Pins.antt =====
-- The map counts of token_ledger.c and the mapping records of paging.c.
use cubical.Cubical.Foundations.Prelude.{fun_ext}
use xasmos.Base.{
  ℕ, ◌+◌, ◌-◌, ◌^◌, ◌≤◌, ◌<◌, ◌≡◌, ◌≢◌, refl, ◌∙◌, sym, ap, Bool, true, false, ◌&&◌, some, arith,
  ◌==◌, if_both, ltb, update, sum_below, sum_below-change, le-sum_below, Bool-cases, inl, inr,
}
use xasmos.Bitmap.{weigh}
use xasmos.Ledger.Table.{Ledger, lookup_live, slot_of, wipe_slot}
use xasmos.Ledger.Ops.{Kernel, set_map_count, xtok_map_release}
use xasmos.Ledger.Inv.{IsLedger, lookup_live-some}
use xasmos.Ledger.Seal.{lookup-wipe_other}
use xasmos.Ledger.Pin.{lookup-set_map_count}
use xasmos.Ledger.Grant.{Granted}
use xasmos.Paging.Spaces.{MapRec, max_maps}

-- Whether a record is a mapping of the token in slot `s`.
abbrev pub holds : MapRec → ℕ → Bool
holds r s = r.live && (slot_of r.tok == s)

unfoldable pub pins_of : (ℕ → MapRec) → ℕ → ℕ
pins_of maps s = sum_below max_maps (λ i. weigh (holds (maps i) s))

-- The token of a mapping is live, belongs to the record's owner, and has as many frames as the
-- record has pages.
pub record HasToken (l : Ledger) (r : MapRec) : Type 0 where
  pub found : lookup_live r.tok l ≡ some (slot_of r.tok)
  pub word : r.tok < 2 ^ 64
  pub owner : (l.table (slot_of r.tok)).owner_id ≡ r.owner
  pub pages : (l.table (slot_of r.tok)).n_frames ≡ r.pages

pub record IsPinned (l : Ledger) (maps : ℕ → MapRec) : Type 0 where
  pub exact : (s : ℕ) → (l.table s).map_count ≡ pins_of maps s
  pub mapped : (i : ℕ) → i < max_maps → (maps i).live ≡ true → HasToken l (maps i)

pub pins_of-update :
    (maps : ℕ → MapRec) (i s : ℕ) (r : MapRec)
    → i < max_maps
    → pins_of (update maps i r) s + weigh (holds (maps i) s) ≡ pins_of maps s + weigh (holds r s)
unfolding pins_of
pins_of-update maps i s r h =
    let self : weigh (holds (update maps i r i) s) ≡ weigh (holds r s) = ground arith in
    let rest =
      sum_below-change max_maps i (λ j. weigh (holds (maps j) s))
        (λ j. weigh (holds (update maps i r j) s)) h (λ j q. rw q refl) in
    omega (arith, rest, self)

pub one_pin :
    (maps : ℕ → MapRec) (i s : ℕ) → i < max_maps → holds (maps i) s ≡ true → 1 ≤ pins_of maps s
unfolding pins_of weigh
one_pin maps i s h e =
    let most = le-sum_below max_maps i (λ j. weigh (holds (maps j) s)) h in
    let self : weigh (holds (maps i) s) ≡ 1 = ap weigh e in omega (arith, most, self)

-- A slot without a mapping is in no live record.
pub no_pin :
    (maps : ℕ → MapRec) (i s : ℕ) → i < max_maps → pins_of maps s ≡ 0 → holds (maps i) s ≡ false
no_pin maps i s h z = elim (Bool-cases (holds (maps i) s)) [
  | inl e ↦ absurd (omega (arith, one_pin maps i s h e))
  | inr e ↦ e
]

HasToken-set_map_count :
    (s n : ℕ) (l : Ledger) (r : MapRec) → HasToken l r → HasToken (set_map_count s n l) r
HasToken-set_map_count s n l r t = record {
  found = lookup-set_map_count r.tok s n l ∙ t.found;
  word = t.word;
  owner = ground (arith, t.owner);
  pages = ground (arith, t.pages);
}

-- One map count and one record change together.
pub IsPinned-update :
    (s n i : ℕ) (r : MapRec) (l : Ledger) (maps : ℕ → MapRec)
    → i < max_maps
    → n + weigh (holds (maps i) s) ≡ (l.table s).map_count + weigh (holds r s)
    → ((t : ℕ) → (t == s) ≡ false → holds r t ≡ holds (maps i) t)
    → (r.live ≡ true → HasToken l r)
    → IsPinned l maps
    → IsPinned (set_map_count s n l) (update maps i r)
IsPinned-update s n i r l maps h count others token v = record {
  exact = λ t. elim (Bool-cases (t == s)) [
    | inl e ↦
        let e' : t ≡ s = ground arith in
        let here : (s == s) ≡ true = ground arith in
        rw (e', here) (omega (arith, count, v.exact s, pins_of-update maps i s r h))
    | inr e ↦
        let same : weigh (holds r t) ≡ weigh (holds (maps i) t) = ap weigh (others t e) in
        rw e (omega (arith, same, v.exact t, pins_of-update maps i t r h))
  ];
  mapped = λ j q.
      if_both (λ (m : MapRec). m.live ≡ true → HasToken (set_map_count s n l) m) (j == i) r (maps j)
        (λ _ a. HasToken-set_map_count s n l r (token a))
        (λ _ a. HasToken-set_map_count s n l (maps j) (v.mapped j q a));
}

-- The release of a live token with a mapping takes one off its map count.
pub map_release-live :
    (tok s : ℕ) (l : Ledger)
    → lookup_live tok l ≡ some s
    → 1 ≤ (l.table s).map_count
    → xtok_map_release tok l ≡ set_map_count s ((l.table s).map_count - 1) l
unfolding xtok_map_release
map_release-live tok s l e h =
    let some_pin : ltb 0 (l.table s).map_count ≡ true = ground arith in
    rw (xtok_map_release, e, some_pin) refl

-- Taking back what a pin has done gives the ledger back.
pub map_release-pinned :
    (tok s : ℕ) (l : Ledger)
    → lookup_live tok l ≡ some s
    → xtok_map_release tok (set_map_count s ((l.table s).map_count + 1) l) ≡ l
map_release-pinned tok s l e =
    let n = (l.table s).map_count in
    let here : (s == s) ≡ true = ground arith in
    let raised : ((set_map_count s (n + 1) l).table s).map_count ≡ n + 1 = rw here refl in
    let step =
      map_release-live tok s (set_map_count s (n + 1) l) (lookup-set_map_count tok s (n + 1) l ∙ e)
        (omega (arith, raised)) in
    let back : ((set_map_count s (n + 1) l).table s).map_count - 1 ≡ n = omega (arith, raised) in
    step
    ∙ ap (λ c. set_map_count s c (set_map_count s (n + 1) l)) back
    ∙ ap (λ t. record l { table = t }) (fun_ext (λ i. again i))
  where
    again :
        (i : ℕ)
        → update
            (update l.table s (record (l.table s) { map_count = (l.table s).map_count + 1 }))
            s
            (record (update l.table s
              (record (l.table s) { map_count = (l.table s).map_count + 1 })
              s) { map_count = (l.table s).map_count })
            i
          ≡ l.table i
    again i = elim (Bool-cases (i == s)) [
      | inl b ↦
          let e' : i ≡ s = ground arith in
          let self : (s == s) ≡ true = ground arith in rw (e', self) refl
      | inr b ↦ rw b refl
    ]

-- A new token has no mapping, and no record names it.
pub Granted-IsPinned :
    (owner n rights tok : ℕ) (k k' : Kernel) (maps : ℕ → MapRec)
    → IsLedger k.ledger
    → Granted owner n rights k tok k'
    → IsPinned k.ledger maps
    → IsPinned k'.ledger maps
Granted-IsPinned owner n rights tok k k' maps w g v = record {
  exact = λ s. elim (Bool-cases (s == g.slot)) [
    | inl e ↦
        let e' : s ≡ g.slot = ground arith in
        rw e' (g.unmapped ∙ sym ((w.entry g.slot).unpinned g.dead) ∙ v.exact g.slot)
    | inr e ↦ rw (g.rest s e) (v.exact s)
  ];
  mapped = λ i h a.
      let r = maps i in
      let t = v.mapped i h a in
      let live = lookup_live-some r.tok k.ledger t.found in
      let ne : (slot_of r.tok == g.slot) ≡ false = ground (arith, live, g.dead) in
      let same = g.rest (slot_of r.tok) ne in
      record {
        found = g.others r.tok (ground arith) ∙ t.found;
        word = t.word;
        owner = rw same t.owner;
        pages = rw same t.pages;
      };
}

-- A slot that is wiped without a mapping is in no record.
pub wipe_slot-IsPinned :
    (s : ℕ) (l : Ledger) (maps : ℕ → MapRec)
    → (l.table s).map_count ≡ 0
    → IsPinned l maps
    → IsPinned (wipe_slot s l) maps
wipe_slot-IsPinned s l maps z v = record {
  exact = λ t. elim (Bool-cases (t == s)) [
    | inl e ↦
        let e' : t ≡ s = ground arith in
        let self : (s == s) ≡ true = ground arith in
        unfold wipe_slot in rw (e', self) (sym z ∙ v.exact s)
    | inr e ↦ unfold wipe_slot in rw e (v.exact t)
  ];
  mapped = λ i h a.
      let r = maps i in
      let t = v.mapped i h a in
      let free = no_pin maps i s h (sym (v.exact s) ∙ z) in
      let ne : slot_of r.tok ≢ s = ground (arith, free, a) in
      let ne' : (slot_of r.tok == s) ≡ false = ground arith in
      record {
        found = lookup-wipe_other r.tok s l ne ∙ t.found;
        word = t.word;
        owner = unfold wipe_slot in rw ne' t.owner;
        pages = unfold wipe_slot in rw ne' t.pages;
      };
}
