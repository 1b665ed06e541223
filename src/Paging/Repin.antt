-- ===== src/Paging/Repin.antt =====
-- Ledgers that differ in their map counts only: what unmapping does to token_ledger.c's table.
use xasmos.Base.{
  ℕ, ◌-◌, ◌≡◌, refl, ◌∙◌, ap, true, none, some, Option, ltb, if_both, arith, ◌==◌, if◌then◌else◌,
  Bool-cases, inl, inr,
}
use xasmos.Ledger.Table.{Ledger, XTokenEntry, lookup_live, slot_of}
use xasmos.Ledger.Ops.{set_map_count, xtok_map_release}

-- An entry without its map count.
abbrev pub bare : XTokenEntry → XTokenEntry
bare e = record e { map_count = 0 }

pub record IsRepinned (l l' : Ledger) : Type 0 where
  pub entries : (s : ℕ) → bare (l'.table s) ≡ bare (l.table s)
  pub live_count : l'.live_count ≡ l.live_count

pub IsRepinned-refl : (l : Ledger) → IsRepinned l l
IsRepinned-refl l = record { entries = λ s. refl; live_count = refl }

pub IsRepinned-trans : (a b c : Ledger) → IsRepinned a b → IsRepinned b c → IsRepinned a c
IsRepinned-trans a b c f g = record {
  entries = λ s. g.entries s ∙ f.entries s;
  live_count = g.live_count ∙ f.live_count;
}

pub set_map_count-IsRepinned : (s n : ℕ) (l : Ledger) → IsRepinned l (set_map_count s n l)
set_map_count-IsRepinned s n l = record {
  entries = λ t. elim (Bool-cases (t == s)) [
    | inl e ↦
        let e' : t ≡ s = ground arith in
        let self : (s == s) ≡ true = ground arith in rw (e', self) refl
    | inr e ↦ rw e refl
  ];
  live_count = refl;
}

pub map_release-IsRepinned : (tok : ℕ) (l : Ledger) → IsRepinned l (xtok_map_release tok l)
unfolding xtok_map_release
map_release-IsRepinned tok l = go (lookup_live tok l)
  where
    go :
        (o : Option ℕ)
        → IsRepinned l (elim o [
          | none ↦ l
          | some slot ↦
              if ltb 0 (l.table slot).map_count
              then set_map_count slot ((l.table slot).map_count - 1) l
              else l
        ])
    go none = IsRepinned-refl l
    go (some s) =
        if_both (IsRepinned l) (ltb 0 (l.table s).map_count) _ _
          (λ _. set_map_count-IsRepinned s _ l) (λ _. IsRepinned-refl l)

pub repinned_live : (l l' : Ledger) (s : ℕ) → IsRepinned l l' → (l'.table s).live ≡ (l.table s).live
repinned_live l l' s r = ap (λ (e : XTokenEntry). e.live) (r.entries s)

pub repinned_owner :
    (l l' : Ledger) (s : ℕ) → IsRepinned l l' → (l'.table s).owner_id ≡ (l.table s).owner_id
repinned_owner l l' s r = ap (λ (e : XTokenEntry). e.owner_id) (r.entries s)

pub repinned_generation :
    (l l' : Ledger) (s : ℕ) → IsRepinned l l' → (l'.table s).generation ≡ (l.table s).generation
repinned_generation l l' s r = ap (λ (e : XTokenEntry). e.generation) (r.entries s)

-- Every token is as live as before.
pub repinned_lookup :
    (tok : ℕ) (l l' : Ledger) → IsRepinned l l' → lookup_live tok l' ≡ lookup_live tok l
unfolding lookup_live
repinned_lookup tok l l' r =
    rw (repinned_live l l' (slot_of tok) r, repinned_generation l l' (slot_of tok) r) refl
