-- ===== src/Exb/Caps.antt =====
-- The capability table of an image, as `parse_impl` of exb.c reads it.
use xasmos.Base.{
  ℕ, zero, suc, ◌+◌, ◌*◌, ◌%◌, ◌^◌, ◌≤◌, ◌<◌, ◌≡◌, sym, ap, true, false, not, ◌||◌, arith, ltb,
  ◌==◌, Bool-cases, if_both, inl, inr,
}
use xasmos.Exb.Image.{
  Image, le32, le64, Checked, passed, ExbSeg, page, cap_size, max_stack_pages, max_heap_request,
  max_token_request, bad_cap,
}
use xasmos.Exb.Parse.{Tables, Caps, add_cap, add_caps, entry_ok, holds_entry}
use xasmos.Exb.Segments.{reject-passed, passed-injective, bind-passed}

-- A stack of whole pages, from one to 64.
pub record IsStack (bytes : ℕ) : Type 0 where
  pub whole : bytes % page ≡ 0
  pub least : page ≤ bytes
  pub most : bytes ≤ max_stack_pages * page

IsStack-value :
    (value bytes : ℕ)
    → (not (value % page == 0) || ltb value page || ltb (max_stack_pages * page) value) ≡ false
    → bytes ≡ value % 2 ^ 32
    → IsStack bytes
IsStack-value value bytes h e =
    let few : value ≤ max_stack_pages * page = ground arith in
    let same : bytes ≡ value = omega arith in
    rw same (record { whole = ground arith; least = ground arith; most = few })

add_cap-IsStack :
    (kind reserved value : ℕ) (c c' : Caps)
    → IsStack c.stack_bytes
    → add_cap kind reserved value c ≡ passed c'
    → IsStack c'.stack_bytes
unfolding add_cap
add_cap-IsStack kind reserved value c c' v h =
    let base = kind % 2 ^ 31 in
    let a = reject-passed (not (reserved == 0)) bad_cap _ h in
    let b = reject-passed (base == 0) bad_cap _ a.1 in
    if_both (λ (r : Checked Caps). r ≡ passed c' → IsStack c'.stack_bytes) (base == 1) _ _
      (λ _ k.
        let d = reject-passed c.seen_stack bad_cap _ k in
        let e =
          reject-passed
            (not (value % page == 0) || ltb value page || ltb (max_stack_pages * page) value)
            bad_cap _ d.1 in
        let f : c'.stack_bytes ≡ value % 2 ^ 32 =
          sym (ap (λ (x : Caps). x.stack_bytes) (passed-injective e.1)) in
        IsStack-value value c'.stack_bytes e.0 f)
      (λ _.
        if_both (λ (r : Checked Caps). r ≡ passed c' → IsStack c'.stack_bytes) (base == 2) _ _
          (λ _ k.
            let d = reject-passed c.seen_heap bad_cap _ k in
            let e = reject-passed (ltb max_heap_request value) bad_cap _ d.1 in
            kept (ap (λ (x : Caps). x.stack_bytes) (passed-injective e.1)))
          (λ _.
            if_both (λ (r : Checked Caps). r ≡ passed c' → IsStack c'.stack_bytes) (base == 3) _ _
              (λ _ k.
                let d = reject-passed c.seen_tokens bad_cap _ k in
                let e = reject-passed (ltb max_token_request value) bad_cap _ d.1 in
                kept (ap (λ (x : Caps). x.stack_bytes) (passed-injective e.1)))
              (λ _ k.
                let e = reject-passed (ltb kind (2 ^ 31)) bad_cap _ k in
                kept (ap (λ (x : Caps). x.stack_bytes) (passed-injective e.1)))))
      b.1
  where
    kept : c.stack_bytes ≡ c'.stack_bytes → IsStack c'.stack_bytes
    kept e = rw (← e) v

pub add_caps-IsStack :
    (n i : ℕ) (img : Image) (t : Tables) (c c' : Caps)
    → IsStack c.stack_bytes
    → add_caps n i img t c ≡ passed c'
    → IsStack c'.stack_bytes
unfolding add_caps
add_caps-IsStack zero i img t c c' v h = rw (← passed-injective h) v
add_caps-IsStack (suc n) i img t c c' v h =
    let p = t.cap_off + i * cap_size in
    let (c1, h1, h2) =
      bind-passed (add_cap (le32 img p) (le32 img (p + 4)) (le64 img (p + 8)) c) _ h in
    add_caps-IsStack n (i + 1) img t c1 c'
      (add_cap-IsStack (le32 img p) (le32 img (p + 4)) (le64 img (p + 8)) c c1 v h1) h2

-- The entry point lies in one of the segments.
pub entry_ok-holds :
    (n : ℕ) (segs : ℕ → ExbSeg) (entry : ℕ)
    → entry_ok n segs entry ≡ true
    → (i : ℕ) × (i < n) × (holds_entry (segs i) entry ≡ true)
unfolding entry_ok
entry_ok-holds zero segs entry h = absurd (cc)
entry_ok-holds (suc n) segs entry h = elim (Bool-cases (holds_entry (segs n) entry)) [
  | inl e ↦ (n, omega arith, e)
  | inr e ↦
      let earlier : entry_ok n segs entry ≡ true = ground arith in
      let (i, p, q) = entry_ok-holds n segs entry earlier in (i, omega arith, q)
]
