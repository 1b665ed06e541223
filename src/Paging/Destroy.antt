-- ===== src/Paging/Destroy.antt =====
-- `xas_destroy` of paging.c and the ledger.
use xasmos.Base.{
  ℕ, ◌+◌, ◌-◌, ◌≡◌, refl, ◌∙◌, true, false, not, ◌&&◌, Option, some, arith, ◌==◌, if_both, for_up,
  for_up_inv,
}
use xasmos.Ledger.Ops.{Kernel}
use xasmos.Paging.Spaces.{
  XAspace, Vm, max_maps, kernel_half, drop_record, drop_space, free_level1, free_level2,
  free_level3, free_tables, xas_destroy,
}
use xasmos.Paging.Tables.{entry, entry_addr, is_present, xpt_ents}
use xasmos.Paging.Quiet.{unmap_pages-IsQuiet}
use xasmos.Paging.Repin.{IsRepinned, IsRepinned-refl, IsRepinned-trans, map_release-IsRepinned}

-- `xas_destroy` touches nothing of the ledger but map counts.
drop_record-IsRepinned :
    (i : ℕ) (v : Vm) → IsRepinned v.kernel.ledger (drop_record i v).kernel.ledger
unfolding drop_record
drop_record-IsRepinned i v =
    let r = v.maps i in
    let q = unmap_pages-IsQuiet r.as_pml4 r.virt r.pages v.kernel in
    rw q.ledger (map_release-IsRepinned r.tok v.kernel.ledger)

drop_space-IsRepinned :
    (pml4 i : ℕ) (v w : Vm)
    → IsRepinned v.kernel.ledger w.kernel.ledger
    → IsRepinned v.kernel.ledger (drop_space pml4 i w).kernel.ledger
unfolding drop_space
drop_space-IsRepinned pml4 i v w r =
    if_both (λ (x : Vm). IsRepinned v.kernel.ledger x.kernel.ledger)
      ((w.maps i).live && ((w.maps i).as_pml4 == pml4)) _ _
      (λ _. IsRepinned-trans v.kernel.ledger w.kernel.ledger _ r (drop_record-IsRepinned i w))
      (λ _. r)

-- A loop over the entries of a table that keeps the ledger.
entries_ledger :
    (body : ℕ → Kernel → Kernel)
    → ((i : ℕ) (k : Kernel) → (body i k).ledger ≡ k.ledger)
    → (n i : ℕ) (k : Kernel) → (for_up n i body k).ledger ≡ k.ledger
entries_ledger body same n i k =
    for_up_inv (λ _ (k' : Kernel). k'.ledger ≡ k.ledger) body n i (i + n)
      (λ j k' _ _ e. same j k' ∙ e) k refl refl

free_level1-ledger : (pd i : ℕ) (k : Kernel) → (free_level1 pd i k).ledger ≡ k.ledger
unfolding free_level1
free_level1-ledger pd i k =
    if_both (λ (x : Kernel). x.ledger ≡ k.ledger) (is_present (entry k pd i)) _ _ (λ _. refl)
      (λ _. refl)

free_level2-ledger : (pdpt i : ℕ) (k : Kernel) → (free_level2 pdpt i k).ledger ≡ k.ledger
unfolding free_level2
free_level2-ledger pdpt i k =
    if_both (λ (x : Kernel). x.ledger ≡ k.ledger) (is_present (entry k pdpt i)) _ _
      (λ _. entries_ledger _ (free_level1-ledger (entry_addr (entry k pdpt i))) xpt_ents 0 k)
      (λ _. refl)

free_level3-ledger : (pml4 i : ℕ) (k : Kernel) → (free_level3 pml4 i k).ledger ≡ k.ledger
unfolding free_level3
free_level3-ledger pml4 i k =
    if_both (λ (x : Kernel). x.ledger ≡ k.ledger) (is_present (entry k pml4 i)) _ _
      (λ _. entries_ledger _ (free_level2-ledger (entry_addr (entry k pml4 i))) xpt_ents 0 k)
      (λ _. refl)

pub destroy-IsRepinned :
    (space : XAspace) (v : Vm)
    → IsRepinned v.kernel.ledger (xas_destroy (some space) v).1.kernel.ledger
unfolding xas_destroy free_tables
destroy-IsRepinned space v =
    let pml4 = space.pml4_phys in
    let dropped =
      for_up_inv (λ _ (w : Vm). IsRepinned v.kernel.ledger w.kernel.ledger) (drop_space pml4)
        max_maps 0 max_maps (λ i w _ _ r. drop_space-IsRepinned pml4 i v w r) v refl
        (IsRepinned-refl v.kernel.ledger) in
    let freed : (for_up (kernel_half - 1) 1 (free_level3 pml4)
          (for_up max_maps 0 (drop_space pml4) v).kernel).ledger
        ≡ (for_up max_maps 0 (drop_space pml4) v).kernel.ledger =
      entries_ledger _ (free_level3-ledger pml4) (kernel_half - 1) 1
        (for_up max_maps 0 (drop_space pml4) v).kernel in
    if_both (λ (r : Option XAspace × Vm). IsRepinned v.kernel.ledger r.1.kernel.ledger)
      (not space.live) _ _ (λ _. IsRepinned-refl v.kernel.ledger) (λ _. rw freed dropped)

pub destroy_dead :
    (space : XAspace) (v : Vm)
    → space.live ≡ true
    → (xas_destroy (some space) v).0 ≡ some (record space { live = false })
unfolding xas_destroy
destroy_dead space v live =
    if_both (λ (r : Option XAspace × Vm). r.0 ≡ some (record space { live = false }))
      (not space.live) _ _ (λ h. absurd (ground arith)) (λ _. refl)
