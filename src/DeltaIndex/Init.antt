-- ===== src/DeltaIndex/Init.antt =====
-- `init` returns an index in range.
use go_git.Prelude.{
  ℕ, ◌+◌, ◌-◌, ◌/◌, ◌%◌, ◌^◌, ◌≤◌, ◌<◌, refl, sym, subst, ◌∙◌, inl, inr, arith, ltb, length, All,
  Bool-cases,
}
use go_git.Prelude.Partial.{Returns}
use go_git.Prelude.Text.{Bytes}
use go_git.DeltaIndex.{zeros}
use go_git.DeltaIndex.Build.{
  DeltaIndexScanner, new_delta_index_scanner, count_entries, copy_entries, init,
}
use go_git.DeltaIndex.Slices.{InRange, length-zeros, All-imp}
use go_git.DeltaIndex.Scan.{scan_blocks-Linked}
use go_git.DeltaIndex.Chains.{count_entries-Sized}
use go_git.DeltaIndex.CopyChains.{copy_entries-Fits}

pub init-InRange :
    (src : Bytes) → length src ≤ 2 ^ 32 → Returns (λ idx. 16 ≤ length src → InRange idx) (init src)
unfolding init new_delta_index_scanner count_entries copy_entries
init-InRange src small =
    let whole : ℕ = length src - length src % 16 in
    elim (Bool-cases (ltb (whole / 16) 1)) [
      | inl none_whole ↦ rw (none_whole) (_, refl, λ large. absurd (ground arith))
      | inr some_whole ↦
          let blocks : ℕ = whole / 16 in
          let pos : 0 < blocks = ground arith in
          let (s, e, linked) =
            scan_blocks-Linked src whole blocks (omega arith) (omega arith) pos (omega arith) in
          let below : ℕ = blocks + 1 in
          let heads : All (λ h. h < below) s.table =
            All-imp (λ h. h ≤ s.count) (λ h. h < below) s.table
              (λ h inside. omega (arith, linked.counted)) linked.heads in
          let links : All (λ h. h < below) s.next =
            All-imp (λ h. h ≤ s.count) (λ h. h < below) s.next
              (λ h inside. omega (arith, linked.counted)) linked.links in
          let ((cnt, next), e', (sized, (_, same, links'))) =
            count_entries-Sized below (omega arith) s.table s.next linked.next_room links heads in
          let scanner : DeltaIndexScanner = record s { next = next } in
          let ((table, entries), e'', (same_table, same_entries, all)) =
            copy_entries-Fits below scanner linked.entries_room (same ∙ linked.next_room) links'
              s.table (zeros (cnt + 1)) 1 cnt sized heads (omega (arith, length-zeros (cnt + 1)))
              (omega (arith, length-zeros (cnt + 1))) in
          rw (some_whole) (
            rw (e) (
              rw (e') (
                rw (e'') (
                  record { table = table; entries = entries; mask = s.mask },
                  refl,
                  λ large. (
                    omega (arith, linked.mask_in),
                    subst (λ l. All (λ x. x < l) table) (sym same_entries) all,
                  ),
                ))))
    ]
