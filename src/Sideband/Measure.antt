-- ===== src/Sideband/Measure.antt =====
-- The loop of the demuxer's Read ends: each round reads a byte or takes a packet off the reader.
use go_git.Prelude.{
  ℕ, zero, suc, ◌+◌, ◌-◌, ◌≤◌, ◌<◌, ◌≡◌, refl, sym, ap, ◌∙◌, arith, [], ◌∷◌, Bool, true, false, ltb,
  ◌==◌, length, length-append, length-take, Option, none, some, if_elim, none-ne-some, Option-cases,
  inl, inr, ◌⊎◌,
}
use go_git.Prelude.Text.{Bytes}
use go_git.Pktline.Scanner.{Scanner, scan, text, unread}
use go_git.Pktline.Scanner.Takes.{scan-unread}
use go_git.Sideband.{
  DemuxError, Progress, Demuxer, DemuxRead, by_channel, write_progress, by_length, after_scan,
  take_pending, next_pack_data, keep_pending, do_read, with_front, read_more, read_loop, read,
}

unfoldable pub left : Demuxer → ℕ
left d = unread d.s.r

-- Without an error, bytes were read or the reader has fewer left.
abbrev pub Advances : Demuxer → DemuxRead → Type 0
Advances d x =
    x.failure ≡ none → (left x.after ≤ left d) × (left x.after + 1 ≤ left d + length x.data_read)

write_progress_s :
    (message : Bytes) (d : Demuxer) (p : Option Progress)
    → (write_progress message d p).after.s ≡ d.s
unfolding write_progress
write_progress_s message d none = refl
write_progress_s message d (some w) = refl

by_channel_s : (d : Demuxer) (content : Bytes) → (by_channel d content).after.s ≡ d.s
unfolding by_channel
by_channel_s d [] = refl
by_channel_s d (ch ∷ content) =
    let Same : DemuxRead → Type 0 = λ x. x.after.s ≡ d.s in
    if_elim Same (ch == 1) refl
      (if_elim Same (ch == 2) (write_progress_s _ d d.progress) (if_elim Same (ch == 3) refl refl))

by_length_s : (d : Demuxer) (l : Option ℕ) → (by_length d l).after.s ≡ d.s
unfolding by_length
by_length_s d none = by_channel_s d (text d.s)
by_length_s d (some l) =
    let Same : DemuxRead → Type 0 = λ x. x.after.s ≡ d.s in
    if_elim Same (l == 0) refl (if_elim Same (ltb d.max l) refl (by_channel_s d (text d.s)))

after_scan-Advances :
    (d : Demuxer) (x : Bool × Scanner) → scan d.s ≡ x → Advances d (after_scan d x)
unfolding after_scan left
after_scan-Advances d (false, s) e h = absurd (none-ne-some (sym h))
after_scan-Advances d (true, s) e h =
    let same : unread (by_length (record d { s = s }) s.n).after.s.r ≡ unread s.r =
      ap (λ t. unread t.r) (by_length_s (record d { s = s }) s.n) in
    (omega (arith, scan-unread d.s s e), omega (arith, scan-unread d.s s e))

pub next_pack_data-Advances : (d : Demuxer) → Advances d (next_pack_data d)
unfolding next_pack_data take_pending after_scan left
next_pack_data-Advances d = by_pending d.pending
  where
    by_pending : (pending : Bytes) → Advances d (take_pending d pending)
    by_pending [] = after_scan-Advances d (scan d.s) refl
    by_pending (c ∷ content) = λ h. (omega arith, omega arith)

keep_pending_left : (wanted : ℕ) (x : DemuxRead) → left (keep_pending wanted x).after ≡ left x.after
unfolding keep_pending left
keep_pending_left wanted x =
    let Same : Demuxer → Type 0 = λ d. unread d.s.r ≡ unread x.after.s.r in
    if_elim Same (ltb wanted (length x.data_read)) refl refl

pub keep_pending-Advances :
    (wanted : ℕ) (d : Demuxer) (x : DemuxRead)
    → 0 < wanted
    → Advances d x
    → Advances d (keep_pending wanted x)
unfolding keep_pending
keep_pending-Advances wanted d x pos advances h =
    let (no_more, advanced) = advances h in
    (
      omega (arith, keep_pending_left wanted x),
      omega (arith, keep_pending_left wanted x, length-take wanted x.data_read),
    )

-- What is read is what was asked for, unless there is an error.
abbrev Filled : ℕ → DemuxRead → Type 0
Filled req x = (length x.data_read ≤ req) × (x.failure ≡ none → length x.data_read ≡ req)

read_loop-Filled :
    (fuel req : ℕ) (d : Demuxer) → req + left d < fuel → Filled req (read_loop fuel req d)
unfolding read_loop do_read read_more with_front keep_pending
read_loop-Filled zero req d h = absurd (omega arith)
read_loop-Filled (suc fuel) zero d h = (omega arith, λ e. refl)
read_loop-Filled (suc fuel) (suc req) d h =
    let x : DemuxRead = keep_pending (suc req) (next_pack_data d) in
    let advances : Advances d x =
      keep_pending-Advances (suc req) d (next_pack_data d) (omega arith)
        (next_pack_data-Advances d) in
    let fits : length x.data_read ≤ suc req =
      omega (arith, length-take (suc req) (next_pack_data d).data_read) in
    by_failure x fits advances (read_loop-Filled fuel) x.failure refl
  where
    by_failure :
        (x : DemuxRead)
        → length x.data_read ≤ suc req
        → Advances d x
        → ((req : ℕ) (d : Demuxer) → req + left d < fuel → Filled req (read_loop fuel req d))
        → (f : Option DemuxError) → x.failure ≡ f
        → Filled (suc req) (read_more (read_loop fuel) (suc req) x f)
    by_failure x fits advances rest (some e) same =
        (fits, λ fine. absurd (none-ne-some (sym fine ∙ same)))
    by_failure x fits advances rest none same =
        let (no_more, advanced) = advances same in
        let y : DemuxRead = read_loop fuel (suc req - length x.data_read) x.after in
        let (bound, filled) = rest (suc req - length x.data_read) x.after (omega arith) in
        (
          omega (arith, length-append x.data_read y.data_read),
          λ fine. omega (arith, length-append x.data_read y.data_read, filled fine),
        )

-- Over any reader, Read of a Demuxer ends: it returns no more than it is asked for, and fewer
-- bytes only with an error.
pub read-Filled :
    (req : ℕ) (d : Demuxer)
    → (length (read req d).data_read ≤ req)
      × ((length (read req d).data_read ≡ req)
          ⊎ ((e : DemuxError) × ((read req d).failure ≡ some e)))
unfolding read left
read-Filled req d =
    let x : DemuxRead = read_loop (suc (req + unread d.s.r)) req d in
    let (bound, filled) = read_loop-Filled (suc (req + unread d.s.r)) req d (omega arith) in
    elim (Option-cases x.failure) [
      | inl fine ↦ (bound, inl (filled fine))
      | inr (e, failed) ↦ (bound, inr (e, failed))
    ]
