-- ===== src/Sideband/Reads.antt =====
-- Reads of any sizes, one after the other, against pieces of the pack data.
use go_git.Prelude.{
  ℕ, zero, suc, ◌+◌, ◌-◌, ◌≤◌, ◌<◌, ◌≡◌, refl, sym, subst, ap, ap₂, ◌∙◌, inl, inr, arith, List, [],
  ◌∷◌, ◌++◌, append-nil, false, leb, length, take, drop, length-drop, Option, none, some,
  none-ne-some,
}
use go_git.Prelude.Text.{Bytes}
use go_git.Pktline.Scanner.{unread}
use go_git.Sideband.{
  DemuxError, eof, Progress, Demuxer, DemuxRead, next_pack_data, keep_pending, do_read, with_front,
  read_more, read_loop, read,
}
use go_git.Sideband.Measure.{left, Advances, keep_pending-Advances, next_pack_data-Advances}
use go_git.Sideband.Carries.{Logged, Holds, next_pack_data-Gives}
use go_git.Sideband.Steps.{take_past, drop_past, end_of, end_of-past, Step, keep_pending-Step}

-- What a read returns and leaves.
abbrev Reads : Option (List Bytes) → ℕ → Bytes → DemuxRead → Type 0
Reads written req content x =
    (x.data_read ≡ take req content)
    × (x.failure ≡ end_of req content)
    × Holds written x.after (drop req content)
    × (x.failure ≡ some eof → Logged x.after.progress [] written)

module _ (written : Option (List Bytes)) where
  nothing_wanted :
      (d : Demuxer) (content : Bytes)
      → Holds written d content
      → Reads written 0 content (record { data_read = []; failure = none; after = d })
  unfolding end_of
  nothing_wanted d content holds = (refl, ground arith, holds, λ e. absurd (none-ne-some e))

  more_read :
      (again : ℕ → Demuxer → DemuxRead) (req : ℕ) (content later : Bytes) (x : DemuxRead)
      → x.failure ≡ none
      → content ≡ x.data_read ++ later
      → length x.data_read ≤ req
      → Reads written (req - length x.data_read) later (again (req - length x.data_read) x.after)
      → Reads written req content (read_more again req x x.failure)
  unfolding read_more with_front
  more_read again req content later x fine split fits (same_data, same_end, holds, logged) =
      let y : DemuxRead = again (req - length x.data_read) x.after in
      rw (fine) (
        ap (λ t. x.data_read ++ t) same_data
            ∙ sym (take_past req x.data_read later fits)
            ∙ ap (take req) (sym split),
        same_end ∙ end_of-past req x.data_read later fits ∙ ap (end_of req) (sym split),
        subst (Holds written y.after)
            (sym (drop_past req x.data_read later fits) ∙ ap (drop req) (sym split)) holds,
        logged,
      )

  nothing_left :
      (again : ℕ → Demuxer → DemuxRead) (req : ℕ) (content : Bytes) (x : DemuxRead)
      → x.failure ≡ some eof
      → x.data_read ≡ []
      → content ≡ []
      → Holds written x.after []
      → Logged x.after.progress [] written
      → Reads written (suc req) content (read_more again (suc req) x x.failure)
  unfolding read_more end_of
  nothing_left again req content x ends no_data no_content holds logged =
      let none_left : leb (suc req) 0 ≡ false = ground arith in
      rw (ends) (rw (no_content) (rw (none_left) (no_data, refl, holds, λ e. logged)))

  read_loop-Reads :
      (fuel req : ℕ) (d : Demuxer) (content : Bytes)
      → req + left d < fuel
      → Holds written d content
      → Reads written req content (read_loop fuel req d)
  unfolding read_loop do_read
  read_loop-Reads zero req d content h holds = absurd (omega arith)
  read_loop-Reads (suc fuel) zero d content h holds = nothing_wanted d content holds
  read_loop-Reads (suc fuel) (suc req) d content h holds =
      let x : DemuxRead = keep_pending (suc req) (next_pack_data d) in
      let advances : Advances d x =
        keep_pending-Advances (suc req) d (next_pack_data d) (omega arith)
          (next_pack_data-Advances d) in
      let step : Step written (suc req) content x =
        keep_pending-Step written (suc req) content (next_pack_data d)
          (next_pack_data-Gives written d content holds) in
      elim step [
        | inl (fine, later, split, fits, holds') ↦
            let (no_more, advanced) = advances fine in
            more_read (read_loop fuel) (suc req) content later x fine split fits (
              read_loop-Reads fuel (suc req - length x.data_read) x.after later (omega arith)
                holds')
        | inr (ends, no_data, no_content, holds', logged) ↦
            nothing_left (read_loop fuel) req content x ends no_data no_content holds' logged
      ]

  read-Reads :
      (req : ℕ) (d : Demuxer) (content : Bytes)
      → Holds written d content
      → Reads written req content (read req d)
  unfolding read left
  read-Reads req d content holds =
      read_loop-Reads (suc (req + unread d.s.r)) req d content (omega arith) holds

-- Reads of the sizes of a list, one after the other, and the demuxer after them.
unfoldable pub reads : List ℕ → Demuxer → List (Bytes × Option DemuxError)
reads [] d = []
reads (k ∷ ks) d = let x = read k d in (x.data_read, x.failure) ∷ reads ks x.after

unfoldable pub after_reads : List ℕ → Demuxer → Demuxer
after_reads [] d = d
after_reads (k ∷ ks) d = after_reads ks (read k d).after

-- The same on the data: pieces of these sizes, and io.EOF once there is less than a size.
unfoldable pub pieces : List ℕ → Bytes → List (Bytes × Option DemuxError)
pieces [] content = []
pieces (k ∷ ks) content = (take k content, end_of k content) ∷ pieces ks (drop k content)

-- The messages that were written, where there is a writer for them.
unfoldable pub written_to : Option Progress → Option (List Bytes)
written_to none = none
written_to (some w) = some w.written

Logged-written_to :
    (p : Option Progress) (written : Option (List Bytes))
    → Logged p [] written
    → written_to p ≡ written
unfolding written_to
Logged-written_to none written h = sym h
Logged-written_to (some w) written (accepts, sum) = ap some (sym (append-nil w.written)) ∙ sum

pub reads-Holds :
    (written : Option (List Bytes)) (ks : List ℕ) (d : Demuxer) (content : Bytes) (k : ℕ)
    → length content < k
    → Holds written d content
    → (reads ks d ≡ pieces ks content)
      × ((read k (after_reads ks d)).failure ≡ some eof)
      × (written_to (read k (after_reads ks d)).after.progress ≡ written)
unfolding reads after_reads pieces end_of
reads-Holds written [] d content k more holds =
    let (same_data, same_end, holds', logged) = read-Reads written k d content holds in
    let too_many : leb k (length content) ≡ false = ground arith in
    let ends : (read k d).failure ≡ some eof = same_end ∙ rw (too_many) refl in
    (refl, ends, Logged-written_to (read k d).after.progress written (logged ends))
reads-Holds written (j ∷ ks) d content k more holds =
    let (same_data, same_end, holds', logged) = read-Reads written j d content holds in
    let (same, ends, finished) =
      reads-Holds written ks (read j d).after (drop j content) k
        (omega (arith, length-drop j content)) holds' in
    (ap₂ (λ x xs. x ∷ xs) (ap₂ (λ bytes e. (bytes, e)) same_data same_end) same, ends, finished)
