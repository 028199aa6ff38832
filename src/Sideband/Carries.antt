-- ===== src/Sideband/Carries.antt =====
-- A demuxer over a stream that carries pack data and progress messages, one packet at a time.
use go_git.Prelude.{
  ℕ, ◌+◌, ◌≤◌, ◌≡◌, refl, sym, ap, ◌∙◌, inl, inr, ◌⊎◌, arith, List, [], ◌∷◌, ◌++◌, map,
  append_assoc, append-nil, Bool, true, false, ltb, ◌==◌, length, Option, none, some,
}
use go_git.Prelude.Text.{Bytes}
use go_git.Prelude.Result.{ok}
use go_git.Pktline.{write, write_flush, max_size}
use go_git.Pktline.Scanner.{Scanner, scan, text}
use go_git.Pktline.Scanner.Series.{at, scan-write, scan-write_flush, scan-end}
use go_git.Sideband.{
  eof, Progress, Demuxer, DemuxRead, write_failed, write_progress, by_channel, by_length, stopped,
  after_scan, take_pending, next_pack_data, sanitize,
}

-- A reader's bytes, the pack data in them and the progress messages, up to a flush packet or the end.
pub data Carries (max : ℕ) : Bytes → Bytes → List Bytes → Type 0 where
  ended : Carries max [] [] []
  flushed : Carries max write_flush [] []
  packed :
      (p out r ahead : Bytes) (messages : List Bytes)
      → write (1 ∷ p) ≡ ok out
      → length p + 5 ≤ max
      → Carries max r ahead messages
      → Carries max (out ++ r) (p ++ ahead) messages
  progressed :
      (p out r ahead : Bytes) (messages : List Bytes)
      → write (2 ∷ p) ≡ ok out
      → length p + 5 ≤ max
      → Carries max r ahead messages
      → Carries max (out ++ r) ahead (p ∷ messages)

-- A writer for the progress that accepts everything will have been written all, once the messages
-- to come are.
abbrev pub Logged : Option Progress → List Bytes → Option (List Bytes) → Type 0
Logged none messages written = written ≡ none
Logged (some w) messages written =
    ((before : List Bytes) (m : Bytes) → w.failure before m ≡ none)
    × (some (w.written ++ map (λ m. sanitize m true) messages) ≡ written)

-- A demuxer that has some data to give, and in the end has written some messages.
pub record Holds (written : Option (List Bytes)) (d : Demuxer) (content : Bytes) : Type 0 where
  pub rest : Bytes
  pub ahead : Bytes
  pub messages : List Bytes
  pub reader : d.s.r ≡ some rest
  pub buffer : length d.s.buf ≡ max_size
  pub split : content ≡ d.pending ++ ahead
  pub carries : Carries d.max rest ahead messages
  pub logged : Logged d.progress messages written

-- The next data is the front of it; or there is none, and everything was written.
abbrev pub Gives : Option (List Bytes) → Bytes → DemuxRead → Type 0
Gives written content x =
    ((x.failure ≡ none)
      × (x.after.pending ≡ [])
      × (later : Bytes) × (content ≡ x.data_read ++ later)
      × Holds written x.after later)
    ⊎ ((x.failure ≡ some eof)
        × (x.data_read ≡ [])
        × (content ≡ [])
        × (x.after.pending ≡ [])
        × Holds written x.after []
        × Logged x.after.progress [] written)

by_length-content :
    (d : Demuxer) (content : Bytes)
    → text d.s ≡ content
    → length content + 4 ≤ d.max
    → by_length d (some (length content + 4)) ≡ by_channel d content
unfolding by_length
by_length-content d content is_text fits =
    let no_flush : (length content + 4 == 0) ≡ false = ground arith in
    let within : ltb d.max (length content + 4) ≡ false = ground arith in
    rw (no_flush) (rw (within) (ap (by_channel d) is_text))

module _ (written : Option (List Bytes)) (d : Demuxer) (no_pending : d.pending ≡ []) where
  at_reader :
      (rest : Bytes) (x : Bool × Scanner)
      → d.s.r ≡ some rest
      → scan (at d.s.err d.s.n d.s.buf rest) ≡ x
      → after_scan d (scan d.s) ≡ after_scan d x
  at_reader rest x reader h =
      let opened : d.s ≡ at d.s.err d.s.n d.s.buf rest = ap (λ r. record d.s { r = r }) reader in
      ap (after_scan d) (ap scan opened ∙ h)

  -- The same demuxer, once its scanner is behind a packet.
  Holds-behind :
      (n : Option ℕ) (b rest ahead : Bytes) (messages : List Bytes) (p : Option Progress)
      → length b ≡ max_size
      → Carries d.max rest ahead messages
      → Logged p messages written
      → Holds written (record d { s = at none n b rest; progress = p }) ahead
  Holds-behind n b rest ahead messages p size carries logged = record {
    rest = rest;
    ahead = ahead;
    messages = messages;
    reader = refl;
    buffer = size;
    split = ap (λ t. t ++ ahead) (sym no_pending);
    carries = carries;
    logged = logged;
  }

  packed-Gives :
      (n : Option ℕ) (b p rest ahead : Bytes) (messages : List Bytes)
      → length b ≡ max_size
      → Carries d.max rest ahead messages
      → Logged d.progress messages written
      → Gives written (p ++ ahead) (by_channel (record d { s = at none n b rest }) (1 ∷ p))
  unfolding by_channel
  packed-Gives n b p rest ahead messages size carries logged = inl (
    refl,
    no_pending,
    ahead,
    refl,
    Holds-behind n b rest ahead messages d.progress size carries logged,
  )

  progressed-Gives :
      (n : Option ℕ) (b p rest ahead : Bytes) (messages : List Bytes)
      → length b ≡ max_size
      → Carries d.max rest ahead messages
      → Logged d.progress (p ∷ messages) written
      → Gives written ahead (by_channel (record d { s = at none n b rest }) (2 ∷ p))
  unfolding by_channel write_progress write_failed
  progressed-Gives n b p rest ahead messages size carries logged = by_writer d.progress refl logged
    where
      m : Bytes
      m = sanitize p true

      by_writer :
          (o : Option Progress)
          → d.progress ≡ o
          → Logged o (p ∷ messages) written
          → Gives written ahead (write_progress m (record d { s = at none n b rest }) o)
      by_writer none same logged = inl (
        refl,
        no_pending,
        ahead,
        refl,
        Holds-behind n b rest ahead messages d.progress size carries (rw (same) logged),
      )
      by_writer (some w) same (accepts, sum) = inl (
        ap write_failed (accepts w.written m),
        no_pending,
        ahead,
        refl,
        Holds-behind n b rest ahead messages _ size carries (
          accepts,
          ap some (append_assoc w.written (m ∷ []) (map (λ t. sanitize t true) messages)) ∙ sum,
        ),
      )

  by_carried :
      (rest ahead : Bytes) (messages : List Bytes)
      → d.s.r ≡ some rest
      → length d.s.buf ≡ max_size
      → Logged d.progress messages written
      → Carries d.max rest ahead messages
      → Gives written ahead (after_scan d (scan d.s))
  unfolding after_scan by_length stopped
  by_carried _ _ _ reader buffer logged ended =
      let ends = scan-end d.s.buf d.s.err d.s.n (omega arith) in
      rw (at_reader [] _ reader ends) (
        inr (
          refl,
          refl,
          refl,
          no_pending,
          Holds-behind none d.s.buf [] [] [] d.progress buffer ended logged,
          logged,
        ))
  by_carried _ _ _ reader buffer logged flushed =
      let (b, size, flushes) = scan-write_flush [] d.s.buf d.s.err d.s.n buffer in
      rw
        (at_reader _ _ reader
          (ap (λ t. scan (at d.s.err d.s.n d.s.buf t)) (sym (append-nil write_flush)) ∙ flushes))
        (inr (
          refl,
          refl,
          refl,
          no_pending,
          Holds-behind (some 0) b [] [] [] d.progress size ended logged,
          logged,
        ))
  by_carried _ _ _ reader buffer logged (packed p out r ahead messages h fits carries) =
      let (b, size, scans, is_text) =
        scan-write (1 ∷ p) out r d.s.buf d.s.err d.s.n h refl buffer in
      let n : Option ℕ = some (length p + 5) in
      rw (at_reader _ _ reader scans) (
        rw
          (by_length-content (record d { s = at none (some (length (1 ∷ p) + 4)) b r }) (1 ∷ p)
            is_text (omega arith))
          (packed-Gives _ b p r ahead messages size carries logged))
  by_carried _ _ _ reader buffer logged (progressed p out r ahead messages h fits carries) =
      let (b, size, scans, is_text) =
        scan-write (2 ∷ p) out r d.s.buf d.s.err d.s.n h refl buffer in
      rw (at_reader _ _ reader scans) (
        rw
          (by_length-content (record d { s = at none (some (length (2 ∷ p) + 4)) b r }) (2 ∷ p)
            is_text (omega arith))
          (progressed-Gives _ b p r ahead messages size carries logged))

pub next_pack_data-Gives :
    (written : Option (List Bytes)) (d : Demuxer) (content : Bytes)
    → Holds written d content
    → Gives written content (next_pack_data d)
unfolding next_pack_data take_pending
next_pack_data-Gives written d content holds = by_pending d.pending refl
  where
    by_pending :
        (pending : Bytes) → d.pending ≡ pending → Gives written content (take_pending d pending)
    by_pending [] same =
        let all_ahead : content ≡ holds.ahead = holds.split ∙ ap (λ t. t ++ holds.ahead) same in
        rw (all_ahead) (
          by_carried written d same holds.rest holds.ahead holds.messages holds.reader holds.buffer
            holds.logged holds.carries)
    by_pending (c ∷ more) same = inl (
      refl,
      refl,
      holds.ahead,
      holds.split ∙ ap (λ t. t ++ holds.ahead) same,
      record {
        rest = holds.rest;
        ahead = holds.ahead;
        messages = holds.messages;
        reader = holds.reader;
        buffer = holds.buffer;
        split = refl;
        carries = holds.carries;
        logged = holds.logged;
      },
    )
