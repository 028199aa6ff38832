-- ===== src/Sideband/Examples.antt =====
-- Runs of the muxer and the demuxer, and the theorems at concrete inputs.
use go_git.Prelude.{
  ◌≤◌, ◌<◌, ◌≡◌, ◌⊎◌, refl, arith, List, [], ◌∷◌, ◌++◌, true, false, length, none, some, All,
}
use go_git.Prelude.Text.{codes}
use go_git.Pktline.{write_flush}
use go_git.Sideband.{
  DemuxError, sideband, eof, Progress, Demuxer, new_demuxer, read, sanitize, sanitize_from, is_kept,
  masked, caret, color_sequence_len, color_loop,
}
use go_git.Sideband.Muxer.{new_muxer}
use go_git.Sideband.Sanitize.{Clean, nothing, plain, colored, sanitize-Clean}
use go_git.Sideband.Measure.{read-Filled}
use go_git.Sideband.Reads.{reads, after_reads, pieces, written_to}
use go_git.Sideband.RoundTrip.{
  Call, data_call, progress_call, call, written_by, data_of, messages_of, payload_of, with_messages,
  reads-written_by,
}

-- A color passes, a cursor movement and a bell do not, and a carriage return only where it is kept.
colors :
    sanitize (27 ∷ codes "[1;31mred" ++ 27 ∷ codes "[2J" ++ 7 ∷ 13 ∷ []) false
    ≡ 27 ∷ codes "[1;31mred^[[2J^G^M"
unfolding sanitize sanitize_from is_kept masked caret color_sequence_len color_loop
colors = refl

redrawn : sanitize (13 ∷ codes "50%") true ≡ 13 ∷ codes "50%"
unfolding sanitize sanitize_from is_kept
redrawn = refl

abbrev terminal : Progress
terminal = record { written = []; failure = λ before m. none }

abbrev two_calls : List Call
two_calls = data_call (codes "PACK") ∷ progress_call (codes "done") ∷ []

abbrev demuxer : Demuxer
demuxer =
    new_demuxer sideband (some (written_by (new_muxer sideband) two_calls ++ write_flush))
      (some terminal)

four_bytes : length (data_of two_calls) < 5
unfolding data_of
four_bytes = omega arith

reads-written_by_example :
    All
      (λ c.
        ((call (new_muxer sideband) c).failure ≡ none)
        × ((call (new_muxer sideband) c).wrote ≡ length (payload_of c)))
      two_calls
    × (reads (3 ∷ 3 ∷ []) demuxer ≡ pieces (3 ∷ 3 ∷ []) (data_of two_calls))
    × ((read 5 (after_reads (3 ∷ 3 ∷ []) demuxer)).failure ≡ some eof)
    × (written_to (read 5 (after_reads (3 ∷ 3 ∷ []) demuxer)).after.progress
        ≡ with_messages (some terminal) (messages_of (new_muxer sideband).max two_calls))
reads-written_by_example =
    reads-written_by sideband two_calls (some terminal) (3 ∷ 3 ∷ []) 5 (λ before m. refl) four_bytes

read-Filled_example :
    (length (read 3 demuxer).data_read ≤ 3)
    × ((length (read 3 demuxer).data_read ≡ 3)
        ⊎ ((e : DemuxError) × ((read 3 demuxer).failure ≡ some e)))
read-Filled_example = read-Filled 3 demuxer

red : Clean false (27 ∷ codes "[1;31mred")
red =
    colored (codes "1;31") (codes "red") (refl, (refl, (refl, (refl, tt))))
      (plain 114 _ (ground arith) (plain 101 _ (ground arith) (plain 100 _ (ground arith) nothing)))

sanitize-Clean_example :
    Clean false (sanitize (27 ∷ codes "[2J") false)
    × (sanitize (27 ∷ codes "[1;31mred") false ≡ 27 ∷ codes "[1;31mred")
sanitize-Clean_example = sanitize-Clean (27 ∷ codes "[2J") (27 ∷ codes "[1;31mred") false red
