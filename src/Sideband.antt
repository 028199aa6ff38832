-- ===== src/Sideband.antt =====
-- plumbing/protocol/packp/sideband: pack data, progress and errors over one series of packet lines.
-- The tests on a Go slice that is nil or empty are tests on the empty list. The Muxer
-- is in Sideband/Muxer.antt.
pub mod Muxer
pub mod Sanitize
pub mod Measure
pub mod Carries
pub mod Steps
pub mod Reads
pub mod Chunks
pub mod RoundTrip
mod Examples
use go_git.Prelude.{
  ℕ, zero, suc, ◌+◌, ◌-◌, ◌%◌, List, [], ◌∷◌, ◌++◌, Bool, true, false, not, ◌&&◌, ◌||◌, ltb, leb,
  ◌==◌, if◌then◌else◌, length, take, drop, get_or, min, Option, none, some,
}
use go_git.Prelude.Text.{Bytes}
use go_git.Prelude.Result.{Result, ok, err}
use go_git.Pktline.{Error, write, flush, len_size}
use go_git.Pktline.Scanner.{Scanner, ScanError, new_scanner, scan, text, unread}

-- `Type`, of which `Sideband64k` is 1 and `Sideband` is 0.
pub data SidebandType : Type 0 where
  sideband : SidebandType
  sideband64k : SidebandType

abbrev pub max_packed_size : ℕ
max_packed_size = 1000

abbrev pub max_packed_size64k : ℕ
max_packed_size64k = 65520

abbrev pub pack_data : ℕ
pack_data = 1

abbrev pub progress_message : ℕ
progress_message = 2

abbrev pub error_message : ℕ
error_message = 3

unfoldable pub max_size_of : SidebandType → ℕ
max_size_of sideband = max_packed_size
max_size_of sideband64k = max_packed_size64k

-- `colorSequenceLen`, from the index i on.
unfoldable pub color_loop : ℕ → Bytes → ℕ
color_loop i [] = 0
color_loop i (c ∷ b) =
    let rest = color_loop (suc i) b in
    if c == 109 then suc i else if leb 48 c && leb c 57 || c == 58 || c == 59 then rest else 0

unfoldable pub color_sequence_len : Bytes → ℕ
color_sequence_len b =
    if ltb (length b) 3 || not (get_or b 0 0 == 27) || not (get_or b 1 0 == 91)
    then 0
    else color_loop 2 (drop 2 b)

unfoldable pub is_kept : Bool → ℕ → Bool
is_kept keep_cr c = c == 9 || c == 10 || c == 13 && keep_cr || leb 0x20 c && not (c == 0x7f)

unfoldable pub caret : ℕ → Bytes
caret c = if c == 0x7f then 94 ∷ 63 ∷ [] else 94 ∷ (c + 0x40) % 256 ∷ []

-- A control byte, by the length of the color sequence that it starts.
unfoldable pub masked : (ℕ → Bytes) → ℕ → ℕ → Bytes
masked next c zero = caret c ++ next 0
masked next c (suc n) = c ∷ next n

-- `sanitize`, where the next bytes of the message belong to a color sequence.
unfoldable pub sanitize_from : Bool → ℕ → Bytes → Bytes
sanitize_from keep_cr n [] = []
sanitize_from keep_cr (suc n) (c ∷ message) = c ∷ sanitize_from keep_cr n message
sanitize_from keep_cr zero (c ∷ message) =
    if is_kept keep_cr c
    then c ∷ sanitize_from keep_cr 0 message
    else masked (λ n. sanitize_from keep_cr n message) c (color_sequence_len (c ∷ message))

unfoldable pub sanitize : Bytes → Bool → Bytes
sanitize message keep_cr = sanitize_from keep_cr 0 message

pub data DemuxError : Type 0 where
  eof : DemuxError
  max_packed_exceeded : DemuxError
  invalid_pktline : Option ℕ → Bytes → DemuxError
  unexpected_error : Bytes → DemuxError
  unknown_channel : Bytes → DemuxError
  scan_failed : ScanError → DemuxError
  progress_failed : Bytes → DemuxError

-- An io.Writer: what was written to it, and the text of the error of the next write, if any.
pub record Progress : Type 0 where
  pub written : List Bytes
  pub failure : List Bytes → Bytes → Option Bytes

pub record Demuxer : Type 0 where
  pub t : SidebandType
  pub s : Scanner
  pub max : ℕ
  pub pending : Bytes
  pub progress : Option Progress

unfoldable pub new_demuxer : SidebandType → Option Bytes → Option Progress → Demuxer
new_demuxer t r progress = record {
  t = t;
  s = new_scanner r;
  max = max_size_of t;
  pending = [];
  progress = progress;
}

-- Bytes, an error, and the demuxer after the call.
pub record DemuxRead : Type 0 where
  pub data_read : Bytes
  pub failure : Option DemuxError
  pub after : Demuxer

abbrev pub fails : DemuxError → Demuxer → DemuxRead
fails e d = record { data_read = []; failure = some e; after = d }

unfoldable pub write_failed : Option Bytes → Option DemuxError
write_failed none = none
write_failed (some e) = some (progress_failed e)

unfoldable pub write_progress : Bytes → Demuxer → Option Progress → DemuxRead
write_progress message d none = record { data_read = []; failure = none; after = d }
write_progress message d (some w) = record {
  data_read = [];
  failure = write_failed (w.failure w.written message);
  after = record d { progress = some (record w { written = w.written ++ message ∷ [] }) };
}

unfoldable pub by_channel : Demuxer → Bytes → DemuxRead
by_channel d [] = fails (invalid_pktline d.s.n []) d
by_channel d (ch ∷ content) =
    if ch == pack_data
    then record { data_read = content; failure = none; after = d }
    else if ch == progress_message
    then write_progress (sanitize content true) d d.progress
    else if ch == error_message
    then fails (unexpected_error (sanitize content false)) d
    else fails (unknown_channel (sanitize (ch ∷ content) false)) d

unfoldable pub by_length : Demuxer → Option ℕ → DemuxRead
by_length d none = by_channel d (text d.s)
by_length d (some l) =
    if l == flush
    then fails eof d
    else if ltb d.max l
    then fails max_packed_exceeded d
    else by_channel d (text d.s)

-- Err of a scanner that has stopped.
unfoldable pub stopped : Option ScanError → DemuxError
stopped none = eof
stopped (some e) = scan_failed e

unfoldable pub after_scan : Demuxer → Bool × Scanner → DemuxRead
after_scan d (false, s) = fails (stopped s.err) (record d { s = s })
after_scan d (true, s) = by_length (record d { s = s }) s.n

unfoldable pub take_pending : Demuxer → Bytes → DemuxRead
take_pending d [] = after_scan d (scan d.s)
take_pending d (c ∷ content) = record {
  data_read = c ∷ content;
  failure = none;
  after = record d { pending = [] };
}

unfoldable pub next_pack_data : Demuxer → DemuxRead
next_pack_data d = take_pending d d.pending

-- What of the data fits is read, and the rest is pending.
unfoldable pub keep_pending : ℕ → DemuxRead → DemuxRead
keep_pending wanted x = record {
  data_read = take wanted x.data_read;
  failure = x.failure;
  after =
      if ltb wanted (length x.data_read)
      then record x.after { pending = drop wanted x.data_read }
      else x.after;
}

unfoldable pub do_read : ℕ → Demuxer → DemuxRead
do_read wanted d = keep_pending wanted (next_pack_data d)

unfoldable pub with_front : Bytes → DemuxRead → DemuxRead
with_front front x = record x { data_read = front ++ x.data_read }

unfoldable pub read_more : (ℕ → Demuxer → DemuxRead) → ℕ → DemuxRead → Option DemuxError → DemuxRead
read_more again req x (some e) = x
read_more again req x none = with_front x.data_read (again (req - length x.data_read) x.after)

-- The loop of `Read`, with the bytes to go.
unfoldable pub read_loop : ℕ → ℕ → Demuxer → DemuxRead
read_loop zero req d = record { data_read = []; failure = none; after = d }
read_loop (suc fuel) zero d = record { data_read = []; failure = none; after = d }
read_loop (suc fuel) (suc req) d =
    let x = do_read (suc req) d in read_more (read_loop fuel) (suc req) x x.failure

-- `Read` of a buffer of req bytes. A round reads a byte or takes a packet off the reader.
unfoldable pub read : ℕ → Demuxer → DemuxRead
read req d = read_loop (suc (req + unread d.s.r)) req d
