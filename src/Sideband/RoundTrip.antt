-- ===== src/Sideband/RoundTrip.antt =====
-- What a Muxer wrote, read by a Demuxer of the same type.
use go_git.Prelude.{
  ℕ, ◌+◌, ◌≤◌, ◌<◌, ◌≡◌, refl, arith, List, [], ◌∷◌, ◌++◌, append_assoc, map, true, length, Option,
  none, some, All,
}
use go_git.Prelude.Text.{Bytes}
use go_git.Pktline.{write_flush, max_size}
use go_git.Pktline.Scanner.{new_scanner}
use go_git.Pktline.Scanner.Series.{length-zeros}
use go_git.Sideband.{
  SidebandType, sideband, sideband64k, max_size_of, eof, Progress, Demuxer, new_demuxer, read,
  progress_message, sanitize,
}
use go_git.Sideband.Muxer.{Muxer, new_muxer, MuxWrite, write_channel, write_data}
use go_git.Sideband.Carries.{Carries, ended, flushed, Logged, Holds}
use go_git.Sideband.Reads.{reads, after_reads, pieces, written_to, reads-Holds}
use go_git.Sideband.Chunks.{chunks_of, packs, progresses}

-- Calls of Write, and of WriteChannel for a progress message.
pub data Call : Type 0 where
  data_call : Bytes → Call
  progress_call : Bytes → Call

unfoldable pub call : Muxer → Call → MuxWrite
call m (data_call p) = write_data m p
call m (progress_call p) = write_channel m progress_message p

unfoldable pub written_by : Muxer → List Call → Bytes
written_by m [] = []
written_by m (c ∷ cs) = (call m c).out ++ written_by m cs

-- The data of the calls, and the pieces of their messages.
unfoldable pub data_of : List Call → Bytes
data_of [] = []
data_of (data_call p ∷ cs) = p ++ data_of cs
data_of (progress_call p ∷ cs) = data_of cs

unfoldable pub messages_of : ℕ → List Call → List Bytes
messages_of size [] = []
messages_of size (data_call p ∷ cs) = messages_of size cs
messages_of size (progress_call p ∷ cs) = chunks_of size p ++ messages_of size cs

abbrev pub Accepts : Option Progress → Type 0
Accepts none = Unit
Accepts (some w) = (before : List Bytes) (m : Bytes) → w.failure before m ≡ none

-- What a writer has been written in the end.
unfoldable pub with_messages : Option Progress → List Bytes → Option (List Bytes)
with_messages none messages = none
with_messages (some w) messages = some (w.written ++ map (λ m. sanitize m true) messages)

room :
    (t : SidebandType)
    → (max_size_of t ≡ (new_muxer t).max + 5)
      × (0 < (new_muxer t).max)
      × ((new_muxer t).max + 1 ≤ 65516)
unfolding max_size_of new_muxer
room sideband = (refl, omega arith, omega arith)
room sideband64k = (refl, omega arith, omega arith)

-- Behind a call comes a stream of what the other calls wrote.
written_by-Carries :
    (m : Muxer) (cs : List Call)
    → 0 < m.max
    → m.max + 1 ≤ 65516
    → Carries (m.max + 5) (written_by m cs ++ write_flush) (data_of cs) (messages_of m.max cs)
unfolding written_by data_of messages_of call write_data write_channel chunks_of
written_by-Carries m [] some_room fits = flushed
written_by-Carries m (data_call p ∷ cs) some_room fits =
    let (fine, count, carries) =
      packs m some_room fits (length p) p _ _ _ (omega arith)
        (written_by-Carries m cs some_room fits) in
    rw (append_assoc (write_channel m 1 p).out (written_by m cs) write_flush) carries
written_by-Carries m (progress_call p ∷ cs) some_room fits =
    let (fine, count, carries) =
      progresses m some_room fits (length p) p _ _ _ (omega arith)
        (written_by-Carries m cs some_room fits) in
    rw (append_assoc (write_channel m 2 p).out (written_by m cs) write_flush) carries

abbrev pub payload_of : Call → Bytes
payload_of (data_call p) = p
payload_of (progress_call p) = p

call_whole :
    (m : Muxer) (c : Call)
    → 0 < m.max
    → m.max + 1 ≤ 65516
    → ((call m c).failure ≡ none) × ((call m c).wrote ≡ length (payload_of c))
unfolding call write_data write_channel
call_whole m (data_call p) some_room fits =
    let (fine, count, carries) = packs m some_room fits (length p) p [] [] [] (omega arith) ended in
    (fine, count)
call_whole m (progress_call p) some_room fits =
    let (fine, count, carries) =
      progresses m some_room fits (length p) p [] [] [] (omega arith) ended in
    (fine, count)

calls_whole :
    (m : Muxer) (cs : List Call)
    → 0 < m.max
    → m.max + 1 ≤ 65516
    → All (λ c. ((call m c).failure ≡ none) × ((call m c).wrote ≡ length (payload_of c))) cs
calls_whole m [] some_room fits = tt
calls_whole m (c ∷ cs) some_room fits =
    (call_whole m c some_room fits, calls_whole m cs some_room fits)

Logged-start :
    (w : Option Progress) (messages : List Bytes)
    → Accepts w
    → Logged w messages (with_messages w messages)
unfolding with_messages
Logged-start none messages accepts = refl
Logged-start (some w) messages accepts = (accepts, refl)

new_demuxer-Holds :
    (t : SidebandType) (w : Option Progress) (cs : List Call)
    → Accepts w
    → let m : Muxer = new_muxer t in
      Holds
        (with_messages w (messages_of m.max cs))
        (new_demuxer t (some (written_by m cs ++ write_flush)) w)
        (data_of cs)
unfolding new_demuxer new_scanner
new_demuxer-Holds t w cs accepts =
    let m : Muxer = new_muxer t in
    let (same, some_room, fits) = room t in
    record {
      rest = written_by m cs ++ write_flush;
      ahead = data_of cs;
      messages = messages_of m.max cs;
      reader = refl;
      buffer = length-zeros max_size;
      split = refl;
      carries = rw (same) (written_by-Carries m cs some_room fits);
      logged = Logged-start w (messages_of m.max cs) accepts;
    }

-- Calls of Write, and of WriteChannel for progress, on a new Muxer each write all their bytes
-- without an error. Behind them and a flush packet, reads of any sizes by a new Demuxer of the
-- same type return the data of the calls in pieces of these sizes, with io.EOF where a read asks
-- for more than is left; a read of more bytes than there are in all ends in io.EOF, and then a
-- writer for the progress that accepts everything has been written the sanitized pieces of all
-- messages in their order.
pub reads-written_by :
    (t : SidebandType) (cs : List Call) (w : Option Progress) (ks : List ℕ) (k : ℕ)
    → Accepts w
    → length (data_of cs) < k
    → let m : Muxer = new_muxer t in
      let d : Demuxer = new_demuxer t (some (written_by m cs ++ write_flush)) w in
      All (λ c. ((call m c).failure ≡ none) × ((call m c).wrote ≡ length (payload_of c))) cs
      × (reads ks d ≡ pieces ks (data_of cs))
      × ((read k (after_reads ks d)).failure ≡ some eof)
      × (written_to (read k (after_reads ks d)).after.progress
          ≡ with_messages w (messages_of m.max cs))
reads-written_by t cs w ks k accepts more =
    let (same, some_room, fits) = room t in
    let (same_reads, ends, finished) =
      reads-Holds (with_messages w (messages_of (new_muxer t).max cs)) ks _ (data_of cs) k more
        (new_demuxer-Holds t w cs accepts) in
    (calls_whole (new_muxer t) cs some_room fits, same_reads, ends, finished)
