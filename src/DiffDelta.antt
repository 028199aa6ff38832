-- ===== src/DiffDelta.antt =====
-- plumbing/format/packfile/diff_delta.go: a delta that makes a target from a base.
-- `none` is a panic of Go.
pub mod FindMatch
pub mod Ops
pub mod Rounds
pub mod RoundTrip
mod Examples
use go_git.Prelude.{
  ℕ, zero, suc, ◌+◌, ◌-◌, ◌/◌, List, [], ◌∷◌, ◌++◌, Bool, true, false, ltb, ◌==◌, if◌then◌else◌,
  length, take, drop, get_or, Option, none, some,
}
use go_git.Prelude.Partial.{◌>>=◌}
use go_git.Prelude.Text.{Bytes}
use go_git.Leb128.{encode_leb128}
use go_git.Delta.{max_copy_size}
use go_git.Delta.Encode.{encode_copy_operation, encode_insert_operation}
use go_git.DeltaIndex.{DeltaIndex, empty_index, Match, small_source, found, find_match}
use go_git.DeltaIndex.Build.{init}

-- The loop that copies a match in operations of `maxCopySize` at most.
unfoldable pub copy_loop : ℕ → ℕ → ℕ → Bytes → Bytes
copy_loop zero rl a_offset buf = buf
copy_loop (suc fuel) rl a_offset buf =
    let more =
      copy_loop fuel (rl - max_copy_size) (a_offset + max_copy_size)
        (buf ++ encode_copy_operation a_offset max_copy_size) in
    if rl == 0
    then buf
    else if ltb rl max_copy_size
    then buf ++ encode_copy_operation a_offset rl
    else more

-- The rest of the loop of `diffDelta`: from an index on, with the bytes to insert and the delta.
abbrev pub DiffNext : Type 0
DiffNext = ℕ → Bytes → Bytes → Option (Bytes × Bytes)

unfoldable pub by_match : DiffNext → Bytes → ℕ → Bytes → Bytes → Match → Option (Bytes × Bytes)
by_match next tgt i ibuf buf small_source = some (ibuf ++ drop i tgt, buf)
by_match next tgt i ibuf buf (found offset l) =
    if l == 0
    then next (suc i) (ibuf ++ get_or tgt i 0 ∷ []) buf
    else if ltb l 16
    then next (i + l) (ibuf ++ take l (drop i tgt)) buf
    else next (i + l) [] (copy_loop (suc l) l offset (encode_insert_operation ibuf buf))

unfoldable pub diff_loop :
    ℕ → DeltaIndex → Bytes → Bytes → ℕ → Bytes → Bytes → Option (Bytes × Bytes)
diff_loop zero idx src tgt i ibuf buf = some (ibuf, buf)
diff_loop (suc fuel) idx src tgt i ibuf buf =
    let round = (do
      m ← find_match idx src tgt i
      by_match (diff_loop fuel idx src tgt) tgt i ibuf buf m) in
    if ltb i (length tgt) then round else some (ibuf, buf)

unfoldable pub ready : DeltaIndex → Bytes → Option DeltaIndex
ready idx src = let fresh = init src in if length idx.entries == 0 then fresh else some idx

-- `diffDelta`: the delta, and the index after it. A round takes a byte of the target.
unfoldable pub diff_delta : DeltaIndex → Bytes → Bytes → Option (Bytes × DeltaIndex)
diff_delta index src tgt = do
  idx ← ready index src
  (ibuf, buf) ←
      diff_loop (length tgt) idx src tgt 0 []
        (encode_leb128 (length src) ++ encode_leb128 (length tgt))
  some (encode_insert_operation ibuf buf, idx)
