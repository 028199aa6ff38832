-- ===== src/Sideband/Muxer.antt =====
-- plumbing/protocol/packp/sideband/muxer.go: pack data and messages, written in packets.
-- The mutex of a Muxer and the buffer that it uses again are left out.
use go_git.Prelude.{
  ℕ, zero, suc, ◌+◌, ◌-◌, [], ◌∷◌, ◌++◌, length, take, drop, min, Option, none, some,
}
use go_git.Prelude.Text.{Bytes}
use go_git.Prelude.Result.{Result, ok, err}
use go_git.Pktline.{Error, write, len_size}
use go_git.Sideband.{SidebandType, max_size_of, pack_data}

pub record Muxer : Type 0 where
  pub max : ℕ

abbrev pub ch_len : ℕ
ch_len = 1

unfoldable pub new_muxer : SidebandType → Muxer
new_muxer t = record { max = max_size_of t - len_size - ch_len }

-- A count, an error, and the bytes that the writer is given.
pub record MuxWrite : Type 0 where
  pub wrote : ℕ
  pub failure : Option Error
  pub out : Bytes

unfoldable pub done_write : ℕ → Result Error Bytes → MuxWrite
done_write sz (ok out) = record { wrote = sz; failure = none; out = out }
done_write sz (err e) = record { wrote = sz; failure = some e; out = [] }

unfoldable pub do_write : Muxer → ℕ → Bytes → MuxWrite
do_write m ch p = let sz = min (length p) m.max in done_write sz (write (ch ∷ take sz p))

unfoldable pub after_write : MuxWrite → MuxWrite → MuxWrite
after_write x y = record { wrote = x.wrote + y.wrote; failure = y.failure; out = x.out ++ y.out }

unfoldable pub write_more : (Bytes → MuxWrite) → Bytes → MuxWrite → Option Error → MuxWrite
write_more again p x (some e) = x
write_more again p x none = after_write x (again (drop x.wrote p))

-- The loop of `WriteChannel`, with the bytes to go.
unfoldable pub write_loop : ℕ → Muxer → ℕ → Bytes → MuxWrite
write_loop zero m ch p = record { wrote = 0; failure = none; out = [] }
write_loop (suc fuel) m ch [] = record { wrote = 0; failure = none; out = [] }
write_loop (suc fuel) m ch (c ∷ p) =
    let x = do_write m ch (c ∷ p) in write_more (write_loop fuel m ch) (c ∷ p) x x.failure

unfoldable pub write_channel : Muxer → ℕ → Bytes → MuxWrite
write_channel m t p = write_loop (length p) m t p

-- `Write`
unfoldable pub write_data : Muxer → Bytes → MuxWrite
write_data m p = write_channel m pack_data p
