-- ===== src/Sideband/Chunks.antt =====
-- The packets that the muxer makes of one payload.
use go_git.Prelude.{
  ℕ, zero, suc, ◌+◌, ◌≤◌, ◌<◌, ◌≡◌, refl, sym, ap, ◌∙◌, arith, List, [], ◌∷◌, ◌++◌, append_assoc,
  length, take, drop, length-take, length-drop, take-append-drop, min, none, subst,
}
use go_git.Prelude.Text.{Bytes}
use go_git.Prelude.Result.{ok}
use go_git.Pktline.{write, ascii_hex16}
use go_git.Pktline.ReadBack.{write-suc}
use go_git.Sideband.Muxer.{Muxer, done_write, do_write, after_write, write_more, write_loop}
use go_git.Sideband.Carries.{Carries, packed, progressed}

-- The pieces of a payload, of a size at most.
unfoldable pub chunks : ℕ → ℕ → Bytes → List Bytes
chunks zero size p = []
chunks (suc fuel) size [] = []
chunks (suc fuel) size (c ∷ p) =
    take (min (length (c ∷ p)) size) (c ∷ p)
    ∷ chunks fuel size (drop (min (length (c ∷ p)) size) (c ∷ p))

unfoldable pub chunks_of : ℕ → Bytes → List Bytes
chunks_of size p = chunks (length p) size p

recast :
    (max : ℕ) (r r' ahead ahead' : Bytes) (messages : List Bytes)
    → r ≡ r'
    → ahead ≡ ahead'
    → Carries max r ahead messages
    → Carries max r' ahead' messages
recast max r r' ahead ahead' messages same_r same_ahead carries =
    subst (λ t. Carries max r' t messages) same_ahead
      (subst (λ t. Carries max t ahead messages) same_r carries)

module _ (m : Muxer) (some_room : 0 < m.max) (fits : m.max + 1 ≤ 65516) where
  do_write-ok :
      (ch c : ℕ) (p : Bytes)
      → let sz : ℕ = min (length (c ∷ p)) m.max in
        (out : Bytes) × (write (ch ∷ take sz (c ∷ p)) ≡ ok out)
        × (do_write m ch (c ∷ p) ≡ record { wrote = sz; failure = none; out = out })
  unfolding do_write done_write
  do_write-ok ch c p =
      let sz : ℕ = min (length (c ∷ p)) m.max in
      let chunk : Bytes = ch ∷ take sz (c ∷ p) in
      let written : write chunk ≡ ok (ascii_hex16 (length chunk + 4) ++ chunk) =
        write-suc chunk (omega arith) (omega (arith, length-take sz (c ∷ p))) in
      (_, written, ap (done_write sz) written)

  -- A payload of pack data, in front of a stream.
  pub packs :
      (fuel : ℕ) (p r ahead : Bytes) (messages : List Bytes)
      → length p ≤ fuel
      → Carries (m.max + 5) r ahead messages
      → ((write_loop fuel m 1 p).failure ≡ none)
        × ((write_loop fuel m 1 p).wrote ≡ length p)
        × Carries (m.max + 5) ((write_loop fuel m 1 p).out ++ r) (p ++ ahead) messages
  unfolding write_loop write_more after_write
  packs zero [] r ahead messages h carries = (refl, refl, carries)
  packs zero (c ∷ p) r ahead messages h carries = absurd (omega arith)
  packs (suc fuel) [] r ahead messages h carries = (refl, refl, carries)
  packs (suc fuel) (c ∷ p) r ahead messages h carries =
      let sz : ℕ = min (length (c ∷ p)) m.max in
      let (out, written, done) = do_write-ok 1 c p in
      let front : Bytes = take sz (c ∷ p) in
      let rest : Bytes = drop sz (c ∷ p) in
      let (fine, count, behind) =
        packs fuel rest r ahead messages (omega (arith, length-drop sz (c ∷ p))) carries in
      let more : Bytes = (write_loop fuel m 1 rest).out in
      rw (done) (
        fine,
        omega (arith, length-drop sz (c ∷ p)),
        recast _ _ _ _ _ messages (sym (append_assoc out more r))
            (sym (append_assoc front rest ahead)
              ∙ ap (λ t. t ++ ahead) (take-append-drop sz (c ∷ p)))
            (packed front out (more ++ r) (rest ++ ahead) messages written
              (omega (arith, length-take sz (c ∷ p))) behind),
      )

  -- A progress message, in front of a stream: its pieces are messages.
  pub progresses :
      (fuel : ℕ) (p r ahead : Bytes) (messages : List Bytes)
      → length p ≤ fuel
      → Carries (m.max + 5) r ahead messages
      → ((write_loop fuel m 2 p).failure ≡ none)
        × ((write_loop fuel m 2 p).wrote ≡ length p)
        × Carries
            (m.max + 5)
            ((write_loop fuel m 2 p).out ++ r)
            ahead
            (chunks fuel m.max p ++ messages)
  unfolding write_loop write_more after_write chunks
  progresses zero [] r ahead messages h carries = (refl, refl, carries)
  progresses zero (c ∷ p) r ahead messages h carries = absurd (omega arith)
  progresses (suc fuel) [] r ahead messages h carries = (refl, refl, carries)
  progresses (suc fuel) (c ∷ p) r ahead messages h carries =
      let sz : ℕ = min (length (c ∷ p)) m.max in
      let (out, written, done) = do_write-ok 2 c p in
      let front : Bytes = take sz (c ∷ p) in
      let rest : Bytes = drop sz (c ∷ p) in
      let (fine, count, behind) =
        progresses fuel rest r ahead messages (omega (arith, length-drop sz (c ∷ p))) carries in
      let more : Bytes = (write_loop fuel m 2 rest).out in
      rw (done) (
        fine,
        omega (arith, length-drop sz (c ∷ p)),
        recast _ _ _ _ _ _ (sym (append_assoc out more r)) refl (
            progressed front out (more ++ r) ahead (chunks fuel m.max rest ++ messages) written
              (omega (arith, length-take sz (c ∷ p))) behind),
      )
