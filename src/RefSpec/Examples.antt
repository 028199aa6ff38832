-- ===== src/RefSpec/Examples.antt =====
-- Runs of the refspecs, and the theorems at concrete inputs.
use go_git.Prelude.{◌≡◌, refl, true, [], ◌∷◌, ◌++◌, none, some}
use go_git.Prelude.Text.{Bytes, codes}
use go_git.Prelude.Partial.{◌>>=◌}
use go_git.Prelude.Result.{ok, err}
use go_git.RefSpec.{
  wildcard, malformed_separator, malformed_wildcard, count, index, index_next, slice, validate,
  validate_at, is_force_update, is_delete, src, is_wildcard, match, match_exact, match_glob,
  match_any, dst, reverse,
}
use go_git.RefSpec.Parts.{Free, IsSource, render}
use go_git.RefSpec.Reverse.{match-dst, dst-reverse}

abbrev heads : Bytes
heads = codes "refs/heads/"

abbrev remotes : Bytes
remotes = codes "refs/remotes/origin/"

abbrev fetch : Bytes
fetch = codes "+refs/heads/*:refs/remotes/origin/*"

fetch_valid : validate fetch ≡ ok tt
unfolding validate validate_at count index index_next
fetch_valid = refl

one_wildcard : validate (codes "refs/heads/*:refs/heads/main") ≡ err malformed_wildcard
unfolding validate validate_at count index index_next
one_wildcard = refl

no_destination : validate (codes "refs/heads/main:") ≡ err malformed_separator
unfolding validate validate_at count index index_next
no_destination = refl

fetch_matches : match_any (fetch ∷ []) (codes "refs/heads/main") ≡ some true
unfolding match_any match match_glob match_exact src slice is_wildcard is_force_update index
    index_next
fetch_matches = refl

nothing_forced : is_force_update [] ≡ none
unfolding is_force_update
nothing_forced = refl

deletes : is_delete (codes ":refs/heads/main") ≡ some true
unfolding is_delete
deletes = refl

-- What the theorems ask of the two sides of `fetch`.
heads-IsSource : IsSource true (heads ++ wildcard ∷ [])
heads-IsSource = (
  refl,
  (refl, (refl, (refl, (refl, (refl, (refl, (refl, (refl, (refl, (refl, (refl, tt))))))))))),
)

remotes-IsSource : IsSource true (remotes ++ wildcard ∷ [])
remotes-IsSource = (
  refl,
  (
    refl,
    (
      refl,
      (
        refl,
        (
          refl,
          (
            refl,
            (
              refl,
              (
                refl,
                (
                  refl,
                  (
                    refl,
                    (
                      refl,
                      (
                        refl,
                        (refl, (refl, (refl, (refl, (refl, (refl, (refl, (refl, (refl, tt))))))))),
                      ),
                    ),
                  ),
                ),
              ),
            ),
          ),
        ),
      ),
    ),
  ),
)

heads-Free : Free wildcard heads
heads-Free =
    (refl, (refl, (refl, (refl, (refl, (refl, (refl, (refl, (refl, (refl, (refl, tt)))))))))))

remotes-Free : Free wildcard remotes
remotes-Free = (
  refl,
  (
    refl,
    (
      refl,
      (
        refl,
        (
          refl,
          (
            refl,
            (
              refl,
              (
                refl,
                (
                  refl,
                  (
                    refl,
                    (
                      refl,
                      (refl, (refl, (refl, (refl, (refl, (refl, (refl, (refl, (refl, tt))))))))),
                    ),
                  ),
                ),
              ),
            ),
          ),
        ),
      ),
    ),
  ),
)

match-dst_example :
    let spec : Bytes = render true (heads ++ wildcard ∷ []) (remotes ++ wildcard ∷ []) in
    (match spec (heads ++ (codes "main" ++ [])) ≡ some true)
    × (dst spec (heads ++ (codes "main" ++ [])) ≡ some (remotes ++ codes "main" ++ []))
match-dst_example =
    match-dst true heads [] remotes [] (codes "main") heads-IsSource heads-Free remotes-Free

dst-reverse_example :
    (dst
        (render true (heads ++ wildcard ∷ []) (remotes ++ wildcard ∷ []))
        (heads ++ (codes "main" ++ []))
      >>= dst (reverse (render true (heads ++ wildcard ∷ []) (remotes ++ wildcard ∷ []))))
    ≡ some (heads ++ (codes "main" ++ []))
dst-reverse_example =
    dst-reverse true heads [] remotes [] (codes "main") heads-IsSource remotes-IsSource heads-Free
      remotes-Free
