-- ===== src/DiffDelta/Examples.antt =====
-- Runs of the delta search, and the theorem at a concrete input.
use go_git.Prelude.{◌≡◌, refl, inl, arith}
use go_git.Prelude.Partial.{Returns}
use go_git.Prelude.Text.{Bytes, codes}
use go_git.Prelude.Result.{ok}
use go_git.Delta.{patch_delta}
use go_git.DeltaIndex.{empty_index}
use go_git.DiffDelta.{diff_delta}
use go_git.DiffDelta.RoundTrip.{Fits, patch_delta-diff}

abbrev base : Bytes
base = codes "tree 0123456789abcdef0123456789abcdef"

abbrev target : Bytes
target = codes "commit 0123456789abcdef0123456789abcdef."

patch_delta-diff_example :
    Returns
      (λ (delta, idx). (patch_delta base delta ≡ ok target) × Fits base idx)
      (diff_delta empty_index base target)
patch_delta-diff_example =
    patch_delta-diff empty_index base target (omega arith) (omega arith) (omega arith) (inl refl)
