-- ===== src/FileMode/Canonical.antt =====
-- The modes that Git keeps, and their way through the file system.
use go_git.Prelude.{ℕ, ◌≡◌, refl, false, if_elim}
use go_git.FileMode.{regular, dir, executable, symlink, submodule, is_malformed, canonical}

-- What holds of the five modes that Git writes holds of every result.
canonical_elim :
    (P : ℕ → Type 0) (m : ℕ)
    → P executable
    → P regular
    → P symlink
    → P dir
    → P submodule
    → P (canonical m)
unfolding canonical
canonical_elim P m e r s d u = if_elim P _ (if_elim P _ e r) (if_elim P _ s (if_elim P _ d u))

-- The result of Canonical is never malformed, and Canonical returns it unchanged.
pub canonical-canonical :
    (m : ℕ) → (is_malformed (canonical m) ≡ false) × (canonical (canonical m) ≡ canonical m)
unfolding is_malformed canonical
canonical-canonical m =
    canonical_elim (λ x. (is_malformed x ≡ false) × (canonical x ≡ x)) m (refl, refl) (refl, refl)
      (refl, refl) (refl, refl) (refl, refl)
