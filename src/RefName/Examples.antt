-- ===== src/RefName/Examples.antt =====
-- Runs of the reference names, and the theorems at concrete inputs.
use go_git.Prelude.{◌≡◌, refl, true, false, [], ◌∷◌}
use go_git.Prelude.Text.{Bytes, codes}
use go_git.Prelude.Result.{ok, err}
use go_git.RefName.{
  invalid_reference_name, slash, split, push, is_safe, is_safe_part, is_safe_under, is_upper,
  is_root, is_under_refs, is_branch, is_tag, is_bad_part, is_control, is_peeled, validate,
  validate_parts, validate_branch_name, validate_tag_name, new_branch_reference_name,
  new_tag_reference_name, new_remote_reference_name,
}
use go_git.RefName.Safe.{validate-safe}
use go_git.RefName.Create.{new_names-safe}

split_in_three : split slash (codes "a//b") ≡ codes "a" ∷ [] ∷ codes "b" ∷ []
unfolding split push
split_in_three = refl

unsafe_name : is_safe (codes "refs/heads/../../config") ≡ false
unfolding is_safe is_safe_under is_safe_part split push
unsafe_name = refl

roots :
    (is_root (codes "ORIG_HEAD") ≡ true)
    × ((is_root (codes "CONFIG") ≡ false) × (is_safe (codes "CONFIG") ≡ true))
unfolding is_root is_upper is_safe is_safe_under
roots = (refl, (refl, refl))

at_sign_in_part : validate (codes "refs/heads/@") ≡ ok tt
unfolding validate validate_parts is_bad_part is_control split push
at_sign_in_part = refl

locked :
    validate (codes "refs/heads/a.lock") ≡ err (invalid_reference_name (codes "refs/heads/a.lock"))
unfolding validate validate_parts is_bad_part is_control split push
locked = refl

remote_name :
    new_remote_reference_name (codes "origin") (codes "main") ≡ codes "refs/remotes/origin/main"
unfolding new_remote_reference_name
remote_name = refl

peeled : is_peeled (codes "refs/tags/v1^{}") ≡ true
unfolding is_peeled
peeled = refl

under : is_under_refs (codes "refs/heads/@") ≡ true
unfolding is_under_refs
under = refl

validate-safe_example : is_safe (codes "refs/heads/@") ≡ true
validate-safe_example = validate-safe (codes "refs/heads/@") at_sign_in_part under

main_valid : validate_branch_name (codes "main") ≡ ok tt
unfolding validate_branch_name new_branch_reference_name validate validate_parts is_bad_part
    is_control split push
main_valid = refl

v1_valid : validate_tag_name (codes "v1") ≡ ok tt
unfolding validate_tag_name new_tag_reference_name validate validate_parts is_bad_part is_control
    split push
v1_valid = refl

new_names-safe_example :
    let b : Bytes = new_branch_reference_name (codes "main") in
    let t : Bytes = new_tag_reference_name (codes "v1") in
    ((validate b ≡ ok tt) × (is_branch b ≡ true) × (is_safe b ≡ true) × (is_root b ≡ false))
    × (validate t ≡ ok tt)
    × (is_tag t ≡ true)
    × (is_safe t ≡ true)
    × (is_root t ≡ false)
new_names-safe_example = new_names-safe (codes "main") (codes "v1") main_valid v1_valid
