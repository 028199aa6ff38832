-- ===== src/RefName/Create.antt =====
-- Names for new branches and tags, and the root references.
use go_git.Prelude.{
  ◌≡◌, refl, sym, ◌∙◌, inl, inr, ◌++◌, true, false, ◌||◌, Bool-cases, Option-cases, subst,
}
use go_git.Prelude.Text.{Bytes, codes, same, cut_prefix, has_prefix}
use go_git.Prelude.Result.{ok, err, err-ne-ok}
use go_git.RefName.{
  invalid_reference_name, ref_prefix, ref_head_prefix, new_branch_reference_name,
  new_tag_reference_name, is_branch, is_tag, is_under_refs, is_safe, is_root, is_upper, validate,
  validate_branch_name, validate_tag_name,
}
use go_git.RefName.Split.{cut_prefix-append}
use go_git.RefName.Safe.{validate-safe}
use mathlib.Core.Bool.{true≢false}

branch_made :
    (name : Bytes)
    → (is_branch (new_branch_reference_name name) ≡ true)
      × (is_under_refs (new_branch_reference_name name) ≡ true)
unfolding is_branch is_under_refs new_branch_reference_name
branch_made name = (refl, refl)

tag_made :
    (name : Bytes)
    → (is_tag (new_tag_reference_name name) ≡ true)
      × (is_under_refs (new_tag_reference_name name) ≡ true)
unfolding is_tag is_under_refs new_tag_reference_name
tag_made name = (refl, refl)

validate_branch_name-safe :
    (name : Bytes)
    → validate_branch_name name ≡ ok tt
    → let r : Bytes = new_branch_reference_name name in
      (validate r ≡ ok tt) × ((is_branch r ≡ true) × (is_safe r ≡ true))
unfolding validate_branch_name
validate_branch_name-safe name h =
    elim (Bool-cases (
      has_prefix name (codes "-")
      || same (new_branch_reference_name name) (ref_head_prefix ++ codes "HEAD"))) [
        | inl bad ↦
            let refused : validate_branch_name name
                ≡ err (invalid_reference_name (new_branch_reference_name name)) =
              rw (bad) refl in
            absurd (err-ne-ok (sym refused ∙ h))
        | inr good ↦
            let valid : validate (new_branch_reference_name name) ≡ ok tt =
              let on : validate_branch_name name ≡ validate (new_branch_reference_name name) =
                rw (good) refl in
              sym on ∙ h in
            (
              valid,
              (
                (branch_made name).0,
                validate-safe (new_branch_reference_name name) valid (branch_made name).1,
              ),
            )
      ]

validate_tag_name-safe :
    (name : Bytes)
    → validate_tag_name name ≡ ok tt
    → let r : Bytes = new_tag_reference_name name in
      (validate r ≡ ok tt) × ((is_tag r ≡ true) × (is_safe r ≡ true))
unfolding validate_tag_name
validate_tag_name-safe name h =
    elim (Bool-cases (has_prefix name (codes "-") || same name (codes "HEAD"))) [
      | inl bad ↦
          let refused : validate_tag_name name
              ≡ err (invalid_reference_name (new_tag_reference_name name)) =
            rw (bad) refl in
          absurd (err-ne-ok (sym refused ∙ h))
      | inr good ↦
          let valid : validate (new_tag_reference_name name) ≡ ok tt =
            let on : validate_tag_name name ≡ validate (new_tag_reference_name name) =
              rw (good) refl in
            sym on ∙ h in
          (
            valid,
            (
              (tag_made name).0,
              validate-safe (new_tag_reference_name name) valid (tag_made name).1,
            ),
          )
    ]

is_root-under : (s : Bytes) → is_under_refs s ≡ true → is_root s ≡ false
unfolding is_under_refs is_root is_upper
is_root-under s under = elim (Option-cases (cut_prefix s ref_prefix)) [
  | inl other ↦ absurd (true≢false (sym under ∙ rw (other) refl))
  | inr (rest, cut) ↦
      let whole : s ≡ ref_prefix ++ rest = cut_prefix-append ref_prefix s rest cut in
      let not_root : is_root (ref_prefix ++ rest) ≡ false = refl in
      subst (λ t. is_root t ≡ false) (sym whole) not_root
]

-- Where ValidateBranchName and ValidateTagName accept two shorthands, the reference names made of
-- them satisfy Validate, are a branch's and a tag's, are safe, and are no root references.
pub new_names-safe :
    (branch tag : Bytes)
    → validate_branch_name branch ≡ ok tt
    → validate_tag_name tag ≡ ok tt
    → let b : Bytes = new_branch_reference_name branch in
      let t : Bytes = new_tag_reference_name tag in
      ((validate b ≡ ok tt) × (is_branch b ≡ true) × (is_safe b ≡ true) × (is_root b ≡ false))
      × (validate t ≡ ok tt)
      × (is_tag t ≡ true)
      × (is_safe t ≡ true)
      × (is_root t ≡ false)
new_names-safe branch tag branch_valid tag_valid =
    let b : Bytes = new_branch_reference_name branch in
    let t : Bytes = new_tag_reference_name tag in
    let (valid_b, (is_b, safe_b)) = validate_branch_name-safe branch branch_valid in
    let (valid_t, (is_t, safe_t)) = validate_tag_name-safe tag tag_valid in
    (
      (valid_b, is_b, safe_b, is_root-under b (branch_made branch).1),
      valid_t,
      is_t,
      safe_t,
      is_root-under t (tag_made tag).1,
    )
