-- ===== src/References/Commit.antt =====
-- A transaction seen through Reference, and what is left of it in the base once it is committed.
use go_git.Prelude.{
  ◌≡◌, refl, sym, ap, subst, ◌∙◌, inl, inr, List, [], ◌∷◌, true, false, ◌||◌, if◌then◌else◌, Option,
  none, some, Bool-cases, Option-cases,
}
use go_git.Prelude.Text.{Bytes, same, same→eq}
use go_git.Prelude.Result.{ok, err, ok_inj, err-ne-ok}
use go_git.References.{Reference, ReferenceStorer, find_last, reference_has_changed}
use go_git.References.Memory.{same-ne}
use go_git.References.Transaction.{
  Storage, has_name, delete_name, or_else, new_reference_storage, set_reference, check_value,
  check_and_set_reference, reference, remove_reference, remove_all, set_all, commit, IsDisjoint,
}
use mathlib.Core.Bool.{true≢false}

has_name-delete :
    (m : Bytes) (ds : List Bytes) (n : Bytes)
    → has_name n (delete_name m ds) ≡ (if same m n then false else has_name n ds)
unfolding has_name delete_name
has_name-delete m [] n = elim (Bool-cases (same m n)) [ inl h ↦ rw (h) refl | inr h ↦ rw (h) refl ]
has_name-delete m (d ∷ ds) n = elim (Bool-cases (same d m)) [
  | inl removed ↦
      let named : same d n ≡ same m n = ap (λ t. same t n) (same→eq d m removed) in
      rw (removed) (
        has_name-delete m ds n ∙ elim (Bool-cases (same m n)) [
          | inl h ↦ rw (h) refl
          | inr h ↦ rw (h) (rw (named ∙ h) refl)
        ])
  | inr kept ↦ elim (Bool-cases (same d n)) [
    | inl h ↦ rw (kept) (rw (h) (rw (same-ne d m n kept h) refl))
    | inr h ↦ rw (kept) (rw (h) (has_name-delete m ds n))
  ]
]

module _ {B T : Type 0} (bs : ReferenceStorer B) (ts : ReferenceStorer T) where
  reference-set_reference :
      (ref : Reference) (r : Storage B T) (n : Bytes)
      → reference bs ts (set_reference bs ts ref r) n
        ≡ (if same ref.name n then some ref else reference bs ts r n)
  unfolding reference set_reference
  reference-set_reference ref r n = elim (Bool-cases (same ref.name n)) [
    | inl h ↦
        rw (has_name-delete ref.name r.deleted n)
          (rw (ts.reference-set ref r.temporal n) (rw (h) refl))
    | inr h ↦
        rw (has_name-delete ref.name r.deleted n)
          (rw (ts.reference-set ref r.temporal n) (rw (h) refl))
  ]

  reference-remove_reference :
      (m : Bytes) (r : Storage B T) (n : Bytes)
      → reference bs ts (remove_reference bs ts m r) n
        ≡ (if same m n then none else reference bs ts r n)
  unfolding reference remove_reference has_name
  reference-remove_reference m r n = elim (Bool-cases (same m n)) [
    | inl h ↦ rw (h) refl
    | inr h ↦ rw (ts.reference-remove m r.temporal n) (rw (h) refl)
  ]

  -- Over any base and temporal storer that keep the laws of ReferenceStorer: after SetReference of
  -- a transaction, Reference finds the reference under its name and every other name as before;
  -- after RemoveReference it does not find the name and finds every other name as before.
  pub reference-changed :
      (ref : Reference) (m n : Bytes) (r : Storage B T)
      → (reference bs ts (set_reference bs ts ref r) n
          ≡ (if same ref.name n then some ref else reference bs ts r n))
        × (reference bs ts (remove_reference bs ts m r) n
            ≡ (if same m n then none else reference bs ts r n))
  reference-changed ref m n r = (reference-set_reference ref r n, reference-remove_reference m r n)

  remove_all-reference :
      (ns : List Bytes) (b : B) (n : Bytes)
      → bs.reference (remove_all bs ts ns b) n ≡ (if has_name n ns then none else bs.reference b n)
  unfolding remove_all has_name
  remove_all-reference [] b n = refl
  remove_all-reference (m ∷ ns) b n =
      remove_all-reference ns (bs.remove_reference m b) n
      ∙ rw (bs.reference-remove m b n) (elim (Bool-cases (same m n)) [
        | inl h ↦ elim (Bool-cases (has_name n ns)) [
          | inl there ↦ rw (h) (rw (there) refl)
          | inr gone ↦ rw (h) (rw (gone) refl)
        ]
        | inr h ↦ rw (h) refl
      ])

  set_all-reference :
      (refs : List Reference) (b : B) (n : Bytes)
      → bs.reference (set_all bs ts refs b) n ≡ or_else (find_last n refs) (bs.reference b n)
  unfolding set_all find_last
  set_all-reference [] b n = refl
  set_all-reference (ref ∷ refs) b n =
      set_all-reference refs (bs.set_reference ref b) n
      ∙ rw (bs.reference-set ref b n) (elim (Option-cases (find_last n refs)) [
        | inl nothing ↦
            rw (nothing)
              (elim (Bool-cases (same ref.name n)) [ inl h ↦ rw (h) refl | inr h ↦ rw (h) refl ])
        | inr (found, e) ↦ rw (e) refl
      ])

  -- The two loops of Commit, where no name is both deleted and temporal.
  commit-reference :
      (r : Storage B T) (n : Bytes)
      → IsDisjoint bs ts r
      → bs.reference (commit bs ts r).base n ≡ reference bs ts r n
  unfolding commit reference
  commit-reference r n disjoint =
      set_all-reference (ts.iter_references r.temporal) (remove_all bs ts r.deleted r.base) n
      ∙ rw (ts.find_last-iter r.temporal n) (
          rw (remove_all-reference r.deleted r.base n) (elim (Bool-cases (has_name n r.deleted)) [
            | inl h ↦ rw (h) (rw (disjoint n h) refl)
            | inr h ↦ rw (h) refl
          ]))

  -- What SetReference and RemoveReference keep.
  set_reference-IsDisjoint :
      (ref : Reference) (r : Storage B T)
      → IsDisjoint bs ts r
      → IsDisjoint bs ts (set_reference bs ts ref r)
  unfolding set_reference
  set_reference-IsDisjoint ref r disjoint n h = elim (Bool-cases (same ref.name n)) [
    | inl named ↦
        absurd (true≢false (sym h ∙ has_name-delete ref.name r.deleted n ∙ rw (named) refl))
    | inr other ↦
        let there : has_name n r.deleted ≡ true =
          sym (has_name-delete ref.name r.deleted n ∙ rw (other) refl) ∙ h in
        rw (ts.reference-set ref r.temporal n) (rw (other) (disjoint n there))
  ]

  remove_reference-IsDisjoint :
      (m : Bytes) (r : Storage B T)
      → IsDisjoint bs ts r
      → IsDisjoint bs ts (remove_reference bs ts m r)
  unfolding remove_reference has_name
  remove_reference-IsDisjoint m r disjoint n h = elim (Bool-cases (same m n)) [
    | inl named ↦ rw (ts.reference-remove m r.temporal n) (rw (named) refl)
    | inr other ↦
        rw (ts.reference-remove m r.temporal n)
          (rw (other) (disjoint n (sym (ap (λ t. t || has_name n r.deleted) other) ∙ h)))
  ]

  -- A storage that operations made of a new one over a base and a temporal store.
  pub data Reached (b : B) (t : T) : Storage B T → Type 0 where
    start : Reached b t (new_reference_storage bs ts b t)
    set_step :
        (ref : Reference) (r : Storage B T)
        → Reached b t r
        → Reached b t (set_reference bs ts ref r)
    check_step :
        (ref : Reference) (old : Option Reference) (r r' : Storage B T)
        → check_and_set_reference bs ts ref old r ≡ ok r'
        → Reached b t r
        → Reached b t r'
    remove_step :
        (n : Bytes) (r : Storage B T) → Reached b t r → Reached b t (remove_reference bs ts n r)

  check_value-sets :
      (ref old : Reference) (r r' : Storage B T) (found : Option Reference)
      → check_value bs ts ref old r found ≡ ok r'
      → r' ≡ set_reference bs ts ref r
  unfolding check_value
  check_value-sets ref old r r' none h = cc
  check_value-sets ref old r r' (some tmp) h = elim (Bool-cases (same tmp.hash old.hash)) [
    | inl equal ↦ ok_inj (sym h ∙ rw (equal) refl)
    | inr apart ↦
        let refused : check_value bs ts ref old r (some tmp) ≡ err reference_has_changed =
          rw (apart) refl in
        absurd (err-ne-ok (sym refused ∙ h))
  ]

  -- CheckAndSetReference sets the reference where it succeeds.
  check_and_set-sets :
      (ref : Reference) (old : Option Reference) (r r' : Storage B T)
      → check_and_set_reference bs ts ref old r ≡ ok r'
      → r' ≡ set_reference bs ts ref r
  unfolding check_and_set_reference
  check_and_set-sets ref none r r' h = ok_inj (sym h)
  check_and_set-sets ref (some old) r r' h =
      check_value-sets ref old r r'
        (or_else (ts.reference r.temporal old.name) (bs.reference r.base old.name)) h

  Reached-IsDisjoint : (b : B) (t : T) (r : Storage B T) → Reached b t r → IsDisjoint bs ts r
  unfolding new_reference_storage has_name
  Reached-IsDisjoint b t _ start = λ n h. absurd (true≢false (sym h))
  Reached-IsDisjoint b t _ (set_step ref r before) =
      set_reference-IsDisjoint ref r (Reached-IsDisjoint b t r before)
  Reached-IsDisjoint b t _ (check_step ref old r r' h before) =
      subst (IsDisjoint bs ts) (sym (check_and_set-sets ref old r r' h))
        (set_reference-IsDisjoint ref r (Reached-IsDisjoint b t r before))
  Reached-IsDisjoint b t _ (remove_step n r before) =
      remove_reference-IsDisjoint n r (Reached-IsDisjoint b t r before)

  -- Over any base and temporal storer that keep the laws of ReferenceStorer: in every storage that
  -- SetReference, CheckAndSetReference and RemoveReference made of a new one, the base holds after
  -- Commit, under every name, what Reference found before it.
  pub Reached-commit :
      (b : B) (t : T) (r : Storage B T) (n : Bytes)
      → Reached b t r
      → bs.reference (commit bs ts r).base n ≡ reference bs ts r n
  Reached-commit b t r n reached = commit-reference r n (Reached-IsDisjoint b t r reached)
