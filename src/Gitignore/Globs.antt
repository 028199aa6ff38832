-- ===== src/Gitignore/Globs.antt =====
-- Patterns with a slash, and how their segments go through a path.
use go_git.Prelude.{
  ◌≡◌, ◌⊎◌, refl, sym, subst, inl, inr, List, [], ◌∷◌, Bool, true, false, not, ◌&&◌, ◌||◌,
  if◌then◌else◌, Option, none, some, Bool-cases,
}
use go_git.Prelude.Text.{Bytes, same, same→eq}
use go_git.Gitignore.BracketCache.{BracketCache, no_brackets}
use go_git.Gitignore.Cached.{IsValid}
use go_git.Gitignore.Matches.{Matches}
use go_git.Gitignore.Decides.{wildmatch-Matches}
use go_git.Gitignore.Pattern.{
  is_empty, zero_to_many_dirs, Globbed, returned_false, ended, traverse, on_traversed, glob_segment,
  glob_loop, glob_end, glob_match,
}

-- The segments take components off the path, and leave the last path: "**" takes any number of
-- them, any other segment the one that it matches. At the end "**" wants something below it.
pub data Segments (is_dir : Bool) : List Bytes → List Bytes → List Bytes → Type 0 where
  nothing : {path : List Bytes} → Segments is_dir [] path path
  segment :
      {seg name : Bytes} {segs path left : List Bytes}
      → Matches seg 0 name
      → Segments is_dir segs path left
      → Segments is_dir (seg ∷ segs) (name ∷ path) left
  deep :
      {seg : Bytes} {segs path left : List Bytes}
      → Segments is_dir (seg ∷ segs) path left
      → Segments is_dir (zero_to_many_dirs ∷ seg ∷ segs) path left
  deep_end :
      {path : List Bytes}
      → (not (is_empty path) || is_dir) ≡ true
      → Segments is_dir (zero_to_many_dirs ∷ []) path path
  deeper :
      {name : Bytes} {segs path left : List Bytes}
      → Segments is_dir (zero_to_many_dirs ∷ segs) path left
      → Segments is_dir (zero_to_many_dirs ∷ segs) (name ∷ path) left

-- The segments with the "**" that has been read.
abbrev with_deep : Bool → List Bytes → List Bytes
with_deep can_traverse segs = if can_traverse then zero_to_many_dirs ∷ segs else segs

-- The first empty segment only anchors the pattern.
abbrev pub anchored : List Bytes → List Bytes
anchored [] = []
anchored ([] ∷ segs) = segs
anchored ((c ∷ cs) ∷ segs) = (c ∷ cs) ∷ segs

module _ (dir_only is_dir : Bool) where
  -- Where `matched` is true the segments have taken the path up to the one that is left.
  abbrev Takes : List Bytes → List Bytes → Globbed dir_only is_dir → Type 0
  Takes segs path returned_false = Unit
  Takes segs path (ended left matched trailing) = (matched ≡ false) ⊎ Segments is_dir segs path left

  abbrev Sound : List Bytes → List Bytes → Option (Globbed dir_only is_dir) → Type 0
  Sound segs path o = (g : Globbed dir_only is_dir) × (o ≡ some g) × Takes segs path g

  Sound-map :
      {segs path segs' path' : List Bytes} {o : Option (Globbed dir_only is_dir)}
      → ((left : List Bytes) → Segments is_dir segs path left → Segments is_dir segs' path' left)
      → Sound segs path o
      → Sound segs' path' o
  Sound-map f (returned_false, e, t) = (returned_false, e, tt)
  Sound-map f (ended left m t, e, inl q) = (ended left m t, e, inl q)
  Sound-map f (ended left m t, e, inr s) = (ended left m t, e, inr (f left s))

  -- What "**" and the segment behind it take.
  abbrev Passes : Bytes → List Bytes → Option (List Bytes) → Type 0
  Passes seg path none = Unit
  Passes seg path (some behind) =
      (segs left : List Bytes)
      → Segments is_dir segs behind left
      → Segments is_dir (zero_to_many_dirs ∷ seg ∷ segs) path left

  traverse-Passes :
      (seg : Bytes) (path : List Bytes) (brackets : BracketCache)
      → IsValid seg brackets
      → (r : Option (List Bytes)) × (traverse dir_only is_dir seg path brackets ≡ some r)
        × Passes seg path r
  unfolding traverse
  traverse-Passes seg [] brackets v = (none, refl, tt)
  traverse-Passes seg (e ∷ path) brackets v =
      let (b, after, eq, iff, w) = wildmatch-Matches seg e brackets v in
      rw (eq) (elim (Bool-cases b) [
        | inl q ↦ rw (q) (some path, refl, λ segs left s. deep (segment (iff.0 q) s))
        | inr q ↦ rw (q) (later (traverse-Passes seg path after w))
      ])
    where
      later :
          {o : Option (Option (List Bytes))}
          → (r : Option (List Bytes)) × (o ≡ some r) × Passes seg path r
          → (r : Option (List Bytes)) × (o ≡ some r) × Passes seg (e ∷ path) r
      later (none, eq, t) = (none, eq, tt)
      later (some behind, eq, t) = (some behind, eq, λ segs left s. deeper (t segs left s))

  glob_segment-Sound :
      (next : List Bytes → Bool → Option (Globbed dir_only is_dir)) (seg : Bytes)
      (segs : List Bytes) (can_traverse : Bool) (path : List Bytes)
      → ((left : List Bytes) (now : Bool) → Sound segs left (next left now))
      → Sound
          (with_deep can_traverse (seg ∷ segs))
          path
          (glob_segment dir_only is_dir next seg (is_empty segs) can_traverse path)
  unfolding glob_segment
  glob_segment-Sound next seg segs can_traverse [] sound = (returned_false, refl, tt)
  glob_segment-Sound next seg segs true (e ∷ path) sound =
      let (r, eq, passes) = traverse-Passes seg (e ∷ path) no_brackets (tt, tt) in
      rw (eq) (passed r passes)
    where
      passed :
          (r : Option (List Bytes))
          → Passes seg (e ∷ path) r
          → Sound
              (zero_to_many_dirs ∷ seg ∷ segs)
              (e ∷ path)
              (on_traversed dir_only is_dir (λ left. next left true) r)
      passed none t = (returned_false, refl, tt)
      passed (some behind) t = Sound-map (λ left s. t segs left s) (sound behind true)
  glob_segment-Sound next seg segs false (e ∷ path) sound =
      let (b, after, eq, iff, w) = wildmatch-Matches seg e no_brackets (tt, tt) in
      rw (eq) (elim (Bool-cases b) [
        | inl q ↦ rw (q) (Sound-map (λ left s. segment (iff.0 q) s) (sound path _))
        | inr q ↦ rw (q) (returned_false, refl, tt)
      ])

  deepen :
      (can_traverse : Bool) (segs path left : List Bytes)
      → Segments is_dir (zero_to_many_dirs ∷ segs) path left
      → Segments is_dir (with_deep can_traverse (zero_to_many_dirs ∷ segs)) path left
  deepen false segs path left s = s
  deepen true segs path left s = deep s

  -- A "**" at the end.
  trailing-Sound :
      (can_traverse : Bool) (path : List Bytes)
      → (let below = not (is_empty path) || is_dir in
          Sound
            (with_deep can_traverse (zero_to_many_dirs ∷ []))
            path
            (some (ended path below below)))
  trailing-Sound can_traverse path = elim (Bool-cases (not (is_empty path) || is_dir)) [
    | inl q ↦ (_, refl, inr (deepen can_traverse [] path path (deep_end q)))
    | inr q ↦ (_, refl, inl q)
  ]

  read_deep :
      (can_traverse : Bool) (seg : Bytes) (segs path : List Bytes)
      (o : Option (Globbed dir_only is_dir))
      → same seg zero_to_many_dirs ≡ true
      → Sound (with_deep can_traverse (zero_to_many_dirs ∷ segs)) path o
      → Sound (with_deep can_traverse (seg ∷ segs)) path o
  read_deep can_traverse seg segs path o q s =
      subst (λ x. Sound (with_deep can_traverse (x ∷ segs)) path o)
        (sym (same→eq seg zero_to_many_dirs q)) s

  glob_loop-Sound :
      (segs path : List Bytes) (matched can_traverse : Bool)
      → (can_traverse && is_empty segs) ≡ false
      → Sound
          (with_deep can_traverse segs)
          path
          (glob_loop dir_only is_dir false segs path matched can_traverse)
  unfolding glob_loop
  glob_loop-Sound [] path true false h = (_, refl, inr nothing)
  glob_loop-Sound [] path false false h = (_, refl, inl refl)
  glob_loop-Sound [] path matched true h = cc
  glob_loop-Sound ([] ∷ segs) path matched can_traverse h = (returned_false, refl, tt)
  glob_loop-Sound ((c ∷ cs) ∷ []) path matched can_traverse h =
      elim (Bool-cases (same (c ∷ cs) zero_to_many_dirs)) [
        | inl q ↦
            rw (q)
              (read_deep can_traverse (c ∷ cs) ([]) path _ q (trailing-Sound can_traverse path))
        | inr q ↦ rw (q) (
            glob_segment-Sound _ (c ∷ cs) ([]) can_traverse path
              (λ left now. glob_loop-Sound ([]) left now false refl))
      ]
  glob_loop-Sound ((c ∷ cs) ∷ seg ∷ segs) path matched can_traverse h =
      elim (Bool-cases (same (c ∷ cs) zero_to_many_dirs)) [
        | inl q ↦ rw (q) (
            read_deep can_traverse (c ∷ cs) (seg ∷ segs) path _ q (
              Sound-map (deepen can_traverse (seg ∷ segs) path)
                (glob_loop-Sound (seg ∷ segs) path matched true refl)))
        | inr q ↦ rw (q) (
            glob_segment-Sound _ (c ∷ cs) (seg ∷ segs) can_traverse path
              (λ left now. glob_loop-Sound (seg ∷ segs) left now false refl))
      ]

  glob_loop_first-Sound :
      (pattern path : List Bytes)
      → Sound (anchored pattern) path (glob_loop dir_only is_dir true pattern path false false)
  unfolding glob_loop
  glob_loop_first-Sound [] path = (_, refl, inl refl)
  glob_loop_first-Sound ([] ∷ segs) path = glob_loop-Sound segs path false false refl
  glob_loop_first-Sound ((c ∷ cs) ∷ segs) path =
      glob_loop-Sound ((c ∷ cs) ∷ segs) path false false refl

  weaken : (a b c d : Bool) → (a && b && (c || d)) ≡ false → (a && b && c) ≡ false
  weaken false b c d h = refl
  weaken true false c d h = refl
  weaken true true false d h = refl
  weaken true true true d h = h

  glob_end-Segments :
      (pattern path : List Bytes) (g : Globbed dir_only is_dir)
      → Takes pattern path g
      → (glob_end dir_only is_dir g ≡ false)
        ⊎ ((left : List Bytes) × Segments is_dir pattern path left
            × ((dir_only && not is_dir && is_empty left) ≡ false))
  glob_end-Segments pattern path returned_false t = inl refl
  glob_end-Segments pattern path (ended left false trailing) t = inl refl
  glob_end-Segments pattern path (ended left true trailing) (inl q) = cc
  glob_end-Segments pattern path (ended left true trailing) (inr s) =
      elim (Bool-cases (dir_only && not is_dir && (is_empty left || trailing))) [
        | inl q ↦ inl (rw (q) refl)
        | inr q ↦ inr (left, s, weaken dir_only (not is_dir) (is_empty left) trailing q)
      ]

  -- globMatch returns; it answers false, or the segments match the path one by one, "**" over any
  -- number of components, up to a path that is left, where a "**" at the end has something below
  -- it, and a rule for directories has a directory.
  pub glob_match-Segments :
      (pattern path : List Bytes)
      → (b : Bool) × (glob_match dir_only is_dir pattern path ≡ some b)
        × ((b ≡ false)
            ⊎ ((left : List Bytes) × Segments is_dir (anchored pattern) path left
                × ((dir_only && not is_dir && is_empty left) ≡ false)))
  unfolding glob_match
  glob_match-Segments pattern path =
      let (g, e, t) = glob_loop_first-Sound pattern path in
      rw (e) (_, refl, glob_end-Segments (anchored pattern) path g t)
