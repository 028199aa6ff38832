-- ===== src/Gitignore/Order.antt =====
-- The matcher over many patterns, in their order.
use go_git.Prelude.{
  ◌≡◌, ◌↔◌, refl, sym, ap, subst, ◌∙◌, List, [], ◌∷◌, ◌++◌, Bool, true, false, Option, none, some,
  some_inj, append-nil, All, All-snoc, append_assoc,
}
use mathlib.Core.List.{reverse, reverse-append, reverse-cons, reverse-reverse}
use go_git.Prelude.Text.{Bytes}
use go_git.Prelude.Partial.{◌>>=◌}
use go_git.Gitignore.Pattern.{
  MatchResult, no_match, exclude, include, Pattern, match_pattern, decide_or, match_loop, match,
}

module _ (path : List Bytes) (is_dir : Bool) where
  -- The pattern says nothing of the path.
  abbrev pub IsSilent : Pattern → Type 0
  IsSilent p = match_pattern p path is_dir ≡ some no_match

  All-reverse : (qs : List Pattern) → All IsSilent qs → All IsSilent (reverse qs)
  All-reverse [] h = tt
  All-reverse (q ∷ qs) (h, hs) =
      rw (reverse-cons q qs) (All-snoc IsSilent (reverse qs) q (All-reverse qs hs) h)

  -- From the last pattern to the first, the silent ones are passed over.
  match_loop-silent :
      (qs ps : List Pattern)
      → All IsSilent qs
      → match_loop (qs ++ ps) path is_dir ≡ match_loop ps path is_dir
  unfolding match_loop
  match_loop-silent [] ps h = refl
  match_loop-silent (q ∷ qs) ps (h, hs) = rw (h) (match_loop-silent qs ps hs)

  match-last :
      (ps : List Pattern) (p : Pattern) (qs : List Pattern)
      → All IsSilent qs
      → match (ps ++ p ∷ qs) path is_dir
        ≡ (match_pattern p path is_dir >>= λ r. decide_or r (match ps path is_dir))
  unfolding match match_loop
  match-last ps p qs silent =
      ap (λ l. match_loop l path is_dir)
        (reverse-append ps (p ∷ qs)
          ∙ ap (λ l. l ++ reverse ps) (reverse-cons p qs)
          ∙ append_assoc (reverse qs) (p ∷ []) (reverse ps))
      ∙ match_loop-silent (reverse qs) (p ∷ reverse ps) (All-reverse qs silent)

  -- The answer of many patterns: the last that says something excludes the path or includes it,
  -- and where none does the path is not excluded.
  pub data Verdict : List Pattern → Bool → Type 0 where
    all_silent : (ps : List Pattern) → All IsSilent ps → Verdict ps false
    last_excludes :
        (ps : List Pattern) (p : Pattern) (qs : List Pattern)
        → match_pattern p path is_dir ≡ some exclude
        → All IsSilent qs
        → Verdict (ps ++ p ∷ qs) true
    last_includes :
        (ps : List Pattern) (p : Pattern) (qs : List Pattern)
        → match_pattern p path is_dir ≡ some include
        → All IsSilent qs
        → Verdict (ps ++ p ∷ qs) false

  Verdict-match : (ps : List Pattern) (b : Bool) → Verdict ps b → match ps path is_dir ≡ some b
  unfolding match match_loop
  Verdict-match _ _ (all_silent ps h) =
      ap (λ l. match_loop l path is_dir) (sym (append-nil (reverse ps)))
      ∙ match_loop-silent (reverse ps) [] (All-reverse ps h)
  Verdict-match _ _ (last_excludes ps p qs h silent) = match-last ps p qs silent ∙ rw (h) refl
  Verdict-match _ _ (last_includes ps p qs h silent) = match-last ps p qs silent ∙ rw (h) refl

  -- A silent pattern behind the others changes no verdict.
  Verdict-snoc :
      (ps : List Pattern) (b : Bool) (q : Pattern)
      → IsSilent q
      → Verdict ps b
      → Verdict (ps ++ q ∷ []) b
  Verdict-snoc _ _ q s (all_silent ps h) = all_silent (ps ++ q ∷ []) (All-snoc IsSilent ps q h s)
  Verdict-snoc _ _ q s (last_excludes ps p qs h silent) =
      rw (append_assoc ps (p ∷ qs) (q ∷ []))
        (last_excludes ps p (qs ++ q ∷ []) h (All-snoc IsSilent qs q silent s))
  Verdict-snoc _ _ q s (last_includes ps p qs h silent) =
      rw (append_assoc ps (p ∷ qs) (q ∷ []))
        (last_includes ps p (qs ++ q ∷ []) h (All-snoc IsSilent qs q silent s))

  -- A pattern that was asked first, over the verdict of those before it.
  asked-Verdict :
      (p : Pattern) (ps : List Pattern) (b : Bool) (o : Option MatchResult) (rest : Option Bool)
      → match_pattern p path is_dir ≡ o
      → (rest ≡ some b → Verdict (reverse ps) b)
      → (o >>= λ r. decide_or r rest) ≡ some b
      → Verdict (reverse ps ++ p ∷ []) b
  asked-Verdict p ps b none rest e earlier h = cc
  asked-Verdict p ps b (some no_match) rest e earlier h =
      Verdict-snoc (reverse ps) b p e (earlier h)
  asked-Verdict p ps b (some exclude) rest e earlier h =
      subst (Verdict (reverse ps ++ p ∷ [])) (some_inj h) (last_excludes (reverse ps) p [] e tt)
  asked-Verdict p ps b (some include) rest e earlier h =
      subst (Verdict (reverse ps ++ p ∷ [])) (some_inj h) (last_includes (reverse ps) p [] e tt)

  match_loop-Verdict :
      (ps : List Pattern) (b : Bool) → match_loop ps path is_dir ≡ some b → Verdict (reverse ps) b
  unfolding match_loop
  match_loop-Verdict [] b h = subst (Verdict []) (some_inj h) (all_silent [] tt)
  match_loop-Verdict (p ∷ ps) b h = rw (reverse-cons p ps) (
      asked-Verdict p ps b (match_pattern p path is_dir) (match_loop ps path is_dir) refl
        (λ q. match_loop-Verdict ps b q) h)

  -- Matcher.Match answers true exactly where, of the patterns that say something of the path, the
  -- last excludes it, and false exactly where the last includes it or no pattern says anything.
  pub match-Verdict :
      (ps : List Pattern) (b : Bool) → (match ps path is_dir ≡ some b) ↔ Verdict ps b
  unfolding match
  match-Verdict ps b = (
    λ h. subst (λ l. Verdict l b) (reverse-reverse ps) (match_loop-Verdict (reverse ps) b h),
    Verdict-match ps b,
  )
