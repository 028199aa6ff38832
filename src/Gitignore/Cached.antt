-- ===== src/Gitignore/Cached.antt =====
-- What the cache of brackets holds.
use go_git.Prelude.{
  ℕ, ◌≡◌, refl, ◌∙◌, inl, inr, [], ◌∷◌, ◌==◌, ltb, length, Option, none, some, Bool-cases, if_elim,
  subst, All, All-snoc, ==_iff,
}
use go_git.Prelude.Text.{Bytes}
use go_git.Gitignore.{no_flags}
use go_git.Gitignore.ReadBracket.{BracketSet, read_bracket}
use go_git.Gitignore.BracketCache.{
  Entries, BracketCache, find_entry, keep_set, or_read, or_look, get,
}
use go_git.Gitignore.Brackets.{Reads, read_bracket-Reads}

-- Every set in the cache is the one that reading its bracket gives.
abbrev Read : Bytes → ℕ × BracketSet → Type 0
Read p e = read_bracket no_flags p e.0 ≡ some e.1

abbrev pub IsValid : Bytes → BracketCache → Type 0
IsValid p c = All (Read p) c.entries × All (Read p) c.overflow

-- What a lookup gives is what reading gives, and the cache stays valid.
abbrev pub Gives : Bytes → ℕ → Option (BracketSet × BracketCache) → Type 0
Gives p start o =
    (b : BracketSet) × (c : BracketCache) × (o ≡ some (b, c))
    × (read_bracket no_flags p start ≡ some b)
    × IsValid p c

module _ (p : Bytes) where
  find_entry-Read :
      (start : ℕ) (es : Entries) (b : BracketSet)
      → All (Read p) es
      → find_entry start es ≡ some b
      → read_bracket no_flags p start ≡ some b
  unfolding find_entry
  find_entry-Read start [] b hs e = cc
  find_entry-Read start (x ∷ es) b (h, hs) e = elim (Bool-cases (x.0 == start)) [
    | inl q ↦
        subst (λ n. read_bracket no_flags p n ≡ some b) ((==_iff x.0 start).0 q) (h ∙ (rw (q) at e))
    | inr q ↦ find_entry-Read start es b hs (rw (q) at e)
  ]

  or_look-Gives :
      (start : ℕ) (o : Option BracketSet) (c : BracketCache)
      (other : Option (BracketSet × BracketCache))
      → IsValid p c
      → ((b : BracketSet) → o ≡ some b → read_bracket no_flags p start ≡ some b)
      → Gives p start other
      → Gives p start (or_look o c other)
  or_look-Gives start none c other v h g = g
  or_look-Gives start (some b) c other v h g = (b, c, refl, h b refl, v)

  keep_set-Gives :
      (start : ℕ) (c : BracketCache) (b : BracketSet)
      → IsValid p c
      → read_bracket no_flags p start ≡ some b
      → Gives p start (some (keep_set start c b))
  keep_set-Gives start c b (v, w) h =
      if_elim (λ x. Gives p start (some x)) (ltb (length c.entries) 4)
        (b, _, refl, h, (All-snoc (Read p) c.entries (start, b) v h, w))
        (b, _, refl, h, (v, (h, w)))

  or_read-Gives :
      (start : ℕ) (c : BracketCache) (o : Option BracketSet)
      → IsValid p c
      → read_bracket no_flags p start ≡ o
      → Reads start o
      → Gives p start (or_read start c o)
  or_read-Gives start c none v e (b, r, _) = cc
  or_read-Gives start c (some b) v e r = keep_set-Gives start c b v e

  pub get-Gives :
      (start : ℕ) (c : BracketCache) → IsValid p c → Gives p start (get no_flags p start c)
  unfolding get
  get-Gives start c v =
      or_look-Gives start (find_entry start c.entries) c _ v
        (λ b q. find_entry-Read start c.entries b v.0 q)
        (or_look-Gives start (find_entry start c.overflow) c _ v
          (λ b q. find_entry-Read start c.overflow b v.1 q)
          (or_read-Gives start c _ v refl (read_bracket-Reads no_flags p start)))
