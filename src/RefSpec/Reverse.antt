-- ===== src/RefSpec/Reverse.antt =====
-- Names mapped by a refspec with wildcards, and mapped back by its reverse.
use go_git.Prelude.{
  true, ◌+◌, ◌-◌, ◌≡◌, refl, ap, ◌∙◌, arith, ◌∷◌, ◌++◌, append_assoc, Bool, false, ltb, length,
  some, length-append,
}
use go_git.Prelude.Text.{Bytes}
use go_git.Prelude.Partial.{◌>>=◌}
use go_git.RefSpec.Matches.{match-render}
use go_git.RefSpec.{match, wildcard, start_of, dst_glob, dst, reverse}
use go_git.RefSpec.Parts.{
  Free, index-Free, cut-Free, slice-append, render, IsSource, reverse-render, index-render,
  src-render, drop-render, is_wildcard-render,
}

glob :
    (p q r t m : Bytes)
    → Free wildcard p
    → Free wildcard r
    → dst_glob (p ++ wildcard ∷ q) (r ++ wildcard ∷ t) (p ++ (m ++ q)) ≡ some (r ++ m ++ t)
unfolding dst_glob
glob p q r t m free_p free_r =
    let s : Bytes = p ++ wildcard ∷ q in
    let tail : length (p ++ wildcard ∷ q) - (length p + 1) ≡ length q =
      omega (arith, length-append p (wildcard ∷ q)) in
    let long : ltb (length (p ++ (m ++ q))) (length q) ≡ false =
      ground (arith, length-append p (m ++ q), length-append m q) in
    let end : length (p ++ (m ++ q)) - length q ≡ length p + length m =
      omega (arith, length-append p (m ++ q), length-append m q) in
    rw (index-Free wildcard p q free_p) (
      rw (tail) (
        rw (long) (
          rw (slice-append (length p) (length (p ++ (m ++ q)) - length q) p m q refl end)
            (rw (cut-Free wildcard r t free_r) refl))))

dst-render :
    (forced : Bool) (p q r t m : Bytes)
    → IsSource forced (p ++ wildcard ∷ q)
    → Free wildcard p
    → Free wildcard r
    → dst (render forced (p ++ wildcard ∷ q) (r ++ wildcard ∷ t)) (p ++ (m ++ q))
      ≡ some (r ++ m ++ t)
unfolding dst start_of
dst-render forced p q r t m source free_p free_r =
    let a : Bytes = p ++ wildcard ∷ q in
    let b : Bytes = r ++ wildcard ∷ t in
    rw (src-render forced (p ++ wildcard ∷ q) (r ++ wildcard ∷ t) source) (
      rw (index-render forced (p ++ wildcard ∷ q) (r ++ wildcard ∷ t) source) (
        rw (is_wildcard-render forced p q (r ++ wildcard ∷ t)) (
          rw (drop-render forced (p ++ wildcard ∷ q) (r ++ wildcard ∷ t))
            (glob p q r t m free_p free_r))))

-- For a refspec from p*q to r*t, Match is true of p, m and q, and Dst of it is r, m and t, where
-- the source holds no separator, p and r hold no wildcard, and the source of a refspec that is not
-- forced does not begin with a +.
pub match-dst :
    (forced : Bool) (p q r t m : Bytes)
    → IsSource forced (p ++ wildcard ∷ q)
    → Free wildcard p
    → Free wildcard r
    → let spec : Bytes = render forced (p ++ wildcard ∷ q) (r ++ wildcard ∷ t) in
      (match spec (p ++ (m ++ q)) ≡ some true) × (dst spec (p ++ (m ++ q)) ≡ some (r ++ m ++ t))
match-dst forced p q r t m source free_p free_r = (
  match-render forced p q (r ++ wildcard ∷ t) m source free_p,
  dst-render forced p q r t m source free_p free_r,
)

-- A name of p, m and q, mapped by a refspec from p*q to r*t and then by its reverse, is the name
-- again, where no side holds a separator, p and r hold no wildcard, and no side of a refspec that
-- is not forced begins with a +.
pub dst-reverse :
    (forced : Bool) (p q r t m : Bytes)
    → IsSource forced (p ++ wildcard ∷ q)
    → IsSource forced (r ++ wildcard ∷ t)
    → Free wildcard p
    → Free wildcard r
    → (dst (render forced (p ++ wildcard ∷ q) (r ++ wildcard ∷ t)) (p ++ (m ++ q))
        >>= dst (reverse (render forced (p ++ wildcard ∷ q) (r ++ wildcard ∷ t))))
      ≡ some (p ++ (m ++ q))
dst-reverse forced p q r t m source target free_p free_r =
    let back : dst (render forced (r ++ wildcard ∷ t) (p ++ wildcard ∷ q)) (r ++ (m ++ t))
        ≡ some (p ++ m ++ q) =
      dst-render forced r t p q m target free_r free_p in
    rw (dst-render forced p q r t m source free_p free_r) (
      ap (λ s. dst s (r ++ m ++ t))
        (reverse-render forced (p ++ wildcard ∷ q) (r ++ wildcard ∷ t) source)
      ∙ ap (dst (render forced (r ++ wildcard ∷ t) (p ++ wildcard ∷ q))) (append_assoc r m t)
      ∙ back
      ∙ ap some (append_assoc p m q))
