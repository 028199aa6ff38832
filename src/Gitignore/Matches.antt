-- ===== src/Gitignore/Matches.antt =====
-- What it means for a text to match a pattern of wildcards, with no order of search in it.
use go_git.Prelude.{
  ℕ, suc, ◌+◌, ◌≡◌, ◌≢◌, refl, sym, ap, ◌∙◌, subst, [], ◌∷◌, false, true, drop, some, some_inj,
}
use go_git.Prelude.Text.{Bytes}
use go_git.Gitignore.{no_flags}
use go_git.Gitignore.BracketSet.{has}
use go_git.Gitignore.ReadBracket.{BracketSet, read_bracket}
use go_git.Gitignore.Wildmatch.{Kind, escape, question, asterisk, opening, literal, kind_of}

-- From a position on the pattern matches the text: a literal or an escaped byte matches itself, a
-- '?' any byte, a bracket the bytes of its set, a '*' any run of bytes.
pub data Matches (p : Bytes) : ℕ → Bytes → Type 0 where
  done : {pi : ℕ} → drop pi p ≡ [] → Matches p pi []
  one_literal :
      {pi c : ℕ} {rest text : Bytes}
      → drop pi p ≡ c ∷ rest
      → kind_of c ≡ literal
      → Matches p (suc pi) text
      → Matches p pi (c ∷ text)
  one_escaped :
      {pi e c : ℕ} {rest text : Bytes}
      → drop pi p ≡ e ∷ c ∷ rest
      → kind_of e ≡ escape
      → Matches p (pi + 2) text
      → Matches p pi (c ∷ text)
  any_byte :
      {pi q c : ℕ} {rest text : Bytes}
      → drop pi p ≡ q ∷ rest
      → kind_of q ≡ question
      → Matches p (suc pi) text
      → Matches p pi (c ∷ text)
  in_set :
      {pi o c : ℕ} {rest text : Bytes} {b : BracketSet}
      → drop pi p ≡ o ∷ rest
      → kind_of o ≡ opening
      → read_bracket no_flags p pi ≡ some b
      → b.abort ≡ false
      → has b.accept c ≡ true
      → Matches p (suc b.end) text
      → Matches p pi (c ∷ text)
  leave :
      {pi s : ℕ} {rest text : Bytes}
      → drop pi p ≡ s ∷ rest
      → kind_of s ≡ asterisk
      → Matches p (suc pi) text
      → Matches p pi text
  more :
      {pi s c : ℕ} {rest text : Bytes}
      → drop pi p ≡ s ∷ rest
      → kind_of s ≡ asterisk
      → Matches p pi text
      → Matches p pi (c ∷ text)

-- A text that is left after some bytes of another.
pub data Suffix : Bytes → Bytes → Type 0 where
  all_of : {text : Bytes} → Suffix text text
  behind : {c : ℕ} {left text : Bytes} → Suffix left text → Suffix left (c ∷ text)

pub Suffix-trans : {a b c : Bytes} → Suffix a b → Suffix b c → Suffix a c
Suffix-trans s all_of = s
Suffix-trans s (behind t) = behind (Suffix-trans s t)

pub Suffix-nil : (text : Bytes) → Suffix [] text
Suffix-nil [] = all_of
Suffix-nil (c ∷ text) = behind (Suffix-nil text)

pub Suffix-cons : {u t : ℕ} {x text : Bytes} → Suffix (u ∷ x) (t ∷ text) → Suffix x text
Suffix-cons all_of = all_of
Suffix-cons (behind s) = Suffix-trans (behind all_of) s

module _ (p : Bytes) where
  -- The pattern has the byte `c` of kind `k` at the position, and `rest` behind it.
  abbrev pub At : ℕ → ℕ → Bytes → Kind → Type 0
  At pi c rest k = (drop pi p ≡ c ∷ rest) × (kind_of c ≡ k)

  pub Matches-end : {pi : ℕ} {text : Bytes} → drop pi p ≡ [] → Matches p pi text → text ≡ []
  Matches-end h (done e) = refl
  Matches-end h (one_literal e k m) = cc
  Matches-end h (one_escaped e k m) = cc
  Matches-end h (any_byte e k m) = cc
  Matches-end h (in_set e k r a s m) = cc
  Matches-end h (leave e k m) = cc
  Matches-end h (more e k m) = cc

  module _ {pi c : ℕ} {rest : Bytes} where
    pub Matches-nil : drop pi p ≡ c ∷ rest → kind_of c ≢ asterisk → ¬ Matches p pi []
    Matches-nil h n (done e) = cc
    Matches-nil h n (leave e k m) = n cc

    pub literal_inv :
        {t : ℕ} {text : Bytes}
        → At pi c rest literal
        → Matches p pi (t ∷ text)
        → (t ≡ c) × Matches p (suc pi) text
    literal_inv (h, n) (one_literal e k m) = (cc, m)
    literal_inv (h, n) (one_escaped e k m) = cc
    literal_inv (h, n) (any_byte e k m) = cc
    literal_inv (h, n) (in_set e k r a s m) = cc
    literal_inv (h, n) (leave e k m) = cc
    literal_inv (h, n) (more e k m) = cc

    pub question_inv :
        {t : ℕ} {text : Bytes}
        → At pi c rest question
        → Matches p pi (t ∷ text)
        → Matches p (suc pi) text
    question_inv (h, n) (one_literal e k m) = cc
    question_inv (h, n) (one_escaped e k m) = cc
    question_inv (h, n) (any_byte e k m) = m
    question_inv (h, n) (in_set e k r a s m) = cc
    question_inv (h, n) (leave e k m) = cc
    question_inv (h, n) (more e k m) = cc

    pub opening_inv :
        {t : ℕ} {text : Bytes} {b : BracketSet}
        → At pi c rest opening
        → read_bracket no_flags p pi ≡ some b
        → Matches p pi (t ∷ text)
        → (b.abort ≡ false) × (has b.accept t ≡ true) × Matches p (suc b.end) text
    opening_inv (h, n) q (one_literal e k m) = cc
    opening_inv (h, n) q (one_escaped e k m) = cc
    opening_inv (h, n) q (any_byte e k m) = cc
    opening_inv {t = t} {text = text} (h, n) q (in_set e k r a s m) =
        let same = some_inj (sym r ∙ q) in
        (
          ap (λ x. x.abort) (sym same) ∙ a,
          subst (λ x. has x.accept t ≡ true) same s,
          subst (λ x. Matches p (suc x.end) text) same m,
        )
    opening_inv (h, n) q (leave e k m) = cc
    opening_inv (h, n) q (more e k m) = cc

    -- An escape at the end of the pattern matches nothing.
    pub escape_inv :
        {t : ℕ} {text : Bytes}
        → At pi c rest escape
        → Matches p pi (t ∷ text)
        → (left : Bytes) × (rest ≡ t ∷ left) × Matches p (pi + 2) text
    escape_inv (h, n) (one_literal e k m) = cc
    escape_inv (h, n) (one_escaped {rest = left} e k m) = (left, cc, m)
    escape_inv (h, n) (any_byte e k m) = cc
    escape_inv (h, n) (in_set e k r a s m) = cc
    escape_inv (h, n) (leave e k m) = cc
    escape_inv (h, n) (more e k m) = cc

  -- What a star leaves to the pattern behind it is a suffix of the text.
  pub asterisk_inv :
      {pi c : ℕ} {rest text : Bytes}
      → At pi c rest asterisk
      → Matches p pi text
      → (left : Bytes) × Suffix left text × Matches p (suc pi) left
  asterisk_inv (h, n) (done e) = cc
  asterisk_inv (h, n) (one_literal e k m) = cc
  asterisk_inv (h, n) (one_escaped e k m) = cc
  asterisk_inv (h, n) (any_byte e k m) = cc
  asterisk_inv (h, n) (in_set e k r a s m) = cc
  asterisk_inv (h, n) (leave e k m) = (_, all_of, m)
  asterisk_inv (h, n) (more e k m) =
      let (left, s, m') = asterisk_inv (h, n) m in (left, behind s, m')

  pub Matches-asterisk :
      {pi c : ℕ} {rest left text : Bytes}
      → At pi c rest asterisk
      → Suffix left text
      → Matches p (suc pi) left
      → Matches p pi text
  Matches-asterisk (h, n) all_of m = leave h n m
  Matches-asterisk (h, n) (behind s) m = more h n (Matches-asterisk (h, n) s m)
