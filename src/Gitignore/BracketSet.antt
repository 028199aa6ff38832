-- ===== src/Gitignore/BracketSet.antt =====
-- plumbing/format/gitignore/pattern.go: the set of bytes of a bracket expression, four words of 64
-- bits, and the POSIX classes. A shift of a uint64 is a product or a quotient by a power of two,
-- and `^m` is `2 ^ 64 - 1 - m`.
use go_git.Prelude.{
  ℕ, zero, suc, ◌-◌, ◌*◌, ◌/◌, ◌%◌, ◌^◌, bit_and, bit_or, List, [], ◌∷◌, Bool, not, ◌||◌, ◌&&◌,
  ◌==◌, leb, ltb, if◌then◌else◌, get_or, Option, none, some, map,
}
use go_git.Prelude.Text.{Bytes, codes, same}
use go_git.Gitignore.{Flags, is_ascii_digit, is_ascii_lower, is_ascii_alpha, is_ascii_punct}

abbrev pub Words : Type 0
Words = List ℕ

abbrev pub no_bytes : Words
no_bytes = 0 ∷ 0 ∷ 0 ∷ 0 ∷ []

-- `accept[i] |= m`
unfoldable pub or_word : ℕ → ℕ → Words → Words
or_word i m [] = []
or_word zero m (w ∷ ws) = bit_or w m ∷ ws
or_word (suc i) m (w ∷ ws) = w ∷ or_word i m ws

unfoldable pub add : ℕ → Words → Words
add ch accept = or_word (ch / 2 ^ 6) (2 ^ bit_and ch 63) accept

-- The body of the loop of `addRange`.
unfoldable pub range_mask : ℕ → ℕ → ℕ → ℕ → ℕ → ℕ
range_mask first last lo hi i =
    let all = 2 ^ 64 - 1 in
    let low = if i == first then bit_and all (all * 2 ^ bit_and lo 63 % 2 ^ 64) else all in
    if i == last then bit_and low (all / 2 ^ (63 - bit_and hi 63)) else low

-- The loop of `addRange` from the word `i` on, over `n` words.
unfoldable pub add_masks : (ℕ → ℕ) → ℕ → ℕ → Words → Words
add_masks mask zero i accept = accept
add_masks mask (suc n) i accept = add_masks mask n (suc i) (or_word i (mask i) accept)

unfoldable pub add_range : ℕ → ℕ → Words → Words
add_range lo hi accept =
    if ltb hi lo
    then accept
    else let first = lo / 2 ^ 6 in
      let last = hi / 2 ^ 6 in
      add_masks (range_mask first last lo hi) (suc last - first) first accept

unfoldable pub has : Words → ℕ → Bool
has accept ch = not (bit_and (get_or accept (ch / 2 ^ 6) 0) (2 ^ bit_and ch 63) == 0)

-- Every word turned over, for a negated bracket.
unfoldable pub complement : Words → Words
complement accept = map (λ w. 2 ^ 64 - 1 - w) accept

-- The union with a class, word by word.
unfoldable pub or_words : Words → Words → Words
or_words [] vs = []
or_words (w ∷ ws) [] = w ∷ ws
or_words (w ∷ ws) (v ∷ vs) = bit_or w v ∷ or_words ws vs

-- `posixClasses`
unfoldable pub posix_class : Flags → Bytes → Option (ℕ → Bool)
posix_class flags name =
    if same name (codes "alnum")
    then some (λ ch. is_ascii_alpha ch || is_ascii_digit ch)
    else if same name (codes "alpha")
    then some (λ ch. is_ascii_alpha ch)
    else if same name (codes "blank")
    then some (λ ch. ch == 32 || ch == 9)
    else if same name (codes "cntrl")
    then some (λ ch. ltb ch 32 || ch == 127)
    else if same name (codes "digit")
    then some (λ ch. is_ascii_digit ch)
    else if same name (codes "graph")
    then some (λ ch. ltb 32 ch && ltb ch 127)
    else if same name (codes "lower")
    then some (λ ch. leb 97 ch && leb ch 122)
    else if same name (codes "print")
    then some (λ ch. leb 32 ch && ltb ch 127)
    else if same name (codes "punct")
    then some (λ ch. is_ascii_punct ch)
    else if same name (codes "space")
    then some (λ ch. ch == 32 || ch == 9 || ch == 10 || ch == 11 || ch == 12 || ch == 13)
    else if same name (codes "upper")
    then some (λ ch. leb 65 ch && leb ch 90 || flags.casefold && is_ascii_lower ch)
    else if same name (codes "xdigit")
    then some (λ ch. is_ascii_digit ch || leb 97 ch && leb ch 102 || leb 65 ch && leb ch 70)
    else none

-- The loop of `buildPOSIXClassSets` over the bytes below `n`.
unfoldable pub class_words : (ℕ → Bool) → ℕ → Words
class_words is_in zero = no_bytes
class_words is_in (suc n) =
    let below = class_words is_in n in if is_in n then add n below else below

abbrev words_of : Option (ℕ → Bool) → Option Words
words_of none = none
words_of (some is_in) = some (class_words is_in 256)

-- `posixClassSet`, whose tables are filled when the program starts.
unfoldable pub posix_class_set : Flags → Bytes → Option Words
posix_class_set flags name = words_of (posix_class flags name)
