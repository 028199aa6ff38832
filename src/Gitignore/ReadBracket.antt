-- ===== src/Gitignore/ReadBracket.antt =====
-- plumbing/format/gitignore/pattern.go: `readBracket`, the bracket expression that opens at a
-- position of the pattern.
use go_git.Prelude.{
  ℕ, zero, suc, ◌+◌, ◌-◌, ◌^◌, bit_and, [], ◌∷◌, Bool, false, true, not, ◌||◌, ◌&&◌, ◌==◌, leb, ltb,
  if◌then◌else◌, get_or, length, take, drop, Option, none, some,
}
use go_git.Prelude.Text.{Bytes}
use go_git.Prelude.Partial.{get_elem?}
use go_git.Gitignore.{Flags}
use go_git.Gitignore.BracketSet.{
  Words, no_bytes, or_words, add, add_range, complement, posix_class_set,
}

pub record BracketSet : Type 0 where
  pub accept : Words
  pub end : ℕ
  pub abort : Bool

-- What a round of the loop makes of the member at hand: the bracket is malformed, or the position,
-- the next `prevCh`, `closeAt` and the set so far.
pub data Member : Type 0 where
  malformed : Words → Member
  member : ℕ → ℕ → ℕ → Words → Member

-- The first ']' of a text, counted from `i`, or its end.
unfoldable pub find_close : Bytes → ℕ → ℕ
find_close [] i = i
find_close (c ∷ cs) i = let rest = find_close cs (suc i) in if c == 93 then i else rest

-- The folded half of a range: the lower case of the letters from 'A' on, `n` of them.
unfoldable pub add_folded : ℕ → ℕ → ℕ → Words → Words
add_folded prev ch zero accept = accept
add_folded prev ch (suc n) accept =
    let u = 90 - n in
    add_folded prev ch n (if leb u ch && leb prev u then add (u + 32) accept else accept)

module _ (flags : Flags) (p : Bytes) where
  unfoldable pub range_to : ℕ → ℕ → ℕ → ℕ → Words → Member
  range_to prev close pi ch accept =
      let added = add_range prev ch accept in
      member pi 0 close (if flags.casefold then add_folded prev ch 26 added else added)

  abbrev pub escaped_end : ℕ → ℕ → ℕ → Words → Option ℕ → Member
  escaped_end prev close pi accept none = malformed accept
  escaped_end prev close pi accept (some ch) = range_to prev close pi ch accept

  -- A '-' between two bytes; `pi` is the byte behind it.
  unfoldable pub range_member : ℕ → ℕ → ℕ → Words → Member
  range_member prev close pi accept =
      let ch = get_or p pi 0 in
      if ch == 92
      then escaped_end prev close (suc pi) accept (get_elem? p (suc pi))
      else range_to prev close pi ch accept

  abbrev pub with_class : ℕ → Words → Option Words → Member
  with_class close accept none = malformed accept
  with_class close accept (some class) = member close 0 close (or_words accept class)

  -- A "[:" at `pi`, with the ']' at `close` that ends a class.
  unfoldable pub class_member : ℕ → ℕ → Words → Member
  class_member pi close accept =
      let s = pi + 2 in
      if leb (length p) close
      then malformed accept
      else if ltb close (suc s) || not (get_or p (close - 1) 0 == 58)
      then member pi 91 close (add 91 accept)
      else with_class close accept (posix_class_set flags (take (close - 1 - s) (drop s p)))

  abbrev pub escaped_member : ℕ → ℕ → Words → Option ℕ → Member
  escaped_member pi close accept none = malformed accept
  escaped_member pi close accept (some ch) = member pi ch close (add ch accept)

  abbrev pub is_byte : (ℕ → Bool) → Option ℕ → Bool
  is_byte test none = false
  is_byte test (some c) = test c

  -- The first ']' from `s` on, looked for unless the last one found is not before `s`.
  unfoldable pub close_from : ℕ → ℕ → ℕ
  close_from s close = if ltb close s then find_close (drop s p) s else close

  -- The switch of the loop, at the byte `ch` that stands at `pi`.
  unfoldable pub read_member : ℕ → ℕ → ℕ → ℕ → Words → Member
  read_member pi ch prev close accept =
      let next = get_elem? p (suc pi) in
      if ch == 92
      then escaped_member (suc pi) close accept next
      else if ch == 45 && not (prev == 0) && is_byte (λ c. not (c == 93)) next
      then range_member prev close (suc pi) accept
      else if ch == 91 && is_byte (λ c. c == 58) next
      then class_member pi (close_from (pi + 2) close) accept
      else member pi ch close (add ch accept)

  abbrev pub at_next :
      ℕ → ℕ → ℕ → Words → (ℕ → ℕ → ℕ → ℕ → Words → Option BracketSet) → Option ℕ → Option BracketSet
  at_next pi prev close accept again none = some (record { accept = accept; end = 0; abort = true })
  at_next pi prev close accept again (some ch) =
      if ch == 93
      then some (record { accept = accept; end = suc pi; abort = false })
      else again (suc pi) ch prev close accept

  abbrev pub after_member : Member → (ℕ → ℕ → ℕ → ℕ → Words → Option BracketSet) → Option BracketSet
  after_member (malformed accept) again = some (record { accept = accept; end = 0; abort = true })
  after_member (member pi ch close accept) again =
      at_next pi ch close accept again (get_elem? p (suc pi))

  -- The loop, with fuel. 0 stands for the `closeAt` of -1, since `s` is 3 at least.
  unfoldable pub read_loop : ℕ → ℕ → ℕ → ℕ → ℕ → Words → Option BracketSet
  read_loop zero pi ch prev close accept = none
  read_loop (suc fuel) pi ch prev close accept =
      after_member (read_member pi ch prev close accept)
        (λ pi' ch' prev' close' accept'. read_loop fuel pi' ch' prev' close' accept')

  -- `accept['/'>>6] &^= 1 << ('/' & 63)`
  abbrev clear_slash : Words → Words
  clear_slash [] = []
  clear_slash (w ∷ ws) = bit_and w (2 ^ 64 - 1 - 2 ^ 47) ∷ ws

  -- What follows the loop, unless the bracket is malformed.
  abbrev pub finish : Bool → Option BracketSet → Option BracketSet
  finish negated none = none
  finish negated (some b) =
      if b.abort
      then some b
      else let turned = if negated then complement b.accept else b.accept in
        some (record b { accept = if flags.pathname then clear_slash turned else turned })

  abbrev pub read_from : Bool → ℕ → Option ℕ → Option BracketSet
  read_from negated pi none = some (record { accept = no_bytes; end = 0; abort = true })
  read_from negated pi (some ch) = finish negated (read_loop (length p) pi ch 0 0 no_bytes)

  abbrev pub read_opened : ℕ → Option ℕ → Option BracketSet
  read_opened start none = some (record { accept = no_bytes; end = 0; abort = true })
  read_opened start (some ch) =
      if ch == 94 || ch == 33
      then read_from true (start + 2) (get_elem? p (start + 2))
      else read_from false (start + 1) (some ch)

  unfoldable pub read_bracket : ℕ → Option BracketSet
  read_bracket start = read_opened start (get_elem? p (start + 1))
