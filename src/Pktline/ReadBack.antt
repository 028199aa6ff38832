-- ===== src/Pktline/ReadBack.antt =====
-- Reading the packet lines that were written.
use go_git.Prelude.{
  ℕ, ◌+◌, ◌-◌, ◌≤◌, ◌<◌, ◌≡◌, refl, sym, ap, ◌∙◌, inl, inr, arith, [], ◌∷◌, ◌++◌, append_assoc,
  true, false, ◌||◌, ltb, ◌==◌, if◌then◌else◌, length, take, drop, length-append, length-drop,
  take-append_left, drop-append_left, none, some, Bool-cases, ◌⊎◌,
}
use go_git.Prelude.Text.{Bytes, has_prefix, trim_space}
use go_git.Prelude.Result.{ok, ok_inj}
use go_git.Pktline.{
  FullRead, Outcome, Line, len_size, max_size, max_payload_size, err_prefix, empty_pkt, ascii_hex16,
  parse_length, write, read_full, fill, payload, classify, after_payload, after_length,
  after_header, read, line, error_packet, packet, error_line, unexpected_eof, failed,
}
use go_git.Pktline.Length.{parse_length-hex16}

pub take_prefix : (n : ℕ) (xs ys : Bytes) → n ≡ length xs → take n (xs ++ ys) ≡ xs
take_prefix n xs ys h = ap (λ t. take t (xs ++ ys)) h ∙ take-append_left xs ys

pub drop_prefix : (n : ℕ) (xs ys : Bytes) → n ≡ length xs → drop n (xs ++ ys) ≡ ys
drop_prefix n xs ys h = ap (λ t. drop t (xs ++ ys)) h ∙ drop-append_left xs ys

abbrev whole : Bytes → Bytes → FullRead
whole xs r = record { data_read = xs; left = r; failure = none }

read_full-append :
    (n : ℕ) (xs r : Bytes) → n ≡ length xs → 0 < n → read_full n (xs ++ r) ≡ whole xs r
unfolding read_full
read_full-append n xs r h pos =
    let some_left : (n == 0) ≡ false = ground arith in
    let not_end : (length (xs ++ r) == 0) ≡ false = ground (arith, length-append xs r) in
    let enough : ltb (length (xs ++ r)) n ≡ false = ground (arith, length-append xs r) in
    rw (some_left)
      (rw (not_end) (rw (enough) (rw (take_prefix n xs r h) (rw (drop_prefix n xs r h) refl))))

-- A header of four bytes is read over the front of the buffer.
pub read_header :
    (head rest buf : Bytes)
    → length head ≡ 4
    → 4 ≤ length buf
    → read (some (head ++ rest)) buf
      ≡ after_length (head ++ drop 4 buf) rest (parse_length (head ++ drop 4 buf))
unfolding read after_header fill
read_header head rest buf four room =
    let fits : ltb (length buf) 4 ≡ false = ground arith in
    let over : fill buf 0 head ≡ head ++ drop 4 buf =
      let at : 0 + length head ≡ 4 = omega arith in ap (λ t. head ++ drop t buf) at in
    rw (fits) (
      rw (read_full-append 4 head rest (sym four) (omega arith))
        (ap (λ t. after_length t rest (parse_length t)) over))

-- The packet that a payload makes.
abbrev pub outcome_of : Bytes → ℕ → Outcome
outcome_of p l =
    if has_prefix p err_prefix then error_line l (trim_space (drop len_size p)) else packet l

-- The buffer after a whole packet: header, payload, what was there.
abbrev pub buffer_after : Bytes → Bytes → Bytes → Bytes
buffer_after head p buf = head ++ p ++ drop (4 + length p) (head ++ drop 4 buf)

overwritten :
    (head p buf : Bytes) → length head ≡ 4 → fill (head ++ drop 4 buf) 4 p ≡ buffer_after head p buf
unfolding fill
overwritten head p buf four =
    ap (λ t. t ++ p ++ drop (4 + length p) (head ++ drop 4 buf))
      (take_prefix 4 head (drop 4 buf) (sym four))

pub payload-overwritten :
    (head p tail : Bytes) (l : ℕ)
    → length head ≡ 4
    → l ≡ length p + 4
    → payload (head ++ p ++ tail) l ≡ p
unfolding payload
payload-overwritten head p tail l four h =
    ap (λ t. take (l - 4) (drop 4 t)) (append_assoc head p tail)
    ∙ ap (take (l - 4)) (drop_prefix 4 head (p ++ tail) (sym four))
    ∙ take_prefix (l - 4) p tail (omega arith)

classify-overwritten :
    (head p tail : Bytes) (l : ℕ)
    → length head ≡ 4
    → l ≡ length p + 4
    → classify (head ++ p ++ tail) l ≡ outcome_of p l
unfolding classify
classify-overwritten head p tail l four h = rw (payload-overwritten head p tail l four h) refl

-- After a length that fits the buffer, the payload is read behind the header.
pub read_body :
    (head p r buf : Bytes) (l : ℕ)
    → length head ≡ 4
    → l ≡ length p + 4
    → 0 < length p
    → l ≤ length buf
    → after_length (head ++ drop 4 buf) (p ++ r) (ok l)
      ≡ record { outcome = outcome_of p l; buf = buffer_after head p buf; left = r }
unfolding after_length after_payload
read_body head p r buf l four h some_payload room =
    let data_packet : (l == 0) || (l == 1) || (l == 2) ≡ false = ground arith in
    let not_empty : (l == 4) ≡ false = ground arith in
    let width : length (head ++ drop 4 buf) ≡ length buf =
      omega (arith, length-append head (drop 4 buf), length-drop 4 buf) in
    let fits : ltb (length (head ++ drop 4 buf)) l ≡ false = ground arith in
    let tail : Bytes = drop (4 + length p) (head ++ drop 4 buf) in
    rw (data_packet) (
      rw (not_empty) (
        rw (fits) (
          rw (read_full-append (l - 4) p r (omega arith) (omega arith)) (
            rw (overwritten head p buf four)
              (rw (classify-overwritten head p tail l four h) refl)))))

-- A packet that does not fit the buffer is skipped.
pub skip_body :
    (p1 p r : Bytes) (l : ℕ)
    → l ≡ length p + 4
    → 0 < length p
    → length p1 < l
    → after_length p1 (p ++ r) (ok l)
      ≡ record { outcome = failed unexpected_eof; buf = p1; left = r }
unfolding after_length
skip_body p1 p r l h some_payload room =
    let data_packet : (l == 0) || (l == 1) || (l == 2) ≡ false = ground arith in
    let not_empty : (l == 4) ≡ false = ground arith in
    let small : ltb (length p1) l ≡ true = ground arith in
    rw (data_packet) (rw (not_empty) (rw (small) (rw (drop_prefix (l - 4) p r (omega arith)) refl)))

-- The line that a reader gives of a payload: its length, itself, and the text of an error.
unfoldable pub line_for : Bytes → Line
line_for p =
    if has_prefix p err_prefix
    then error_packet (length p + len_size) p (trim_space (drop len_size p))
    else line (length p + len_size) p

pub write-suc :
    (p : Bytes)
    → 0 < length p
    → length p ≤ max_payload_size
    → write p ≡ ok (ascii_hex16 (length p + 4) ++ p)
unfolding write
write-suc p some_payload room =
    let more : (length p == 0) ≡ false = ground arith in
    let fits : ltb max_payload_size (length p) ≡ false = ground arith in rw (more) (rw (fits) refl)

-- A payload that Write took is empty, or framed by its length.
pub write-framed :
    (p out : Bytes)
    → write p ≡ ok out
    → ((p ≡ []) × (out ≡ empty_pkt))
      ⊎ ((0 < length p) × (length p ≤ max_payload_size) × (out ≡ ascii_hex16 (length p + 4) ++ p))
unfolding write
write-framed [] out h = inl (refl, ok_inj (sym h))
write-framed (c ∷ p) out h = elim (Bool-cases (ltb max_payload_size (length (c ∷ p)))) [
  | inl wide ↦ ground arith
  | inr fits ↦
      let room : length (c ∷ p) ≤ max_payload_size = ground arith in
      inr (omega arith, room, ok_inj (sym h ∙ write-suc (c ∷ p) (omega arith) room))
]

pub parse_framed :
    (p r : Bytes)
    → length p ≤ max_payload_size
    → 0 < length p
    → parse_length (ascii_hex16 (length p + 4) ++ r) ≡ ok (length p + 4)
parse_framed p r room some_payload =
    let three : (length p + 4 == 3) || ltb max_size (length p + 4) ≡ false = ground arith in
    parse_length-hex16 (length p + 4) r (omega arith) ∙ rw (three) refl
