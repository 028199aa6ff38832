-- ===== src/Pktline/Peek.antt =====
-- PeekLine, which leaves the reader where it is, sees what ReadLine reads.
use go_git.Prelude.{
  ℕ, ◌+◌, ◌≤◌, ◌<◌, ◌≡◌, refl, sym, ap, ◌∙◌, inl, inr, arith, [], append-nil, ◌++◌, append_assoc,
  length-append, false, ltb, ◌==◌, ◌||◌, length, some,
}
use go_git.Prelude.Text.{Bytes}
use go_git.Prelude.Result.{ok}
use go_git.Pktline.{
  max_size, max_payload_size, ascii_hex16, parse_length, hex_decode, hex_loop, hex_digit,
  ascii_hex_to_byte, write, payload, read_line, peek, peek_data, peek_length, peek_line, empty_pkt,
}
use go_git.Pktline.Length.{length-hex16}
use go_git.Pktline.ReadBack.{payload-overwritten, parse_framed, take_prefix, line_for, write-framed}
use go_git.Pktline.RoundTrip.{read_line-write}

peek_prefix : (n : ℕ) (xs ys : Bytes) → n ≡ length xs → peek n (xs ++ ys) ≡ ok xs
unfolding peek
peek_prefix n xs ys h =
    let enough : ltb (length (xs ++ ys)) n ≡ false = ground (arith, length-append xs ys) in
    rw (enough) (rw (take_prefix n xs ys h) refl)

peek_empty : (r : Bytes) → peek_line (some (empty_pkt ++ r)) ≡ line_for []
unfolding peek_line peek_length line_for parse_length hex_decode hex_loop hex_digit
    ascii_hex_to_byte
peek_empty r = rw (peek_prefix 4 empty_pkt r refl) refl

peek_data-framed :
    (head p : Bytes) → length head ≡ 4 → peek_data (length p + 4) (ok (head ++ p)) ≡ line_for p
unfolding peek_data line_for
peek_data-framed head p four =
    let same : payload (head ++ p) (length p + 4) ≡ p =
      ap (λ t. payload t (length p + 4)) (sym (append-nil (head ++ p)))
      ∙ payload-overwritten head p [] (length p + 4) four refl in
    rw (same) refl

peek_framed :
    (p r : Bytes)
    → 0 < length p
    → length p ≤ max_payload_size
    → peek_line (some (ascii_hex16 (length p + 4) ++ p ++ r)) ≡ line_for p
unfolding peek_line peek_length
peek_framed p r some_payload room =
    let l : ℕ = length p + 4 in
    let head : Bytes = ascii_hex16 (length p + 4) in
    let head_peeked : peek 4 (head ++ p ++ r) ≡ ok head =
      ap (peek 4) (append_assoc head p r)
      ∙ peek_prefix 4 head (p ++ r) (sym (length-hex16 (length p + 4))) in
    let parsed : parse_length head ≡ ok l =
      ap parse_length (sym (append-nil head)) ∙ parse_framed p [] room some_payload in
    let data_packet : (length p + 4 == 0) || (length p + 4 == 1) || (length p + 4 == 2) ≡ false =
      ground arith in
    let not_empty : (length p + 4 == 4) ≡ false = ground arith in
    let width : length p + 4 ≡ length (head ++ p) =
      omega (arith, length-append head p, length-hex16 (length p + 4)) in
    rw (head_peeked) (
      rw (parsed) (
        rw (data_packet) (
          rw (not_empty) (
            rw (peek_prefix (length p + 4) (head ++ p) r width)
              (peek_data-framed head p (length-hex16 (length p + 4)))))))

-- Over a payload that Write wrote, PeekLine returns the line that ReadLine returns over a pooled
-- buffer of MaxSize bytes of any contents.
pub peek_line-write :
    (p out r pooled : Bytes)
    → write p ≡ ok out
    → length pooled ≡ max_size
    → peek_line (some (out ++ r)) ≡ (read_line pooled (some (out ++ r))).0
peek_line-write p out r pooled h size =
    let line_read : (read_line pooled (some (out ++ r))).0 ≡ line_for p =
      ap (λ x. x.0) (read_line-write p out r pooled h size) in
    elim (write-framed p out h) [
      | inl (none_left, shape) ↦
          rw (shape) (peek_empty r) ∙ ap line_for (sym none_left) ∙ sym line_read
      | inr (some_payload, room, shape) ↦
          ap (λ t. peek_line (some (t ++ r))) shape
          ∙ peek_framed p r some_payload room
          ∙ sym line_read
    ]
