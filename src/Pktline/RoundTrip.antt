-- ===== src/Pktline/RoundTrip.antt =====
-- Packet lines, written and read: round trips, the buffer that is too small, error packets.
use go_git.Prelude.{
  ◌+◌, ◌≤◌, ◌<◌, ◌≡◌, refl, ap, ◌∙◌, inl, inr, arith, [], ◌++◌, append_assoc, false, ltb, length,
  drop, length-append, length-drop, some, Bool-cases,
}
use go_git.Prelude.Text.{Bytes, codes, has_prefix, trim_space}
use go_git.Prelude.Result.{ok}
use go_git.Pktline.{
  max_payload_size, max_size, err_prefix, ascii_hex16, parse_length, hex_decode, hex_loop,
  hex_digit, ascii_hex_to_byte, after_length, write, encode_error_line, decode_error_line, decoded,
  payload, read, read_line, line_of, failed, unexpected_eof, empty_pkt,
}
use go_git.Pktline.Length.{length-hex16}
use go_git.Pktline.ReadBack.{
  read_header, outcome_of, buffer_after, read_body, skip_body, parse_framed, payload-overwritten,
  line_for, write-framed,
}

-- A whole packet over a buffer with room for it.
pub read_framed :
    (p r buf : Bytes)
    → 0 < length p
    → length p + 4 ≤ max_size
    → length p + 4 ≤ length buf
    → read (some (ascii_hex16 (length p + 4) ++ p ++ r)) buf ≡ record {
      outcome = outcome_of p (length p + 4);
      buf = buffer_after (ascii_hex16 (length p + 4)) p buf;
      left = r;
    }
read_framed p r buf some_payload room fits =
    let head : Bytes = ascii_hex16 (length p + 4) in
    ap (λ t. read (some t) buf) (append_assoc head p r)
    ∙ read_header head (p ++ r) buf (length-hex16 (length p + 4)) (omega arith)
    ∙ ap (after_length (head ++ drop 4 buf) (p ++ r))
        (parse_framed p (drop 4 buf) (omega arith) some_payload)
    ∙ read_body head p r buf (length p + 4) (length-hex16 (length p + 4)) refl some_payload fits

-- The empty packet has nothing after its header.
pub read_empty :
    (r buf : Bytes)
    → 4 ≤ length buf
    → read (some (empty_pkt ++ r)) buf
      ≡ record { outcome = outcome_of [] 4; buf = empty_pkt ++ drop 4 buf; left = r }
unfolding after_length parse_length hex_decode hex_loop hex_digit ascii_hex_to_byte
read_empty r buf room =
    let whole : ltb (length (empty_pkt ++ drop 4 buf)) 4 ≡ false =
      ground (arith, length-append empty_pkt (drop 4 buf)) in
    read_header empty_pkt r buf refl room ∙ rw (whole) refl

line_of-framed :
    (head p tail : Bytes)
    → length head ≡ 4
    → line_of (head ++ p ++ tail) (outcome_of p (length p + 4)) ≡ line_for p
unfolding line_for line_of
line_of-framed head p tail four =
    let data_packet : ltb (length p + 4) 4 ≡ false = ground arith in
    let same : payload (head ++ p ++ tail) (length p + 4) ≡ p =
      payload-overwritten head p tail (length p + 4) four refl in
    elim (Bool-cases (has_prefix p err_prefix)) [
      | inl error ↦ rw (error) (rw (data_packet) (rw (same) refl))
      | inr plain ↦ rw (plain) (rw (data_packet) (rw (same) refl))
    ]

line_of-empty : (tail : Bytes) → line_of (empty_pkt ++ tail) (outcome_of [] 4) ≡ line_for []
unfolding line_of line_for payload
line_of-empty tail = refl

-- ReadLine, over a pooled buffer of MaxSize bytes of any contents, returns the length, the payload
-- and the text if it is an error packet, of a payload that Write wrote, and leaves the reader at
-- the bytes behind the packet.
pub read_line-write :
    (p out r pooled : Bytes)
    → write p ≡ ok out
    → length pooled ≡ max_size
    → read_line pooled (some (out ++ r)) ≡ (line_for p, r)
unfolding read_line
read_line-write p out r pooled h size = elim (write-framed p out h) [
  | inl (none_left, shape) ↦ rw (shape) (
      rw (none_left)
        (rw (read_empty r pooled (omega arith)) (ap (λ t. (t, r)) (line_of-empty (drop 4 pooled)))))
  | inr (some_payload, room, shape) ↦
      let head : Bytes = ascii_hex16 (length p + 4) in
      rw (shape) (
        rw (read_framed p r pooled some_payload (omega arith) (omega arith)) (
          ap (λ t. (t, r))
            (line_of-framed head p (drop (4 + length p) (head ++ drop 4 pooled))
              (length-hex16 (length p + 4)))))
]

skip_framed :
    (p r buf : Bytes)
    → 0 < length p
    → length p ≤ max_payload_size
    → 4 ≤ length buf
    → length buf < length p + 4
    → read (some (ascii_hex16 (length p + 4) ++ p ++ r)) buf ≡ record {
      outcome = failed unexpected_eof;
      buf = ascii_hex16 (length p + 4) ++ drop 4 buf;
      left = r;
    }
skip_framed p r buf some_payload room head_fits small =
    let head : Bytes = ascii_hex16 (length p + 4) in
    let width : length (head ++ drop 4 buf) ≡ length buf =
      omega
        (arith, length-append head (drop 4 buf), length-drop 4 buf, length-hex16 (length p + 4)) in
    ap (λ t. read (some t) buf) (append_assoc head p r)
    ∙ read_header head (p ++ r) buf (length-hex16 (length p + 4)) head_fits
    ∙ ap (after_length (head ++ drop 4 buf) (p ++ r))
        (parse_framed p (drop 4 buf) room some_payload)
    ∙ skip_body (head ++ drop 4 buf) p r (length p + 4) refl some_payload (omega arith)

-- Where the buffer has room for a length but not for the packet, Read answers ErrUnexpectedEOF on
-- a packet that Write wrote and leaves the reader at the bytes behind the packet.
pub read-write_skips :
    (p out r buf : Bytes)
    → write p ≡ ok out
    → 4 ≤ length buf
    → length buf < length p + 4
    → ((read (some (out ++ r)) buf).outcome ≡ failed unexpected_eof)
      × ((read (some (out ++ r)) buf).left ≡ r)
read-write_skips p out r buf h head_fits small = elim (write-framed p out h) [
  | inl (none_left, shape) ↦ let z : length p ≡ 0 = ap length none_left in absurd (omega arith)
  | inr (some_payload, room, shape) ↦
      let skipped : read (some (out ++ r)) buf ≡ _ =
        ap (λ t. read (some (t ++ r)) buf) shape
        ∙ skip_framed p r buf some_payload room head_fits small in
      (ap (λ x. x.outcome) skipped, ap (λ x. x.left) skipped)
]

-- ErrorLine.Decode, over a pooled buffer of MaxSize bytes of any contents, returns the text that
-- ErrorLine.Encode wrote, with a newline added and then the white space around it trimmed, and
-- leaves the reader at the bytes behind the packet.
pub decode_error_line-encode :
    (text out r pooled : Bytes)
    → encode_error_line text ≡ ok out
    → length pooled ≡ max_size
    → decode_error_line pooled (some (out ++ r)) ≡ (ok (trim_space (text ++ codes "\n")), r)
unfolding encode_error_line decode_error_line decoded line_for
decode_error_line-encode text out r pooled h size =
    rw (read_line-write (err_prefix ++ text ++ codes "\n") out r pooled h size) refl
