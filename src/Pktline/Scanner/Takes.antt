-- ===== src/Pktline/Scanner/Takes.antt =====
-- What a read and a scan take from their reader.
use go_git.Prelude.{
  ℕ, ◌+◌, ◌-◌, ◌≤◌, ◌≡◌, refl, sym, ap, inl, inr, ◌⊎◌, arith, true, false, ◌||◌, ltb, ◌==◌, length,
  drop, length-drop, Option, none, some, Bool-cases,
}
use go_git.Prelude.Text.{Bytes}
use go_git.Prelude.Result.{Result, ok, err}
use go_git.Pktline.{
  Error, payload_too_long, invalid_pkt_len, invalid_error_line, nil_writer, nil_reader, nil_error,
  eof, not_hexadecimal, Outcome, failed, packet, error_line, ReadResult, FullRead, read_full,
  unexpected_eof, after_payload, after_length, after_header, read,
}
use go_git.Pktline.Scanner.{Scanner, after_read, scan_reader, scan, unread}

-- A read fails, or leaves fewer bytes by four at least.
abbrev Takes : Bytes → ReadResult → Type 0
Takes r x = ((e : Error) × (x.outcome ≡ failed e)) ⊎ (length x.left + 4 ≤ length r)

after_payload-left :
    (p : Bytes) (l : ℕ) (full : FullRead) → (after_payload p l full).left ≡ full.left
unfolding after_payload
after_payload-left p l full = by_failure full.failure
  where
    by_failure :
        (o : Option Error) → (after_payload p l (record full { failure = o })).left ≡ full.left
    by_failure none = refl
    by_failure (some e) = refl

after_length-left : (p r : Bytes) (l : Result Error ℕ) → length (after_length p r l).left ≤ length r
unfolding after_length read_full
after_length-left p r (err e) = omega arith
after_length-left p r (ok l) = elim (Bool-cases (l == 0 || l == 1 || l == 2)) [
  | inl short ↦ rw (short) (omega arith)
  | inr long ↦ elim (Bool-cases (l == 4)) [
    | inl empty ↦ rw (long) (rw (empty) (omega arith))
    | inr full ↦ elim (Bool-cases (ltb (length p) l)) [
      | inl skipped ↦ rw (long) (rw (full) (rw (skipped) (omega (arith, length-drop (l - 4) r))))
      | inr fits ↦ rw (long) (
          rw (full) (
            rw (fits) (
              rw (after_payload-left p l (read_full (l - 4) r))
                (omega (arith, length-drop (l - 4) r)))))
    ]
  ]
]

read-Takes : (r p : Bytes) → Takes r (read (some r) p)
unfolding read read_full after_header
read-Takes r p = elim (Bool-cases (ltb (length p) 4)) [
  | inl narrow ↦ rw (narrow) (inl (_, refl))
  | inr wide ↦ elim (Bool-cases (length r == 0)) [
    | inl ended ↦ rw (wide) (rw (ended) (inl (_, refl)))
    | inr some_left ↦ elim (Bool-cases (ltb (length r) 4)) [
      | inl cut ↦ rw (wide) (rw (some_left) (rw (cut) (inl (_, refl))))
      | inr whole ↦
          let enough : 4 ≤ length r = ground arith in
          rw (wide) (
            rw (some_left)
              (rw (whole) (inr (omega (arith, length-drop 4 r, after_length-left _ (drop 4 r) _)))))
    ]
  ]
]

failed_stops : (b r : Bytes) (e : Error) → (after_read b r (failed e)).0 ≡ false
unfolding after_read
failed_stops b r payload_too_long = refl
failed_stops b r invalid_pkt_len = refl
failed_stops b r invalid_error_line = refl
failed_stops b r nil_writer = refl
failed_stops b r nil_reader = refl
failed_stops b r nil_error = refl
failed_stops b r eof = refl
failed_stops b r unexpected_eof = refl
failed_stops b r (not_hexadecimal c) = refl

-- A scan that succeeds took four bytes at least.
by_outcome :
    (r : Bytes) (s' : Scanner) (x : ReadResult) (o : Outcome)
    → Takes r x
    → x.outcome ≡ o
    → after_read x.buf x.left o ≡ (true, s')
    → unread s'.r + 4 ≤ unread (some r)
unfolding after_read unread
by_outcome r s' x (failed e) takes same h =
    let stops : (after_read x.buf x.left (failed e)).0 ≡ false = failed_stops x.buf x.left e in
    let goes : (after_read x.buf x.left (failed e)).0 ≡ true = ap (λ y. y.0) h in absurd (cc)
by_outcome r s' x (packet l) takes same h =
    let left : some x.left ≡ s'.r = ap (λ y. y.1.r) h in
    rw (sym left) (elim takes [ inl (e, failure) ↦ absurd (cc) | inr less ↦ less ])
by_outcome r s' x (error_line l t) takes same h =
    let stops : false ≡ true = ap (λ y. y.0) h in absurd (cc)

pub scan-unread : (s s' : Scanner) → scan s ≡ (true, s') → unread s'.r + 4 ≤ unread s.r
unfolding scan scan_reader
scan-unread s s' h = by_reader s.r h
  where
    by_reader : (r : Option Bytes) → scan_reader s r ≡ (true, s') → unread s'.r + 4 ≤ unread r
    by_reader none h = let stops : false ≡ true = ap (λ y. y.0) h in absurd (cc)
    by_reader (some r) h =
        let x : ReadResult = read (some r) s.buf in
        by_outcome r s' x x.outcome (read-Takes r s.buf) refl h
