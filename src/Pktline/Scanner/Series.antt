-- ===== src/Pktline/Scanner/Series.antt =====
-- A series of packet lines, written and scanned.
use go_git.Prelude.{
  ℕ, zero, suc, ◌+◌, ◌≤◌, ◌≡◌, refl, sym, ap, ap₂, ◌∙◌, inl, inr, arith, List, [], ◌∷◌, ◌++◌, Bool,
  true, false, ltb, leb, length, drop, length-append, length-drop, Option, none, some, All,
}
use go_git.Prelude.Text.{Bytes, has_prefix}
use go_git.Prelude.Result.{Result, ok, ◌>>=◌, >>=-eq-ok, ok_inj}
use go_git.Pktline.{
  ReadResult, Error, max_size, err_prefix, empty_pkt, ascii_hex16, write, payload, read, read_full,
  after_header, fill, flush_pkt, write_flush, after_length, parse_length, hex_decode, hex_loop,
  hex_digit, ascii_hex_to_byte,
}
use go_git.Pktline.Length.{length-hex16}
use go_git.Pktline.ReadBack.{
  read_header, outcome_of, buffer_after, payload-overwritten, write-framed,
}
use go_git.Pktline.RoundTrip.{read_framed, read_empty}
use go_git.Pktline.Scanner.{
  Scanner, ScanError, after_read, scan_reader, scan, scanned, text, scan_next, scan_texts, zeros,
  new_scanner,
}

-- What a client writes for the payloads, one after the other.
unfoldable pub write_all : List Bytes → Result Error Bytes
write_all [] = ok []
write_all (p ∷ ps) = do a ← write p; b ← write_all ps; ok (a ++ b)

abbrev pub Plain : Bytes → Type 0
Plain p = has_prefix p err_prefix ≡ false

-- A scanner over the bytes of a reader.
abbrev pub at : Option ScanError → Option ℕ → Bytes → Bytes → Scanner
at e n b r = record { r = some r; err = e; buf = b; n = n }

-- A scan succeeded, with a text.
abbrev pub Scanned : Bytes → Bytes → Bool × Scanner → Type 0
Scanned p rest x =
    (b : Bytes) × (length b ≡ max_size)
    × (x ≡ (true, at none (some (length p + 4)) b rest))
    × (text (at none (some (length p + 4)) b rest) ≡ p)

abbrev resume : ReadResult → Bool × Scanner
resume x = after_read x.buf x.left x.outcome

width :
    (head p b : Bytes)
    → length head ≡ 4
    → length p + 4 ≤ length b
    → length (buffer_after head p b) ≡ length b
width head p b four fits =
    let rest : Bytes = drop (4 + length p) (head ++ drop 4 b) in
    omega (
      arith,
      length-append (head ++ p) rest,
      length-append head p,
      length-drop (4 + length p) (head ++ drop 4 b),
      length-append head (drop 4 b),
      length-drop 4 b,
    )

text-framed :
    (p tail r : Bytes)
    → let l : ℕ = length p + 4 in text (at none (some l) (ascii_hex16 l ++ p ++ tail) r) ≡ p
unfolding text scanned
text-framed p tail r =
    let enough : leb 4 (length p + 4) ≡ true = ground arith in
    let head : Bytes = ascii_hex16 (length p + 4) in
    rw (enough) (payload-overwritten head p tail (length p + 4) (length-hex16 (length p + 4)) refl)

text-empty : (tail r : Bytes) → text (at none (some 4) (empty_pkt ++ tail) r) ≡ []
unfolding text scanned payload
text-empty tail r = refl

resume-Plain :
    (p b r : Bytes) (l : ℕ)
    → Plain p
    → after_read b r (outcome_of p l) ≡ (true, at none (some l) b r)
unfolding after_read
resume-Plain p b r l plain = rw (plain) refl

-- One scan over a payload that Write wrote.
pub scan-write :
    (p out r b : Bytes) (e : Option ScanError) (n : Option ℕ)
    → write p ≡ ok out
    → Plain p
    → length b ≡ max_size
    → Scanned p r (scan (at e n b (out ++ r)))
unfolding scan scan_reader
scan-write p out r b e n h plain size = elim (write-framed p out h) [
  | inl (none_left, shape) ↦
      let b' : Bytes = empty_pkt ++ drop 4 b in
      let same : length (empty_pkt ++ drop 4 b) ≡ length b =
        omega (arith, length-append empty_pkt (drop 4 b), length-drop 4 b) in
      rw (none_left) (
        b',
        same ∙ size,
        ap (λ t. scan (at e n b (t ++ r))) shape
            ∙ ap resume (read_empty r b (omega arith))
            ∙ resume-Plain [] b' r 4 refl,
        text-empty (drop 4 b) r,
      )
  | inr (some_payload, room, shape) ↦
      let head : Bytes = ascii_hex16 (length p + 4) in
      let l : ℕ = length p + 4 in
      (
        buffer_after head p b,
        width head p b (length-hex16 l) (omega arith) ∙ size,
        ap (λ t. scan (at e n b (t ++ r))) shape
            ∙ ap resume (read_framed p r b some_payload (omega arith) (omega arith))
            ∙ resume-Plain p (buffer_after head p b) r l plain,
        text-framed p (drop (4 + length p) (head ++ drop 4 b)) r,
      )
]

pub scan-end :
    (b : Bytes) (e : Option ScanError) (n : Option ℕ)
    → 4 ≤ length b
    → scan (at e n b []) ≡ (false, at none none b [])
unfolding scan scan_reader read read_full after_header fill after_read
scan-end b e n room = let fits : ltb (length b) 4 ≡ false = ground arith in rw (fits) refl

pub scan-write_flush :
    (r b : Bytes) (e : Option ScanError) (n : Option ℕ)
    → length b ≡ max_size
    → (b' : Bytes) × (length b' ≡ max_size)
      × (scan (at e n b (write_flush ++ r)) ≡ (true, at none (some 0) b' r))
unfolding scan scan_reader write_flush after_read after_length parse_length hex_decode hex_loop
    hex_digit ascii_hex_to_byte
scan-write_flush r b e n size =
    let b' : Bytes = flush_pkt ++ drop 4 b in
    let same : length b' ≡ length b =
      omega (arith, length-append flush_pkt (drop 4 b), length-drop 4 b) in
    let whole : ltb (length b') 4 ≡ false = ground arith in
    (b', same ∙ size, ap resume (read_header flush_pkt r b refl (omega arith)) ∙ rw (whole) refl)

scan_texts-write_all :
    (ps : List Bytes) (out b : Bytes) (e : Option ScanError) (n : Option ℕ)
    → write_all ps ≡ ok out
    → All Plain ps
    → length b ≡ max_size
    → ((scan_texts (suc (length ps)) (at e n b out)).0 ≡ ps)
      × ((scan_texts (suc (length ps)) (at e n b out)).1.err ≡ none)
unfolding scan_texts scan_next write_all
scan_texts-write_all [] out b e n h plain size =
    rw (sym (ok_inj h)) (rw (scan-end b e n (omega arith)) (refl, refl))
scan_texts-write_all (p ∷ ps) out b e n h (plain, plains) size =
    let (a, written, more) = >>=-eq-ok (write p) _ h in
    let (c, rest_written, joined) = >>=-eq-ok (write_all ps) _ more in
    let n' : ℕ = length p + 4 in
    let (b', size', scanned_p, text_p) = scan-write p a c b e n written plain size in
    let rest = scan_texts-write_all ps c b' none (some n') rest_written plains size' in
    let k : ℕ = suc (length ps) in
    let s' : Scanner = at none (some n') b' c in
    let x : List Bytes × Scanner = scan_texts k s' in
    let step : scan_texts (suc k) (at e n b out) ≡ (text s' ∷ x.0, x.1) =
      ap (λ t. scan_texts (suc k) (at e n b t)) (sym (ok_inj joined))
      ∙ ap (scan_next (scan_texts k)) scanned_p in
    (ap (λ y. y.0) step ∙ ap₂ (λ t ts. t ∷ ts) text_p (rest.0), ap (λ y. y.1.err) step ∙ rest.1)

pub length-zeros : (k : ℕ) → length (zeros k) ≡ k
unfolding zeros
length-zeros zero = refl
length-zeros (suc k) = ap suc (length-zeros k)

-- Over the packets that Write wrote for payloads that do not begin with "ERR ", a new Scanner
-- gives these payloads in their order, then stops, and Err is nil.
pub scan_texts-new :
    (ps : List Bytes) (out : Bytes)
    → write_all ps ≡ ok out
    → All Plain ps
    → ((scan_texts (suc (length ps)) (new_scanner (some out))).0 ≡ ps)
      × ((scan_texts (suc (length ps)) (new_scanner (some out))).1.err ≡ none)
unfolding new_scanner
scan_texts-new ps out h plain =
    scan_texts-write_all ps out (zeros max_size) none (some 0) h plain (length-zeros max_size)
