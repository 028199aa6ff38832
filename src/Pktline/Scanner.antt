-- ===== src/Pktline/Scanner.antt =====
-- plumbing/format/pktline/scanner.go: the payloads of a series of packet lines, one by one.
pub mod Series
pub mod Takes
use go_git.Prelude.{
  ℕ, zero, suc, ◌+◌, ◌-◌, ◌≤◌, ◌<◌, ◌≡◌, refl, sym, ap, ◌∙◌, inl, inr, arith, List, [], ◌∷◌, ◌++◌,
  append_assoc, Bool, true, false, ltb, leb, ◌==◌, if◌then◌else◌, length, take, drop, length-append,
  length-drop, Option, none, some,
}
use go_git.Prelude.Text.{Bytes, has_prefix}
use go_git.Prelude.Result.{Result, ok, err, ok_inj}
use go_git.Pktline.{
  Error, Outcome, failed, packet, error_line, eof, ReadResult, len_size, max_size, err_prefix,
  empty_pkt, ascii_hex16, write, payload, read, read_full, after_header, fill,
}

pub data ScanError : Type 0 where
  io_error : Error → ScanError
  error_text : Bytes → ScanError

-- `n` is `none` for -1.
pub record Scanner : Type 0 where
  pub r : Option Bytes
  pub err : Option ScanError
  pub buf : Bytes
  pub n : Option ℕ

unfoldable pub zeros : ℕ → Bytes
zeros zero = []
zeros (suc k) = 0 ∷ zeros k

unfoldable pub new_scanner : Option Bytes → Scanner
new_scanner r = record { r = r; err = none; buf = zeros max_size; n = some 0 }

-- The result of a scan, and the scanner after it, by what `Read` returned.
unfoldable pub after_read : Bytes → Bytes → Outcome → Bool × Scanner
after_read b rest (failed eof) = (false, record { r = some rest; err = none; buf = b; n = none })
after_read b rest (failed e) =
    (false, record { r = some rest; err = some (io_error e); buf = b; n = none })
after_read b rest (packet l) = (true, record { r = some rest; err = none; buf = b; n = some l })
after_read b rest (error_line l text) =
    (false, record { r = some rest; err = some (error_text text); buf = b; n = some l })

unfoldable pub scan_reader : Scanner → Option Bytes → Bool × Scanner
scan_reader s none = (false, s)
scan_reader s (some r) = let x = read (some r) s.buf in after_read x.buf x.left x.outcome

unfoldable pub scan : Scanner → Bool × Scanner
scan s = scan_reader s s.r

unfoldable pub scanned : Bytes → Option ℕ → Bytes
scanned b none = []
scanned b (some l) = if leb len_size l then payload b l else []

-- `Bytes` and `Text`
unfoldable pub text : Scanner → Bytes
text s = scanned s.buf s.n

-- A client that scans until it is told to stop: the texts, and the scanner at the end.
pub scan_next : (Scanner → List Bytes × Scanner) → Bool × Scanner → List Bytes × Scanner
scan_next more (false, s) = ([], s)
scan_next more (true, s) = let x = more s in (text s ∷ x.0, x.1)

pub scan_texts : ℕ → Scanner → List Bytes × Scanner
scan_texts zero s = ([], s)
scan_texts (suc fuel) s = scan_next (scan_texts fuel) (scan s)

-- The bytes that a reader has left.
unfoldable pub unread : Option Bytes → ℕ
unread none = 0
unread (some r) = length r
