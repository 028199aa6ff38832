-- ===== src/Pktline/Examples.antt =====
-- Runs of plumbing/format/pktline, and the theorems at concrete inputs.
use go_git.Prelude.{◌≡◌, refl, arith, [], ◌∷◌, ◌++◌, length, some, none}
use go_git.Prelude.Text.{Bytes, codes, trim_space}
use go_git.Prelude.Result.{ok, err}
use go_git.Pktline.{
  max_size, invalid_pkt_len, unexpected_eof, nil_error, failed, flush_pkt, ascii_hex16,
  parse_length, write, write_error, write_flush, encode_error_line, read, read_line,
  byte_to_ascii_hex, ascii_hex_to_byte, hex_decode, hex_loop, hex_digit, read_full, after_header,
  after_length, after_payload, fill, line, line_of,
}
use go_git.Pktline.ReadBack.{line_for}
use go_git.Pktline.RoundTrip.{read_line-write, read-write_skips}
use go_git.Pktline.Scanner.{zeros, scan, scan_reader, after_read, scan_texts, new_scanner}
use go_git.Pktline.Scanner.Series.{write_all, length-zeros, scan_texts-new}

abbrev hello : Bytes
hello = codes "hello"

hello_written : write hello ≡ ok (codes "0009hello")
unfolding write ascii_hex16 byte_to_ascii_hex
hello_written = refl

length_of_hello : parse_length (codes "0009hello") ≡ ok 9
unfolding parse_length hex_decode hex_loop hex_digit ascii_hex_to_byte
length_of_hello = refl

three_is_refused : parse_length (codes "0003") ≡ err invalid_pkt_len
unfolding parse_length hex_decode hex_loop hex_digit ascii_hex_to_byte
three_is_refused = refl

no_error : write_error none ≡ err nil_error
unfolding write_error
no_error = refl

flush_read : read_line (zeros 10) (some (write_flush ++ hello)) ≡ (line 0 [], hello)
unfolding read_line read read_full after_header after_length fill zeros parse_length hex_decode
    hex_loop hex_digit ascii_hex_to_byte line_of write_flush
flush_read = refl

pool_size : length (zeros max_size) ≡ max_size
pool_size = length-zeros max_size

read_line-write_example :
    read_line (zeros max_size) (some (codes "0009hello" ++ flush_pkt)) ≡ (line_for hello, flush_pkt)
read_line-write_example =
    read_line-write hello (codes "0009hello") flush_pkt (zeros max_size) hello_written pool_size

read-write_skips_example :
    ((read (some (codes "0009hello" ++ flush_pkt)) (zeros 6)).outcome ≡ failed unexpected_eof)
    × ((read (some (codes "0009hello" ++ flush_pkt)) (zeros 6)).left ≡ flush_pkt)
unfolding zeros
read-write_skips_example =
    read-write_skips hello (codes "0009hello") flush_pkt (zeros 6) hello_written (omega arith)
      (omega arith)

bad_written : encode_error_line (codes "bad") ≡ ok (codes "000cERR bad\n")
unfolding encode_error_line write ascii_hex16 byte_to_ascii_hex
bad_written = refl

trimmed : trim_space (codes "bad\n") ≡ codes "bad"
unfolding trim_space
trimmed = refl

two_written : write_all (hello ∷ [] ∷ []) ≡ ok (codes "0009hello0004")
unfolding write_all write ascii_hex16 byte_to_ascii_hex
two_written = refl

scan_texts-new_example :
    ((scan_texts 3 (new_scanner (some (codes "0009hello0004")))).0 ≡ hello ∷ [] ∷ [])
    × ((scan_texts 3 (new_scanner (some (codes "0009hello0004")))).1.err ≡ none)
scan_texts-new_example =
    scan_texts-new (hello ∷ [] ∷ []) (codes "0009hello0004") two_written (refl, (refl, tt))

-- A series that ends behind a packet's length ends like one that ends between packets.
cut_behind_length :
    (scan (record { r = some (codes "0009"); err = none; buf = zeros 10; n = none })).1.err ≡ none
unfolding scan scan_reader after_read read read_full after_header after_length after_payload fill
    zeros parse_length hex_decode hex_loop hex_digit ascii_hex_to_byte
cut_behind_length = refl
