-- ===== src/Pktline.antt =====
-- plumbing/format/pktline: the packet lines of Git's protocols. A reader is the list of the bytes
-- left, `none` where it is nil; a writer takes every byte, and a write returns what it adds. The
-- length -1 with an error is `failed`. Tracing is left out.
pub mod Length
pub mod ReadBack
pub mod RoundTrip
pub mod Peek
pub mod Scanner
mod Examples
use go_git.Prelude.{
  ℕ, zero, suc, ◌+◌, ◌-◌, ◌*◌, ◌/◌, ◌%◌, ◌^◌, bit_and, List, [], ◌∷◌, ◌++◌, Bool, true, false, not,
  ◌&&◌, ◌||◌, ltb, leb, ◌==◌, if◌then◌else◌, length, take, drop, Option, none, some,
}
use go_git.Prelude.Text.{Bytes, codes, has_prefix, trim_space}
use go_git.Prelude.Result.{Result, ok, err, ◌>>=◌}

pub data Error : Type 0 where
  payload_too_long : Error
  invalid_pkt_len : Error
  invalid_error_line : Error
  nil_writer : Error
  nil_reader : Error
  nil_error : Error
  eof : Error
  unexpected_eof : Error
  not_hexadecimal : ℕ → Error

abbrev pub flush : ℕ
flush = 0

abbrev pub delim : ℕ
delim = 1

abbrev pub response_end : ℕ
response_end = 2

abbrev pub len_size : ℕ
len_size = 4

abbrev pub max_size : ℕ
max_size = 65520

abbrev pub max_payload_size : ℕ
max_payload_size = max_size - len_size

abbrev pub flush_pkt : Bytes
flush_pkt = codes "0000"

abbrev pub delim_pkt : Bytes
delim_pkt = codes "0001"

abbrev pub response_end_pkt : Bytes
response_end_pkt = codes "0002"

abbrev pub empty_pkt : Bytes
empty_pkt = codes "0004"

abbrev pub err_prefix : Bytes
err_prefix = codes "ERR "

pub ascii_hex_to_byte : ℕ → Result Error ℕ
ascii_hex_to_byte b =
    if leb 48 b && leb b 57
    then ok (b - 48)
    else if leb 97 b && leb b 102
    then ok (b - 97 + 10)
    else if leb 65 b && leb b 70
    then ok (b - 65 + 10)
    else err (not_hexadecimal b)

pub byte_to_ascii_hex : ℕ → ℕ
byte_to_ascii_hex n = if ltb n 10 then 48 + n else 97 - 10 + n

pub ascii_hex16 : ℕ → Bytes
ascii_hex16 n =
    byte_to_ascii_hex (bit_and n 0xf000 / 2 ^ 12)
    ∷ byte_to_ascii_hex (bit_and n 0x0f00 / 2 ^ 8)
    ∷ byte_to_ascii_hex (bit_and n 0x00f0 / 2 ^ 4)
    ∷ byte_to_ascii_hex (bit_and n 0x000f)
    ∷ []

-- What one digit adds, or the error that the code wraps in ErrInvalidPktLen.
pub hex_digit : (ℕ → Result Error ℕ) → ℕ → Result Error ℕ → Result Error ℕ
hex_digit next ret (ok n) = next (16 * ret + n)
hex_digit next ret (err e) = err invalid_pkt_len

-- The loop of `hexDecode`, with the digits to go.
pub hex_loop : ℕ → Bytes → ℕ → Result Error ℕ
hex_loop zero buf ret = ok ret
hex_loop (suc i) [] ret = err invalid_pkt_len
hex_loop (suc i) (b ∷ buf) ret = hex_digit (hex_loop i buf) ret (ascii_hex_to_byte b)

pub hex_decode : Bytes → Result Error ℕ
hex_decode buf = if ltb (length buf) 4 then err invalid_pkt_len else hex_loop len_size buf 0

pub parse_length : Bytes → Result Error ℕ
parse_length b = do
  n ← hex_decode b
  if n == 3 then err invalid_pkt_len else if ltb max_size n then err invalid_pkt_len else ok n

-- The bytes that `Write` adds to the writer, and the count that it returns is their number.
pub write : Bytes → Result Error Bytes
write p =
    if length p == 0
    then ok empty_pkt
    else if ltb max_payload_size (length p)
    then err payload_too_long
    else ok (ascii_hex16 (length p + len_size) ++ p)

pub writeln : Bytes → Result Error Bytes
writeln s = write (s ++ codes "\n")

pub write_string : Bytes → Result Error Bytes
write_string s = write s

-- `WriteError`, for the text of an error, `none` where it is nil.
pub write_error : Option Bytes → Result Error Bytes
write_error none = err nil_error
write_error (some text) = write (err_prefix ++ text ++ codes "\n")

pub write_flush : Bytes
write_flush = flush_pkt

pub write_delim : Bytes
write_delim = delim_pkt

pub write_response_end : Bytes
write_response_end = response_end_pkt

-- io.ReadFull of n bytes: those read, those left, the error.
pub record FullRead : Type 0 where
  pub data_read : Bytes
  pub left : Bytes
  pub failure : Option Error

pub read_full : ℕ → Bytes → FullRead
read_full n r = record {
  data_read = take n r;
  left = drop n r;
  failure =
      if n == 0
      then none
      else if length r == 0
      then some eof
      else if ltb (length r) n
      then some unexpected_eof
      else none;
}

-- A length and an error: -1 and an error, a packet, or an error packet's length and text.
pub data Outcome : Type 0 where
  failed : Error → Outcome
  packet : ℕ → Outcome
  error_line : ℕ → Bytes → Outcome

-- What `Read` returns, the buffer after it and the reader after it.
pub record ReadResult : Type 0 where
  pub outcome : Outcome
  pub buf : Bytes
  pub left : Bytes

-- A buffer with some bytes of it overwritten.
pub fill : Bytes → ℕ → Bytes → Bytes
fill p offset data_read = take offset p ++ data_read ++ drop (offset + length data_read) p

pub payload : Bytes → ℕ → Bytes
payload p l = take (l - len_size) (drop len_size p)

pub classify : Bytes → ℕ → Outcome
classify p l =
    if has_prefix (payload p l) err_prefix
    then error_line l (trim_space (drop len_size (payload p l)))
    else packet l

pub after_payload : Bytes → ℕ → FullRead → ReadResult
after_payload p l full = after_failure full.failure
  where
    after_failure : Option Error → ReadResult
    after_failure (some e) = record {
      outcome = failed e;
      buf = fill p len_size full.data_read;
      left = full.left;
    }
    after_failure none = record {
      outcome = classify (fill p len_size full.data_read) l;
      buf = fill p len_size full.data_read;
      left = full.left;
    }

pub after_length : Bytes → Bytes → Result Error ℕ → ReadResult
after_length p r (err e) = record { outcome = failed e; buf = p; left = r }
after_length p r (ok l) =
    if l == flush || l == delim || l == response_end
    then record { outcome = packet l; buf = p; left = r }
    else if l == len_size
    then record { outcome = packet l; buf = p; left = r }
    else if ltb (length p) l
    then record { outcome = failed unexpected_eof; buf = p; left = drop (l - len_size) r }
    else after_payload p l (read_full (l - len_size) r)

pub after_header : Bytes → FullRead → ReadResult
after_header p full = after_failure full.failure
  where
    after_failure : Option Error → ReadResult
    after_failure (some unexpected_eof) = record {
      outcome = failed invalid_pkt_len;
      buf = fill p 0 full.data_read;
      left = full.left;
    }
    after_failure (some e) = record {
      outcome = failed e;
      buf = fill p 0 full.data_read;
      left = full.left;
    }
    after_failure none =
        after_length (fill p 0 full.data_read) full.left (parse_length (fill p 0 full.data_read))

pub read : Option Bytes → Bytes → ReadResult
read none p = record { outcome = failed nil_reader; buf = p; left = [] }
read (some r) p =
    if ltb (length p) len_size
    then record { outcome = failed invalid_pkt_len; buf = p; left = r }
    else after_header p (read_full len_size r)

-- What `ReadLine` and `PeekLine` return: -1, nil and an error; a length and a payload; or
-- these and the text of an error packet.
pub data Line : Type 0 where
  no_line : Error → Line
  line : ℕ → Bytes → Line
  error_packet : ℕ → Bytes → Bytes → Line

pub line_of : Bytes → Outcome → Line
line_of p (failed e) = no_line e
line_of p (packet l) = line l (if ltb l len_size then [] else payload p l)
line_of p (error_line l text) = error_packet l (if ltb l len_size then [] else payload p l) text

-- `ReadLine` over the buffer that `GetBuffer` gives: the line, and the reader after it.
pub read_line : Bytes → Option Bytes → Line × Bytes
read_line pooled r = let x = read r pooled in (line_of x.buf x.outcome, x.left)

-- `Peek` of a ReadPeeker whose buffer has room for a packet.
pub peek : ℕ → Bytes → Result Error Bytes
peek n r = if ltb (length r) n then err eof else ok (take n r)

pub peek_data : ℕ → Result Error Bytes → Line
peek_data l (err e) = no_line e
peek_data l (ok p) =
    if has_prefix (payload p l) err_prefix
    then error_packet l (payload p l) (trim_space (drop len_size (payload p l)))
    else line l (payload p l)

pub peek_length : Bytes → Result Error ℕ → Line
peek_length r (err e) = no_line e
peek_length r (ok l) =
    if l == flush || l == delim || l == response_end
    then line l []
    else if l == len_size
    then line l []
    else peek_data l (peek l r)

pub peek_line : Option Bytes → Line
peek_line none = no_line nil_reader
peek_line (some r) = peek_length r (do n ← peek len_size r; parse_length n)

-- `ErrorLine.Encode`
pub encode_error_line : Bytes → Result Error Bytes
encode_error_line text = write (err_prefix ++ text ++ codes "\n")

pub decoded : Line → Result Error Bytes
decoded (error_packet l p text) = ok text
decoded (line l p) = err invalid_error_line
decoded (no_line e) = err invalid_error_line

-- `ErrorLine.Decode`: the text, and the reader after it.
pub decode_error_line : Bytes → Option Bytes → Result Error Bytes × Bytes
decode_error_line pooled r = let x = read_line pooled r in (decoded (x.0), x.1)
