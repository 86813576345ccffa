-- ===== src/Passthrough/Examples.antt =====
-- A ClientHello for `a.io`, in one record and in two.
use mirage_chaff.Base.{
  ℕ, ◌≡◌, ◌≢◌, refl, List, [], ◌∷◌, ◌++◌, Option, none, some, length, take, drop,
}
use mirage_chaff.Base.Text.{Text, codes}
use mirage_chaff.Base.Scan.{ok}
use mirage_chaff.Passthrough.Sni.{parse_sni}
use mirage_chaff.Passthrough.Sni.Safe.{parse_sni_total}
use mirage_chaff.Passthrough.Sni.Hello.{Hello, IsHello, hello_wire, parse_sni-hello}
use mirage_chaff.Passthrough.Peek.{peek_client_hello, read_failed}
use mirage_chaff.Passthrough.Peek.Replay.{peek_replays, short_header_lost}
use mirage_chaff.Passthrough.Peek.Fragments.{records_wire, IsMessage, peek_fragments}
use native.Mathlib.Omega.{arith}
use mirage_chaff.Base.{replicate}

abbrev host : Text
host = codes "a.io"

abbrev hello : Hello
hello = record {
  fixed = replicate 34 7;
  session = 1 ∷ 2 ∷ [];
  suites = 0x13 ∷ 0x01 ∷ [];
  methods = 0 ∷ [];
  before = (43, 2 ∷ 3 ∷ 4 ∷ []) ∷ [];
  others = (1, 9 ∷ []) ∷ [];
  host = host;
  more_names = [];
  trailing = [];
  after = 0 ∷ 16 ∷ 0 ∷ 0 ∷ [];
  rest = [];
}

hello-IsHello : IsHello hello
hello-IsHello = record {
  fixed_34 = refl;
  before_other = ((λ e. omega (arith, e)), tt);
  names_other = ((λ e. omega (arith, e)), tt);
}

abbrev wire : List ℕ
wire = hello_wire hello

abbrev first : List ℕ
first = take 20 wire

abbrev second : List ℕ
second = drop 20 wire

wire-IsMessage : IsMessage (first ++ (second ++ []))
unfolding mirage_chaff.Passthrough.Peek.hello_total
wire-IsMessage = (refl, omega arith)

parse_sni_total_example : (name : Text) × (parse_sni (1 ∷ 0 ∷ 0 ∷ 9 ∷ 3 ∷ 3 ∷ []) ≡ ok name)
parse_sni_total_example = parse_sni_total (1 ∷ 0 ∷ 0 ∷ 9 ∷ 3 ∷ 3 ∷ [])

parse_sni-hello_example : parse_sni wire ≡ ok host
parse_sni-hello_example = parse_sni-hello hello hello-IsHello

peek_fragments_example :
    peek_client_hello (records_wire (3, 1) (first ∷ second ∷ []) ++ (99 ∷ [])) ≡ record {
      sni = parse_sni (first ++ (second ++ []));
      replay = records_wire (3, 1) (first ∷ second ∷ []);
      unread = 99 ∷ [];
      error = none;
    }
peek_fragments_example =
    peek_fragments (3, 1) first (second ∷ []) (99 ∷ []) (omega arith)
      ((omega arith, omega arith), ((omega arith, omega arith), tt)) wire-IsMessage

-- Plain HTTP, which is refused after one header.
abbrev http : List ℕ
http = codes "GET / HTTP/1.1"

http-error : (peek_client_hello http).error ≢ some read_failed
unfolding mirage_chaff.Passthrough.Peek.peek_client_hello mirage_chaff.Passthrough.Peek.peek_loop
    mirage_chaff.Passthrough.Peek.read_header
http-error h = cc

peek_replays_example : (peek_client_hello http).replay ++ (peek_client_hello http).unread ≡ http
peek_replays_example = peek_replays http http-error

short_header_lost_example :
    ((peek_client_hello (0x16 ∷ 3 ∷ [])).replay ++ (peek_client_hello (0x16 ∷ 3 ∷ [])).unread ≡ [])
    × ((peek_client_hello (0x16 ∷ 3 ∷ [])).error ≡ some read_failed)
    × ((peek_client_hello (0x16 ∷ 3 ∷ [])).replay ++ (peek_client_hello (0x16 ∷ 3 ∷ [])).unread
        ≢ 0x16 ∷ 3 ∷ [])
short_header_lost_example = short_header_lost (0x16 ∷ 3 ∷ []) (λ e. cc) (omega arith)

parse_sni_empty : parse_sni [] ≡ ok []
unfolding parse_sni mirage_chaff.Passthrough.Sni.scan_hello
    mirage_chaff.Passthrough.Sni.handshake_body mirage_chaff.Base.Scan.◌>>=◌
    mirage_chaff.Base.Scan.◌>>◌ mirage_chaff.Base.Scan.require
parse_sni_empty = refl
