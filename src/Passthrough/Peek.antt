-- ===== src/Passthrough/Peek.antt =====
-- internal/passthrough/sni.go: `PeekClientHello` reads TLS records until the ClientHello is whole,
-- and keeps what it read for a replay. The connection is the list of the bytes that it will still
-- deliver; a read past them fails (end of input, or the deadline), and takes them all.
pub mod Replay
pub mod Fragments
use mirage_chaff.Base.{
  ℕ, zero, suc, ◌+◌, ◌*◌, Bool, true, false, ◌||◌, ◌&&◌, List, [], ◌∷◌, ◌++◌, Option, none, some,
  length, take, drop, leb, ltb, ◌==◌, if◌then◌else◌,
}
use mirage_chaff.Base.Scan.{Scan, ok}
use mirage_chaff.Base.Text.{Text}
use mirage_chaff.Passthrough.Sni.{parse_sni}

pub data PeekError : Type 0 where
  not_tls bad_length read_failed : PeekError

-- The three results, and what the connection still holds behind the replayed bytes.
pub record Peeked : Type 0 where
  pub sni : Scan Text
  pub replay : List ℕ
  pub unread : List ℕ
  pub error : Option PeekError

-- `readFull` into a slice of `n` bytes.
unfoldable pub read_full : ℕ → List ℕ → Option (List ℕ × List ℕ)
read_full n s = if leb n (length s) then some (take n s, drop n s) else none

-- `readFull` into the five bytes of a record header.
unfoldable pub read_header : List ℕ → Option ((ℕ × ℕ × ℕ × ℕ × ℕ) × List ℕ)
read_header (a ∷ b ∷ c ∷ d ∷ e ∷ s) = some ((a, b, c, d, e), s)
read_header _ = none

abbrev pub header_bytes : ℕ × ℕ × ℕ × ℕ × ℕ → List ℕ
header_bytes (a, b, c, d, e) = a ∷ b ∷ c ∷ d ∷ e ∷ []

abbrev pub max_records : ℕ
max_records = 8

abbrev pub max_handshake : ℕ
max_handshake = 65536

-- The length that the handshake header declares, itself included.
unfoldable pub hello_total : List ℕ → Option ℕ
hello_total (a ∷ b ∷ c ∷ d ∷ rest) = some (4 + (b * 65536 + c * 256 + d))
hello_total _ = none

unfoldable pub is_whole : List ℕ → Bool
unfolding hello_total
is_whole hs = elim (hello_total hs) [
  | none ↦ false
  | some total ↦ leb total (length hs) || leb max_handshake (length hs)
]

abbrev pub peeked : List ℕ → List ℕ → List ℕ → Option PeekError → Peeked
peeked hs raw s e = record { sni = parse_sni hs; replay = raw; unread = s; error = e }

-- The rest of a round behind a handshake record's header; `more` is the next round.
unfoldable pub peek_body :
    (List ℕ → List ℕ → List ℕ → Peeked) → ℕ → List ℕ → List ℕ → List ℕ → List ℕ → Peeked
peek_body more n hdr raw hs s = elim (leb n 0 || ltb 65536 n) [
  | true ↦ peeked hs (raw ++ hdr) s (some bad_length)
  | false ↦ elim (read_full n s) [
    | none ↦ peeked hs (raw ++ hdr) [] (some read_failed)
    | some (body, s2) ↦ elim (is_whole (hs ++ body)) [
      | true ↦ peeked (hs ++ body) (raw ++ (hdr ++ body)) s2 none
      | false ↦ more (raw ++ (hdr ++ body)) (hs ++ body) s2
    ]
  ]
]

-- One round for each record left; `first` is `rec == 0`.
unfoldable pub peek_loop : ℕ → Bool → List ℕ → List ℕ → List ℕ → Peeked
peek_loop zero first raw hs s = peeked hs raw s none
peek_loop (suc left) first raw hs s = elim (read_header s) [
  | none ↦ peeked hs raw [] (some read_failed)
  | some (hdr, s1) ↦ elim (hdr.0 == 0x16) [
    | true ↦ peek_body (peek_loop left false) (hdr.3 * 256 + hdr.4) (header_bytes hdr) raw hs s1
    | false ↦ elim first [
      | true ↦ record {
        sni = ok [];
        replay = raw ++ header_bytes hdr;
        unread = s1;
        error = some not_tls;
      }
      | false ↦ peeked hs (raw ++ header_bytes hdr) s1 none
    ]
  ]
]

unfoldable pub peek_client_hello : List ℕ → Peeked
peek_client_hello s = peek_loop max_records true [] [] s
