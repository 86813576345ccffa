-- ===== src/Passthrough/Sni.antt =====
-- internal/passthrough/sni.go: the server name in a ClientHello handshake message.
pub mod Safe
pub mod Hello
use mirage_chaff.Base.{ℕ, zero, suc, Bool, true, false, List, [], leb, ◌==◌, if◌then◌else◌, length}
use mirage_chaff.Base.{Option, none, some}
use mirage_chaff.Base.Scan.{
  Scan, ok, stop, panic, stuck, ◌>>=◌, ◌>>◌, require, index, slice_from, slice_to, uint16_at,
}
use mirage_chaff.Base.Text.{Text}

-- `len(b) < 4 || b[0] != 0x01`: the index is read only if the length allows it.
unfoldable pub handshake_body : List ℕ → Scan (List ℕ)
handshake_body b = do
  require (leb 4 (length b))
  kind ← index b 0
  require (kind == 0x01)
  slice_from 4 b

-- version(2) + random(32)
unfoldable pub skip_fixed : List ℕ → Scan (List ℕ)
skip_fixed b = do require (leb 34 (length b)); slice_from 34 b

-- A field behind one byte of length: session_id and compression_methods.
unfoldable pub skip_vec8 : List ℕ → Scan (List ℕ)
skip_vec8 b = do
  require (leb 1 (length b))
  n ← index b 0
  rest ← slice_from 1 b
  require (leb n (length rest))
  slice_from n rest

-- A field behind two bytes of length: cipher_suites.
unfoldable pub skip_vec16 : List ℕ → Scan (List ℕ)
skip_vec16 b = do
  require (leb 2 (length b))
  n ← uint16_at b 0
  rest ← slice_from 2 b
  require (leb n (length rest))
  slice_from n rest

-- A field behind two bytes of length, cut out: the extensions block and a ServerNameList.
unfoldable pub take_vec16 : List ℕ → Scan (List ℕ)
take_vec16 b = do
  require (leb 2 (length b))
  n ← uint16_at b 0
  rest ← slice_from 2 b
  require (leb n (length rest))
  slice_to n rest

-- One entry of a ServerNameList: its type, its name, and what follows it.
unfoldable pub name_entry : List ℕ → Scan (ℕ × Text × List ℕ)
name_entry ext = do
  kind ← index ext 0
  n ← uint16_at ext 1
  after ← slice_from 3 ext
  require (leb n (length after))
  name ← slice_to n after
  rest ← slice_from n after
  ok (kind, name, rest)

-- The loop over a ServerNameList on fuel; `none` when it ends with no host_name.
unfoldable pub scan_names : ℕ → List ℕ → Scan (Option Text)
scan_names zero ext = if leb 3 (length ext) then stuck else ok none
scan_names (suc f) ext = elim (leb 3 (length ext)) [
  | false ↦ ok none
  | true ↦ do
    (kind, name, rest) ← name_entry ext
    elim (kind == 0) [ true ↦ ok (some name) | false ↦ scan_names f rest ]
]

-- One extension: its type, its content, and what follows it.
unfoldable pub extension : List ℕ → Scan (ℕ × List ℕ × List ℕ)
extension b = do
  kind ← uint16_at b 0
  n ← uint16_at b 2
  after ← slice_from 4 b
  require (leb n (length after))
  ext ← slice_to n after
  rest ← slice_from n after
  ok (kind, ext, rest)

-- The content of a server_name extension.
unfoldable pub server_names : List ℕ → Scan (Option Text)
server_names ext = do list ← take_vec16 ext; scan_names (length list) list

-- The loop over the extensions, on fuel.
unfoldable pub scan_extensions : ℕ → List ℕ → Scan (Option Text)
scan_extensions zero b = if leb 4 (length b) then stuck else ok none
scan_extensions (suc f) b = elim (leb 4 (length b)) [
  | false ↦ ok none
  | true ↦ do
    (kind, ext, rest) ← extension b
    elim (kind == 0x0000) [
      | false ↦ scan_extensions f rest
      | true ↦ do
        found ← server_names ext
        elim found [ some name ↦ ok (some name) | none ↦ scan_extensions f rest ]
    ]
]

-- Each round takes four bytes of the block at least, so its length is fuel enough.
unfoldable pub scan_hello : List ℕ → Scan (Option Text)
scan_hello b = do
  body ← handshake_body b
  after_fixed ← skip_fixed body
  after_session ← skip_vec8 after_fixed
  after_suites ← skip_vec16 after_session
  after_methods ← skip_vec8 after_suites
  exts ← take_vec16 after_methods
  scan_extensions (length exts) exts

-- `parseSNI`: every early return is the empty string.
unfoldable pub parse_sni : List ℕ → Scan Text
parse_sni b = elim (scan_hello b) [
  | ok found ↦ elim found [ some name ↦ ok name | none ↦ ok [] ]
  | stop ↦ ok []
  | panic ↦ panic
  | stuck ↦ stuck
]
