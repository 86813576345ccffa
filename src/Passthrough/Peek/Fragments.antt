-- ===== src/Passthrough/Peek/Fragments.antt =====
-- A ClientHello that the client spread over several TLS records.
use mirage_chaff.Base.{
  ℕ, zero, suc, ◌/◌, ◌%◌, ◌<◌, ◌≤◌, ◌≡◌, ◌≢◌, refl, ◌∙◌, ap, ap₂, true, false, List, [], ◌∷◌, ◌++◌,
  none, some, length, leb, ltb, ◌||◌, arith, append_assoc, append-nil, Bool, length-append, le→leb,
  lt→leb, le→ltb, take-length_append, drop-length_append, All,
}
use mirage_chaff.Passthrough.Peek.{
  Peeked, read_full, read_header, header_bytes, is_whole, hello_total, peek_body, peek_loop,
  peek_client_hello, peeked, max_records,
}
use mirage_chaff.Passthrough.Sni.{parse_sni}

-- Content type 22, a version, two bytes of length, the fragment.
abbrev pub record_wire : ℕ × ℕ → List ℕ → List ℕ
record_wire (major, minor) frag =
    0x16 ∷ major ∷ minor ∷ length frag / 256 ∷ length frag % 256 ∷ frag

abbrev pub records_wire : ℕ × ℕ → List (List ℕ) → List ℕ
records_wire v [] = []
records_wire v (f ∷ fs) = record_wire v f ++ records_wire v fs

abbrev pub concat : List (List ℕ) → List ℕ
concat [] = []
concat (f ∷ fs) = f ++ concat fs

-- A record carries a byte at least, and its length fits its field.
abbrev pub IsFragment : List ℕ → Type 0
IsFragment f = (0 < length f) × (length f < 65536)

-- A message that declares its own length.
abbrev pub IsMessage : List ℕ → Type 0
IsMessage hs = (hello_total hs ≡ some (length hs)) × (length hs ≤ 65536)

-- Short of its end, a message is not whole.
not_whole_before : (p q : List ℕ) → q ≢ [] → IsMessage (p ++ q) → is_whole p ≡ false
unfolding is_whole
not_whole_before [] q ne m = refl
not_whole_before (a ∷ []) q ne m = refl
not_whole_before (a ∷ b ∷ []) q ne m = refl
not_whole_before (a ∷ b ∷ c ∷ []) q ne m = refl
not_whole_before (a ∷ b ∷ c ∷ d ∷ p) [] ne m = absurd (ne refl)
not_whole_before (a ∷ b ∷ c ∷ d ∷ p) (x ∷ q) ne (e, fits) = ground (arith, length-append p (x ∷ q))

whole_at_end : (hs : List ℕ) → IsMessage hs → is_whole hs ≡ true
unfolding is_whole
whole_at_end hs (e, fits) = rw (e, is_whole) (ground arith)

read_full-append : (xs ys : List ℕ) → read_full (length xs) (xs ++ ys) ≡ some (xs, ys)
unfolding read_full
read_full-append xs ys = rw (
  le→leb (length xs) (length (xs ++ ys)) (omega (arith, length-append xs ys)),
  take-length_append xs ys,
  drop-length_append xs ys,
)

length_guard : (n : ℕ) → 0 < n → n < 65536 → (leb n 0 || ltb 65536 n) ≡ false
length_guard n h k = rw (lt→leb n 0 h, le→ltb 65536 n (omega arith))

module _ (more : List ℕ → List ℕ → List ℕ → Peeked) (hdr raw hs f s : List ℕ)
    (v : IsFragment f) where
  peek_body-last :
      is_whole (hs ++ f) ≡ true
      → peek_body more (length f) hdr raw hs (f ++ s) ≡ peeked (hs ++ f) (raw ++ (hdr ++ f)) s none
  unfolding peek_body
  peek_body-last w = rw (length_guard (length f) v.0 v.1, peek_body, read_full-append f s, w)

  peek_body-inner :
      is_whole (hs ++ f) ≡ false
      → peek_body more (length f) hdr raw hs (f ++ s) ≡ more (raw ++ (hdr ++ f)) (hs ++ f) s
  unfolding peek_body
  peek_body-inner w = rw (length_guard (length f) v.0 v.1, peek_body, read_full-append f s, w)

-- The header of a record, and one round on a record in front of `s`.
abbrev header_wire : ℕ × ℕ → List ℕ → List ℕ
header_wire v f = header_bytes (0x16, v.0, v.1, length f / 256, length f % 256)

peek_loop-record :
    (left : ℕ) (first : Bool) (v : ℕ × ℕ) (raw hs f s : List ℕ)
    → peek_loop (suc left) first raw hs (record_wire v f ++ s)
      ≡ peek_body (peek_loop left false) (length f) (header_wire v f) raw hs (f ++ s)
unfolding peek_loop read_header
peek_loop-record left first v raw hs f s =
    ap (λ n. peek_body (peek_loop left false) n (header_wire v f) raw hs (f ++ s)) (omega arith)

peek_loop-fragments :
    (left : ℕ) (first : Bool) (v : ℕ × ℕ) (raw hs f : List ℕ) (fs : List (List ℕ)) (rest : List ℕ)
    → length (f ∷ fs) ≤ left
    → All IsFragment (f ∷ fs)
    → IsMessage (hs ++ concat (f ∷ fs))
    → peek_loop left first raw hs (records_wire v (f ∷ fs) ++ rest)
      ≡ peeked (hs ++ concat (f ∷ fs)) (raw ++ records_wire v (f ∷ fs)) rest none
peek_loop-fragments zero first v raw hs f fs rest h a m = absurd (omega arith)
peek_loop-fragments (suc left) first v raw hs f [] rest h a m = rw (append-nil f) (
    peek_loop-record left first v raw hs f rest
    ∙ peek_body-last _ _ raw hs f rest a.0 (whole_at_end _ (rw (append-nil f) at m)))
peek_loop-fragments (suc left) first v raw hs f (g ∷ gs) rest h a m =
    let later = concat (g ∷ gs) in
    let more = records_wire v (g ∷ gs) in
    let m' : IsMessage ((hs ++ f) ++ later) = rw (append_assoc hs f later) m in
    let busy : later ≢ [] = nonempty_concat g gs a.1.0 in
    ap (peek_loop (suc left) first raw hs) (append_assoc (record_wire v f) more rest)
    ∙ peek_loop-record left first v raw hs f (more ++ rest)
    ∙ peek_body-inner _ _ raw hs f (more ++ rest) a.0 (not_whole_before (hs ++ f) later busy m')
    ∙ peek_loop-fragments left false v (raw ++ record_wire v f) (hs ++ f) g gs rest (omega arith)
        a.1 m'
    ∙ ap₂ (λ x y. peeked x y rest none) (append_assoc hs f later)
        (append_assoc raw (record_wire v f) more)
  where
    nonempty_concat : (g : List ℕ) (gs : List (List ℕ)) → IsFragment g → concat (g ∷ gs) ≢ []
    nonempty_concat [] gs v e = absurd (omega arith)
    nonempty_concat (x ∷ g) gs v e = cc

-- However a client cuts a handshake message of at most 65536 bytes, whose length field is right, into one
-- to eight records of 1 to 65535 bytes, the peek reads those records and no byte more, replays them
-- all, and finds the name that the whole message carries.
pub peek_fragments :
    (v : ℕ × ℕ) (f : List ℕ) (fs : List (List ℕ)) (rest : List ℕ)
    → length (f ∷ fs) ≤ 8
    → All IsFragment (f ∷ fs)
    → IsMessage (concat (f ∷ fs))
    → peek_client_hello (records_wire v (f ∷ fs) ++ rest) ≡ record {
      sni = parse_sni (concat (f ∷ fs));
      replay = records_wire v (f ∷ fs);
      unread = rest;
      error = none;
    }
unfolding peek_client_hello
peek_fragments v f fs rest h a m = peek_loop-fragments max_records true v [] [] f fs rest h a m
