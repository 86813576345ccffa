-- ===== src/Passthrough/Prefix.antt =====
-- internal/passthrough/sni.go: `prefixConn`, the connection behind a peek. The connection under it
-- gives some of its bytes at each read: how many is an argument.
use mirage_chaff.Base.{
  ℕ, ◌≡◌, refl, ◌∙◌, ap, sym, List, [], ◌∷◌, ◌++◌, take, drop, append_assoc, take-append-drop, leb,
  if◌then◌else◌,
}

pub record PrefixConn : Type 0 where
  pub buf : List ℕ
  -- What the connection under it will still deliver.
  pub conn : List ℕ

-- The two branches of `Read`.
unfoldable pub read_from : ℕ → ℕ → List ℕ → List ℕ → List ℕ × PrefixConn
read_from size given [] conn =
    let n = if leb size given then size else given in
    (take n conn, record { buf = []; conn = drop n conn })
read_from size given (b ∷ bs) conn =
    (take size (b ∷ bs), record { buf = drop size (b ∷ bs); conn = conn })

-- `Read` into a slice of `size` bytes; the connection under it gives `given` of them at most.
unfoldable pub read : ℕ → ℕ → PrefixConn → List ℕ × PrefixConn
read size given c = read_from size given c.buf c.conn

unfoldable pub buffered_bytes : PrefixConn → List ℕ
buffered_bytes c = c.buf

-- Reads of the given sizes, and all the bytes that they returned.
abbrev pub reads : List (ℕ × ℕ) → PrefixConn → List ℕ × PrefixConn
reads [] c = ([], c)
reads ((size, given) ∷ ns) c =
    let (s, c') = read size given c in let (t, c2) = reads ns c' in (s ++ t, c2)

abbrev pub left : PrefixConn → List ℕ
left c = c.buf ++ c.conn

read_from-left :
    (size given : ℕ) (buf conn : List ℕ)
    → (read_from size given buf conn).0 ++ left (read_from size given buf conn).1 ≡ buf ++ conn
unfolding read_from
read_from-left size given [] conn = take-append-drop (if leb size given then size else given) conn
read_from-left size given (b ∷ bs) conn =
    sym (append_assoc (take size (b ∷ bs)) (drop size (b ∷ bs)) conn)
    ∙ ap (λ s. s ++ conn) (take-append-drop size (b ∷ bs))

-- However the reads are sized, and however many bytes the connection gives at a time, they return the
-- buffered bytes first, then those of the connection: none is lost, repeated or moved.
pub reads-left :
    (ns : List (ℕ × ℕ)) (c : PrefixConn) → (reads ns c).0 ++ left (reads ns c).1 ≡ left c
unfolding read
reads-left [] c = refl
reads-left ((size, given) ∷ ns) c =
    let (s, c') = read size given c in
    append_assoc s (reads ns c').0 (left (reads ns c').1)
    ∙ ap (λ t. s ++ t) (reads-left ns c')
    ∙ read_from-left size given c.buf c.conn
