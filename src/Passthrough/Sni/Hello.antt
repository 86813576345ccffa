-- ===== src/Passthrough/Sni/Hello.antt =====
-- A ClientHello by its wire format (RFC 8446 and RFC 6066), and what `parseSNI` reads in it.
use mirage_chaff.Base.{
  ℕ, zero, suc, ◌+◌, ◌*◌, ◌/◌, ◌%◌, ◌≤◌, ◌≡◌, ◌≢◌, ap, ◌∙◌, false, List, [], ◌∷◌, ◌++◌, some, ◌==◌,
  length, All, drop, take, le→leb, arith, length-append, drop-length_append, append_assoc,
  take-length_append,
}
use mirage_chaff.Base.Scan.{ok, ◌>>=◌, ◌>>◌, require, index, uint16_at, slice_from-ok, slice_to-ok}
use mirage_chaff.Base.Text.{Text}
use mirage_chaff.Passthrough.Sni.{
  handshake_body, skip_fixed, skip_vec8, skip_vec16, take_vec16, name_entry, scan_names, extension,
  server_names, scan_extensions, scan_hello, parse_sni,
}

abbrev uint16 : ℕ → List ℕ
uint16 n = n / 256 ∷ n % 256 ∷ []

abbrev vec8 : List ℕ → List ℕ
vec8 xs = length xs ∷ xs

abbrev vec16 : List ℕ → List ℕ
vec16 xs = uint16 (length xs) ++ xs

uint16_value : (n : ℕ) → n / 256 * 256 + n % 256 ≡ n
uint16_value n = omega arith

skip_vec8-cons : (n : ℕ) (xs : List ℕ) → n ≤ length xs → skip_vec8 (n ∷ xs) ≡ ok (drop n xs)
unfolding skip_vec8 index ◌>>=◌ ◌>>◌ require
skip_vec8-cons n xs h =
    rw
      (
        le→leb 1 (length (n ∷ xs)) (omega arith),
        slice_from-ok 1 (n ∷ xs) (omega arith),
        le→leb n (length xs) h,
      )
      (slice_from-ok n xs h)

skip_vec8-vec8 : (xs rest : List ℕ) → skip_vec8 (vec8 xs ++ rest) ≡ ok rest
skip_vec8-vec8 xs rest =
    skip_vec8-cons (length xs) (xs ++ rest) (omega (arith, length-append xs rest))
    ∙ ap ok (drop-length_append xs rest)

vec16_guard :
    (hi lo : ℕ) (xs : List ℕ) (n : ℕ)
    → hi * 256 + lo ≡ n
    → n ≤ length xs
    → (skip_vec16 (hi ∷ lo ∷ xs) ≡ ok (drop n xs)) × (take_vec16 (hi ∷ lo ∷ xs) ≡ ok (take n xs))
unfolding skip_vec16 take_vec16 uint16_at ◌>>=◌ ◌>>◌ require
vec16_guard hi lo xs n e h = (
  rw
      (
        le→leb 2 (length (hi ∷ lo ∷ xs)) (omega arith),
        slice_from-ok 2 (hi ∷ lo ∷ xs) (omega arith),
        e,
        le→leb n (length xs) h,
      )
      (slice_from-ok n xs h),
  rw
      (
        le→leb 2 (length (hi ∷ lo ∷ xs)) (omega arith),
        slice_from-ok 2 (hi ∷ lo ∷ xs) (omega arith),
        e,
        le→leb n (length xs) h,
      )
      (slice_to-ok n xs h),
)

skip_vec16-vec16 : (xs rest : List ℕ) → skip_vec16 (vec16 xs ++ rest) ≡ ok rest
skip_vec16-vec16 xs rest =
    (vec16_guard _ _ (xs ++ rest) (length xs) (uint16_value (length xs))
      (omega (arith, length-append xs rest))).0
    ∙ ap ok (drop-length_append xs rest)

take_vec16-vec16 : (xs rest : List ℕ) → take_vec16 (vec16 xs ++ rest) ≡ ok xs
take_vec16-vec16 xs rest =
    (vec16_guard _ _ (xs ++ rest) (length xs) (uint16_value (length xs))
      (omega (arith, length-append xs rest))).1
    ∙ ap ok (take-length_append xs rest)

-- One entry of a ServerNameList, and one extension, in front of what follows.
abbrev name_wire : ℕ × Text → List ℕ → List ℕ
name_wire (kind, name) rest = kind ∷ (uint16 (length name) ++ (name ++ rest))

abbrev extension_wire : ℕ × List ℕ → List ℕ → List ℕ
extension_wire (kind, ext) rest = uint16 kind ++ (uint16 (length ext) ++ (ext ++ rest))

name_entry-wire :
    (kind : ℕ) (name rest : List ℕ)
    → name_entry (name_wire (kind, name) rest) ≡ ok (kind, name, rest)
unfolding name_entry index uint16_at ◌>>=◌ ◌>>◌ require
name_entry-wire kind name rest =
    let inside : length name ≤ length (name ++ rest) = omega (arith, length-append name rest) in
    rw (
      slice_from-ok 3 (name_wire (kind, name) rest) (omega arith),
      uint16_value (length name),
      le→leb _ _ inside,
      slice_to-ok _ (name ++ rest) inside,
      slice_from-ok _ (name ++ rest) inside,
      take-length_append name rest,
      drop-length_append name rest,
    )

extension-wire :
    (kind : ℕ) (ext rest : List ℕ)
    → extension (extension_wire (kind, ext) rest) ≡ ok (kind, ext, rest)
unfolding extension uint16_at index ◌>>=◌ ◌>>◌ require
extension-wire kind ext rest =
    let inside : length ext ≤ length (ext ++ rest) = omega (arith, length-append ext rest) in
    rw (
      slice_from-ok 4 (extension_wire (kind, ext) rest) (omega arith),
      uint16_value (length ext),
      uint16_value kind,
      le→leb _ _ inside,
      slice_to-ok _ (ext ++ rest) inside,
      slice_from-ok _ (ext ++ rest) inside,
      take-length_append ext rest,
      drop-length_append ext rest,
    )

abbrev names_wire : List (ℕ × Text) → List ℕ → List ℕ
names_wire [] rest = rest
names_wire (n ∷ ns) rest = name_wire n (names_wire ns rest)

abbrev extensions_wire : List (ℕ × List ℕ) → List ℕ → List ℕ
extensions_wire [] rest = rest
extensions_wire (e ∷ es) rest = extension_wire e (extensions_wire es rest)

abbrev IsOther : ℕ × List ℕ → Type 0
IsOther e = e.0 ≢ 0

ne→==false : (a b : ℕ) → a ≢ b → (a == b) ≡ false
ne→==false a b h = ground arith

scan_names-wire :
    (fuel : ℕ) (others : List (ℕ × Text)) (host more : List ℕ)
    → length (names_wire others (name_wire (0, host) more)) ≤ fuel
    → All IsOther others
    → scan_names fuel (names_wire others (name_wire (0, host) more)) ≡ ok (some host)
unfolding scan_names ◌>>=◌
scan_names-wire zero [] host more h a = absurd (omega arith)
scan_names-wire zero ((k, n) ∷ ns) host more h a = absurd (omega arith)
scan_names-wire (suc f) [] host more h a = rw (
  le→leb 3 (length (name_wire (0, host) more)) (omega arith),
  name_entry-wire 0 host more,
  scan_names,
)
scan_names-wire (suc f) ((k, n) ∷ ns) host more h a =
    let rest = names_wire ns (name_wire (0, host) more) in
    rw
      (
        le→leb 3 (length (name_wire (k, n) rest)) (omega arith),
        name_entry-wire k n rest,
        ne→==false k 0 a.0,
        scan_names,
        ◌>>=◌,
      )
      (scan_names-wire f ns host more (omega (arith, length-append n rest)) a.1)

scan_extensions-wire :
    (fuel : ℕ) (before : List (ℕ × List ℕ)) (list trailing after : List ℕ) (host : Text)
    → length (extensions_wire before (extension_wire (0, vec16 list ++ trailing) after)) ≤ fuel
    → All IsOther before
    → scan_names (length list) list ≡ ok (some host)
    → scan_extensions fuel
        (extensions_wire before (extension_wire (0, vec16 list ++ trailing) after))
      ≡ ok (some host)
unfolding scan_extensions server_names ◌>>=◌
scan_extensions-wire zero [] list trailing after host h a e = absurd (omega arith)
scan_extensions-wire zero ((k, x) ∷ es) list trailing after host h a e = absurd (omega arith)
scan_extensions-wire (suc f) [] list trailing after host h a e =
    let ext = vec16 list ++ trailing in
    rw (
      le→leb 4 (length (extension_wire (0, ext) after)) (omega arith),
      extension-wire 0 ext after,
      take_vec16-vec16 list trailing,
      e,
      scan_extensions,
    )
scan_extensions-wire (suc f) ((k, x) ∷ es) list trailing after host h a e =
    let rest = extensions_wire es (extension_wire (0, vec16 list ++ trailing) after) in
    rw
      (
        le→leb 4 (length (extension_wire (k, x) rest)) (omega arith),
        extension-wire k x rest,
        ne→==false k 0 a.0,
        scan_extensions,
        ◌>>=◌,
      )
      (scan_extensions-wire f es list trailing after host (omega (arith, length-append x rest)) a.1
        e)

-- A ClientHello that names a host: its fields, the extensions before server_name, the other names
-- before the host_name, and whatever bytes follow each of these.
pub record Hello : Type 0 where
  pub fixed : List ℕ
  pub session : List ℕ
  pub suites : List ℕ
  pub methods : List ℕ
  pub before : List (ℕ × List ℕ)
  pub others : List (ℕ × Text)
  pub host : Text
  pub more_names : List ℕ
  pub trailing : List ℕ
  pub after : List ℕ
  pub rest : List ℕ

abbrev pub name_list : Hello → List ℕ
name_list h = names_wire h.others (name_wire (0, h.host) h.more_names)

abbrev pub extensions_block : Hello → List ℕ
extensions_block h =
    extensions_wire h.before (extension_wire (0, vec16 (name_list h) ++ h.trailing) h.after)

abbrev pub hello_body : Hello → List ℕ
hello_body h =
    h.fixed
    ++ (vec8 h.session
        ++ (vec16 h.suites ++ (vec8 h.methods ++ (vec16 (extensions_block h) ++ h.rest))))

-- Handshake type 1, three bytes of length, the body.
abbrev pub hello_wire : Hello → List ℕ
hello_wire h =
    let n = length (hello_body h) in 1 ∷ n / 65536 ∷ n / 256 % 256 ∷ n % 256 ∷ hello_body h

-- The fixed part is 34 bytes long; the fields that stand before the host name are no host name.
pub record IsHello (h : Hello) : Type 0 where
  pub fixed_34 : length h.fixed ≡ 34
  pub before_other : All IsOther h.before
  pub names_other : All IsOther h.others

handshake_body-wire : (a b c : ℕ) (xs : List ℕ) → handshake_body (1 ∷ a ∷ b ∷ c ∷ xs) ≡ ok xs
unfolding handshake_body index ◌>>=◌ ◌>>◌ require
handshake_body-wire a b c xs =
    rw (le→leb 4 (length (1 ∷ a ∷ b ∷ c ∷ xs)) (omega arith))
      (slice_from-ok 4 (1 ∷ a ∷ b ∷ c ∷ xs) (omega arith))

skip_fixed-append : (fixed xs : List ℕ) → length fixed ≡ 34 → skip_fixed (fixed ++ xs) ≡ ok xs
unfolding skip_fixed ◌>>◌ ◌>>=◌ require
skip_fixed-append fixed xs h =
    let enough : 34 ≤ length (fixed ++ xs) = omega (arith, length-append fixed xs) in
    rw (le→leb _ _ enough, slice_from-ok 34 (fixed ++ xs) enough)
      (ap ok (rw (← h) (drop-length_append fixed xs)))

-- The three length bytes of the handshake header are not read.
pub parse_sni-body :
    (a b c : ℕ) (h : Hello) → IsHello h → parse_sni (1 ∷ a ∷ b ∷ c ∷ hello_body h) ≡ ok h.host
unfolding parse_sni scan_hello ◌>>=◌
parse_sni-body a b c h v = rw (
  handshake_body-wire a b c (hello_body h),
  skip_fixed-append h.fixed _ v.fixed_34,
  skip_vec8-vec8 h.session _,
  skip_vec16-vec16 h.suites _,
  skip_vec8-vec8 h.methods _,
  take_vec16-vec16 (extensions_block h) h.rest,
  scan_extensions-wire (length (extensions_block h)) h.before (name_list h) h.trailing h.after
      h.host (omega arith) v.before_other
      (scan_names-wire (length (name_list h)) h.others h.host h.more_names (omega arith)
        v.names_other),
  parse_sni,
  scan_hello,
  ◌>>=◌,
)

-- `parseSNI` returns the host name of every ClientHello that carries one: the first entry of type
-- host_name in the first server_name extension, whatever the session id, the cipher suites, the
-- compression methods, the extensions and names before it and the bytes behind it are.
pub parse_sni-hello : (h : Hello) → IsHello h → parse_sni (hello_wire h) ≡ ok h.host
parse_sni-hello h v =
    let n = length (hello_body h) in parse_sni-body (n / 65536) (n / 256 % 256) (n % 256) h v

-- Bytes behind the message change nothing.
pub parse_sni-hello_append :
    (h : Hello) (extra : List ℕ) → IsHello h → parse_sni (hello_wire h ++ extra) ≡ ok h.host
parse_sni-hello_append h extra v =
    let n = length (hello_body h) in
    let longer : hello_body h ++ extra ≡ hello_body (record h { rest = h.rest ++ extra }) =
      simp append_assoc in
    rw longer (
      parse_sni-body (n / 65536) (n / 256 % 256) (n % 256) (record h { rest = h.rest ++ extra })
        (record {
          fixed_34 = v.fixed_34;
          before_other = v.before_other;
          names_other = v.names_other;
        }))
