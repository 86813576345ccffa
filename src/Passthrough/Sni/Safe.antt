-- ===== src/Passthrough/Sni/Safe.antt =====
-- The parser of a ClientHello on any bytes: no index or slice leaves its slice, and the loops end.
use mirage_chaff.Base.{
  ℕ, zero, suc, ◌≤◌, ◌<◌, ◌≡◌, refl, List, [], none, some, leb, ◌==◌, length, inl, inr, Bool-cases,
  tests,
}
use mirage_chaff.Base.Scan.{
  ok, Gives, gives, Gives-bind, Gives-require, Gives-index, Gives-uint16_at, Gives-slice_from,
  Gives-slice_to, slice_from-Gives, slice_to-Gives, Gives-cases,
}
use mirage_chaff.Base.Text.{Text}
use mirage_chaff.Passthrough.Sni.{
  handshake_body, skip_fixed, skip_vec8, skip_vec16, take_vec16, name_entry, scan_names, extension,
  server_names, scan_extensions, scan_hello, parse_sni,
}

abbrev NoLonger : List ℕ → List ℕ → Type 0
NoLonger b r = length r ≤ length b

abbrev Whatever {ℓ} : {A : Type ℓ} → A → Type 0
Whatever a = Unit {0}

handshake_body-Gives : (b : List ℕ) → Gives (NoLonger b) (handshake_body b)
unfolding handshake_body
handshake_body-Gives b = Gives-require _ _ _ λ h.
    Gives-index _ b 0 _ (omega tests)
      λ kind. Gives-require _ _ _ λ g. slice_from-Gives _ 4 b (omega tests) λ r e. omega tests

skip_fixed-Gives : (b : List ℕ) → Gives (NoLonger b) (skip_fixed b)
unfolding skip_fixed
skip_fixed-Gives b =
    Gives-require _ _ _ λ h. slice_from-Gives _ 34 b (omega tests) λ r e. omega tests

skip_vec8-Gives : (b : List ℕ) → Gives (NoLonger b) (skip_vec8 b)
unfolding skip_vec8
skip_vec8-Gives b = Gives-require _ _ _ λ h. Gives-index _ b 0 _ (omega tests) λ n.
    Gives-slice_from _ 1 b _ (omega tests)
      λ r e. Gives-require _ _ _ λ g. slice_from-Gives _ n r (omega tests) λ t f. omega tests

skip_vec16-Gives : (b : List ℕ) → Gives (NoLonger b) (skip_vec16 b)
unfolding skip_vec16
skip_vec16-Gives b = Gives-require _ _ _ λ h. Gives-uint16_at _ b 0 _ (omega tests) λ n.
    Gives-slice_from _ 2 b _ (omega tests)
      λ r e. Gives-require _ _ _ λ g. slice_from-Gives _ n r (omega tests) λ t f. omega tests

take_vec16-Gives : (b : List ℕ) → Gives (NoLonger b) (take_vec16 b)
unfolding take_vec16
take_vec16-Gives b = Gives-require _ _ _ λ h. Gives-uint16_at _ b 0 _ (omega tests) λ n.
    Gives-slice_from _ 2 b _ (omega tests)
      λ r e. Gives-require _ _ _ λ g. slice_to-Gives _ n r (omega tests) λ t f. omega tests

-- Each round of the two loops takes a byte at least.
name_entry-Gives : (b : List ℕ) → 3 ≤ length b → Gives (λ t. length t.2 < length b) (name_entry b)
unfolding name_entry
name_entry-Gives b h = Gives-index _ b 0 _ (omega tests) λ kind.
    Gives-uint16_at _ b 1 _ (omega tests) λ n. Gives-slice_from _ 3 b _ (omega tests) λ r e.
      Gives-require _ _ _ λ g.
        Gives-slice_to _ n r _ (omega tests)
          λ name p. Gives-slice_from _ n r _ (omega tests) λ t f. gives _ (omega tests)

extension-Gives : (b : List ℕ) → 4 ≤ length b → Gives (λ t. length t.2 < length b) (extension b)
unfolding extension
extension-Gives b h = Gives-uint16_at _ b 0 _ (omega tests) λ kind.
    Gives-uint16_at _ b 2 _ (omega tests) λ n. Gives-slice_from _ 4 b _ (omega tests) λ r e.
      Gives-require _ _ _ λ g.
        Gives-slice_to _ n r _ (omega tests)
          λ name p. Gives-slice_from _ n r _ (omega tests) λ t f. gives _ (omega tests)

scan_names-Gives : (fuel : ℕ) (b : List ℕ) → length b ≤ fuel → Gives Whatever (scan_names fuel b)
unfolding scan_names
scan_names-Gives zero b h = elim (Bool-cases (leb 3 (length b))) [
  | inl e ↦ absurd (omega tests)
  | inr e ↦ rw (e, scan_names) (gives none tt)
]
scan_names-Gives (suc f) b h = elim (Bool-cases (leb 3 (length b))) [
  | inr e ↦ rw (e, scan_names) (gives none tt)
  | inl e ↦
      rw (e, scan_names)
        (Gives-bind _ _ _ _ (name_entry-Gives b (omega tests)) λ t shorter.
          elim (Bool-cases (t.0 == 0)) [
            | inl z ↦ rw z (gives _ tt)
            | inr z ↦ rw z (scan_names-Gives f t.2 (omega tests))
          ])
]

server_names-Gives : (b : List ℕ) → Gives Whatever (server_names b)
unfolding server_names
server_names-Gives b =
    Gives-bind _ _ _ _ (take_vec16-Gives b) λ list _. scan_names-Gives _ list (omega tests)

scan_extensions-Gives :
    (fuel : ℕ) (b : List ℕ) → length b ≤ fuel → Gives Whatever (scan_extensions fuel b)
unfolding scan_extensions
scan_extensions-Gives zero b h = elim (Bool-cases (leb 4 (length b))) [
  | inl e ↦ absurd (omega tests)
  | inr e ↦ rw (e, scan_extensions) (gives none tt)
]
scan_extensions-Gives (suc f) b h = elim (Bool-cases (leb 4 (length b))) [
  | inr e ↦ rw (e, scan_extensions) (gives none tt)
  | inl e ↦
      rw (e, scan_extensions)
        (Gives-bind _ _ _ _ (extension-Gives b (omega tests)) λ t shorter.
          let later = scan_extensions-Gives f t.2 (omega tests) in
          elim (Bool-cases (t.0 == 0)) [
            | inr z ↦ rw z later
            | inl z ↦ rw z (
                Gives-bind _ _ _ _ (server_names-Gives t.1)
                  (elim [ some name ↦ λ _. gives _ tt | none ↦ λ _. later ]))
          ])
]

scan_hello-Gives : (b : List ℕ) → Gives Whatever (scan_hello b)
unfolding scan_hello
scan_hello-Gives b = Gives-bind _ _ _ _ (handshake_body-Gives b) λ b1 _.
    Gives-bind _ _ _ _ (skip_fixed-Gives b1) λ b2 _. Gives-bind _ _ _ _ (skip_vec8-Gives b2) λ b3 _.
      Gives-bind _ _ _ _ (skip_vec16-Gives b3) λ b4 _.
        Gives-bind _ _ _ _ (skip_vec8-Gives b4) λ b5 _.
          Gives-bind _ _ _ _ (take_vec16-Gives b5)
            λ exts _. scan_extensions-Gives _ exts (omega tests)

-- On any bytes at all `parseSNI` returns a text: it never indexes or slices out of range, and both
-- of its loops end.
pub parse_sni_total : (b : List ℕ) → (name : Text) × (parse_sni b ≡ ok name)
unfolding parse_sni
parse_sni_total b = elim (Gives-cases _ (scan_hello b) (scan_hello-Gives b)) [
  | inr e ↦ rw (e, parse_sni) ([], refl)
  | inl (none, e, _) ↦ rw (e, parse_sni) ([], refl)
  | inl (some name, e, _) ↦ rw (e, parse_sni) (name, refl)
]
