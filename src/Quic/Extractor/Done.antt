-- ===== src/Quic/Extractor/Done.antt =====
-- When the extractor is done.
use mirage_chaff.Base.{
  ℕ, ◌+◌, ◌≤◌, ◌≡◌, ◌≢◌, ◌⊎◌, refl, inl, inr, true, false, List, [], ◌++◌, Bool-cases, leb→le,
  le→leb, sym, ◌∙◌,
}
use mathlib.Core.Bool.{false≢true}
use mirage_chaff.Base.Text.{Text, text_eq, text_eq_iff}
use mirage_chaff.Base.Scan.{ok, ◌>>=◌}
use mirage_chaff.Passthrough.Sni.Safe.{parse_sni_total}
use mirage_chaff.Quic.Join.{join_crypto_chunks}
use mirage_chaff.Quic.Initial.{Crypto, IsCrypto}
use mirage_chaff.Quic.Initial.Safe.{extract_initial_crypto_total}
use mirage_chaff.Quic.Extractor.{Extractor, Fed, unfound, feed_chunks, feed}

-- The extractor stops with a name or with the eighth datagram, and with nothing else.
pub record IsEnded (f : Fed) : Type 0 where
  pub why : f.done ≡ true → (f.sni ≢ []) ⊎ (8 ≤ f.after.packets)
  pub found : f.sni ≢ [] → f.done ≡ true
  pub full : 8 ≤ f.after.packets → f.done ≡ true

unfound-IsEnded : (e : Extractor) → IsEnded (unfound e)
unfound-IsEnded e = record {
  why = λ h. inr (leb→le 8 e.packets h);
  found = λ h. absurd (h refl);
  full = le→leb 8 e.packets;
}

found-IsEnded :
    (e : Extractor) (s : Text)
    → text_eq s [] ≡ false
    → IsEnded (record { after = e; sni = s; done = true })
found-IsEnded e s x = record {
  why = λ h. inl (λ eq. false≢true (sym x ∙ (text_eq_iff s []).1 eq));
  found = λ h. refl;
  full = λ h. refl;
}

feed_chunks-IsEnded :
    (e : Extractor) → (f : Fed) × (feed_chunks e ≡ ok f) × (f.after.packets ≡ e.packets) × IsEnded f
unfolding feed_chunks ◌>>=◌
feed_chunks-IsEnded e =
    let (s, p) = parse_sni_total (join_crypto_chunks e.chunks) in
    elim (Bool-cases (text_eq s [])) [
      | inl x ↦ rw (p, feed_chunks, ◌>>=◌, x) (unfound e, refl, refl, unfound-IsEnded e)
      | inr x ↦
          rw (p, feed_chunks, ◌>>=◌, x)
            (record { after = e; sni = s; done = true }, refl, refl, found-IsEnded e s x)
    ]

-- `Feed` returns on any datagram, after counting it; it says that it is done exactly when it has a
-- name or has counted eight datagrams, so no flow is sniffed for longer.
pub feed-IsEnded :
    (c : Crypto)
    → IsCrypto c
    → (e : Extractor) (b : List ℕ)
    → (f : Fed) × (feed c e b ≡ ok f) × (f.after.packets ≡ e.packets + 1) × IsEnded f
unfolding feed
feed-IsEnded c law e b = elim (extract_initial_crypto_total c law b) [
  | inr x ↦
      let counted = record e { packets = e.packets + 1 } in
      rw (x, feed) (unfound counted, refl, refl, unfound-IsEnded counted)
  | inl (chunks, x) ↦
      rw (x, feed)
        (feed_chunks-IsEnded (record e { chunks = e.chunks ++ chunks; packets = e.packets + 1 }))
]
