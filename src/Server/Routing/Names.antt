-- ===== src/Server/Routing/Names.antt =====
-- internal/server/server.go: which connections reach their origin past the server.
use mirage_chaff.Base.{
  ℕ, ◌≡◌, ◌≤◌, ◌≢◌, refl, ◌∙◌, ap, List, [], ◌∷◌, ◌++◌, All, length, subst, sym, false,
  if◌then◌else◌, none, arith,
}
use mirage_chaff.Base.Scan.{ok, ◌>>=◌}
use mirage_chaff.Base.Text.{Text, codes, text_eq, text_eq_iff}
use mirage_chaff.Policy.Rules.{Ruleset, match_request}
use mirage_chaff.Passthrough.Sni.{parse_sni}
use mirage_chaff.Passthrough.Sni.Hello.{Hello, IsHello, hello_wire, parse_sni-hello}
use mirage_chaff.Passthrough.Peek.{Peeked, peek_client_hello}
use mirage_chaff.Passthrough.Peek.Fragments.{
  records_wire, concat, IsFragment, IsMessage, peek_fragments,
}
use mirage_chaff.Server.Routing.{spliced, delivered, passes, route, route_peeked}

route-named :
    (rs : Ruleset) (conn : List ℕ) (p : Peeked) (sni : Text)
    → peek_client_hello conn ≡ p
    → p.sni ≡ ok sni
    → route rs conn ≡ ok (route_peeked rs p sni)
unfolding route ◌>>=◌
route-named rs conn p sni e h = rw (e, h) refl

route_peeked-named :
    (rs : Ruleset) (p : Peeked) (sni : Text)
    → p.error ≡ none
    → sni ≢ []
    → route_peeked rs p sni ≡ (
        if text_eq (match_request rs sni [] []).action (codes "passthrough")
        then spliced sni (p.replay ++ p.unread)
        else delivered (p.replay ++ p.unread))
unfolding route_peeked passes
route_peeked-named rs p sni e named = rw (e, route_peeked, text_ne sni named) refl
  where
    text_ne : (s : Text) → s ≢ [] → text_eq s [] ≡ false
    text_ne s h = ground (arith, text_eq_iff s [])

-- The connection of a client that sends its ClientHello in TLS records, and then the rest.
abbrev pub client : ℕ × ℕ → List (List ℕ) → List ℕ → List ℕ
client v fs rest = records_wire v fs ++ rest

module _ (rs : Ruleset) (h : Hello) (v : ℕ × ℕ) (f : List ℕ) (fs : List (List ℕ))
    (rest : List ℕ) where
  -- A client that sends a ClientHello of at most 65536 bytes for a host, its length field right, in one to
  -- eight records of 1 to 65535 bytes, is spliced to that host exactly when the rules answer the host
  -- with the action `passthrough`; otherwise the server terminates its TLS. No byte of it is lost.
  pub route-hello :
      IsHello h
      → h.host ≢ []
      → concat (f ∷ fs) ≡ hello_wire h
      → length (f ∷ fs) ≤ 8
      → All IsFragment (f ∷ fs)
      → IsMessage (hello_wire h)
      → route rs (client v (f ∷ fs) rest)
        ≡ ok (
            if text_eq (match_request rs h.host [] []).action (codes "passthrough")
            then spliced h.host (client v (f ∷ fs) rest)
            else delivered (client v (f ∷ fs) rest))
  route-hello good named whole few sizes message =
      route-named rs (client v (f ∷ fs) rest) _ h.host
        (peek_fragments v f fs rest few sizes (subst IsMessage (sym whole) message))
        (ap parse_sni whole ∙ parse_sni-hello h good)
      ∙ ap ok (route_peeked-named rs _ h.host refl named)
