-- ===== src/Passthrough/Peek/Replay.antt =====
-- What the replaying connection gives back of the bytes that the peek consumed.
use mirage_chaff.Base.{
  ℕ, zero, suc, ◌<◌, ◌≡◌, ◌≢◌, refl, subst, ◌∙◌, ap, true, false, List, [], ◌∷◌, ◌++◌, none, some,
  length, leb, ltb, ◌==◌, ◌||◌, arith, append_assoc, append-nil, take-append-drop, Bool, Bool-cases,
  Option-cases, inl, inr,
}
use mirage_chaff.Base.Scan.{ok}
use mirage_chaff.Passthrough.Peek.{
  read_failed, not_tls, Peeked, read_full, read_header, header_bytes, is_whole, peek_body,
  peek_loop, peek_client_hello, peeked, max_records,
}

-- The replay, some lost bytes and the unread ones are the input, and only a failed read loses any.
pub record Replays (s : List ℕ) (p : Peeked) : Type 0 where
  pub lost : List ℕ
  pub covers : p.replay ++ (lost ++ p.unread) ≡ s
  pub loses : p.error ≢ some read_failed → lost ≡ []

nothing_lost : (s : List ℕ) (p : Peeked) → p.replay ++ p.unread ≡ s → Replays s p
nothing_lost s p e = record { lost = []; covers = e; loses = λ _. refl }

read_header-bytes :
    (s : List ℕ) (hdr : ℕ × ℕ × ℕ × ℕ × ℕ) (s1 : List ℕ)
    → read_header s ≡ some (hdr, s1)
    → header_bytes hdr ++ s1 ≡ s
unfolding read_header
read_header-bytes [] hdr s1 e = cc
read_header-bytes (a ∷ []) hdr s1 e = cc
read_header-bytes (a ∷ b ∷ []) hdr s1 e = cc
read_header-bytes (a ∷ b ∷ c ∷ []) hdr s1 e = cc
read_header-bytes (a ∷ b ∷ c ∷ d ∷ []) hdr s1 e = cc
read_header-bytes (a ∷ b ∷ c ∷ d ∷ x ∷ s) hdr s1 e = ground arith

read_full-bytes : (n : ℕ) (s b r : List ℕ) → read_full n s ≡ some (b, r) → b ++ r ≡ s
unfolding read_full
read_full-bytes n s b r e = elim (Bool-cases (leb n (length s))) [
  | inl h ↦ ground (arith, take-append-drop n s)
  | inr h ↦ ground arith
]

module _ (more : List ℕ → List ℕ → List ℕ → Peeked)
    (keeps : (raw hs s : List ℕ) → Replays (raw ++ s) (more raw hs s)) where
  peek_body-Replays :
      (n : ℕ) (hdr raw hs s : List ℕ) → Replays (raw ++ (hdr ++ s)) (peek_body more n hdr raw hs s)
  unfolding peek_body
  peek_body-Replays n hdr raw hs s = elim (Bool-cases (leb n 0 || ltb 65536 n)) [
    | inl e ↦ rw (e, peek_body) (nothing_lost _ _ (append_assoc raw hdr s))
    | inr e ↦ elim (Option-cases (read_full n s)) [
      | inl f ↦
          rw (e, f, peek_body)
            (record {
              lost = s;
              covers = ap (◌++◌ (raw ++ hdr)) (append-nil s) ∙ append_assoc raw hdr s;
              loses = λ h. absurd (h refl);
            })
      | inr ((body, s2), f) ↦
          let whole : (raw ++ (hdr ++ body)) ++ s2 ≡ raw ++ (hdr ++ s) =
            append_assoc raw (hdr ++ body) s2
            ∙ ap (◌++◌ raw)
                (append_assoc hdr body s2 ∙ ap (◌++◌ hdr) (read_full-bytes n s body s2 f)) in
          elim (Bool-cases (is_whole (hs ++ body))) [
            | inl w ↦ rw (e, f, w, peek_body) (nothing_lost _ _ whole)
            | inr w ↦
                rw (e, f, w, peek_body)
                  (rw (← whole) (keeps (raw ++ (hdr ++ body)) (hs ++ body) s2))
          ]
    ]
  ]

peek_loop-Replays :
    (left : ℕ) (first : Bool) (raw hs s : List ℕ)
    → Replays (raw ++ s) (peek_loop left first raw hs s)
unfolding peek_loop
peek_loop-Replays zero first raw hs s = nothing_lost _ _ refl
peek_loop-Replays (suc left) first raw hs s = elim (Option-cases (read_header s)) [
  | inl e ↦
      rw (e, peek_loop)
        (record { lost = s; covers = ap (◌++◌ raw) (append-nil s); loses = λ h. absurd (h refl) })
  | inr ((hdr, s1), e) ↦
      let back : header_bytes hdr ++ s1 ≡ s = read_header-bytes s hdr s1 e in
      elim (Bool-cases (hdr.0 == 0x16)) [
        | inl t ↦
            rw (e, peek_loop)
              (rw (← back, t)
                (peek_body-Replays (peek_loop left false) (peek_loop-Replays left false) _ _ raw hs
                  s1))
        | inr t ↦
            rw (e, peek_loop)
              (rw (← back, t)
                (nothing_first first raw hs s1 hdr (append_assoc raw (header_bytes hdr) s1)))
      ]
]
  where
    nothing_first :
        (first : Bool) (raw hs s1 : List ℕ) (hdr : ℕ × ℕ × ℕ × ℕ × ℕ)
        → (raw ++ header_bytes hdr) ++ s1 ≡ raw ++ (header_bytes hdr ++ s1)
        → Replays (raw ++ (header_bytes hdr ++ s1)) (elim first [
          | true ↦ record {
            sni = ok [];
            replay = raw ++ header_bytes hdr;
            unread = s1;
            error = some not_tls;
          }
          | false ↦ peeked hs (raw ++ header_bytes hdr) s1 none
        ])
    nothing_first true raw hs s1 hdr e = nothing_lost _ _ e
    nothing_first false raw hs s1 hdr e = nothing_lost _ _ e

-- Unless a read failed, the replay and what is unread are together every byte that the client sent.
pub peek_replays :
    (s : List ℕ)
    → (peek_client_hello s).error ≢ some read_failed
    → (peek_client_hello s).replay ++ (peek_client_hello s).unread ≡ s
unfolding peek_client_hello
peek_replays s ne =
    let r = peek_loop-Replays max_records true [] [] s in
    subst (λ l. (peek_client_hello s).replay ++ (l ++ (peek_client_hello s).unread) ≡ s)
      (r.loses ne) r.covers

-- Whatever happens, the replay is a prefix of what the client sent.
pub peek_replay_prefix : (s : List ℕ) → (more : List ℕ) × ((peek_client_hello s).replay ++ more ≡ s)
unfolding peek_client_hello
peek_replay_prefix s = let r = peek_loop-Replays max_records true [] [] s in (_, r.covers)

-- A connection that ends inside its first record header: the bytes that were read of it, one to
-- four, are neither in the replay nor left to read.
pub short_header_lost :
    (s : List ℕ)
    → s ≢ []
    → length s < 5
    → ((peek_client_hello s).replay ++ (peek_client_hello s).unread ≡ [])
      × ((peek_client_hello s).error ≡ some read_failed)
      × ((peek_client_hello s).replay ++ (peek_client_hello s).unread ≢ s)
unfolding peek_client_hello peek_loop read_header
short_header_lost [] ne h = absurd (ne refl)
short_header_lost (a ∷ []) ne h = (refl, refl, λ e. cc)
short_header_lost (a ∷ b ∷ []) ne h = (refl, refl, λ e. cc)
short_header_lost (a ∷ b ∷ c ∷ []) ne h = (refl, refl, λ e. cc)
short_header_lost (a ∷ b ∷ c ∷ d ∷ []) ne h = (refl, refl, λ e. cc)
short_header_lost (a ∷ b ∷ c ∷ d ∷ x ∷ s) ne h = absurd (omega arith)
