-- ===== src/Stub/Cors.antt =====
-- Credentials and origins in the answers.
use mirage_chaff.Base.{
  ◌∙◌, ◌≡◌, ◌≢◌, refl, Bool, false, [], none, some, Bool-cases, inl, inr, arith, if◌then◌else◌,
}
use mirage_chaff.Base.Text.{Text, codes, text_eq, text_eq_iff}
use mirage_chaff.Base.Dict.{lookup, insert, text_key, lookup-insert_ne}
use mirage_chaff.Stub.{
  StubRequest, Headers, options, allow_origin, allow_preflight, apply_cors, serve,
}

abbrev pub allow_credentials : Text
allow_credentials = codes "Access-Control-Allow-Credentials"

abbrev pub allowed_origin : Text
allowed_origin = codes "Access-Control-Allow-Origin"

-- Of the two headers, what an answer says.
pub record Says (r : StubRequest) (h : Headers) : Type 0 where
  pub with_origin : r.origin ≢ [] → lookup allowed_origin h ≡ some r.origin
  pub without_origin :
      r.origin ≡ []
      → (lookup allowed_origin h ≡ some (codes "*")) × (lookup allow_credentials h ≡ none)

allow_origin-Says : (r : StubRequest) → Says r (allow_origin r [])
unfolding allow_origin lookup insert text_eq
allow_origin-Says r = elim (Bool-cases (text_eq r.origin [])) [
  | inl y ↦
      rw (allow_origin, y)
        (record {
          with_origin = λ h. absurd (h ((text_eq_iff r.origin []).0 y));
          without_origin = λ e. (refl, refl);
        })
  | inr n ↦
      rw (allow_origin, n)
        (record {
          with_origin = λ h. refl;
          without_origin = λ e. absurd (ground (arith, n, (text_eq_iff r.origin []).1 e));
        })
]

differ : (k j : Text) → text_eq k j ≡ false → k ≢ j
differ k j n e = ground (arith, n, (text_eq_iff k j).1 e)

insert-Says :
    (r : StubRequest) (k v : Text) (h : Headers)
    → text_eq k allowed_origin ≡ false
    → text_eq k allow_credentials ≡ false
    → Says r h
    → Says r (insert k v h)
insert-Says r k v h p q s = record {
  with_origin =
      λ e. lookup-insert_ne k allowed_origin v h (differ k allowed_origin p) ∙ s.with_origin e;
  without_origin = λ e. (
    lookup-insert_ne k allowed_origin v h (differ k allowed_origin p) ∙ (s.without_origin e).0,
    lookup-insert_ne k allow_credentials v h (differ k allow_credentials q)
        ∙ (s.without_origin e).1,
  );
}

allow_preflight-Says : (r : StubRequest) (h : Headers) → Says r h → Says r (allow_preflight r h)
unfolding allow_preflight text_eq
allow_preflight-Says r h s =
    let methods = codes "Access-Control-Allow-Methods" in
    let named = codes "Access-Control-Allow-Headers" in
    let first =
      insert-Says r methods
        (if text_eq r.request_method [] then codes "GET, POST, OPTIONS" else r.request_method) h
        refl refl s in
    insert-Says r (codes "Access-Control-Max-Age") (codes "600") _ refl refl
      (elim (Bool-cases (text_eq r.request_headers [])) [
        | inl y ↦ rw y first
        | inr n ↦ rw n (insert-Says r named r.request_headers _ refl refl first)
      ])

apply_cors-Says : (r : StubRequest) → Says r (apply_cors r [])
unfolding apply_cors
apply_cors-Says r = elim (Bool-cases (text_eq r.method options)) [
  | inl y ↦ rw (apply_cors, y) (allow_preflight-Says r _ (allow_origin-Says r))
  | inr n ↦ rw (apply_cors, n) (allow_origin-Says r)
]

-- Every answer, a preflight's too, allows exactly the origin that asked, or any origin when none was
-- named, and then without credentials; so credentials never go with the wildcard.
pub serve-Says :
    (renders : Text → Bool) (r : StubRequest) (name : Text) → Says r (serve renders r name).headers
unfolding serve text_eq
serve-Says renders r name = elim (Bool-cases (text_eq r.method options)) [
  | inl y ↦
      rw (serve, y)
        (insert-Says r (codes "Content-Length") (codes "0") _ refl refl (apply_cors-Says r))
  | inr n ↦ elim (Bool-cases (renders name)) [
    | inl w ↦ rw (serve, n, w) (apply_cors-Says r)
    | inr w ↦ rw (serve, n, w) (apply_cors-Says r)
  ]
]
