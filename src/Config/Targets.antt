-- ===== src/Config/Targets.antt =====
-- internal/config/config.go and internal/aghmanaged/manager.go: a configuration that passes `Check`
-- leaves no entry of the rewrite feed without a target, unless a name has to be resolved.
use mirage_chaff.Base.{
  ℕ, ◌≡◌, ◌≢◌, ◌⊎◌, some, refl, List, [], ◌∷◌, ◌++◌, Bool, true, false, not, ◌&&◌, Option, none,
  All, Bool-cases, Option-cases, inl, inr, arith,
}
use mirage_chaff.Base.Text.{Text, codes, text_eq, text_eq_iff}
use mirage_chaff.Policy.Rules.{one_of}
use mirage_chaff.Managed.Types.{Ip}
use mirage_chaff.Managed.Rows.{nonempty}
use mirage_chaff.Managed.Feed.{
  Lines, lines, rewrite_lines, static_lines, some_lines, rewrite_line, ip_line,
}
use mirage_chaff.Managed.Target.{resolves}
use mirage_chaff.Config.{
  Config, ConfigError, AghManagedConfig, check, check_target, check_statics, check_static_ips,
  static_ok, managed_config, target_mode_of, no_texts,
}
use mirage_chaff.Config.Checks.{check_iff, target_ok, demand-none}

-- A line of the feed.
abbrev pub feed_line : Text → Text → Text → Text
feed_line domain kind value =
    codes "||" ++ (domain ++ (codes "^$dnsrewrite=NOERROR;" ++ (kind ++ (codes ";" ++ value))))

-- One line of a kind for each of the addresses, all of one family.
pub AddressLines : (Text → Option Ip) → Text → Bool → Text → List Text → List Text → Type 0
AddressLines parse_ip domain v4 kind [] [] = Unit {0}
AddressLines parse_ip domain v4 kind [] (l ∷ ls) = ⊥
AddressLines parse_ip domain v4 kind (raw ∷ raws) [] = ⊥
AddressLines parse_ip domain v4 kind (raw ∷ raws) (l ∷ ls) =
    ((ip : Ip) × (parse_ip raw ≡ some ip) × (ip.is_v4 ≡ v4) × (l ≡ feed_line domain kind ip.text))
    × AddressLines parse_ip domain v4 kind raws ls

-- The lines of an included entry: the one for the target's name, or those for the configured addresses,
-- at least one, first of IPv4, then of IPv6.
abbrev pub TargetLines : (Text → Option Ip) → Text → AghManagedConfig → List Text → Type 0
TargetLines parse_ip domain m ls =
    ((m.target_mode ≡ codes "cname") × (ls ≡ feed_line domain (codes "CNAME") m.target_name ∷ []))
    ⊎ ((m.target_mode ≡ codes "static_ip")
        × (ls ≢ [])
        × ((v4s : List Text) × (v6s : List Text) × (ls ≡ v4s ++ v6s)
            × AddressLines parse_ip domain true (codes "A") m.static_ipv4 v4s
            × AddressLines parse_ip domain false (codes "AAAA") m.static_ipv6 v6s))

module _ (parse_ip : Text → Option Ip) where
  statics-All :
      (v4 : Bool) (err : Text → ConfigError) (raws : List Text) (rest : Option ConfigError)
      → check_statics parse_ip v4 err raws rest ≡ none
      → All (λ raw. static_ok parse_ip v4 raw ≡ true) raws × (rest ≡ none)
  unfolding check_statics
  statics-All v4 err [] rest h = (tt, h)
  statics-All v4 err (raw ∷ raws) rest h =
      let a = (demand-none _ _ _).0 h in
      let b = statics-All v4 err raws rest a.1 in ((a.0, b.0), b.1)

  static_lines-v4 :
      (domain : Text) (raws : List Text)
      → All (λ raw. static_ok parse_ip true raw ≡ true) raws
      → AddressLines parse_ip domain true (codes "A") raws (static_lines parse_ip true domain raws)
  unfolding static_lines static_ok AddressLines ip_line rewrite_line
  static_lines-v4 domain [] a = tt
  static_lines-v4 domain (raw ∷ raws) a = elim (Option-cases (parse_ip raw)) [
    | inl f ↦ absurd (cc (rw (static_ok, f) at a.0))
    | inr (ip, f) ↦
        let family : ip.is_v4 ≡ true = ground (arith, rw (static_ok, f) at a.0) in
        rw (static_lines, f, family) ((ip, f, family, refl), static_lines-v4 domain raws a.1)
  ]

  static_lines-v6 :
      (domain : Text) (raws : List Text)
      → All (λ raw. static_ok parse_ip false raw ≡ true) raws
      → AddressLines parse_ip domain false
          (codes "AAAA")
          raws
          (static_lines parse_ip false domain raws)
  unfolding static_lines static_ok AddressLines ip_line rewrite_line
  static_lines-v6 domain [] a = tt
  static_lines-v6 domain (raw ∷ raws) a = elim (Option-cases (parse_ip raw)) [
    | inl f ↦ absurd (cc (rw (static_ok, f) at a.0))
    | inr (ip, f) ↦
        let family : ip.is_v4 ≡ false = ground (arith, rw (static_ok, f) at a.0) in
        rw (static_lines, f, family) ((ip, f, family, refl), static_lines-v6 domain raws a.1)
  ]

  AddressLines-nonempty :
      (domain : Text) (v4 : Bool) (kind : Text) (raws ls : List Text)
      → AddressLines parse_ip domain v4 kind raws ls
      → no_texts raws ≡ false
      → ls ≢ []
  unfolding AddressLines
  AddressLines-nonempty domain v4 kind [] ls a h e = absurd (cc)
  AddressLines-nonempty domain v4 kind (raw ∷ raws) [] a h e = a
  AddressLines-nonempty domain v4 kind (raw ∷ raws) (l ∷ ls) a h e = absurd (cc)

  append-nonempty : (xs ys : List Text) → (xs ≢ []) ⊎ (ys ≢ []) → xs ++ ys ≢ []
  append-nonempty [] ys (inl h) e = h refl
  append-nonempty [] ys (inr h) e = h e
  append-nonempty (x ∷ xs) ys h e = absurd (cc)

  some_lines-lines : (problem : Text) (ls : List Text) → ls ≢ [] → some_lines problem ls ≡ lines ls
  unfolding some_lines
  some_lines-lines problem [] h = absurd (h refl)
  some_lines-lines problem (l ∷ ls) h = refl

  static-lines :
      (v4s v6s : List Text) (domain : Text)
      → check_static_ips parse_ip v4s v6s ≡ none
      → (static_lines parse_ip true domain v4s ++ static_lines parse_ip false domain v6s ≢ [])
        × AddressLines parse_ip domain true (codes "A") v4s (static_lines parse_ip true domain v4s)
        × AddressLines parse_ip domain false
            (codes "AAAA")
            v6s
            (static_lines parse_ip false domain v6s)
  unfolding check_static_ips
  static-lines v4s v6s domain h =
      let a = statics-All true _ v4s _ h in
      let b = statics-All false _ v6s _ a.1 in
      let fours = static_lines-v4 domain v4s a.0 in
      let sixes = static_lines-v6 domain v6s b.0 in
      let given : not (no_texts v4s && no_texts v6s) ≡ true = ((demand-none _ _ _).0 b.1).0 in
      (
        append-nonempty _ _ (elim (Bool-cases (no_texts v4s)) [
          | inr n ↦ inl (AddressLines-nonempty domain true _ v4s _ fours n)
          | inl y ↦
              inr (AddressLines-nonempty domain false _ v6s _ sixes (ground (arith, given, y)))
        ]),
        fours,
        sixes,
      )

  -- What the feed has for an entry.
  abbrev HasLines : Text → AghManagedConfig → Lines → Type 0
  HasLines domain m l = (ls : List Text) × (l ≡ lines ls) × TargetLines parse_ip domain m ls

  module _ (m : AghManagedConfig) (domain : Text) (ips : List Ip) (duration : Text → Option ℕ) where
    cname-HasLines :
        text_eq m.target_mode [] ≡ false
        → text_eq m.target_mode (codes "cname") ≡ true
        → check_target parse_ip m ≡ none
        → HasLines domain m (rewrite_lines parse_ip domain (managed_config duration m) ips)
    unfolding rewrite_lines check_target target_mode_of one_of managed_config nonempty rewrite_line
    cname-HasLines e c h =
        let named : not (text_eq m.target_name []) ≡ true =
          elim (Bool-cases (text_eq m.target_mode (codes "resolved_ip"))) [
            | inl r ↦
                ((demand-none _ _ _).0 (rw (check_target, target_mode_of, e, one_of, r) at h)).0
            | inr r ↦
                ((demand-none _ _ _).0 (rw (check_target, target_mode_of, e, one_of, r, c) at h)).0
          ] in
        let unnamed : text_eq m.target_name [] ≡ false = ground (arith, named) in
        rw (rewrite_lines, managed_config, nonempty, e, c, unnamed)
          (
            rewrite_line domain (codes "CNAME") m.target_name ∷ [],
            refl,
            inl ((text_eq_iff m.target_mode (codes "cname")).0 c, refl),
          )

    static_mode-HasLines :
        text_eq m.target_mode [] ≡ false
        → text_eq m.target_mode (codes "resolved_ip") ≡ false
        → text_eq m.target_mode (codes "cname") ≡ false
        → text_eq m.target_mode (codes "static_ip") ≡ true
        → check_target parse_ip m ≡ none
        → HasLines domain m (rewrite_lines parse_ip domain (managed_config duration m) ips)
    unfolding rewrite_lines check_target target_mode_of one_of managed_config nonempty
    static_mode-HasLines e r c s h =
        let (filled, fours, sixes) =
          static-lines m.static_ipv4 m.static_ipv6 domain
            (rw (check_target, target_mode_of, e, one_of, r, c, s) at h) in
        rw (rewrite_lines, managed_config, nonempty, e, c, s)
          (
            _,
            some_lines-lines _ _ filled,
            inr (
              (text_eq_iff m.target_mode (codes "static_ip")).0 s,
              filled,
              (_, _, refl, fours, sixes),
            ),
          )

-- With a configuration that passes `Check`, and whose target is not to be resolved, the lines of every
-- domain, whatever was resolved before, are the one CNAME line for the target's name, or an A line for
-- each of the IPv4 addresses and then an AAAA line for each of the IPv6 addresses, in order, of which
-- there is at least one.
pub checked-lines :
    (parse_ip : Text → Option Ip) (is_duration : Text → Bool) (duration : Text → Option ℕ)
    (c : Config) (domain : Text) (ips : List Ip)
    → check parse_ip is_duration c ≡ none
    → resolves (managed_config duration c.agh_managed) ≡ false
    → (ls : List Text) × (rewrite_lines parse_ip domain (managed_config duration c.agh_managed) ips
        ≡ lines ls)
      × TargetLines parse_ip domain c.agh_managed ls
unfolding resolves managed_config one_of
checked-lines parse_ip is_duration duration c domain ips h k =
    let m = c.agh_managed in
    let (mode, target) = target_ok parse_ip m ((check_iff parse_ip is_duration c).0 h).managed_ok in
    let e : text_eq m.target_mode [] ≡ false = ground (arith, k) in
    let r : text_eq m.target_mode (codes "resolved_ip") ≡ false = ground (arith, k) in
    elim (Bool-cases (text_eq m.target_mode (codes "cname"))) [
      | inl y ↦ cname-HasLines parse_ip m domain ips duration e y target
      | inr n ↦
          static_mode-HasLines parse_ip m domain ips duration e r n (ground (arith, mode)) target
    ]
