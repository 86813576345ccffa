-- ===== src/Policy/Aggregator/Refines.antt =====
-- The map and the numbered list of the aggregator keep to the bounded list.
use mirage_chaff.Base.{
  ℕ, suc, ◌≤◌, ◌<◌, ◌≡◌, ◌≢◌, refl, sym, ap, subst, ◌∙◌, List, [], ◌∷◌, none, some, leb,
  if◌then◌else◌, length, All, All-map, All-both, Bool-cases, Option-cases, inl, inr, arith,
}
use mirage_chaff.Base.Text.{Text, text_eq, text_eq_iff}
use mirage_chaff.Base.Dict.{lookup, text_key, lookup-insert, lookup-delete}
use mirage_chaff.Policy.Aggregator.{
  UnmatchedEntry, Element, Aggregator, new_aggregator, entry_key, remove_element, back, hit, evict,
  push_front, record_unmatched,
}
use mirage_chaff.Policy.Aggregator.Lru.{key_of, find, drop_last, see}
use mirage_chaff.Policy.Aggregator.Lru.Bound.{length-see}
use mirage_chaff.Policy.Aggregator.Elements.{
  values, id_of, Apart, id_of-absent, id_of-Found, All-remove_element, remove_element-Apart,
  remove_element-fresh, id_of-remove_element, id_of-back, remove-back,
}

-- The map finds the list's elements and no others,
-- and no number is used again.
pub record IsValid (a : Aggregator) : Type 0 where
  pub agrees : (k : Text) → lookup k a.items ≡ id_of k a.ll
  pub apart : Apart a.ll
  pub below : All (λ e. e.id < a.next_id) a.ll

hit-agrees :
    (k j : Text) (i : ℕ) (es : List Element)
    → id_of k es ≡ some i
    → id_of j es ≡ (if text_eq k j then some i else (if text_eq k j then none else id_of j es))
hit-agrees k j i es h = elim (Bool-cases (text_eq k j)) [
  | inl y ↦ rw (y, ← (text_eq_iff k j).0 y) h
  | inr n ↦ rw n refl
]

id_of-All :
    (P : ℕ → Type 0) (k : Text) (i : ℕ) (es : List Element)
    → id_of k es ≡ some i
    → All (λ e. P e.id) es
    → P i
unfolding id_of
id_of-All P k i [] h a = absurd cc
id_of-All P k i (e ∷ es) h a = elim (Bool-cases (text_eq (key_of e.value) k)) [
  | inl y ↦ let same : e.id ≡ i = ground (arith, rw y at h) in subst P same a.0
  | inr n ↦ id_of-All P k i es (rw n at h) a.1
]

hit-IsValid :
    (a : Aggregator) (k : Text) (i now : ℕ)
    → IsValid a
    → id_of k a.ll ≡ some i
    → IsValid (hit a i now)
unfolding hit id_of
hit-IsValid a k i now v h =
    let found = id_of-Found k i a.ll v.apart h in
    let fresh = remove_element-fresh k i a.ll v.apart h in
    rw (hit, found.finds)
      (record {
        agrees = λ j.
            rw (found.key, id_of-remove_element k j i a.ll v.apart h, v.agrees j)
              (hit-agrees k j i a.ll h);
        apart = (
          subst (λ t. All (λ f. (i ≢ f.id) × (t ≢ key_of f.value)) (remove_element i a.ll))
              (sym found.key) fresh,
          remove_element-Apart i a.ll v.apart,
        );
        below = (
          id_of-All (λ n. n < a.next_id) k i a.ll h v.below,
          All-remove_element (λ e. e.id < a.next_id) i a.ll v.below,
        );
      })

evict-IsValid : (a : Aggregator) (b : Element) → IsValid a → back a.ll ≡ some b → IsValid (evict a)
unfolding evict
evict-IsValid a b v h =
    let key = id_of-back a.ll b h v.apart in
    rw (evict, h)
      (record {
        agrees = λ j.
            rw (lookup-delete (key_of b.value) j a.items, v.agrees j)
              (sym (id_of-remove_element (key_of b.value) j b.id a.ll v.apart key));
        apart = remove_element-Apart b.id a.ll v.apart;
        below = All-remove_element (λ e. e.id < a.next_id) b.id a.ll v.below;
      })

push_front-IsValid :
    (a : Aggregator) (domain path : Text) (now : ℕ)
    → IsValid a
    → All (λ f. entry_key domain path ≢ key_of f.value) a.ll
    → IsValid (push_front a domain path now)
unfolding push_front id_of
push_front-IsValid a domain path now v absent = record {
  agrees = λ j. rw (lookup-insert (entry_key domain path) j a.next_id a.items, v.agrees j) refl;
  apart = (
    All-both _ _ a.ll (All-map a.ll (λ e l. (λ q. omega (arith, l, q))) v.below) absent,
    v.apart,
  );
  below = (omega arith, All-map a.ll (λ e l. omega (arith, l)) v.below);
}

length-values : (es : List Element) → length (values es) ≡ length es
length-values [] = refl
length-values (e ∷ es) = ap suc (length-values es)

back_cons : (e : Element) (es : List Element) → back (e ∷ es) ≢ none
unfolding back
back_cons e [] h = cc
back_cons e (f ∷ es) h = back_cons f es h

back-none : (es : List Element) → back es ≡ none → es ≡ []
back-none [] h = refl
back-none (e ∷ es) h = absurd (back_cons e es h)

-- What making room does.
record Evicted (k : Text) (a b : Aggregator) : Type 0 where
  valid : IsValid b
  same_max : b.max ≡ a.max
  listed : values b.ll ≡ drop_last (values a.ll)
  absent : All (λ f. k ≢ key_of f.value) b.ll

evict-Evicted :
    (k : Text) (a : Aggregator)
    → IsValid a
    → All (λ f. k ≢ key_of f.value) a.ll
    → Evicted k a (evict a)
unfolding drop_last evict
evict-Evicted k a v absent = elim (Option-cases (back a.ll)) [
  | inl e ↦
      let empty = back-none a.ll e in
      rw (evict, e) (record { valid = v; same_max = refl; listed = rw empty refl; absent = absent })
  | inr (b, e) ↦
      let key = id_of-back a.ll b e v.apart in
      let valid = evict-IsValid a b v e in
      rw (evict, e)
        (record {
          valid = rw (evict, e) at valid;
          same_max = refl;
          listed = remove-back a.ll b e v.apart;
          absent = All-remove_element (λ f. k ≢ key_of f.value) b.id a.ll absent;
        })
]

-- What one request does to a valid aggregator.
pub record Step (a b : Aggregator) (domain path : Text) (now : ℕ) : Type 0 where
  pub valid : IsValid b
  pub same_max : b.max ≡ a.max
  pub listed : values b.ll ≡ see a.max domain path now (values a.ll)

hit-Step :
    (a : Aggregator) (domain path : Text) (i now : ℕ)
    → IsValid a
    → id_of (entry_key domain path) a.ll ≡ some i
    → Step a (hit a i now) domain path now
unfolding see hit
hit-Step a domain path i now v h =
    let found = id_of-Found (entry_key domain path) i a.ll v.apart h in
    let valid = hit-IsValid a (entry_key domain path) i now v h in
    rw (hit, found.finds)
      (record {
        valid = rw (hit, found.finds) at valid;
        same_max = refl;
        listed = rw (see, found.spec, found.removes) refl;
      })

-- A new pair enters after room is made, if it has to be.
push-Step :
    (a b : Aggregator) (domain path : Text) (now : ℕ)
    → IsValid b
    → b.max ≡ a.max
    → All (λ f. entry_key domain path ≢ key_of f.value) b.ll
    → find (entry_key domain path) (values a.ll) ≡ none
    → values b.ll
      ≡ (if leb a.max (length (values a.ll)) then drop_last (values a.ll) else values a.ll)
    → Step a (push_front b domain path now) domain path now
unfolding push_front see
push-Step a b domain path now v m absent f l = record {
  valid = push_front-IsValid b domain path now v absent;
  same_max = m;
  listed = rw (see, f, l) refl;
}

record_unmatched-Step :
    (a : Aggregator) (domain path : Text) (now : ℕ)
    → IsValid a
    → Step a (record_unmatched a domain path now) domain path now
unfolding record_unmatched
record_unmatched-Step a domain path now v =
    let k = entry_key domain path in
    elim (Option-cases (lookup k a.items)) [
      | inr (i, e) ↦
          rw (record_unmatched, e) (hit-Step a domain path i now v (sym (v.agrees k) ∙ e))
      | inl e ↦
          let (f, absent) = id_of-absent k a.ll (sym (v.agrees k) ∙ e) in
          elim (Bool-cases (leb a.max (length a.ll))) [
            | inr n ↦
                rw (record_unmatched, e, n)
                  (push-Step a a domain path now v refl absent f (rw (length-values a.ll, n) refl))
            | inl y ↦
                let out = evict-Evicted k a v absent in
                rw (record_unmatched, e, y)
                  (push-Step a (evict a) domain path now out.valid out.same_max out.absent f
                    (rw (length-values a.ll, y) out.listed))
          ]
    ]

-- Unmatched requests in order: the domain, the path and the time of each.
abbrev pub records : Aggregator → List (Text × Text × ℕ) → Aggregator
records a [] = a
records a ((domain, path, now) ∷ rs) = records (record_unmatched a domain path now) rs

-- The same on the bounded list.
abbrev pub sees : ℕ → List (Text × Text × ℕ) → List UnmatchedEntry → List UnmatchedEntry
sees max [] es = es
sees max ((domain, path, now) ∷ rs) es = sees max rs (see max domain path now es)

records-sees :
    (a : Aggregator) (rs : List (Text × Text × ℕ))
    → IsValid a
    → IsValid (records a rs) × (values (records a rs).ll ≡ sees a.max rs (values a.ll))
records-sees a [] v = (v, refl)
records-sees a ((domain, path, now) ∷ rs) v =
    let step = record_unmatched-Step a domain path now v in
    let (w, l) = records-sees (record_unmatched a domain path now) rs step.valid in
    (w, l ∙ (rw (step.same_max, step.listed) refl))

-- After any unmatched requests the aggregator's list holds exactly what the bounded list holds: a
-- known pair counts one more and goes to the front, a new one goes to the front, and when the list
-- is full the entry seen least recently makes room; and the map finds the list's elements and no
-- others.
pub aggregator_lru :
    (max : ℕ) (rs : List (Text × Text × ℕ))
    → (values (records (new_aggregator max) rs).ll ≡ sees max rs [])
      × IsValid (records (new_aggregator max) rs)
unfolding new_aggregator lookup id_of
aggregator_lru max rs =
    let (v, l) =
      records-sees (new_aggregator max) rs
        (record { agrees = λ k. refl; apart = tt; below = tt }) in
    (l, v)

length-sees :
    (max : ℕ) (rs : List (Text × Text × ℕ)) (es : List UnmatchedEntry)
    → 0 < max
    → length es ≤ max
    → length (sees max rs es) ≤ max
length-sees max [] es p h = h
length-sees max ((domain, path, now) ∷ rs) es p h =
    length-sees max rs (see max domain path now es) p (length-see max domain path now es p h)

-- The list never gets longer than its bound, whatever requests come, if the bound is positive.
pub aggregator_bounded :
    (max : ℕ) (rs : List (Text × Text × ℕ))
    → 0 < max
    → length (records (new_aggregator max) rs).ll ≤ max
aggregator_bounded max rs p =
    let h = length-sees max rs [] p (omega arith) in
    rw (← length-values (records (new_aggregator max) rs).ll, (aggregator_lru max rs).0) h
