-- ===== src/Policy/Aggregator/Elements.antt =====
-- The numbered elements of the aggregator's list and their keys.
use mirage_chaff.Base.{
  ℕ, ◌+◌, ◌≡◌, ◌≢◌, refl, sym, ap, subst, List, [], ◌∷◌, true, false, Option, none, some, ◌==◌,
  ==_iff, if◌then◌else◌, length, All, All-map, Bool-cases, inl, inr, arith,
}
use mirage_chaff.Base.Text.{Text, text_eq, text_eq_iff}
use mirage_chaff.Base.Dict.{text_key, beq_refl}
use mirage_chaff.Policy.Aggregator.{UnmatchedEntry, Element, find_element, remove_element, back}
use mirage_chaff.Policy.Aggregator.Lru.{key_of, find, remove, drop_last}

-- The entries, front first.
abbrev pub values : List Element → List UnmatchedEntry
values [] = []
values (e ∷ es) = e.value ∷ values es

-- The number of the element with a key.
unfoldable pub id_of : Text → List Element → Option ℕ
id_of k [] = none
id_of k (e ∷ es) = if text_eq (key_of e.value) k then some e.id else id_of k es

abbrev pub Fresh : Element → Element → Type 0
Fresh e f = (e.id ≢ f.id) × (key_of e.value ≢ key_of f.value)

-- No two elements have one number or one key.
abbrev pub Apart : List Element → Type 0
Apart [] = Unit {0}
Apart (e ∷ es) = All (Fresh e) es × Apart es

id_of-Fresh :
    (e : Element) (es : List Element) (k : Text) (i : ℕ)
    → All (Fresh e) es
    → id_of k es ≡ some i
    → (e.id ≢ i) × (key_of e.value ≢ k)
unfolding id_of
id_of-Fresh e [] k i a h = absurd cc
id_of-Fresh e (f ∷ es) k i a h = elim (Bool-cases (text_eq (key_of f.value) k)) [
  | inl y ↦
      let same : f.id ≡ i = ground (arith, rw y at h) in
      let key = (text_eq_iff (key_of f.value) k).0 y in
      (subst (λ n. e.id ≢ n) same a.0.0, subst (λ t. key_of e.value ≢ t) key a.0.1)
  | inr n ↦ id_of-Fresh e es k i a.1 (rw n at h)
]

-- What the number of a key finds.
pub record Found (k : Text) (i : ℕ) (es : List Element) : Type 0 where
  pub element : Element
  pub finds : find_element i es ≡ some element
  pub key : key_of element.value ≡ k
  pub spec : find k (values es) ≡ some element.value
  pub removes : values (remove_element i es) ≡ remove k (values es)

pub id_of-Found :
    (k : Text) (i : ℕ) (es : List Element) → Apart es → id_of k es ≡ some i → Found k i es
unfolding id_of find_element remove_element find remove
id_of-Found k i [] a h = absurd cc
id_of-Found k i (e ∷ es) a h = elim (Bool-cases (text_eq (key_of e.value) k)) [
  | inl y ↦
      let same : (e.id == i) ≡ true = (==_iff e.id i).1 (ground (arith, rw y at h)) in
      record {
        element = e;
        finds = rw same refl;
        key = (text_eq_iff (key_of e.value) k).0 y;
        spec = rw y refl;
        removes = rw (same, y) refl;
      }
  | inr n ↦
      let tail : id_of k es ≡ some i = rw n at h in
      let found = id_of-Found k i es a.1 tail in
      let other : (e.id == i) ≡ false = ground (arith, (id_of-Fresh e es k i a.0 tail).0) in
      record {
        element = found.element;
        finds = rw other found.finds;
        key = found.key;
        spec = rw n found.spec;
        removes = rw (other, n) (ap (λ l. e.value ∷ l) found.removes);
      }
]

pub id_of-absent :
    (k : Text) (es : List Element)
    → id_of k es ≡ none
    → (find k (values es) ≡ none) × All (λ f. k ≢ key_of f.value) es
unfolding id_of find
id_of-absent k [] h = (refl, tt)
id_of-absent k (e ∷ es) h = elim (Bool-cases (text_eq (key_of e.value) k)) [
  | inl y ↦ absurd (ground (arith, rw y at h))
  | inr n ↦
      let (f, a) = id_of-absent k es (rw n at h) in
      (rw n f, ((λ q. ground (arith, n, (text_eq_iff (key_of e.value) k).1 (sym q))), a))
]

pub All-remove_element :
    (P : Element → Type 0) (i : ℕ) (es : List Element) → All P es → All P (remove_element i es)
unfolding remove_element
All-remove_element P i [] a = tt
All-remove_element P i (e ∷ es) a = elim (Bool-cases (e.id == i)) [
  | inl y ↦ rw y a.1
  | inr n ↦ rw n (a.0, All-remove_element P i es a.1)
]

pub remove_element-Apart : (i : ℕ) (es : List Element) → Apart es → Apart (remove_element i es)
unfolding remove_element
remove_element-Apart i [] a = tt
remove_element-Apart i (e ∷ es) a = elim (Bool-cases (e.id == i)) [
  | inl y ↦ rw y a.1
  | inr n ↦ rw n (All-remove_element (Fresh e) i es a.0, remove_element-Apart i es a.1)
]

-- Nothing that is left has the number or the key of what was removed.
pub remove_element-fresh :
    (k : Text) (i : ℕ) (es : List Element)
    → Apart es
    → id_of k es ≡ some i
    → All (λ f. (i ≢ f.id) × (k ≢ key_of f.value)) (remove_element i es)
unfolding remove_element id_of
remove_element-fresh k i [] a h = tt
remove_element-fresh k i (e ∷ es) a h = elim (Bool-cases (text_eq (key_of e.value) k)) [
  | inl y ↦
      let same : e.id ≡ i = ground (arith, rw y at h) in
      let key = (text_eq_iff (key_of e.value) k).0 y in
      rw ((==_iff e.id i).1 same) (
        All-map es
          (λ f p. (subst (λ n. n ≢ f.id) same p.0, subst (λ t. t ≢ key_of f.value) key p.1)) a.0)
  | inr n ↦
      let tail : id_of k es ≡ some i = rw n at h in
      let (q, r) = id_of-Fresh e es k i a.0 tail in
      let other : (e.id == i) ≡ false = ground (arith, q) in
      rw other (((λ x. q (sym x)), (λ x. r (sym x))), remove_element-fresh k i es a.1 tail)
]

pub length-remove_element :
    (k : Text) (i : ℕ) (es : List Element)
    → Apart es
    → id_of k es ≡ some i
    → length (remove_element i es) + 1 ≡ length es
unfolding remove_element id_of
length-remove_element k i [] a h = absurd cc
length-remove_element k i (e ∷ es) a h = elim (Bool-cases (text_eq (key_of e.value) k)) [
  | inl y ↦
      let same : e.id ≡ i = ground (arith, rw y at h) in rw ((==_iff e.id i).1 same) (omega arith)
  | inr n ↦
      let tail : id_of k es ≡ some i = rw n at h in
      let other : (e.id == i) ≡ false = ground (arith, (id_of-Fresh e es k i a.0 tail).0) in
      rw other (omega (arith, length-remove_element k i es a.1 tail))
]

pub id_of-none :
    (k : Text) (es : List Element) → All (λ f. k ≢ key_of f.value) es → id_of k es ≡ none
unfolding id_of
id_of-none k [] a = refl
id_of-none k (e ∷ es) a = elim (Bool-cases (text_eq (key_of e.value) k)) [
  | inl y ↦ absurd (a.0 (sym ((text_eq_iff (key_of e.value) k).0 y)))
  | inr n ↦ rw n (id_of-none k es a.1)
]

id_of-other :
    (k j : Text) (i : ℕ) (es : List Element)
    → text_eq k j ≡ false
    → Apart es
    → id_of k es ≡ some i
    → id_of j (remove_element i es) ≡ id_of j es
unfolding id_of remove_element
id_of-other k j i [] n a h = refl
id_of-other k j i (e ∷ es) n a h = elim (Bool-cases (text_eq (key_of e.value) k)) [
  | inl y ↦
      let same : e.id ≡ i = ground (arith, rw y at h) in
      let key = (text_eq_iff (key_of e.value) k).0 y in rw ((==_iff e.id i).1 same, key, n) refl
  | inr m ↦
      let tail : id_of k es ≡ some i = rw m at h in
      let other : (e.id == i) ≡ false = ground (arith, (id_of-Fresh e es k i a.0 tail).0) in
      rw (other, id_of, id_of-other k j i es n a.1 tail) refl
]

pub id_of-remove_element :
    (k j : Text) (i : ℕ) (es : List Element)
    → Apart es
    → id_of k es ≡ some i
    → id_of j (remove_element i es) ≡ (if text_eq k j then none else id_of j es)
id_of-remove_element k j i es a h = elim (Bool-cases (text_eq k j)) [
  | inl y ↦ rw y (
      id_of-none j (remove_element i es) (
        All-map (remove_element i es)
          (λ f p. subst (λ t. t ≢ key_of f.value) ((text_eq_iff k j).0 y) p.1)
          (remove_element-fresh k i es a h)))
  | inr n ↦ rw n (id_of-other k j i es n a h)
]

pub back-All :
    (P : Element → Type 0) (es : List Element) (b : Element) → back es ≡ some b → All P es → P b
unfolding back
back-All P [] b h a = absurd cc
back-All P (e ∷ []) b h a = subst P (ground (arith, h)) a.0
back-All P (e ∷ f ∷ es) b h a = back-All P (f ∷ es) b h a.1

pub id_of-back :
    (es : List Element) (b : Element)
    → back es ≡ some b
    → Apart es
    → id_of (key_of b.value) es ≡ some b.id
unfolding back id_of
id_of-back [] b h a = absurd cc
id_of-back (e ∷ []) b h a =
    let same : e ≡ b = ground (arith, h) in
    subst (λ (b : Element). id_of (key_of b.value) (e ∷ []) ≡ some b.id) same
      (rw (beq_refl {K = Text} (key_of e.value)) refl)
id_of-back (e ∷ f ∷ es) b h a =
    let (q, r) = back-All (Fresh e) (f ∷ es) b h a.0 in
    let other : text_eq (key_of e.value) (key_of b.value) ≡ false =
      ground (arith, r, text_eq_iff (key_of e.value) (key_of b.value)) in
    rw other (id_of-back (f ∷ es) b h a.1)

pub remove-back :
    (es : List Element) (b : Element)
    → back es ≡ some b
    → Apart es
    → values (remove_element b.id es) ≡ drop_last (values es)
unfolding back remove_element drop_last
remove-back [] b h a = absurd cc
remove-back (e ∷ []) b h a =
    let same : e ≡ b = ground (arith, h) in
    subst (λ (b : Element). values (remove_element b.id (e ∷ [])) ≡ []) same
      (rw ((==_iff e.id e.id).1 refl) refl)
remove-back (e ∷ f ∷ es) b h a =
    let (q, r) = back-All (Fresh e) (f ∷ es) b h a.0 in
    let other : (e.id == b.id) ≡ false = ground (arith, q) in
    rw other (ap (λ l. e.value ∷ l) (remove-back (f ∷ es) b h a.1))
