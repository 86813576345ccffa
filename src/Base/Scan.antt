-- ===== src/Base/Scan.antt =====
-- The outcomes of Go code that walks a byte slice: a value, an early return, a panic by an index or
-- a slice out of range, or (in the model only) a loop that ran out of its fuel.
use Prim.Native.Nat.{ℕ, ◌+◌, ◌-◌, ◌*◌, ◌≤◌, ◌<◌}
use mathlib.Core.Path.{◌≡◌, refl}
use mathlib.Core.Logic.{◌⊎◌, inl, inr}
use mathlib.Core.Bool.{Bool, true, false, ◌&&◌}
use mathlib.Core.Option.{Option, none, some}
use mathlib.Core.List.{List}
use native.Mathlib.Omega.{arith}
use mirage_chaff.Base.Tests.{leb, if◌then◌else◌, le→leb}
use mirage_chaff.Base.Lists.{length, get_elem?, take, drop, get_elem?-lt, length-drop, length-take}

pub data Scan {ℓ} (A : Type ℓ) : Type ℓ where
  ok : A → Scan A
  stop : Scan A
  panic : Scan A
  stuck : Scan A

infixl 5 ◌>>=◌ ◌>>◌
unfoldable pub ◌>>=◌ {ℓ κ} : {A : Type ℓ} {B : Type κ} → Scan A → (A → Scan B) → Scan B
ok a >>= f = f a
stop >>= f = stop
panic >>= f = panic
stuck >>= f = stuck

unfoldable pub ◌>>◌ {ℓ} : {B : Type ℓ} → Scan (Unit {0}) → Scan B → Scan B
unfolding ◌>>=◌
m >> k = m >>= λ _. k

-- `if !c { return }`
unfoldable pub require : Bool → Scan (Unit {0})
require true = ok tt
require false = stop

-- `b[i]`
unfoldable pub index : List ℕ → ℕ → Scan ℕ
index b i = elim (get_elem? b i) [ none ↦ panic | some x ↦ ok x ]

-- `b[n:]`
unfoldable pub slice_from : ℕ → List ℕ → Scan (List ℕ)
slice_from n b = if leb n (length b) then ok (drop n b) else panic

-- `b[:n]`
unfoldable pub slice_to : ℕ → List ℕ → Scan (List ℕ)
slice_to n b = if leb n (length b) then ok (take n b) else panic

-- `binary.BigEndian.Uint16(b[i:i+2])`
unfoldable pub uint16_at : List ℕ → ℕ → Scan ℕ
unfolding index ◌>>=◌
uint16_at b i = do hi ← index b i; lo ← index b (i + 1); ok (hi * 256 + lo)

-- The outcome is an early return, or a value with the property: no panic, and fuel enough.
pub data Gives {ℓ} {A : Type ℓ} (P : A → Type 0) : Scan A → Type ℓ where
  gives : (a : A) → P a → Gives P (ok a)
  early : Gives P stop

pub Gives-bind {ℓ κ} :
    {A : Type ℓ} {B : Type κ} (P : A → Type 0) (Q : B → Type 0) (m : Scan A) (f : A → Scan B)
    → Gives P m
    → ((a : A) → P a → Gives Q (f a))
    → Gives Q (m >>= f)
unfolding ◌>>=◌
Gives-bind P Q m f (gives a p) h = h a p
Gives-bind P Q m f early h = early

pub index-ok : (b : List ℕ) (i : ℕ) → i < length b → (x : ℕ) × (index b i ≡ ok x)
unfolding index
index-ok b i h = let (x, e) = get_elem?-lt b i h in (x, rw (e, index))

pub uint16_at-ok : (b : List ℕ) (i : ℕ) → i + 1 < length b → (x : ℕ) × (uint16_at b i ≡ ok x)
unfolding uint16_at
uint16_at-ok b i h =
    let (hi, p) = index-ok b i (omega arith) in
    let (lo, q) = index-ok b (i + 1) h in (hi * 256 + lo, rw (p, q))

pub slice_from-ok : (n : ℕ) (b : List ℕ) → n ≤ length b → slice_from n b ≡ ok (drop n b)
unfolding slice_from
slice_from-ok n b h = rw (le→leb n _ h)

pub slice_to-ok : (n : ℕ) (b : List ℕ) → n ≤ length b → slice_to n b ≡ ok (take n b)
unfolding slice_to
slice_to-ok n b h = rw (le→leb n _ h)

-- A guard on the length, then a step that the guard allows.
pub Gives-require {ℓ} :
    {B : Type ℓ} (Q : B → Type 0) (c : Bool) (k : Scan B)
    → (c ≡ true → Gives Q k)
    → Gives Q (require c >> k)
unfolding require ◌>>◌
Gives-require Q true k h = h refl
Gives-require Q false k h = early

pub Gives-index {ℓ} :
    {B : Type ℓ} (Q : B → Type 0) (b : List ℕ) (i : ℕ) (f : ℕ → Scan B)
    → i < length b
    → ((x : ℕ) → Gives Q (f x))
    → Gives Q (index b i >>= f)
unfolding ◌>>=◌
Gives-index Q b i f h k = let (x, e) = index-ok b i h in rw e (k x)

pub Gives-uint16_at {ℓ} :
    {B : Type ℓ} (Q : B → Type 0) (b : List ℕ) (i : ℕ) (f : ℕ → Scan B)
    → i + 1 < length b
    → ((x : ℕ) → Gives Q (f x))
    → Gives Q (uint16_at b i >>= f)
unfolding ◌>>=◌
Gives-uint16_at Q b i f h k = let (x, e) = uint16_at-ok b i h in rw e (k x)

pub Gives-slice_from {ℓ} :
    {B : Type ℓ} (Q : B → Type 0) (n : ℕ) (b : List ℕ) (f : List ℕ → Scan B)
    → n ≤ length b
    → ((r : List ℕ) → length r + n ≡ length b → Gives Q (f r))
    → Gives Q (slice_from n b >>= f)
unfolding ◌>>=◌
Gives-slice_from Q n b f h k =
    rw (slice_from-ok n b h) (k (drop n b) (omega (arith, length-drop n b)))

pub Gives-slice_to {ℓ} :
    {B : Type ℓ} (Q : B → Type 0) (n : ℕ) (b : List ℕ) (f : List ℕ → Scan B)
    → n ≤ length b
    → ((r : List ℕ) → length r ≡ n → Gives Q (f r))
    → Gives Q (slice_to n b >>= f)
unfolding ◌>>=◌
Gives-slice_to Q n b f h k = rw (slice_to-ok n b h) (k (take n b) (omega (arith, length-take n b)))

-- The same slices as the last step.
pub slice_from-Gives :
    (Q : List ℕ → Type 0) (n : ℕ) (b : List ℕ)
    → n ≤ length b
    → ((r : List ℕ) → length r + n ≡ length b → Q r)
    → Gives Q (slice_from n b)
slice_from-Gives Q n b h k =
    rw (slice_from-ok n b h) (gives (drop n b) (k (drop n b) (omega (arith, length-drop n b))))

pub slice_to-Gives :
    (Q : List ℕ → Type 0) (n : ℕ) (b : List ℕ)
    → n ≤ length b
    → ((r : List ℕ) → length r ≡ n → Q r)
    → Gives Q (slice_to n b)
slice_to-Gives Q n b h k =
    rw (slice_to-ok n b h) (gives (take n b) (k (take n b) (omega (arith, length-take n b))))

-- What an outcome with the property is.
pub Gives-cases {ℓ} :
    {A : Type ℓ} (P : A → Type 0) (m : Scan A)
    → Gives P m
    → ((a : A) × (m ≡ ok a) × P a) ⊎ (m ≡ stop)
Gives-cases P m (gives a p) = inl (a, refl, p)
Gives-cases P m early = inr refl

-- `b[i:j]`
unfoldable pub slice : ℕ → ℕ → List ℕ → Scan (List ℕ)
slice i j b = if leb i j && leb j (length b) then ok (take (j - i) (drop i b)) else panic

-- A call that may fail, and whose error is returned.
unfoldable pub checked {ℓ} : {A : Type ℓ} → Option A → Scan A
checked (some a) = ok a
checked none = stop

pub Gives-slice {ℓ} :
    {B : Type ℓ} (Q : B → Type 0) (i j : ℕ) (b : List ℕ) (f : List ℕ → Scan B)
    → i ≤ j
    → j ≤ length b
    → ((r : List ℕ) → length r ≡ j - i → Gives Q (f r))
    → Gives Q (slice i j b >>= f)
unfolding ◌>>=◌ slice
Gives-slice Q i j b f h g k =
    rw (le→leb i j h, le→leb j (length b) g)
      (k (take (j - i) (drop i b)) (omega (arith, length-take (j - i) (drop i b), length-drop i b)))

pub Gives-checked {ℓ κ} :
    {A : Type ℓ} {B : Type κ} (Q : B → Type 0) (o : Option A) (f : A → Scan B)
    → ((a : A) → o ≡ some a → Gives Q (f a))
    → Gives Q (checked o >>= f)
unfolding ◌>>=◌ checked
Gives-checked Q none f k = early
Gives-checked Q (some a) f k = k a refl
