-- ===== src/Policy/Glob.antt =====
-- internal/policy/policy.go: compileGlob, and what package regexp does with the patterns that it
-- builds. A pattern is anchored at both ends, so it is the list of its atoms; a dot of regexp
-- matches every character but the newline. Globs and subjects are lists of code points.
pub mod Matching
use mirage_chaff.Base.{
  ℕ, ◌≡◌, ◌≢◌, refl, List, [], ◌∷◌, ◌++◌, Bool, true, false, not, ◌&&◌, ◌||◌, ◌==◌, if◌then◌else◌,
  All, Bool-cases, inl, inr, ◌↔◌, arith, ==_iff, sym, ap,
}
use mirage_chaff.Base.Text.{Text}

abbrev pub newline : ℕ
newline = 10

abbrev pub star : ℕ
star = b'*'

abbrev pub question : ℕ
question = b'?'

pub data Atom : Type 0 where
  -- `.*`
  any_run : Atom
  -- `.`
  any_one : Atom
  -- A quoted character.
  literal : ℕ → Atom

unfoldable pub atom : ℕ → Atom
atom c = if c == star then any_run else if c == question then any_one else literal c

unfoldable pub atoms : Text → List Atom
atoms [] = []
atoms (c ∷ g) = atom c ∷ atoms g

unfoldable pub compile_glob : Text → List Atom
compile_glob [] = any_run ∷ []
compile_glob (c ∷ g) = atoms (c ∷ g)

-- `continue` is the match of what follows the run.
unfoldable pub match_run : (Text → Bool) → Text → Bool
match_run continue [] = continue []
match_run continue (c ∷ s) = continue (c ∷ s) || (not (c == newline) && match_run continue s)

unfoldable pub match_one : Atom → (Text → Bool) → Text → Bool
match_one any_run continue s = match_run continue s
match_one any_one continue [] = false
match_one any_one continue (c ∷ s) = not (c == newline) && continue s
match_one (literal a) continue [] = false
match_one (literal a) continue (c ∷ s) = (a == c) && continue s

unfoldable pub match_string : List Atom → Text → Bool
match_string [] [] = true
match_string [] (c ∷ s) = false
match_string (a ∷ re) s = match_one a (match_string re) s

-- The glob language itself: a star stands for a run of characters, a question mark for one, any
-- other character for itself. No wildcard stands for a newline.
pub data Fits : Text → Text → Type 0 where
  done : Fits [] []
  by_star :
      {g s : Text} (run rest : Text)
      → All (λ c. c ≢ newline) run
      → Fits g rest
      → s ≡ run ++ rest
      → Fits (star ∷ g) s
  by_question : {g s : Text} {c : ℕ} → c ≢ newline → Fits g s → Fits (question ∷ g) (c ∷ s)
  by_itself : {g s : Text} {c : ℕ} → c ≢ star → c ≢ question → Fits g s → Fits (c ∷ g) (c ∷ s)

-- The empty glob is for every subject without a newline.
abbrev pub GlobMatches : Text → Text → Type 0
GlobMatches [] s = All (λ c. c ≢ newline) s
GlobMatches (c ∷ g) s = Fits (c ∷ g) s
