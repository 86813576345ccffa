-- ===== src/Policy/Glob/Matching.antt =====
-- The compiled pattern matches exactly what the glob language says.
use mirage_chaff.Base.{
  ℕ, ◌≡◌, ◌≢◌, refl, [], ◌∷◌, ◌++◌, Bool, true, ◌==◌, All, Bool-cases, inl, inr, ◌↔◌, arith, sym,
  ap, subst,
}
use mirage_chaff.Base.Text.{Text}
use mirage_chaff.Policy.Glob.{
  newline, star, question, any_run, any_one, literal, atom, atoms, compile_glob, match_run,
  match_one, match_string, Fits, done, by_star, by_question, by_itself, GlobMatches,
}

match_run-run :
    (continue : Text → Bool) (run rest : Text)
    → All (λ c. c ≢ newline) run
    → continue rest ≡ true
    → match_run continue (run ++ rest) ≡ true
unfolding match_run
match_run-run continue [] [] a h = h
match_run-run continue [] (c ∷ rest) a h = rw h refl
match_run-run continue (c ∷ run) rest a h =
    ground (arith, match_run-run continue run rest a.1 h, a.0)

-- What a matched run is.
data Run (continue : Text → Bool) (s : Text) : Type 0 where
  taken :
      (run rest : Text)
      → All (λ c. c ≢ newline) run
      → s ≡ run ++ rest
      → continue rest ≡ true
      → Run continue s

Run-cons :
    (continue : Text → Bool) (c : ℕ) (s : Text)
    → c ≢ newline
    → Run continue s
    → Run continue (c ∷ s)
Run-cons continue c s n (taken run rest a e h) = taken (c ∷ run) rest (n, a) (ap (λ t. c ∷ t) e) h

match_run-Run : (continue : Text → Bool) (s : Text) → match_run continue s ≡ true → Run continue s
unfolding match_run
match_run-Run continue [] h = taken [] [] tt refl h
match_run-Run continue (c ∷ s) h = elim (Bool-cases (continue (c ∷ s))) [
  | inl y ↦ taken [] (c ∷ s) tt refl y
  | inr n ↦ Run-cons continue c s (ground arith) (match_run-Run continue s (ground arith))
]

atom-star : atom star ≡ any_run
unfolding atom
atom-star = refl

atom-question : atom question ≡ any_one
unfolding atom
atom-question = refl

atom-literal : (c : ℕ) → c ≢ star → c ≢ question → atom c ≡ literal c
unfolding atom
atom-literal c p q = ground arith

Fits-match : {g s : Text} → Fits g s → match_string (atoms g) s ≡ true
unfolding match_string match_one atoms
Fits-match done = refl
Fits-match (by_star {g} {s} run rest a f e) =
    rw (atom-star, e) (match_run-run (match_string (atoms g)) run rest a (Fits-match f))
Fits-match (by_question {g} {s} {c} n f) = rw atom-question (ground (arith, Fits-match f))
Fits-match (by_itself {g} {s} {c} p q f) = rw (atom-literal c p q) (ground (arith, Fits-match f))

Run-Fits :
    (g s : Text)
    → ((t : Text) → match_string (atoms g) t ≡ true → Fits g t)
    → Run (match_string (atoms g)) s
    → Fits (star ∷ g) s
Run-Fits g s f (taken run rest a e h) = by_star run rest a (f rest h) e

one-Fits :
    (g s : Text)
    → ((t : Text) → match_string (atoms g) t ≡ true → Fits g t)
    → match_one any_one (match_string (atoms g)) s ≡ true
    → Fits (question ∷ g) s
unfolding match_one
one-Fits g [] f h = absurd cc
one-Fits g (c ∷ s) f h = by_question (ground arith) (f s (ground arith))

literal-Fits :
    (a : ℕ) (g s : Text)
    → a ≢ star
    → a ≢ question
    → ((t : Text) → match_string (atoms g) t ≡ true → Fits g t)
    → match_one (literal a) (match_string (atoms g)) s ≡ true
    → Fits (a ∷ g) s
unfolding match_one
literal-Fits a g [] p q f h = absurd cc
literal-Fits a g (c ∷ s) p q f h =
    let same : a ≡ c = ground arith in
    subst (λ k. Fits (a ∷ g) (k ∷ s)) same (by_itself p q (f s (ground arith)))

match-Fits : (g s : Text) → match_string (atoms g) s ≡ true → Fits g s
unfolding match_string atoms match_one
match-Fits [] [] h = done
match-Fits [] (c ∷ s) h = absurd cc
match-Fits (a ∷ g) s h = elim (Bool-cases (a == star)) [
  | inl e ↦
      let same : a ≡ star = ground arith in
      subst (λ k. Fits (k ∷ g) s) (sym same)
        (Run-Fits g s (match-Fits g)
          (match_run-Run (match_string (atoms g)) s (rw (same, atom-star) at h)))
  | inr n ↦ elim (Bool-cases (a == question)) [
    | inl e ↦
        let same : a ≡ question = ground arith in
        subst (λ k. Fits (k ∷ g) s) (sym same)
          (one-Fits g s (match-Fits g) (rw (same, atom-question) at h))
    | inr q ↦
        let p' : a ≢ star = ground arith in
        let q' : a ≢ question = ground arith in
        literal-Fits a g s p' q' (match-Fits g) (rw (atom-literal a p' q') at h)
  ]
]

any-newline : (s : Text) → match_run (match_string []) s ≡ true → All (λ c. c ≢ newline) s
unfolding match_run match_string
any-newline [] h = tt
any-newline (c ∷ s) h = (ground arith, any-newline s (ground arith))

newline-any : (s : Text) → All (λ c. c ≢ newline) s → match_run (match_string []) s ≡ true
unfolding match_run match_string
newline-any [] a = refl
newline-any (c ∷ s) a = ground (arith, newline-any s a.1, a.0)

-- A compiled glob matches a subject exactly when the subject is one of those that the glob
-- language gives it: a star for any run of characters, a question mark for one character, any other
-- character for itself, no newline under a wildcard, and for the empty glob every subject without
-- a newline.
pub match_glob_iff :
    (glob s : Text) → (match_string (compile_glob glob) s ≡ true) ↔ GlobMatches glob s
unfolding match_string match_one compile_glob
match_glob_iff [] s = (any-newline s, newline-any s)
match_glob_iff (c ∷ g) s = (match-Fits (c ∷ g) s, Fits-match)
