-- ===== src/Admin/Accounts/Governs.antt =====
-- internal/admin: the accounts and the sessions after any sequence of requests.
use mirage_chaff.Base.{ℕ, Bool, ◌≡◌, List, [], ◌∷◌, true, All}
use mirage_chaff.Base.Text.{Text}
use mirage_chaff.Admin.Access.{AdminState, AdminRequest}
use mirage_chaff.Admin.Accounts.{
  Call, logs_in, logs_out, changes_password, creates, deletes, sets_password, visits, answer,
  answer_all,
}
use mirage_chaff.Admin.Accounts.Owned.{IsGoverned}
use mirage_chaff.Admin.Accounts.Governed.{Governed, behind-Governed}
use mirage_chaff.Admin.Accounts.Kept.{
  manage, logout-Keeps, create-Keeps, delete-Keeps, set_password-Keeps, change_password-Keeps,
}
use mirage_chaff.Admin.Accounts.LoggedIn.{login-Governed}

-- A deletion of an account could be saved.
abbrev pub IsSaved : Call → Type 0
IsSaved (deletes name saved) = saved ≡ true
IsSaved _ = Unit {0}

module _ (verify : Text → Text → Bool) where
  answer-Governed :
      (c : Call) (r : AdminRequest) (now : ℕ) (a : AdminState)
      → IsSaved c
      → Governed a
      → Governed (answer verify c r now a).1
  unfolding answer
  answer-Governed (logs_in c ip id csrf) r now a s g = login-Governed verify c ip id csrf now a g
  answer-Governed logs_out r now a s g = behind-Governed [] r now _ a (logout-Keeps [] r now) g
  answer-Governed (changes_password body hash saved) r now a s g =
      behind-Governed [] r now _ a (change_password-Keeps verify [] r now body hash saved) g
  answer-Governed (creates body hash saved) r now a s g =
      behind-Governed manage r now _ a (create-Keeps r now body hash saved) g
  answer-Governed (deletes name saved) r now a s g =
      rw s (behind-Governed manage r now _ a (delete-Keeps r now name) g)
  answer-Governed (sets_password name body hash saved) r now a s g =
      behind-Governed manage r now _ a (set_password-Keeps r now name body hash saved) g
  answer-Governed (visits capability) r now a s g =
      behind-Governed capability r now _ a (λ s a g k. g) g

  -- After any sequence of logins, logouts, changes of the accounts and other requests, every session
  -- belongs to an account that is still there, with the role that the account has, and an account with the
  -- role `admin` is left, if that held before, and every deletion of an account could be saved.
  pub answer_all-Governed :
      (cs : List (Call × AdminRequest × ℕ)) (a : AdminState)
      → All (λ e. IsSaved e.0) cs
      → IsGoverned a.store.users a.sess
      → IsGoverned (answer_all verify cs a).store.users (answer_all verify cs a).sess
  unfolding answer_all
  answer_all-Governed [] a s g = g
  answer_all-Governed ((c, r, now) ∷ cs) a s g =
      answer_all-Governed cs (answer verify c r now a).1 s.1 (answer-Governed c r now a s.0 g)
