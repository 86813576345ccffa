-- ===== src/Managed/Rows/Presets.antt =====
-- The presets from the most careful to the least.
use mirage_chaff.Base.{
  ◌≡◌, refl, sym, subst, Bool, true, false, not, ◌||◌, Option, none, some, Bool-cases, inl, inr,
  arith,
}
use mirage_chaff.Base.Text.{Text, text_eq, text_eq_iff}
use mirage_chaff.Managed.Types.{
  Entry, CatalogOverride, ManagedConfig, or_else, review_approved, review_rejected, review_disabled,
  review_needs_test, review_candidate,
}
use mirage_chaff.Managed.Rows.{
  conservative, balanced, aggressive, preset_enables, rewrite_enabled, nonempty,
}

-- A status that equals one text is none that differs from it.
status-ne : (s a b : Text) → text_eq s a ≡ true → text_eq a b ≡ false → text_eq s b ≡ false
status-ne s a b h n = subst (λ x. text_eq x b ≡ false) (sym ((text_eq_iff s a).0 h)) n

conservative-balanced :
    (e : Entry) → preset_enables conservative e ≡ true → preset_enables balanced e ≡ true
unfolding preset_enables text_eq
conservative-balanced e h = ground arith

both :
    (s a : Text)
    → text_eq s a ≡ true
    → text_eq a review_rejected ≡ false
    → text_eq a review_disabled ≡ false
    → (text_eq s review_rejected ≡ false) × (text_eq s review_disabled ≡ false)
both s a h r d = (status-ne s a review_rejected h r, status-ne s a review_disabled h d)

-- A status of the balanced preset is neither of the two refusals.
is_open :
    (s : Text)
    → (text_eq s review_approved || text_eq s review_needs_test || text_eq s review_candidate)
      ≡ true
    → (text_eq s review_rejected ≡ false) × (text_eq s review_disabled ≡ false)
is_open s h = elim (Bool-cases (text_eq s review_approved)) [
  | inl q ↦ both s review_approved q (unfold text_eq in refl) (unfold text_eq in refl)
  | inr q ↦ elim (Bool-cases (text_eq s review_needs_test)) [
    | inl p ↦ both s review_needs_test p (unfold text_eq in refl) (unfold text_eq in refl)
    | inr p ↦
        both s review_candidate (ground arith) (unfold text_eq in refl) (unfold text_eq in refl)
  ]
]

balanced-aggressive :
    (e : Entry) → preset_enables balanced e ≡ true → preset_enables aggressive e ≡ true
unfolding preset_enables text_eq
balanced-aggressive e h = let o = is_open e.review_status (ground arith) in ground (arith, o.0, o.1)

abbrev pub implies : Bool → Bool → Bool
implies a b = not a || b

implies_lem : (a b : Bool) → (a ≡ true → b ≡ true) → implies a b ≡ true
implies_lem true b h = h refl
implies_lem false b h = refl

overridden :
    (o : Option Bool) (a b : Bool) → (a ≡ true → b ≡ true) → or_else o a ≡ true → or_else o b ≡ true
overridden none a b h p = h p
overridden (some x) a b h p = p

-- What the conservative preset rewrites the balanced one rewrites too, and what the balanced preset
-- rewrites the aggressive one does, whatever the override.
pub presets_ordered :
    (e : Entry) (ov : CatalogOverride) (cfg : ManagedConfig)
    → let enabled =
        λ (preset : Text). rewrite_enabled e ov (record cfg { default_preset = preset }) in
      (implies (enabled conservative) (enabled balanced) ≡ true)
      × (implies (enabled balanced) (enabled aggressive) ≡ true)
unfolding rewrite_enabled nonempty text_eq
presets_ordered e ov cfg = (
  implies_lem (or_else ov.rewrite_enabled (preset_enables conservative e))
      (or_else ov.rewrite_enabled (preset_enables balanced e))
      (overridden ov.rewrite_enabled (preset_enables conservative e) (preset_enables balanced e)
        (conservative-balanced e)),
  implies_lem (or_else ov.rewrite_enabled (preset_enables balanced e))
      (or_else ov.rewrite_enabled (preset_enables aggressive e))
      (overridden ov.rewrite_enabled (preset_enables balanced e) (preset_enables aggressive e)
        (balanced-aggressive e)),
)
