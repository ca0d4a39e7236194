-- ===== src/TownCtl/Diff/Presence.antt =====
-- What a plan (pkg/townctl/customroles.go, DiffCustomRoles) does to a table whose rows are nothing
-- but their keys, repeated or not.
use landman.Base.{
  ◌≡◌, refl, sym, ap, ◌∙◌, Bool, true, false, not, Option, none, some, List, [], ◌∷◌, arith,
  Bool-cases, Option-cases, inl, inr,
}
use landman.Manifest.Types.{is_nil}
use landman.TownCtl.Diff.{find, keeps, plan_writes, plan_removals, plan}
use landman.TownCtl.Diff.Laws.{after, writes_absent, removals_kept, removals_absent, after-plan}

module _ {K R : Type 0} (dec : Discrete K) (key : R → K) (same : R → R → Bool)
    (always : (a b : R) → same a b ≡ true) (current : List R) (k : K) where
  -- A row that is there stays, and one that is wanted and not there is added.
  writes_there :
      (desired : List R) (old : Option R)
      → is_nil old ≡ false
      → is_nil (after dec key k old (plan_writes dec key same current desired)) ≡ false
  unfolding plan_writes
  writes_there [] old h = h
  writes_there (r ∷ rs) old h = elim (Option-cases (find dec key (key r) current)) [
    | inl e ↦ ground (arith, writes_there rs old h, writes_there rs (some r) refl)
    | inr (c, e) ↦ ground (arith, always c r, writes_there rs old h)
  ]

  writes_wanted :
      (desired : List R) (old : Option R)
      → find dec key k current ≡ none
      → keeps dec key desired k ≡ true
      → is_nil (after dec key k old (plan_writes dec key same current desired)) ≡ false
  unfolding plan_writes
  writes_wanted [] old e h = cc
  writes_wanted (r ∷ rs) old e h = elim (dec (key r) k) [
    | yes here ↦
        ground (arith, writes_there rs (some r) refl, ap (λ q. find dec key q current) here ∙ e)
    | no other ↦ elim (Option-cases (find dec key (key r) current)) [
      | inl new ↦ ground (arith, writes_wanted rs old e)
      | inr (c, there) ↦ ground (arith, always c r, writes_wanted rs old e)
    ]
  ]

  -- After the plan a key has a row exactly when the desired rows have it.
  pub plan-keeps :
      (desired : List R)
      → is_nil (after dec key k (find dec key k current) (plan dec key same desired current))
        ≡ not (keeps dec key desired k)
  plan-keeps desired = elim (Bool-cases (keeps dec key desired k)) [
    | inl wanted ↦
        ap is_nil (
          after-plan dec key same k desired current
          ∙ removals_kept dec key k desired current _ wanted)
        ∙ written wanted
        ∙ ap not (sym wanted)
    | inr gone ↦
        ap is_nil (
          after-plan dec key same k desired current
          ∙ ap (λ o. after dec key k o (plan_removals dec key desired current))
              (writes_absent dec key same current k desired _ gone)
          ∙ removals_absent dec key k desired current gone)
        ∙ ap not (sym gone)
  ]
    where
      written :
          keeps dec key desired k ≡ true
          → is_nil
              (after dec key k (find dec key k current) (plan_writes dec key same current desired))
            ≡ false
      written wanted = elim (Option-cases (find dec key k current)) [
        | inl e ↦ writes_wanted desired _ e wanted
        | inr (c, e) ↦ writes_there desired _ (ap is_nil e)
      ]
