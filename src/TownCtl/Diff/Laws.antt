-- ===== src/TownCtl/Diff/Laws.antt =====
-- What a plan (pkg/townctl/costpolicy.go, DryRunPlan) does to a table: the proofs follow one key
-- through the operations.
use mathlib.Core.List.{foldl-append}
use mathlib.Core.Logic.{ite}
use landman.Base.{
  ◌≡◌, refl, subst, ◌∙◌, ◌⊎◌, inl, inr, Bool, true, false, Option, none, some, arith,
}
use landman.Base.{List, [], ◌∷◌, foldl, Bool-cases}
use landman.TownCtl.Diff.{
  add, update, remove, DiffOp, find, keeps, plan_writes, plan_removals, plan,
}

-- The table's row against the desired row: the very row, or one that the comparison cannot tell
-- from it.
abbrev pub Agrees : {R : Type 0} → (R → R → Bool) → Option R → Option R → Type 0
Agrees same none none = Unit {0}
Agrees same none (some b) = ⊥
Agrees same (some a) none = ⊥
Agrees same (some a) (some b) = (a ≡ b) ⊎ (same a b ≡ true)

module _ {K R : Type 0} (dec : Discrete K) (key : R → K) where
  -- What one operation leaves under a key.
  abbrev pub effect : K → Option R → DiffOp R → Option R
  effect k old op =
      ite (dec (key op.row) k)
        (elim op.action [ add ↦ some op.row | update ↦ some op.row | remove ↦ none ]) old

  -- The row of a key after the operations, from the row before them.
  abbrev pub after : K → Option R → List (DiffOp R) → Option R
  after k = foldl (effect k)

  abbrev pub Distinct : List R → Type 0
  Distinct [] = Unit {0}
  Distinct (r ∷ rs) = (keeps dec key rs (key r) ≡ false) × Distinct rs

  pub find_of_absent : (k : K) (rs : List R) → keeps dec key rs k ≡ false → find dec key k rs ≡ none
  find_of_absent k [] h = refl
  find_of_absent k (r ∷ rs) h = ground (arith, find_of_absent k rs)

  module _ (same : R → R → Bool) (current : List R) where
    pub writes_absent :
        (k : K) (desired : List R) (old : Option R)
        → keeps dec key desired k ≡ false
        → after k old (plan_writes dec key same current desired) ≡ old
    unfolding plan_writes
    writes_absent k [] old h = refl
    writes_absent k (r ∷ rs) old h = ground (arith, writes_absent k rs old)

    writes_agree_here :
        (k : K) (r : R) (rs : List R)
        → key r ≡ k
        → keeps dec key rs k ≡ false
        → Agrees same
            (after k (find dec key k current) (plan_writes dec key same current (r ∷ rs)))
            (find dec key k (r ∷ rs))
    unfolding plan_writes
    writes_agree_here k r rs p fresh = ground (
      arith,
      writes_absent k rs (find dec key k current),
      writes_absent k rs (some r),
      find_of_absent k rs,
    )

    writes_agree :
        (k : K) (desired : List R)
        → Distinct desired
        → keeps dec key desired k ≡ true
        → Agrees same
            (after k (find dec key k current) (plan_writes dec key same current desired))
            (find dec key k desired)
    unfolding plan_writes
    writes_agree k [] d h = cc
    writes_agree k (r ∷ rs) (fresh, d) h = elim (dec (key r) k) [
      | yes p ↦ writes_agree_here k r rs p (subst (λ j. keeps dec key rs j ≡ false) p fresh)
      | no n ↦ ground (arith, writes_agree k rs d)
    ]

  pub removals_kept :
      (k : K) (desired cs : List R) (old : Option R)
      → keeps dec key desired k ≡ true
      → after k old (plan_removals dec key desired cs) ≡ old
  unfolding plan_removals
  removals_kept k desired [] old h = refl
  removals_kept k desired (c ∷ cs) old h = ground (arith, removals_kept k desired cs old)

  removals_none :
      (k : K) (desired cs : List R) → after k none (plan_removals dec key desired cs) ≡ none
  unfolding plan_removals
  removals_none k desired [] = refl
  removals_none k desired (c ∷ cs) = ground (arith, removals_none k desired cs)

  removals_drop :
      (k : K) (desired cs : List R) (old : Option R)
      → keeps dec key desired k ≡ false
      → keeps dec key cs k ≡ true
      → after k old (plan_removals dec key desired cs) ≡ none
  unfolding plan_removals
  removals_drop k desired [] old h l = cc
  removals_drop k desired (c ∷ cs) old h l =
      ground (arith, removals_drop k desired cs old, removals_none k desired cs)

  pub removals_absent :
      (k : K) (desired current : List R)
      → keeps dec key desired k ≡ false
      → after k (find dec key k current) (plan_removals dec key desired current) ≡ none
  removals_absent k desired current h = elim (Bool-cases (keeps dec key current k)) [
    | inl l ↦ removals_drop k desired current (find dec key k current) h l
    | inr l ↦ rw (find_of_absent k current l) (removals_none k desired current)
  ]

  pub after-plan :
      (same : R → R → Bool) (k : K) (desired current : List R)
      → after k (find dec key k current) (plan dec key same desired current)
        ≡ after k
            (after k (find dec key k current) (plan_writes dec key same current desired))
            (plan_removals dec key desired current)
  unfolding plan
  after-plan same k desired current =
      foldl-append (effect k) (find dec key k current) (plan_writes dec key same current desired)
        (plan_removals dec key desired current)

  -- Carrying a plan out turns any table into the desired one, row by row.
  pub plan-Agrees :
      (same : R → R → Bool) (desired current : List R)
      → Distinct desired
      → (k : K)
      → Agrees same
          (after k (find dec key k current) (plan dec key same desired current))
          (find dec key k desired)
  plan-Agrees same desired current d k =
      rw (after-plan same k desired current) (elim (Bool-cases (keeps dec key desired k)) [
        | inl wanted ↦
            rw (removals_kept k desired current _ wanted)
              (writes_agree same current k desired d wanted)
        | inr gone ↦
            rw
              (
                writes_absent same current k desired _ gone,
                removals_absent k desired current gone,
                find_of_absent k desired gone,
              )
              tt
      ])

  find_present :
      (k : K) (rs : List R) → keeps dec key rs k ≡ true → (s : R) × (find dec key k rs ≡ some s)
  find_present k [] h = cc
  find_present k (r ∷ rs) h = elim (Bool-cases (keeps dec key rs k)) [
    | inl later ↦ let (s, e) = find_present k rs later in (s, ground arith)
    | inr last ↦ (r, ground (arith, find_of_absent k rs last))
  ]

  find_later :
      (k : K) (r : R) (rs : List R)
      → keeps dec key rs k ≡ true
      → find dec key k (r ∷ rs) ≡ find dec key k rs
  find_later k r rs h = let (s, e) = find_present k rs h in ground arith

  find_first :
      (r : R) (rs : List R)
      → keeps dec key rs (key r) ≡ false
      → find dec key (key r) (r ∷ rs) ≡ some r
  find_first r rs h = ground (arith, find_of_absent (key r) rs h)

  keeps_first : (r : R) (rs : List R) → keeps dec key (r ∷ rs) (key r) ≡ true
  keeps_first r rs = ground arith

  keeps_later :
      (k : K) (r : R) (rs : List R) → keeps dec key rs k ≡ true → keeps dec key (r ∷ rs) k ≡ true
  keeps_later k r rs h = ground arith

  module _ (same : R → R → Bool) (same_refl : (r : R) → same r r ≡ true) (current : List R) where
    writes_step :
        (r : R) (rs : List R)
        → find dec key (key r) current ≡ some r
        → plan_writes dec key same current (r ∷ rs) ≡ plan_writes dec key same current rs
    unfolding plan_writes
    writes_step r rs e = ground (arith, same_refl r)

    writes_self :
        (rs : List R)
        → ((k : K) → keeps dec key rs k ≡ true → find dec key k current ≡ find dec key k rs)
        → Distinct rs
        → plan_writes dec key same current rs ≡ []
    unfolding plan_writes
    writes_self [] agree d = refl
    writes_self (r ∷ rs) agree (fresh, d) =
        writes_step r rs (agree (key r) (keeps_first r rs) ∙ find_first r rs fresh)
        ∙ writes_self rs (λ k h. agree k (keeps_later k r rs h) ∙ find_later k r rs h) d

  removals_self :
      (desired cs : List R)
      → ((k : K) → keeps dec key cs k ≡ true → keeps dec key desired k ≡ true)
      → plan_removals dec key desired cs ≡ []
  unfolding plan_removals
  removals_self desired [] h = refl
  removals_self desired (c ∷ cs) h =
      rw (h (key c) (keeps_first c cs), plan_removals)
        (removals_self desired cs (λ k l. h k (keeps_later k c cs l)))

  -- A table that holds the desired rows already gets an empty plan.
  pub plan_self :
      (same : R → R → Bool)
      → ((r : R) → same r r ≡ true)
      → (rows : List R) → Distinct rows
      → plan dec key same rows rows ≡ []
  unfolding plan
  plan_self same same_refl rows d =
      rw (writes_self same same_refl rows rows (λ k h. refl) d) (removals_self rows rows (λ k h. h))

  -- The same for rows that hold nothing but their key, repeated or not.
  pub plan_self_of_keys :
      (same : R → R → Bool)
      → ((a b : R) → same a b ≡ true)
      → (rows : List R) → plan dec key same rows rows ≡ []
  unfolding plan
  plan_self_of_keys same always rows =
      rw (writes_present rows rows (λ k h. h)) (removals_self rows rows (λ k h. h))
    where
      writes_present :
          (current rs : List R)
          → ((k : K) → keeps dec key rs k ≡ true → keeps dec key current k ≡ true)
          → plan_writes dec key same current rs ≡ []
      writes_present current [] h = refl
      writes_present current (r ∷ rs) h =
          let (s, found) = find_present (key r) current (h (key r) (keeps_first r rs)) in
          ground (arith, always s r, writes_present current rs (λ k l. h k (keeps_later k r rs l)))
