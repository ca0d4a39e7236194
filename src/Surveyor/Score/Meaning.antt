-- ===== src/Surveyor/Score/Meaning.antt =====
-- What the counts of a score mean, said of the snapshot's own lists and not of the indexes.
use mathlib.Core.List.{append-nil, append_assoc}
use landman.Base.{
  String, ◌≡◌, refl, sym, ap, ◌∙◌, Bool, true, false, not, ◌&&◌, ◌||◌, xor, Option, none, some,
}
use landman.Base.{List, [], ◌∷◌, ◌++◌, foldl, any, count, select, ℕ, ◌+◌, ℤ, pos, ltb_ℤ, ltb, arith}
use landman.Base.{◌==◌, if◌then◌else◌, Option-cases, select-append, inl, inr}
use landman.Base.Map.{Map, lookup, get_or}
use landman.Surveyor.Config.{is_stale}
use landman.Surveyor.Topology.{RigState, AgentState, WorktreeState, DesiredRig, ActualTopology}
use landman.Surveyor.Rules.{
  indexes, add_rig, add_agent, add_worktree, is_live, score_found, score_rig, score_polecat_pool,
}

-- The last row of a name.
abbrev pub last_rig : String → List RigState → Option RigState
last_rig n [] = none
last_rig n (r ∷ rs) = elim (last_rig n rs) [
  | some s ↦ some s
  | none ↦ if r.name == n then some r else none
]

or_else : Option RigState → Option RigState → Option RigState
or_else none o = o
or_else (some r) o = some r

lookup-add_rig :
    (rs : List RigState) (m : Map RigState) (n : String)
    → lookup n (foldl add_rig m rs) ≡ or_else (last_rig n rs) (lookup n m)
unfolding or_else add_rig
lookup-add_rig [] m n = refl
lookup-add_rig (r ∷ rs) m n = ground (arith, lookup-add_rig rs (add_rig m r) n)

abbrev of_rig : String → AgentState → Bool
of_rig n a = a.rig_name == n

get_or-add_one :
    (m : Map (List AgentState)) (a : AgentState) (n : String)
    → get_or [] n (add_agent m a) ≡ get_or [] n m ++ select (of_rig n) (a ∷ [])
unfolding add_agent
get_or-add_one m a n = ground (arith, append-nil (get_or [] n m))

get_or-add_agent :
    (agents : List AgentState) (m : Map (List AgentState)) (n : String)
    → get_or [] n (foldl add_agent m agents) ≡ get_or [] n m ++ select (of_rig n) agents
get_or-add_agent [] m n = rw append-nil
get_or-add_agent (a ∷ agents) m n =
    get_or-add_agent agents (add_agent m a) n
    ∙ ap (λ l. l ++ select (of_rig n) agents) (get_or-add_one m a n)
    ∙ append_assoc (get_or [] n m) (select (of_rig n) (a ∷ [])) (select (of_rig n) agents)
    ∙ ap (λ l. get_or [] n m ++ l) (sym (select-append (of_rig n) (a ∷ []) agents))

any-select :
    (p q : AgentState → Bool) (agents : List AgentState)
    → any p (select q agents) ≡ any (λ a. q a && p a) agents
any-select p q [] = refl
any-select p q (a ∷ agents) = ground (arith, any-select p q agents)

abbrev of_status : String → String → WorktreeState → Bool
of_status status n wt = wt.status == status && wt.rig_name == n

get_or-add_worktree :
    (status : String) (wts : List WorktreeState) (m : Map ℕ) (n : String)
    → get_or 0 n (foldl (add_worktree status) m wts) ≡ get_or 0 n m + count (of_status status n) wts
unfolding add_worktree
get_or-add_worktree status [] m n = omega arith
get_or-add_worktree status (wt ∷ wts) m n =
    ground (arith, get_or-add_worktree status wts (add_worktree status m wt) n)

-- A rig's agent of a role runs and was seen within the TTL.
abbrev pub has_live : String → String → ℤ → ℤ → List AgentState → Bool
has_live rig role ttl now agents = any (λ a. a.rig_name == rig && is_live role ttl now a) agents

-- The convergence of a rig, said of the snapshot: a disabled rig is disabled and stopped or draining,
-- an enabled one is enabled, running and fresh, and so is its mayor.
abbrev pub rig_converged : ActualTopology → ℤ → ℤ → DesiredRig → Bool
rig_converged actual ttl now dr = elim (last_rig dr.name actual.rigs) [
  | none ↦ false
  | some ar ↦
      if dr.enabled
      then ar.enabled
        && ar.status == "running"
        && not (is_stale ar.last_seen ttl now)
        && has_live dr.name "mayor" ttl now actual.agents
      else not ar.enabled && (ar.status == "stopped" || ar.status == "draining")
]

-- The convergence of a pool: no more active worktrees than allowed, no stale one, and a live
-- witness where one is wanted.
abbrev pub pool_converged : ActualTopology → ℤ → ℤ → DesiredRig → Bool
pool_converged actual ttl now dr =
    not (ltb_ℤ dr.max_polecats (pos (count (of_status "active" dr.name) actual.worktrees)))
    && not (any (of_status "stale" dr.name) actual.worktrees)
    && (not dr.witness_enabled || has_live dr.name "witness" ttl now actual.agents)

agents_of :
    (actual : ActualTopology) (n : String)
    → get_or [] n (indexes actual).agents ≡ select (of_rig n) actual.agents
unfolding indexes
agents_of actual n = get_or-add_agent actual.agents [] n

rig_of :
    (actual : ActualTopology) (n : String) → lookup n (indexes actual).rigs ≡ last_rig n actual.rigs
unfolding indexes or_else
rig_of actual n = lookup-add_rig actual.rigs [] n ∙ or_else_none (last_rig n actual.rigs)
  where
    or_else_none : (o : Option RigState) → or_else o none ≡ o
    or_else_none none = refl
    or_else_none (some r) = refl

-- The early returns of `scoreRig` as one condition.
guards :
    (wanted enabled running stale stopped mayor : Bool)
    → (if not wanted
        then not enabled && stopped
        else if not running || xor enabled wanted
        then false
        else if stale
        then false
        else mayor)
      ≡ (if wanted then enabled && running && not stale && mayor else not enabled && stopped)
unfolding xor
guards true true true stale stopped mayor = ground arith
guards true true false stale stopped mayor = refl
guards true false true stale stopped mayor = refl
guards true false false stale stopped mayor = refl
guards false enabled running stale stopped mayor = refl

score_found-converged :
    (dr : DesiredRig) (ar : RigState) (agents : List AgentState) (ttl now : ℤ)
    → score_found dr ar agents ttl now ≡ (
        if dr.enabled
        then ar.enabled
          && ar.status == "running"
          && not (is_stale ar.last_seen ttl now)
          && any (is_live "mayor" ttl now) agents
        else not ar.enabled && (ar.status == "stopped" || ar.status == "draining"))
unfolding score_found
score_found-converged dr ar agents ttl now =
    guards dr.enabled ar.enabled (ar.status == "running") (is_stale ar.last_seen ttl now)
      (ar.status == "stopped" || ar.status == "draining") (any (is_live "mayor" ttl now) agents)

pub score_rig-converged :
    (actual : ActualTopology) (ttl now : ℤ) (dr : DesiredRig)
    → score_rig dr (indexes actual).rigs (indexes actual).agents ttl now
      ≡ rig_converged actual ttl now dr
unfolding score_rig
score_rig-converged actual ttl now dr = elim (Option-cases (last_rig dr.name actual.rigs)) [
  | inl e ↦ ground (arith, rig_of actual dr.name)
  | inr (ar, e) ↦ ground (
    arith,
    rig_of actual dr.name,
    agents_of actual dr.name,
    score_found-converged dr ar (select (of_rig dr.name) actual.agents) ttl now,
    any-select (is_live "mayor" ttl now) (of_rig dr.name) actual.agents,
  )
]

active_of :
    (actual : ActualTopology) (n : String)
    → get_or 0 n (indexes actual).active ≡ count (of_status "active" n) actual.worktrees
unfolding indexes
active_of actual n = get_or-add_worktree "active" actual.worktrees [] n ∙ omega arith

stale_of :
    (actual : ActualTopology) (n : String)
    → get_or 0 n (indexes actual).stale ≡ count (of_status "stale" n) actual.worktrees
unfolding indexes
stale_of actual n = get_or-add_worktree "stale" actual.worktrees [] n ∙ omega arith

any-count : (p : WorktreeState → Bool) (wts : List WorktreeState) → ltb 0 (count p wts) ≡ any p wts
any-count p [] = refl
any-count p (wt ∷ wts) = ground (arith, any-count p wts)

pool_guards :
    (over stale witness live : Bool)
    → (if over then false else if stale then false else if witness then live else true)
      ≡ (not over && not stale && (not witness || live))
pool_guards over stale witness live = ground arith

pub score_polecat_pool-converged :
    (actual : ActualTopology) (ttl now : ℤ) (dr : DesiredRig)
    → score_polecat_pool dr (indexes actual) ttl now ≡ pool_converged actual ttl now dr
unfolding score_polecat_pool
score_polecat_pool-converged actual ttl now dr =
    rw
      (
        active_of actual dr.name,
        stale_of actual dr.name,
        agents_of actual dr.name,
        any-count (of_status "stale" dr.name) actual.worktrees,
        any-select (is_live "witness" ttl now) (of_rig dr.name) actual.agents,
      )
      (pool_guards
        (ltb_ℤ dr.max_polecats (pos (count (of_status "active" dr.name) actual.worktrees))) _
        dr.witness_enabled _)
