-- ===== src/Tests/Samples.antt =====
-- Sample data of the tests: floats whose bits are the number, and a manifest with a role chain.
use landman.Base.{
  ◌<>◌, ℕ, ◌+◌, ◌*◌, ◌^◌, ◌/◌, ltb, leb, eqb, ℤ, pos, negsuc, String, true, false, none, some, List,
  [], ◌∷◌,
}
use landman.Base.Float.{Float64, FloatOps}
use landman.Manifest.Types.{TownManifest, RigSpec, CostPolicy, RoleSpec}

abbrev pub float : ℕ → Float64
float n = record { bits = n }

abbrev pub float_of : ℤ → Float64
float_of (pos n) = float n
float_of (negsuc n) = float 0

abbrev pub power_of : ℤ → Float64
power_of (pos n) = float (2 ^ n)
power_of (negsuc n) = float 0

abbrev pub sample_ops : FloatOps
sample_ops = record {
  of_int = float_of;
  to_int = λ x. pos x.bits;
  add = λ x y. float (x.bits + y.bits);
  mul = λ x y. float (x.bits * y.bits);
  div = λ x y. float (x.bits / y.bits);
  pow2 = power_of;
  lt = λ x y. ltb x.bits y.bits;
  le = λ x y. leb x.bits y.bits;
  eq = λ x y. eqb x.bits y.bits;
}

abbrev pub as_is : String → String
as_is s = s

abbrev pub no_cost : CostPolicy
no_cost = record {
  daily_budget_usd = none;
  daily_budget_messages = none;
  daily_budget_tokens = none;
  warn_at_pct = none;
}

abbrev pub messages : ℕ → CostPolicy
messages n = record no_cost { daily_budget_messages = some (pos n) }

abbrev pub role : String → String → RoleSpec
role name base = record {
  name = name;
  description = "";
  scope = "rig";
  lifespan = "ephemeral";
  identity = record { claude_md = "/" <> name; extends = base; model = "" };
  trigger = record { type = "manual"; schedule = ""; event = "" };
  supervision = record { parent = "mayor"; reports_to = "" };
  resources = record { max_instances = pos 1 };
}

abbrev pub rig : String → CostPolicy → List String → RigSpec
rig name cost roles = record {
  name = name;
  repo = "/src/" <> name;
  branch = "main";
  enabled = true;
  agents = record {
    mayor = true;
    witness = true;
    refinery = false;
    deacon = false;
    max_polecats = pos 2;
    mayor_model = "";
    polecat_model = "";
    mayor_claude_md = "";
    roles = roles;
  };
  formulas = record { name = "nightly"; schedule = "0 2 * * *" } ∷ [];
  cost = cost;
  role = [];
}

abbrev pub town : List RigSpec → List RoleSpec → TownManifest
town rigs roles = record {
  version = "1";
  town = record {
    name = "t";
    home = "/gt";
    dolt_port = pos 3306;
    agents = record {
      surveyor = true;
      surveyor_model = "";
      surveyor_claude_md = "";
      surveyor_convergence_threshold = float 1;
      surveyor_retry_count = pos 0;
    };
    cost = record { patrol_interval_seconds = pos 0 };
  };
  defaults = record {
    mayor_model = "m";
    polecat_model = "p";
    max_polecats = pos 3;
    cost = messages 500;
  };
  secrets = record { anthropic_api_key = ""; github_token = ""; file = "" };
  includes = [];
  rigs = rigs;
  roles = roles;
}

-- The role `deep` extends `mid`, which extends `base`.
abbrev pub base : RoleSpec
base = role "base" ""

abbrev pub mid : RoleSpec
mid = role "mid" "base"

abbrev pub deep : RoleSpec
deep = role "deep" "mid"

abbrev pub sample : TownManifest
sample =
    town (rig "alpha" (messages 100) ("deep" ∷ []) ∷ rig "beta" no_cost [] ∷ [])
      (base ∷ mid ∷ deep ∷ [])
