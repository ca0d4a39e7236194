-- ===== src/Operator/Admission.antt =====
-- Admission requests and responses (pkg/k8s/operator/webhooks). Decoding, encoding, the regular
-- expression of a schedule, `%q`, and the API server's answers are parameters.
use landman.Base.{String, ◌<>◌, ℕ, Result, ok, err}
use landman.Operator.Types.{Fetch, found, not_found, failed}

pub data Operation : Type 0 where
  create update : Operation

pub record Request : Type 0 where
  pub operation : Operation
  pub object : String
  pub old_object : String

pub data Response : Type 0 where
  allowed : Response
  denied : String → Response
  errored : ℕ → String → Response
  -- `admission.PatchResponseFromRaw(original, current)`
  patched : String → String → Response

abbrev pub bad_request : ℕ
bad_request = 400

abbrev pub internal_server_error : ℕ
internal_server_error = 500

-- `v.decoder.DecodeRaw(req.Object, x)`, with the response to an error.
abbrev pub decode_object {ℓ} :
    {A : Type ℓ} → (String → Result String A) → Request → Result Response A
decode_object decode req = elim (decode req.object) [
  | ok a ↦ ok a
  | err e ↦ err (errored bad_request e)
]

-- `v.decoder.DecodeRaw(req.OldObject, old)`, likewise.
abbrev pub decode_old {ℓ} : {A : Type ℓ} → (String → Result String A) → Request → Result Response A
decode_old decode req = elim (decode req.old_object) [
  | ok a ↦ ok a
  | err e ↦ err (errored bad_request ("decode oldObject: " <> e))
]

-- `v.Get`, with the denial of an object that is not there.
abbrev pub get_or_deny {ℓ} : {A : Type ℓ} → Fetch A → String → String → Result Response A
get_or_deny (found a) reason context = ok a
get_or_deny (not_found e) reason context = err (denied reason)
get_or_deny (failed e) reason context = err (errored internal_server_error (context <> e))

-- The checks of a handler, and what it answers when none of them returns early.
abbrev pub answer : Result Response (Unit {0}) → Response
answer (ok _) = allowed
answer (err r) = r
