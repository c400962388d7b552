-- ===== src/Jobs/Payload.antt =====
-- The payload of a job (packages/repository-jobs/src/job.ts), and the job that is added for it
-- (enqueue.ts, `createGraphileRepositoryJobQueue`). A value of the queue is an object, by its own
-- properties, or anything else; of a property only a string's content matters.
pub mod Laws
use stack_lens.Base.Tests.{
  ℕ, Bool, true, false, not, ◌&&◌, ◌||◌, Option, none, some, List, [], ◌∷◌, ◌++◌, ltb, ◌==◌,
  if◌then◌else◌,
}
use stack_lens.Base.Lists.{length, all}
use stack_lens.Base.Text.{Text, text, ◌===◌}
use stack_lens.Base.Table.{Table, lookup, mem, keys}

abbrev pub task_identifier : Text
task_identifier = text "repository_analysis"

abbrev pub max_attempts : ℕ
max_attempts = 5

pub record Payload : Type 0 where
  pub analysis_id : Text
  pub repository_url : Text
  pub ref : Option Text

pub data Property : Type 0 where
  undefined not_string : Property
  string : Text → Property

pub data JobValue : Type 0 where
  not_object : JobValue
  object : Table Property → JobValue

pub data PayloadError : Type 0 where
  not_an_object unsupported_field invalid_analysis_id : PayloadError
  invalid_repository_url invalid_ref : PayloadError

pub data Parsed (A : Type 0) : Type 0 where
  parsed : A → Parsed A
  malformed : PayloadError → Parsed A

infixl 5 ◌>>=◌ ◌>>◌
abbrev pub ◌>>=◌ : {A B : Type 0} → Parsed A → (A → Parsed B) → Parsed B
parsed a >>= f = f a
malformed e >>= f = malformed e

abbrev pub ◌>>◌ : {B : Type 0} → Parsed (Unit {0}) → Parsed B → Parsed B
m >> k = m >>= λ _. k

abbrev ensure : Bool → PayloadError → Parsed (Unit {0})
ensure true e = parsed tt
ensure false e = malformed e

abbrev pub allowed_keys : List Text
allowed_keys = text "analysisId" ∷ text "repositoryUrl" ∷ text "ref" ∷ []

-- `Reflect.get`
abbrev pub property : Text → Table Property → Property
property k fields = elim (lookup k fields) [ none ↦ undefined | some p ↦ p ]

-- A non-empty string of at most `limit` code units.
abbrev pub is_within : ℕ → Text → Bool
is_within limit s = not (length s == 0) && not (ltb limit (length s))

abbrev pub bounded : ℕ → PayloadError → Property → Parsed Text
bounded limit e (string s) = if is_within limit s then parsed s else malformed e
bounded limit e undefined = malformed e
bounded limit e not_string = malformed e

abbrev pub bounded_ref : Property → Parsed (Option Text)
bounded_ref undefined = parsed none
bounded_ref (string s) = if is_within 500 s then parsed (some s) else malformed invalid_ref
bounded_ref not_string = malformed invalid_ref

unfoldable pub parse_repository_analysis_job_payload : JobValue → Parsed Payload
unfolding lookup ◌===◌
parse_repository_analysis_job_payload not_object = malformed not_an_object
parse_repository_analysis_job_payload (object fields) = do
  ensure (all (λ k. mem k allowed_keys) (keys fields)) unsupported_field
  id ← bounded 200 invalid_analysis_id (property (text "analysisId") fields)
  url ← bounded 2000 invalid_repository_url (property (text "repositoryUrl") fields)
  ref ← bounded_ref (property (text "ref") fields)
  parsed (record { analysis_id = id; repository_url = url; ref = ref })

abbrev ref_field : Option Text → Table Property
ref_field none = []
ref_field (some r) = (text "ref", string r) ∷ []

-- `{ ...payload }`
abbrev pub payload_object : Payload → JobValue
payload_object p = object (
    (text "analysisId", string p.analysis_id)
    ∷ (text "repositoryUrl", string p.repository_url)
    ∷ ref_field p.ref)

-- The mode of a job's key; a call without one replaces the job that has its key.
pub data JobKeyMode : Type 0 where
  unsafe_dedupe : JobKeyMode

pub record AddedJob : Type 0 where
  pub identifier : Text
  pub payload : JobValue
  pub job_key : Text
  pub job_key_mode : Option JobKeyMode
  pub attempts_allowed : ℕ

-- The call of `addJob`.
unfoldable pub job_for : Payload → AddedJob
job_for p = record {
  identifier = task_identifier;
  payload = payload_object p;
  job_key = text "repository-analysis:" ++ p.analysis_id;
  job_key_mode = some unsafe_dedupe;
  attempts_allowed = max_attempts;
}
