-- ===== src/Jobs/Payload/Laws.antt =====
-- The payload that is enqueued is the payload that the worker reads.
use stack_lens.Base.Tests.{◌≡◌, Bool, true, Option, none, some, arith}
use stack_lens.Base.Text.{Text}
use stack_lens.Jobs.Payload.{
  Payload, parsed, JobValue, object, not_object, is_within, job_for, payload_object,
  parse_repository_analysis_job_payload,
}

-- What the worker accepts as a payload.
abbrev pub ref_is_within : Option Text → Bool
ref_is_within none = true
ref_is_within (some r) = is_within 500 r

abbrev pub IsWithin : Payload → Type 0
IsWithin p =
    (is_within 200 p.analysis_id ≡ true)
    × (is_within 2000 p.repository_url ≡ true)
    × (ref_is_within p.ref ≡ true)

-- The payload of an added job is read back as it was, if its texts are within the limits.
pub parse-job_for :
    (p : Payload)
    → IsWithin p
    → parse_repository_analysis_job_payload (job_for p).payload ≡ parsed p
unfolding parse_repository_analysis_job_payload job_for
parse-job_for p h = with_ref p.ref h.2
  where
    with_ref :
        (r : Option Text)
        → ref_is_within r ≡ true
        → parse_repository_analysis_job_payload (payload_object (record p { ref = r }))
          ≡ parsed (record p { ref = r })
    with_ref none k = ground (arith, h.0, h.1)
    with_ref (some r) k = ground (arith, h.0, h.1)

-- Whatever value the queue hands over, a payload that is read from it is within the limits.
parse-IsWithin :
    (v : JobValue) (p : Payload) → parse_repository_analysis_job_payload v ≡ parsed p → IsWithin p
unfolding parse_repository_analysis_job_payload
parse-IsWithin not_object p e = cc
parse-IsWithin (object fields) p e = ground arith
