-- ===== src/SkillOs/Request/Envelope.antt =====
-- `_normalize_request`: the task envelope of a request.
use soloscale_ai_os.Prelude.{
  not, ◌||◌, Option, none, some, List, [], ◌∷◌, ◌++◌, String, contains, dedupe, ltb, length, Result,
  ok, ◌>>◌, raise_if, if◌then◌else◌,
}
use soloscale_ai_os.Prelude.Text.{Text, codes, strip, is_empty, squeeze}
use soloscale_ai_os.SkillOs.Models.{
  SkillError, validation_error, blank_request, oversized_request, SkillTaskEnvelope,
  validate_envelope,
}
use soloscale_ai_os.SkillOs.Request.{
  TextTools, contains_any, general_publication_stops, publication_channels, is_requested, when,
  deployment_intent, application_intent, paid_intent,
}

unfoldable pub artifacts_in : Text → List String
unfolding contains_any
artifacts_in lowered =
    when (contains_any lowered (codes "canonical story" ∷ codes "canonical narrative" ∷ []))
      ("Canonical Story" ∷ [])
    ++ when (contains_any lowered (codes "linkedin" ∷ [])) ("LinkedIn artifact" ∷ [])
    ++ when
        (contains_any lowered (codes "x thread" ∷ codes "thread" ∷ codes "x 帖" ∷ codes "推文串" ∷ []))
        ("X Thread" ∷ [])
    ++ when
        (contains_any lowered
          (codes "diagram" ∷ codes "visual" ∷ codes "image" ∷ codes "配图" ∷ codes "图" ∷ []))
        ("Matched visual" ∷ [])

abbrev artifacts_of_skills : List String → List String
artifacts_of_skills selected =
    when (contains "resume-tailoring" selected)
      ("Tailored resume" ∷ "Evidence map" ∷ "Unsupported requirements" ∷ [])
    ++ when (contains "linkedin-publishing" selected) ("Exact LinkedIn publication preview" ∷ [])
    ++ when (contains "x-thread-publishing" selected) ("Exact X Thread publication preview" ∷ [])
    ++ when (contains "learning-gap-to-packet" selected) ("Learning packet" ∷ [])

-- `or` with a list of one default
abbrev or_only : List String → String → List String
or_only [] d = d ∷ []
or_only (x ∷ xs) d = x ∷ xs

unfoldable pub requested_artifacts : Text → List String → List String
unfolding artifacts_in
requested_artifacts lowered selected =
    dedupe (or_only (artifacts_in lowered ++ artifacts_of_skills selected) "Skill route")

-- the workstream, and the outcome that is wanted
unfoldable pub workstream : List String → String × String
workstream selected =
    if contains "resume-tailoring" selected
    then (
      "Career Studio", "A human-reviewable tailored resume package exists without invented claims.",
    )
    else if contains "linkedin-publishing" selected || contains "x-thread-publishing" selected
    then ("Publishing", "Exact approved artifacts are ready at the required public PUBLISH gate.")
    else if contains "editorial-package" selected
    then (
      "Content Studio", "A private evidence-backed editorial package is ready for human review.",
    )
    else if contains "evidence-refresh-and-bundle" selected
    then ("EvidenceHub", "A bounded private EvidenceBundle is available to the selected workflow.")
    else if contains "skill-distillation" selected
    then ("Skill OS", "An auditable Skill change decision exists without automatic promotion.")
    else (
      "SoloScale orchestration", "A concise bounded Skill route exists for the requested outcome.",
    )

abbrev pub approved_profile : String
approved_profile = "Operator-approved Candidate Profile"

unfoldable pub available_inputs : Text → List String
unfolding contains_any
available_inputs lowered =
    "Operator high-level request" ∷ []
    ++ when (contains_any lowered (codes "jd" ∷ codes "job description" ∷ codes "职位描述" ∷ []))
        ("Job Description" ∷ [])
    ++ (if contains_any lowered (
          codes "approved profile"
          ∷ codes "approved candidate profile"
          ∷ codes "operator-approved candidate profile"
          ∷ codes "已批准候选人资料"
          ∷ [])
        then approved_profile ∷ []
        else when
            (contains_any lowered
              (codes "profile" ∷ codes "candidate profile" ∷ codes "候选人资料" ∷ []))
            ("Candidate Profile (approval not established)" ∷ []))
    ++ when
        (contains_any lowered
          (codes "approved" ∷ codes "final package" ∷ codes "approved day" ∷ []))
        ("Approved artifact package" ∷ [])
    ++ when
        (contains_any lowered (
          codes "latest evidence"
          ∷ codes "engineering evidence"
          ∷ codes "evidence"
          ∷ codes "证据"
          ∷ []))
        ("Configured local evidence" ∷ [])

abbrev evidence_requirements : List String → List String
evidence_requirements selected =
    when (contains "evidence-refresh-and-bundle" selected)
      ("Use configured local sources only" ∷ "Preserve stable IDs and truth boundaries" ∷ [])
    ++ when (contains "resume-tailoring" selected)
        ("Resume claims come only from the approved Candidate Profile" ∷ [])

-- `f"Stop {group.strip()}."`, or the general condition
unfoldable pub completion : Option Text → Text
completion none = codes "Produce the requested artifacts and required private Run Receipt."
completion (some group) = codes "Stop " ++ strip group ++ codes "."

-- the envelope before its validator
unfoldable pub envelope_of : TextTools → String → Text → Text → List String → SkillTaskEnvelope
unfolding publication_channels
envelope_of tools task_id request_text request selected =
    let lowered = tools.casefold request in
    let publication = is_requested (publication_channels tools lowered) in
    let stops = contains_any lowered general_publication_stops in
    let stream = workstream selected in
    record {
      task_id = task_id;
      request_sha256 = tools.sha256 request_text;
      objective = request;
      desired_user_or_external_outcome = stream.1;
      requested_artifacts = requested_artifacts lowered selected;
      project_or_workstream = stream.0;
      available_inputs = available_inputs lowered;
      evidence_requirements = evidence_requirements selected;
      constraints =
          "Use exact registered Skill versions" ∷ "Keep invocation state private" ∷ []
          ++ when stops ("Stop before public publication" ∷ [])
          ++ when publication ("Stop at the explicit PUBLISH gate before any platform call" ∷ [])
          ++ when (paid_intent lowered) ("Require approval before paid API usage" ∷ []);
      publication_intent = publication;
      deployment_intent = deployment_intent lowered;
      application_submission_intent = application_intent lowered;
      paid_api_intent = paid_intent lowered;
      cost_boundary =
          if paid_intent lowered
          then "Human approval before paid API usage"
          else "No paid call inferred";
      privacy_boundary =
          "Persist under the private SoloScale data root"
          ∷ "Do not expose raw evidence bodies in tracked Skill artifacts" ∷ [];
      completion_condition = completion (tools.find_stop lowered);
      known_non_goals =
          "Do not redesign underlying product modules" ∷ []
          ++ when stops ("No platform publication" ∷ []);
    }

unfoldable pub normalize_request :
    TextTools → String → Text → List String → Result SkillError SkillTaskEnvelope
unfolding envelope_of
normalize_request tools task_id request_text selected = do
  let request = squeeze request_text
  raise_if (is_empty request) blank_request
  raise_if (ltb 4000 (length request)) oversized_request
  let task = envelope_of tools task_id request_text request selected
  raise_if (not (validate_envelope task)) validation_error
  ok task
