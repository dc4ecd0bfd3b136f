-- ===== src/SkillOs/Route/Intents.antt =====
-- Which Skills `route_skill_request` asks for, which of them is the primary one, and why.
use soloscale_ai_os.Prelude.{
  Bool, not, ◌&&◌, ◌||◌, List, [], ◌∷◌, ◌++◌, map, String, str_eq, Result, ok, ◌>>◌, raise_if,
  if◌then◌else◌,
}
use soloscale_ai_os.Prelude.Text.{Text, codes}
use soloscale_ai_os.SkillOs.Models.{SkillError, ambiguous_channel}
use soloscale_ai_os.SkillOs.Request.{TextTools, contains_any, publication_channels, when}

-- names with the reasons for them
abbrev pub Reasons : Type 0
Reasons = List (String × String)

-- Each branch of the source appends a name to `explicit_names` where it sets the name's entry of
-- `reasons`, so one list is both.
pub record Choice : Type 0 where
  pub reasons : Reasons
  pub primary_name : String

abbrev pub explicit_names : Choice → List String
explicit_names choice = map (λ (r : String × String). r.0) choice.reasons

-- `reasons[name]` after `setdefault`
unfoldable pub reason_of : Reasons → String → String
reason_of [] name = "Required registered dependency for the selected workflow."
reason_of (r ∷ rs) name = let rest = reason_of rs name in if str_eq r.0 name then r.1 else rest

abbrev pub intake : String
intake = "task-intake-and-routing"

abbrev intake_reason : String × String
intake_reason = (intake, "Normalize the operator request and preserve the selected Skill versions.")

-- what a request is found to ask for
pub record Intent : Type 0 where
  pub publish_linkedin : Bool
  pub publish_x : Bool
  pub ambiguous_publication : Bool
  pub resume : Bool
  pub editorial : Bool
  pub evidence : Bool
  pub visual : Bool
  pub learning : Bool
  pub distillation : Bool

abbrev pub is_publication : Intent → Bool
is_publication i = i.publish_linkedin || i.publish_x || i.ambiguous_publication

unfoldable pub intent_of : TextTools → Text → Intent
unfolding contains_any publication_channels
intent_of tools lowered =
    let channels = publication_channels tools lowered in
    record {
      publish_linkedin = channels.linkedin;
      publish_x = channels.x_channel;
      ambiguous_publication = channels.ambiguous;
      resume = contains_any lowered (
          codes "resume"
          ∷ codes "job description"
          ∷ codes "candidate profile"
          ∷ codes "简历"
          ∷ codes "jd"
          ∷ []);
      editorial = contains_any lowered (
          codes "canonical story"
          ∷ codes "linkedin post"
          ∷ codes "linkedin draft"
          ∷ codes "x thread"
          ∷ codes "editorial"
          ∷ codes "fresh-review"
          ∷ codes "revise"
          ∷ codes "长帖"
          ∷ codes "内容包"
          ∷ []);
      evidence =
          contains_any lowered
            (codes "evidence" ∷ codes "latest engineering" ∷ codes "最新证据" ∷ codes "工程证据" ∷ []);
      visual = contains_any lowered (
          codes "diagram"
          ∷ codes "visual"
          ∷ codes "image"
          ∷ codes "配图"
          ∷ codes "架构图"
          ∷ codes "流程图"
          ∷ []);
      learning = contains_any lowered (
          codes "learning gap"
          ∷ codes "learning gaps"
          ∷ codes "learning packet"
          ∷ codes "学习缺口"
          ∷ codes "学习包"
          ∷ []);
      distillation = contains_any lowered (
          codes "distill skill"
          ∷ codes "skill improvement"
          ∷ codes "skill update"
          ∷ codes "沉淀 skill"
          ∷ []);
    }

-- the branch for a publication
unfoldable pub choose_publication : Intent → Result SkillError Choice
choose_publication i =
    raise_if (i.ambiguous_publication && not (i.publish_linkedin || i.publish_x)) ambiguous_channel
    >> ok (record {
      reasons =
          intake_reason ∷ []
          ++ when i.editorial (
              (
                "editorial-package",
                "The request also requires a reviewed editorial package before publication.",
              )
              ∷ [])
          ++ when i.visual (
              ("visual-storytelling", "The request also requires a matched public-safe visual.")
              ∷ [])
          ++ when i.publish_linkedin (
              ("linkedin-publishing", "The request asks to publish an approved LinkedIn artifact.")
              ∷ [])
          ++ when i.publish_x
              (("x-thread-publishing", "The request asks to publish an approved X Thread.") ∷ []);
      primary_name =
          if i.publish_linkedin
          then "linkedin-publishing"
          else if i.publish_x
          then "x-thread-publishing"
          else intake;
    })

-- the other branches, in their order
unfoldable pub choose_other : Intent → Choice
choose_other i =
    if i.resume
    then record {
      reasons =
          intake_reason
          ∷ (
            "resume-tailoring", "The Career request requires the Candidate Profile trust boundary.",
          )
          ∷ when i.learning (
              (
                "learning-gap-to-packet",
                "The requested Learning Gaps require a separate mastery-safe packet.",
              )
              ∷ []);
      primary_name = "resume-tailoring";
    }
    else if i.editorial || i.visual
    then record {
      reasons =
          intake_reason ∷ []
          ++ when i.editorial (
              (
                "editorial-package",
                "The request requires Writer, fresh Reviewer, and controlled Reviser provenance.",
              )
              ∷ [])
          ++ when i.visual (
              ("visual-storytelling", "The requested visual must be matched to the reviewed story.")
              ∷ []);
      primary_name = if i.editorial then "editorial-package" else "visual-storytelling";
    }
    else if i.learning
    then record {
      reasons =
          intake_reason
          ∷ (
            "learning-gap-to-packet", "The request requires a mastery-safe staged learning packet.",
          )
          ∷ [];
      primary_name = "learning-gap-to-packet";
    }
    else if i.distillation
    then record {
      reasons =
          intake_reason
          ∷ ("skill-distillation", "The request asks for an auditable Skill change decision.")
          ∷ [];
      primary_name = "skill-distillation";
    }
    else if i.evidence
    then record {
      reasons =
          intake_reason
          ∷ (
            "evidence-refresh-and-bundle",
            "The request asks for a bounded evidence refresh or bundle.",
          )
          ∷ [];
      primary_name = "evidence-refresh-and-bundle";
    }
    else record { reasons = intake_reason ∷ []; primary_name = intake }

unfoldable pub choose_for : Intent → Result SkillError Choice
unfolding choose_publication choose_other
choose_for i = if is_publication i then choose_publication i else ok (choose_other i)

unfoldable pub choose_skills : TextTools → Text → Result SkillError Choice
unfolding intent_of choose_for
choose_skills tools lowered = choose_for (intent_of tools lowered)
