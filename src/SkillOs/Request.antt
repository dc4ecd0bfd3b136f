-- ===== src/SkillOs/Request.antt =====
-- Reading a request: `_contains`, `_publication_channels` and the intents of skill_os.py. What the
-- compiled patterns find in a text, `str.casefold` and SHA-256 are the record `TextTools`.
pub mod Envelope
use soloscale_ai_os.Prelude.{
  ℕ, zero, suc, Bool, true, false, not, ◌&&◌, ◌||◌, Option, none, some, List, [], ◌∷◌, ◌++◌, any,
  filter_by, String, contains, dedupe, last?, ltb, length, Result, ok, err, ◌>>=◌, ◌>>◌, raise_if,
  if◌then◌else◌,
}
use soloscale_ai_os.Prelude.Text.{Text, codes, strip, is_empty, occurs_in, squeeze}
use soloscale_ai_os.SkillOs.Models.{
  SkillError, validation_error, blank_request, oversized_request, SkillTaskEnvelope,
  validate_envelope,
}

-- a match of `_PUBLICATION_ACTION_PATTERN`
pub record ActionMatch : Type 0 where
  pub start : ℕ
  pub negated : Bool

pub record TextTools : Type 0 where
  pub casefold : Text → Text
  pub sha256 : Text → String
  -- the matches of `_PUBLICATION_ACTION_PATTERN` in their order
  pub find_actions : Text → List ActionMatch
  -- the starts of the mentions of LinkedIn, and of X
  pub find_linkedin : Text → List ℕ
  pub find_x : Text → List ℕ
  -- whether `_IMMEDIATE_CHANNEL_NEGATION` is found
  pub negates_channel : Text → Bool
  -- the group of the match that looks for a stop
  pub find_stop : Text → Option Text

-- `_contains`
unfoldable pub contains_any : Text → List Text → Bool
contains_any text needles = any (λ needle. occurs_in needle text) needles

abbrev pub general_publication_stops : List Text
general_publication_stops =
    codes "stop before publication"
    ∷ codes "stop before publishing"
    ∷ codes "without publishing"
    ∷ codes "no publication"
    ∷ codes "发布前停止"
    ∷ []

-- `text[:n]`
abbrev pub take : ℕ → Text → Text
take zero s = []
take (suc n) [] = []
take (suc n) (c ∷ s) = c ∷ take n s

-- what one mention of a channel says of it
unfoldable pub mention_state : TextTools → Text → List ActionMatch → ℕ → Option Bool
mention_state tools normalized actions start =
    if tools.negates_channel (take start normalized)
    then some false
    else elim (last? (filter_by (λ (a : ActionMatch). ltb a.start start) actions)) [
      | none ↦ none
      | some a ↦ some (not a.negated)
    ]

-- the members of the set `states`, with repetitions
unfoldable pub channel_states : TextTools → Text → List ActionMatch → List ℕ → List Bool
unfolding mention_state
channel_states tools normalized actions [] = []
channel_states tools normalized actions (start ∷ starts) =
    let rest = channel_states tools normalized actions starts in
    elim (mention_state tools normalized actions start) [ none ↦ rest | some state ↦ state ∷ rest ]

abbrev pub has_wanted : List Bool → Bool
has_wanted = any (λ b. b)

-- `len(states) > 1`
abbrev pub is_contradictory : List Bool → Bool
is_contradictory states = any (λ b. b) states && any not states

abbrev is_nonempty {ℓ} : {A : Type ℓ} → List A → Bool
is_nonempty [] = false
is_nonempty (x ∷ xs) = true

pub record Channels : Type 0 where
  pub linkedin : Bool
  pub x_channel : Bool
  pub ambiguous : Bool

unfoldable pub publication_channels : TextTools → Text → Channels
unfolding contains_any channel_states
publication_channels tools text =
    let normalized = squeeze (tools.casefold text) in
    let actions = tools.find_actions normalized in
    let linkedin_states =
      channel_states tools normalized actions (tools.find_linkedin normalized) in
    let x_states = channel_states tools normalized actions (tools.find_x normalized) in
    let recognized = is_nonempty linkedin_states || is_nonempty x_states in
    let positive = any (λ (a : ActionMatch). not a.negated) actions in
    if contains_any normalized general_publication_stops
    then record { linkedin = false; x_channel = false; ambiguous = false }
    else record {
      linkedin = has_wanted linkedin_states;
      x_channel = has_wanted x_states;
      ambiguous =
          is_contradictory linkedin_states
          || is_contradictory x_states
          || (positive && not recognized);
    }

abbrev pub is_requested : Channels → Bool
is_requested c = c.linkedin || c.x_channel || c.ambiguous

-- a list that is extended under a condition
abbrev pub when {ℓ} : {A : Type ℓ} → Bool → List A → List A
when test xs = if test then xs else []

unfoldable pub deployment_intent : Text → Bool
unfolding contains_any
deployment_intent lowered =
    contains_any lowered (codes "deploy" ∷ codes "deployment" ∷ codes "部署" ∷ [])
    && not (
        contains_any lowered (
          codes "stop before deployment"
          ∷ codes "do not deploy"
          ∷ codes "no deployment"
          ∷ codes "不要部署"
          ∷ []))

unfoldable pub application_intent : Text → Bool
unfolding contains_any
application_intent lowered =
    contains_any lowered (
      codes "submit application"
      ∷ codes "apply for"
      ∷ codes "application submission"
      ∷ codes "投递"
      ∷ [])
    && not (
        contains_any lowered (
          codes "stop before application submission"
          ∷ codes "do not submit"
          ∷ codes "no application submission"
          ∷ codes "不要投递"
          ∷ []))

unfoldable pub paid_intent : Text → Bool
unfolding contains_any
paid_intent lowered =
    contains_any lowered
      (codes "paid api" ∷ codes "paid generation" ∷ codes "付费 api" ∷ codes "付费调用" ∷ [])
    && not
        (contains_any lowered (codes "no paid api" ∷ codes "do not use paid" ∷ codes "不要付费" ∷ []))
