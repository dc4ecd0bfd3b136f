-- ===== src/SkillOs/Route/Chosen.antt =====
-- What every choice of Skills has: the primary Skill is asked for, the names are different Skills of the
-- canonical registry, and a publication asks for a Skill that publishes. Each is a test that is run on
-- all combinations of what a request can ask for.
use soloscale_ai_os.Prelude.{
  ◌≡◌, refl, Bool, true, not, ◌&&◌, ◌||◌, every, every_sound, contains, subset, is_unique, Result,
  ok, err, arith, ap, sym, ◌∙◌, Bool-cases, inl, inr,
}
use soloscale_ai_os.SkillOs.Models.{SkillError, skill_order}
use soloscale_ai_os.SkillOs.Route.Intents.{
  Intent, Choice, explicit_names, is_publication, choose_publication, choose_other, choose_for,
}

unfoldable pub is_sound_choice : Choice → Bool
is_sound_choice c =
    contains c.primary_name (explicit_names c)
    && is_unique (explicit_names c)
    && subset (explicit_names c) skill_order

abbrev publishes : Choice → Bool
publishes c =
    contains "linkedin-publishing" (explicit_names c)
    || contains "x-thread-publishing" (explicit_names c)

abbrev on_choice : (Choice → Bool) → Result SkillError Choice → Bool
on_choice p (ok c) = p c
on_choice p (err e) = true

abbrev intent : (li x am re ed ev vi le di : Bool) → Intent
intent li x am re ed ev vi le di = record {
  publish_linkedin = li;
  publish_x = x;
  ambiguous_publication = am;
  resume = re;
  editorial = ed;
  evidence = ev;
  visual = vi;
  learning = le;
  distillation = di;
}

module _ (f : Bool → Bool → Bool → Bool → Bool → Bool) where
  abbrev every_5 : Bool
  every_5 = every λ a. every λ b. every λ c. every λ d. every λ e. f a b c d e

  every_5_sound : every_5 ≡ true → (a b c d e : Bool) → f a b c d e ≡ true
  every_5_sound h a b c d e =
      every_sound (f a b c d)
        (every_sound (λ d. every λ e. f a b c d e)
          (every_sound (λ c. every λ d. every λ e. f a b c d e)
            (every_sound (λ b. every λ c. every λ d. every λ e. f a b c d e)
              (every_sound (λ a. every λ b. every λ c. every λ d. every λ e. f a b c d e) h a) b)
            c)
          d)
        e

-- the intent with other answers to the questions that the branches without a publication read
abbrev reread : Intent → (re ed ev vi le di : Bool) → Intent
reread i re ed ev vi le di =
    intent i.publish_linkedin i.publish_x i.ambiguous_publication re ed ev vi le di

other-is_sound_choice : (i : Intent) → is_sound_choice (choose_other i) ≡ true
unfolding choose_other is_sound_choice contains is_unique subset
other-is_sound_choice i =
    every_sound
      (λ r.
        is_sound_choice
          (choose_other (reread i r i.editorial i.evidence i.visual i.learning i.distillation)))
      (every_5_sound (λ a b c d e. every λ r. is_sound_choice (choose_other (reread i r a b c d e)))
        refl i.editorial i.evidence i.visual i.learning i.distillation)
      i.resume

-- the intent with other answers to the questions that the branch for a publication reads
abbrev republished : Intent → (li x am ed vi : Bool) → Intent
republished i li x am ed vi = intent li x am i.resume ed i.evidence vi i.learning i.distillation

publication-is_sound_choice : (i : Intent) → on_choice is_sound_choice (choose_publication i) ≡ true
unfolding choose_publication is_sound_choice contains is_unique subset
publication-is_sound_choice i =
    every_5_sound
      (λ a b c d e. on_choice is_sound_choice (choose_publication (republished i a b c d e))) refl
      i.publish_linkedin i.publish_x i.ambiguous_publication i.editorial i.visual

publication-publishes :
    (i : Intent) → (not (is_publication i) || on_choice publishes (choose_publication i)) ≡ true
unfolding choose_publication contains
publication-publishes i =
    every_5_sound
      (λ a b c d e.
        not (is_publication (republished i a b c d e))
        || on_choice publishes (choose_publication (republished i a b c d e)))
      refl i.publish_linkedin i.publish_x i.ambiguous_publication i.editorial i.visual

on_choice_sound :
    (p : Choice → Bool) (r : Result SkillError Choice) (c : Choice)
    → on_choice p r ≡ true
    → r ≡ ok c
    → p c ≡ true
on_choice_sound p r c h e = sym (ap (on_choice p) e) ∙ h

-- Whatever is chosen, the primary Skill is one of the names that are asked for, these are different,
-- and they are Skills of the canonical registry.
pub choose_for-is_sound_choice :
    (i : Intent) (c : Choice) → choose_for i ≡ ok c → is_sound_choice c ≡ true
unfolding choose_for
choose_for-is_sound_choice i c h = elim (Bool-cases (is_publication i)) [
  | inl publication ↦
      on_choice_sound is_sound_choice (choose_publication i) c (publication-is_sound_choice i)
        (ground arith)
  | inr other ↦
      on_choice_sound is_sound_choice (ok (choose_other i)) c (other-is_sound_choice i)
        (ground arith)
]

pub choose_for-publishes :
    (i : Intent) (c : Choice)
    → choose_for i ≡ ok c
    → is_publication i ≡ true
    → (contains "linkedin-publishing" (explicit_names c)
        || contains "x-thread-publishing" (explicit_names c))
      ≡ true
unfolding choose_for
choose_for-publishes i c h publication =
    on_choice_sound publishes (choose_publication i) c (ground (arith, publication-publishes i))
      (ground arith)
