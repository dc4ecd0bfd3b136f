-- ===== src/SkillOs/Registry/Load.antt =====
-- `load_skill_registry` of skill_os.py. What the registry's file parses to, and what stands beside it
-- for each Skill, are arguments.
use soloscale_ai_os.Prelude.{
  Bool, not, ◌&&◌, ◌||◌, Option, List, [], ◌∷◌, ◌++◌, String, contains, all, Result, ok, ◌>>=◌,
  ◌>>◌, raise_if, or_raise, is_ok,
}
use soloscale_ai_os.Prelude.Text.{Text, codes, occurs_in}
use soloscale_ai_os.SkillOs.Models.{
  SkillStatus, SkillError, invalid_registry, invalid_artifacts, SkillRegistryEntry, SkillRegistry,
  validate_phase_routes, same_names, skill_order,
}
use soloscale_ai_os.SkillOs.Registry.{skill_names, validate_graph}

-- `SkillStatus.value`
abbrev pub status_value : SkillStatus → String
status_value SkillStatus.draft = "DRAFT"
status_value SkillStatus.candidate = "CANDIDATE"
status_value SkillStatus.active = "ACTIVE"
status_value SkillStatus.deprecated = "DEPRECATED"
status_value SkillStatus.blocked = "BLOCKED"

-- what the directory of a Skill has, and its input contract
pub record SkillArtifacts : Type 0 where
  pub is_complete : Bool
  pub instructions : Text
  pub contract_is_absolute : Bool
  pub contract_parts : List String
  pub contract_is_file : Bool
  pub schema_is_json : Bool

-- the body of the loop over the Skills
unfoldable pub check_artifacts :
    (String → SkillArtifacts) → SkillRegistryEntry → Result SkillError (Unit {0})
check_artifacts files skill = do
  let found = files skill.name
  raise_if (not found.is_complete) invalid_artifacts
  raise_if (not (occurs_in (codes "name: " ++ codes skill.name ++ 10 ∷ []) found.instructions))
      invalid_artifacts
  raise_if
      (not (
        occurs_in (codes "Version: `" ++ codes skill.current_version ++ codes "`")
          found.instructions))
      invalid_artifacts
  raise_if
      (not (
        occurs_in (codes "Status: `" ++ codes (status_value skill.status) ++ codes "`")
          found.instructions))
      invalid_artifacts
  raise_if (found.contract_is_absolute || contains ".." found.contract_parts) invalid_artifacts
  raise_if (not found.contract_is_file) invalid_artifacts
  raise_if (not found.schema_is_json) invalid_artifacts

unfoldable pub check_all_artifacts :
    (String → SkillArtifacts) → List SkillRegistryEntry → Result SkillError (Unit {0})
unfolding check_artifacts
check_all_artifacts files [] = ok tt
check_all_artifacts files (skill ∷ skills) =
    check_artifacts files skill >> check_all_artifacts files skills

-- the validators of the entries, then that of the registry
unfoldable pub validate_registry : SkillRegistry → Bool
unfolding validate_graph
validate_registry registry =
    all validate_phase_routes registry.skills && is_ok (validate_graph registry)

unfoldable pub load_skill_registry :
    Option SkillRegistry → (String → SkillArtifacts) → Result SkillError SkillRegistry
unfolding validate_registry check_all_artifacts
load_skill_registry parsed files = do
  registry ← or_raise parsed invalid_registry
  raise_if (not (validate_registry registry)) invalid_registry
  raise_if (not (same_names (skill_names registry.skills) skill_order)) invalid_registry
  check_all_artifacts files registry.skills
  ok registry
