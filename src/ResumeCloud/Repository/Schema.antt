-- ===== src/ResumeCloud/Repository/Schema.antt =====
-- `ResumeCloudRepository.ready`, on the rows of its two queries: the relations of the schema `public`
-- by their kinds, and the versions that the schema records, in order.
use soloscale_ai_os.Prelude.{
  ℕ, ◌≡◌, refl, Bool, true, false, ◌&&◌, List, [], ◌∷◌, ◌++◌, all, any, ◌==◌, String, str_eq,
}

abbrev pub latest_schema_version : ℕ
latest_schema_version = 5

abbrev pub base_schema_relations : List (String × String)
base_schema_relations =
    ("public", "resume_cloud_schema_version") ∷ ("public", "resume_cloud_tasks") ∷ []

abbrev pub rate_limit_schema_relations : List (String × String)
rate_limit_schema_relations = base_schema_relations ++ ("public", "resume_cloud_rate_limits") ∷ []

abbrev pub latest_schema_relations : List (String × String)
latest_schema_relations =
    rate_limit_schema_relations ++ ("public", "resume_cloud_result_cache") ∷ []

abbrev same_relation : String × String → String × String → Bool
same_relation (n, r) (m, s) = str_eq n m && str_eq r s

abbrev among : List (String × String) → String × String → Bool
among rs r = any (same_relation r) rs

-- equality of sets
abbrev pub same_relations : List (String × String) → List (String × String) → Bool
same_relations rs ss = all (among ss) rs && all (among rs) ss

abbrev is_latest : List ℕ → Bool
is_latest (v ∷ []) = v == latest_schema_version
is_latest _ = false

unfoldable pub ready : List (String × String) → List ℕ → Bool
ready relations versions = same_relations relations latest_schema_relations && is_latest versions

-- A relation more, a version more or an older version: not ready.
ready_runs :
    (ready latest_schema_relations (5 ∷ []) ≡ true)
    × (ready (("public", "notes") ∷ latest_schema_relations) (5 ∷ []) ≡ false)
    × (ready latest_schema_relations (4 ∷ 5 ∷ []) ≡ false)
    × (ready rate_limit_schema_relations (5 ∷ []) ≡ false)
unfolding ready
ready_runs = (refl, refl, refl, refl)
