-- ===== src/Orchestration/Handoff/Reading.antt =====
-- Reading the Markdown of a packet back, line by line.
use soloscale_ai_os.Prelude.{
  ℕ, zero, suc, ◌≡◌, refl, ap, ◌∙◌, Bool, true, false, not, ◌&&◌, Option, none, some, List, [], ◌∷◌,
  ◌++◌, map, all, length, ◌==◌, String, arith, if◌then◌else◌,
}
use mathlib.Core.List.{append_assoc}
use soloscale_ai_os.Prelude.Text.{Text, codes}
use soloscale_ai_os.Orchestration.Models.{TaskEnvelope}
use soloscale_ai_os.Orchestration.Handoff.{
  ExecutionPacket, forbidden_changes, stop_conditions, expected_return_report, packet_from_task,
  join_newlines, items, section, value_or, head_lines, sections, all_sections,
  render_packet_markdown,
}

-- the text has no line break
unfoldable pub is_line : Text → Bool
is_line [] = true
is_line (c ∷ s) = not (c == 10) && is_line s

abbrev onto_first : ℕ → List Text → List Text
onto_first c [] = (c ∷ []) ∷ []
onto_first c (l ∷ ls) = (c ∷ l) ∷ ls

-- the lines of a text
unfoldable pub lines_of : Text → List Text
lines_of [] = [] ∷ []
lines_of (c ∷ s) = let rest = lines_of s in if c == 10 then [] ∷ rest else onto_first c rest

lines_of-line : (a b : Text) → is_line a ≡ true → lines_of (a ++ (codes "\n" ++ b)) ≡ a ∷ lines_of b
unfolding lines_of is_line
lines_of-line [] b h = refl
lines_of-line (c ∷ a) b h = ground (arith, lines_of-line a b)

lines_of-join_newlines :
    (l : Text) (ls : List Text) (b : Text)
    → all is_line (l ∷ ls) ≡ true
    → lines_of (join_newlines (l ∷ ls) ++ (codes "\n" ++ b)) ≡ (l ∷ ls) ++ lines_of b
unfolding join_newlines
lines_of-join_newlines l [] b h = lines_of-line l b (ground arith)
lines_of-join_newlines l (m ∷ ls) b h =
    ap lines_of (append_assoc l (codes "\n" ++ join_newlines (m ∷ ls)) (codes "\n" ++ b))
    ∙ lines_of-line l (join_newlines (m ∷ ls) ++ (codes "\n" ++ b)) (ground arith)
    ∙ ap (λ r. l ∷ r) (lines_of-join_newlines m ls b (ground arith))

abbrev has_none : List Text → Bool
has_none [] = true
has_none (l ∷ ls) = false

lines_of-joined :
    (ls : List Text) (b : Text)
    → has_none ls ≡ false
    → all is_line ls ≡ true
    → lines_of (join_newlines ls ++ (codes "\n" ++ b)) ≡ ls ++ lines_of b
lines_of-joined [] b some_line h = cc
lines_of-joined (l ∷ ls) b some_line h = lines_of-join_newlines l ls b h

-- what stands behind `- `
abbrev item_text : Text → Option Text
item_text (a ∷ b ∷ s) = if a == 45 && b == 32 then some s else none
item_text _ = none

-- the items that the lines begin with, and the lines behind them
unfoldable pub read_items : List Text → List Text × List Text
read_items [] = ([], [])
read_items (l ∷ ls) =
    let rest = read_items ls in
    elim (item_text l) [ none ↦ ([], l ∷ ls) | some x ↦ (x ∷ rest.0, rest.1) ]

-- the text behind a prefix of this length
abbrev behind : Text → Text → Text
behind [] s = s
behind (p ∷ ps) [] = []
behind (p ∷ ps) (c ∷ s) = behind ps s

-- a section without items has the line `_None._` in their place
abbrev pub as_section : Text → List Text × List Text → (Text × List Text) × List Text
as_section title ([], []) = ((title, []), [])
as_section title ([], l ∷ ls) = ((title, []), ls)
as_section title (x ∷ xs, ls) = ((title, x ∷ xs), ls)

-- the title of a section and its items, and the lines behind it
unfoldable pub read_section : List Text → (Text × List Text) × List Text
unfolding read_items
read_section (l ∷ m ∷ ls) = as_section (behind (codes "## ") l) (read_items ls)
read_section _ = (([], []), [])

unfoldable pub read_sections : ℕ → List Text → List (Text × List Text)
unfolding read_section
read_sections zero ls = []
read_sections (suc n) ls = let r = read_section ls in r.0 ∷ read_sections n r.1

-- nothing that is read as one more item stands in front
abbrev Ends : List Text → Type 0
Ends ls = read_items ls ≡ ([], ls)

read_items-items :
    (values : List String) (ls : List Text)
    → Ends ls
    → read_items (items values ++ ls) ≡ (map codes values, ls)
unfolding read_items items
read_items-items [] ls h = h
read_items-items (v ∷ vs) ls h =
    ap (λ (r : List Text × List Text). (codes v ∷ r.0, r.1)) (read_items-items vs ls h)

-- the texts of a section are single lines
unfoldable pub is_section_lines : String × List String → Bool
unfolding is_line
is_section_lines (title, values) = is_line (codes title) && all is_line (items values)

lines_of-title :
    (title : String) (y b : Text)
    → is_line (codes title) ≡ true
    → lines_of ((codes "## " ++ (codes title ++ (codes "\n" ++ y))) ++ b)
      ≡ (codes "## " ++ codes title) ∷ lines_of (y ++ b)
unfolding is_line
lines_of-title title y b h =
    ap (λ s. lines_of (codes "## " ++ s)) (append_assoc (codes title) (codes "\n" ++ y) b)
    ∙ lines_of-line (codes "## " ++ codes title) (y ++ b) h

read_section-section :
    (title : String) (values : List String) (b : Text)
    → is_section_lines (title, values) ≡ true
    → Ends (lines_of b)
    → read_section (lines_of (section title values ++ b))
      ≡ ((codes title, map codes values), lines_of b)
unfolding section items is_section_lines lines_of read_section read_items
read_section-section title [] b h e =
    ap read_section (lines_of-title title (codes "\n_None._\n") b (ground arith))
read_section-section title (v ∷ vs) b h e =
    let lines = join_newlines (items (v ∷ vs)) in
    ap read_section (
      lines_of-title title (codes "\n" ++ (lines ++ codes "\n")) b (ground arith)
      ∙ ap (λ s. (codes "## " ++ codes title) ∷ [] ∷ lines_of s) (append_assoc lines (codes "\n") b)
      ∙ ap (λ ls. (codes "## " ++ codes title) ∷ [] ∷ ls)
          (lines_of-join_newlines (codes "- " ++ codes v) (items vs) b (ground arith)))
    ∙ ap (as_section (codes title)) (read_items-items (v ∷ vs) (lines_of b) e)

Ends-title : (ls : List Text) → Ends (onto_first 35 (onto_first 35 ls))
unfolding read_items
Ends-title [] = refl
Ends-title (l ∷ ls) = refl

Ends-all_sections : (rest : List (String × List String)) → Ends (lines_of (all_sections rest))
unfolding all_sections section lines_of read_items
Ends-all_sections [] = refl
Ends-all_sections ((title, []) ∷ rest) = Ends-title _
Ends-all_sections ((title, v ∷ vs) ∷ rest) = Ends-title _

abbrev pub as_texts : String × List String → Text × List Text
as_texts (title, values) = (codes title, map codes values)

read_sections-all_sections :
    (ss : List (String × List String))
    → all is_section_lines ss ≡ true
    → read_sections (length ss) (lines_of (all_sections ss)) ≡ map as_texts ss
unfolding read_sections all_sections
read_sections-all_sections [] h = refl
read_sections-all_sections ((title, values) ∷ rest) h =
    ap (λ (r : (Text × List Text) × List Text). r.0 ∷ read_sections (length rest) r.1)
      (read_section-section title values (all_sections rest) (ground arith)
        (Ends-all_sections rest))
    ∙ ap (λ l. as_texts (title, values) ∷ l) (read_sections-all_sections rest (ground arith))

-- What a packet says to the one who reads it.
pub record Reading : Type 0 where
  pub task_id : Text
  pub goal : Text
  pub repository : Text
  pub branch : Text
  pub sections : List (Text × List Text)

-- the thirteen lines at the head, and ten sections
abbrev pub from_lines : List Text → Option Reading
from_lines (t ∷ _ ∷ _ ∷ _ ∷ _ ∷ _ ∷ g ∷ _ ∷ _ ∷ _ ∷ r ∷ b ∷ _ ∷ rest) = some (record {
  task_id = behind (codes "# Codex Execution Packet — ") t;
  goal = g;
  repository = behind (codes "- Repository: ") r;
  branch = behind (codes "- Branch: ") b;
  sections = read_sections 10 rest;
})
from_lines _ = none

unfoldable pub read_packet : Text → Option Reading
unfolding lines_of
read_packet text = from_lines (lines_of text)

-- every text of the packet is a single line
unfoldable pub is_single_lined : ExecutionPacket → Bool
unfolding head_lines sections is_line is_section_lines
is_single_lined packet = all is_line (head_lines packet) && all is_section_lines (sections packet)

abbrev pub as_reading : ExecutionPacket → List (Text × List Text) → Reading
as_reading packet listed = record {
  task_id = codes packet.task_id;
  goal = codes packet.goal;
  repository = codes (value_or packet.repository "To be selected");
  branch = codes (value_or packet.branch "Create a feature branch");
  sections = listed;
}

read_packet-render_packet_markdown :
    (packet : ExecutionPacket)
    → is_single_lined packet ≡ true
    → read_packet (render_packet_markdown packet)
      ≡ some (as_reading packet (map as_texts (sections packet)))
unfolding render_packet_markdown read_packet is_single_lined head_lines sections
read_packet-render_packet_markdown packet h =
    ap from_lines
      (lines_of-joined (head_lines packet) (all_sections (sections packet)) refl (ground arith))
    ∙ ap (λ listed. some (as_reading packet listed))
        (read_sections-all_sections (sections packet) (ground arith))

-- For a task whose texts are single lines, reading its packet's Markdown gives back its id and goal, its
-- repository and branch or what stands in for a missing or empty one, and ten sections: the task's
-- seven lists with all their items in their order, and behind them, whatever the task says, the
-- forbidden changes, the stop conditions and the return report.
pub read_packet-packet_from_task :
    (task : TaskEnvelope)
    → is_single_lined (packet_from_task task) ≡ true
    → read_packet (render_packet_markdown (packet_from_task task))
      ≡ some (record {
        task_id = codes task.id;
        goal = codes task.goal;
        repository = codes (value_or task.repository "To be selected");
        branch = codes (value_or task.branch "Create a feature branch");
        sections =
            (codes "Constraints", map codes task.constraints)
            ∷ (codes "Frozen Decisions", map codes task.frozen_decisions)
            ∷ (codes "Requested Paths", map codes task.requested_paths)
            ∷ (codes "Required Changes", map codes task.required_changes)
            ∷ (codes "Non-goals", map codes task.non_goals)
            ∷ (codes "Acceptance Criteria", map codes task.acceptance_criteria)
            ∷ (codes "Tests to Run", map codes task.tests_to_run)
            ∷ (codes "Forbidden Changes", map codes forbidden_changes)
            ∷ (codes "Stop Conditions", map codes stop_conditions)
            ∷ (codes "Expected Return Report", map codes expected_return_report)
            ∷ [];
      })
unfolding packet_from_task sections
read_packet-packet_from_task task h = read_packet-render_packet_markdown (packet_from_task task) h
