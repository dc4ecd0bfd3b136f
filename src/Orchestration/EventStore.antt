-- ===== src/Orchestration/EventStore.antt =====
-- event_store.py: the append-only JSON-lines log. A file is the list of its characters, `none` while
-- it does not exist. Turning an event into its JSON text and back is pydantic's, a parameter here.
pub mod Replay
use soloscale_ai_os.Prelude.{
  ℕ, Bool, true, false, ◌&&◌, Option, none, some, List, [], ◌∷◌, ◌++◌, ◌==◌, String, str_eq,
  or_else, filter_by, Result, ok, ◌>>=◌, or_raise, if◌then◌else◌,
}
use soloscale_ai_os.Prelude.Text.{Text, strip, is_empty}
use soloscale_ai_os.Orchestration.Models.{RunEvent}

-- What reading and replaying may raise: `ValidationError`.
pub data ReadError : Type 0 where
  bad_line : Text → ReadError

abbrev pub newline : ℕ
newline = 10

abbrev pub carriage_return : ℕ
carriage_return = 13

-- Text mode reads "\r\n" and a lone "\r" as "\n"; `after_cr` says that a "\r" stands before.
unfoldable pub universal_newlines : Bool → Text → Text
universal_newlines after_cr [] = []
universal_newlines after_cr (c ∷ s) =
    let at_cr = newline ∷ universal_newlines true s in
    let skipped = universal_newlines false s in
    let kept = c ∷ universal_newlines false s in
    if c == carriage_return then at_cr else if c == newline && after_cr then skipped else kept

-- `for line in handle`: the piece before the first newline, and the pieces after it. What follows
-- the last newline is a piece too; Python leaves it out if it is empty, and `read_lines` skips it.
unfoldable pub split_lines : Text → Text × List Text
split_lines [] = ([], [])
split_lines (c ∷ s) =
    let (line, rest) = split_lines s in if c == newline then ([], line ∷ rest) else (c ∷ line, rest)

abbrev pub pieces : Text → List Text
pieces s = let (line, rest) = split_lines s in line ∷ rest

-- The file at `path`.
abbrev pub File : Type 0
File = Option Text

module _ (parse : Text → Option RunEvent) where
  -- The loop of `read_all`.
  unfoldable pub read_lines : List Text → Result ReadError (List RunEvent)
  read_lines [] = ok []
  read_lines (line ∷ lines) =
      let rest = read_lines lines in
      let stripped = strip line in
      if is_empty stripped then rest else do
        event ← or_raise (parse stripped) (bad_line stripped)
        events ← rest
        ok (event ∷ events)

  unfoldable pub read_all : File → Result ReadError (List RunEvent)
  unfolding read_lines universal_newlines split_lines
  read_all none = ok []
  read_all (some s) = read_lines (pieces (universal_newlines false s))

  -- `replay(run_id)`, and `replay(None)`
  unfoldable pub replay : Option String → File → Result ReadError (List RunEvent)
  replay none file = read_all file
  replay (some run_id) file = do
    events ← read_all file
    ok (filter_by (λ event. str_eq event.run_id run_id) events)

-- `JsonlEventStore.append`
unfoldable pub append : (RunEvent → Text) → File → RunEvent → File
append dump file event = some (or_else file [] ++ (dump event ++ newline ∷ []))
