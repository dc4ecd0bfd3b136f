-- ===== src/Orchestration/EventStore/Replay.antt =====
-- Reading back what was appended.
use soloscale_ai_os.Prelude.{
  ◌≡◌, refl, sym, ap, ◌∙◌, ◌≢◌, false, Option, none, some, List, [], ◌∷◌, ◌++◌, String, str_eq, All,
  filter_by, All-append, Result, ok, err, arith,
}
use mathlib.Core.List.{append_assoc, append-nil}
use soloscale_ai_os.Prelude.Text.{Text, strip, is_empty}
use soloscale_ai_os.Orchestration.Models.{RunEvent}
use soloscale_ai_os.Orchestration.EventStore.{
  ReadError, newline, carriage_return, universal_newlines, split_lines, pieces, File, read_lines,
  read_all, replay, append,
}

-- A text that stays on one line.
abbrev pub IsLine : Text → Type 0
IsLine = All (λ c. (c ≢ newline) × (c ≢ carriage_return))

abbrev join_lines : List Text → Text
join_lines [] = []
join_lines (l ∷ ls) = l ++ newline ∷ join_lines ls

-- Files that only `append` has written.
abbrev pub IsSound : File → Type 0
IsSound none = Unit
IsSound (some s) = (ls : List Text) × (s ≡ join_lines ls) × All IsLine ls

universal_newlines-line :
    (l s : Text)
    → IsLine l
    → universal_newlines false (l ++ newline ∷ s) ≡ l ++ newline ∷ universal_newlines false s
unfolding universal_newlines
universal_newlines-line [] s h = refl
universal_newlines-line (c ∷ l) s h = ground (arith, universal_newlines-line l s h.1)

split_lines-line : (l s : Text) → IsLine l → split_lines (l ++ newline ∷ s) ≡ (l, pieces s)
unfolding split_lines
split_lines-line [] s h = refl
split_lines-line (c ∷ l) s h = ground (arith, split_lines-line l s h.1)

pieces-join :
    (ls : List Text)
    → All IsLine ls
    → pieces (universal_newlines false (join_lines ls)) ≡ ls ++ [] ∷ []
pieces-join [] h = unfold universal_newlines split_lines in refl
pieces-join (l ∷ ls) h = rw (universal_newlines-line l (join_lines ls) h.0) (
    rw (split_lines-line l (universal_newlines false (join_lines ls)) h.0)
      (ap (λ ps. l ∷ ps) (pieces-join ls h.1)))

-- What the first lines hold, and then what the others hold.
abbrev then_events :
    Result ReadError (List RunEvent)
    → Result ReadError (List RunEvent)
    → Result ReadError (List RunEvent)
then_events (ok es) (ok fs) = ok (es ++ fs)
then_events (ok es) (err x) = err x
then_events (err x) s = err x

then_events-nil : (r : Result ReadError (List RunEvent)) → then_events r (ok []) ≡ r
then_events-nil (ok es) = ap ok (append-nil es)
then_events-nil (err x) = refl

join_lines-append :
    (ls : List Text) (l : Text) → join_lines (ls ++ l ∷ []) ≡ join_lines ls ++ (l ++ newline ∷ [])
join_lines-append [] l = refl
join_lines-append (x ∷ ls) l =
    ap (λ s. x ++ newline ∷ s) (join_lines-append ls l)
    ∙ sym (append_assoc x (newline ∷ join_lines ls) (l ++ newline ∷ []))

module _ (dump : RunEvent → Text) (parse : Text → Option RunEvent) where
  -- What is asked of the JSON text of an event: it stays on one line, neither begins nor ends with
  -- white space, and is read back as the event.
  pub record IsWritable (e : RunEvent) : Type 0 where
    pub on_one_line : IsLine (dump e)
    pub trimmed : strip (dump e) ≡ dump e
    pub visible : is_empty (dump e) ≡ false
    pub parsed : parse (dump e) ≡ some e

  read_lines-append :
      (xs ys : List Text)
      → read_lines parse (xs ++ ys) ≡ then_events (read_lines parse xs) (read_lines parse ys)
  unfolding read_lines
  read_lines-append [] ys = ground arith
  read_lines-append (x ∷ xs) ys = ground (arith, read_lines-append xs ys)

  read_lines-blank : read_lines parse ([] ∷ []) ≡ ok []
  unfolding read_lines strip
  read_lines-blank = refl

  read_all-join :
      (ls : List Text)
      → All IsLine ls
      → read_all parse (some (join_lines ls)) ≡ then_events (read_lines parse ls) (ok [])
  read_all-join ls h =
      unfolded (join_lines ls)
      ∙ ap (read_lines parse) (pieces-join ls h)
      ∙ read_lines-append ls ([] ∷ [])
      ∙ ap (then_events (read_lines parse ls)) read_lines-blank
    where
      unfolded :
          (s : Text)
          → read_all parse (some s) ≡ read_lines parse (pieces (universal_newlines false s))
      unfolded s = unfold read_all in refl

  read_lines-written : (e : RunEvent) → IsWritable e → read_lines parse (dump e ∷ []) ≡ ok (e ∷ [])
  unfolding read_lines
  read_lines-written e w = rw (w.trimmed, w.visible, w.parsed)

  read_all-lines :
      (ls : List Text) (e : RunEvent) {es : List RunEvent}
      → All IsLine ls
      → IsWritable e
      → read_all parse (some (join_lines ls)) ≡ ok es
      → read_all parse (some (join_lines (ls ++ dump e ∷ []))) ≡ ok (es ++ e ∷ [])
  read_all-lines ls e {es} lines w h =
      let before = sym (then_events-nil (read_lines parse ls)) ∙ sym (read_all-join ls lines) ∙ h in
      read_all-join (ls ++ dump e ∷ [])
        (All-append IsLine ls (dump e ∷ []) lines (w.on_one_line, tt))
      ∙ then_events-nil (read_lines parse (ls ++ dump e ∷ []))
      ∙ read_lines-append ls (dump e ∷ [])
      ∙ rw (before, read_lines-written e w) refl

  pub append-IsSound :
      (file : File) (e : RunEvent) → IsSound file → IsLine (dump e) → IsSound (append dump file e)
  unfolding append
  append-IsSound none e sound line = (dump e ∷ [], refl, (line, tt))
  append-IsSound (some s) e (ls, made, lines) line = (
    ls ++ dump e ∷ [],
    rw made (sym (join_lines-append ls (dump e))),
    All-append IsLine ls (dump e ∷ []) lines (line, tt),
  )

  -- An event that is appended to a log that the store wrote is read back behind the others.
  pub read_all-append :
      (file : File) (e : RunEvent) {es : List RunEvent}
      → IsSound file
      → IsWritable e
      → read_all parse file ≡ ok es
      → read_all parse (append dump file e) ≡ ok (es ++ e ∷ [])
  unfolding append
  read_all-append none e sound w h =
      read_all-lines [] e tt w (read_all-join [] tt ∙ nothing_read ∙ h)
    where
      nothing_read : then_events (read_lines parse []) (ok []) ≡ read_all parse none
      nothing_read = unfold read_all read_lines in refl
  read_all-append (some s) e (ls, made, lines) w h =
      ap (λ t. read_all parse (some (t ++ (dump e ++ newline ∷ [])))) made
      ∙ ap (λ t. read_all parse (some t)) (sym (join_lines-append ls (dump e)))
      ∙ read_all-lines ls e lines w (ap (λ t. read_all parse (some t)) (sym made) ∙ h)

  pub append_all : File → List RunEvent → File
  append_all file [] = file
  append_all file (e ∷ es) = append_all (append dump file e) es

  read_all-append_all :
      (file : File) (old es : List RunEvent)
      → IsSound file
      → All IsWritable es
      → read_all parse file ≡ ok old
      → read_all parse (append_all file es) ≡ ok (old ++ es)
  unfolding append_all
  read_all-append_all file old [] sound w h = rw append-nil h
  read_all-append_all file old (e ∷ es) sound w h =
      read_all-append_all (append dump file e) (old ++ e ∷ []) es
        (append-IsSound file e sound w.0.on_one_line) w.1 (read_all-append file e sound w.0 h)
      ∙ ap ok (append_assoc old (e ∷ []) es)

  -- Events that are appended one by one to a log that does not exist yet come back in their order:
  -- all of them from `replay(None)`, and those of one run from `replay(run_id)`.
  pub replay-append_all :
      (es : List RunEvent) (run_id : String)
      → All IsWritable es
      → (replay parse none (append_all none es) ≡ ok es)
        × (replay parse (some run_id) (append_all none es)
            ≡ ok (filter_by (λ e. str_eq e.run_id run_id) es))
  replay-append_all es run_id w =
      let everything = read_all-append_all none [] es tt w nothing in
      (unfold replay in everything, unfold replay in rw everything)
    where
      nothing : read_all parse none ≡ ok []
      nothing = unfold read_all in refl
