-- ===== src/Orchestration/Service/FileLog.antt =====
-- The JSON-lines file is an event log of the kind that the service asks for.
use soloscale_ai_os.Prelude.{
  ◌≡◌, refl, sym, ap, ◌∙◌, true, false, Option, none, some, List, [], ◌∷◌, ◌++◌, String, str_eq,
  filter_by, filter_by-append, ok, err, Result-cases, inl, inr, if◌then◌else◌, arith,
}
use soloscale_ai_os.Prelude.Text.{Text, strip, is_empty}
use soloscale_ai_os.Orchestration.Models.{RunEvent, validate_transition_event}
use soloscale_ai_os.Orchestration.EventStore.{ReadError, File, read_all, replay, append}
use soloscale_ai_os.Orchestration.EventStore.Replay.{
  IsLine, IsSound, IsWritable, append-IsSound, read_all-append,
}
use soloscale_ai_os.Orchestration.Service.{EventLog}

-- pydantic's `model_dump_json` and `model_validate_json`, with what they document: the text is one
-- JSON object on one line, and a valid event is read back from it.
pub record Codec : Type 0 where
  pub dump : RunEvent → Text
  pub parse : Text → Option RunEvent
  pub on_one_line : (e : RunEvent) → IsLine (dump e)
  pub trimmed : (e : RunEvent) → strip (dump e) ≡ dump e
  pub visible : (e : RunEvent) → is_empty (dump e) ≡ false
  pub parsed : (e : RunEvent) → validate_transition_event e ≡ true → parse (dump e) ≡ some e

module _ (codec : Codec) where
  open codec use {dump, parse}

  writable : (e : RunEvent) → validate_transition_event e ≡ true → IsWritable dump parse e
  writable e v = record {
    on_one_line = codec.on_one_line e;
    trimmed = codec.trimmed e;
    visible = codec.visible e;
    parsed = codec.parsed e v;
  }

  abbrev SoundFile : Type 0
  SoundFile = (file : File) × IsSound file

  replay_read :
      (file : File) (run : String) (all : List RunEvent)
      → read_all parse file ≡ ok all
      → replay parse (some run) file ≡ ok (filter_by (λ e. str_eq e.run_id run) all)
  unfolding replay
  replay_read file run all p = ground arith

  replay_unread :
      (file : File) (run : String) (x : ReadError)
      → read_all parse file ≡ err x
      → replay parse (some run) file ≡ err x
  unfolding replay
  replay_unread file run x p = ground arith

  replay-append_file :
      (file : File) (e : RunEvent) (run : String) (es : List RunEvent)
      → IsSound file
      → validate_transition_event e ≡ true
      → replay parse (some run) file ≡ ok es
      → replay parse (some run) (append dump file e)
        ≡ ok (es ++ (if str_eq e.run_id run then e ∷ [] else []))
  replay-append_file file e run es sound v h = elim (Result-cases (read_all parse file)) [
    | inl (all, p) ↦
        let kept : List RunEvent = filter_by (λ x. str_eq x.run_id run) all in
        let same : es ≡ kept = cc (h, replay_read file run all p) in
        replay_read (append dump file e) run (all ++ e ∷ [])
          (read_all-append dump parse file e sound (writable e v) p)
        ∙ ap ok (filter_by-append (λ x. str_eq x.run_id run) all (e ∷ []))
        ∙ ap (λ fs. ok (fs ++ (if str_eq e.run_id run then e ∷ [] else []))) (sym same)
    | inr (x, p) ↦ cc (h, replay_unread file run x p)
  ]

  replay_nothing : (run : String) → replay parse (some run) none ≡ ok []
  unfolding replay read_all
  replay_nothing run = refl

  -- The file, kept with the fact that only the store has written it.
  pub file_log : EventLog
  file_log = record {
    Log = SoundFile;
    empty_log = (none, tt);
    replay = λ f run. replay parse (some run) f.0;
    append = λ f e. (append dump f.0 e, append-IsSound dump parse f.0 e f.1 (codec.on_one_line e));
    replay-empty_log = λ run. replay_nothing run;
    replay-append = λ f e run es v h. replay-append_file f.0 e run es f.1 v h;
  }
