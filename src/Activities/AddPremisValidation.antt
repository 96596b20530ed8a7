-- ===== src/Activities/AddPremisValidation.antt =====
-- internal/activities/add_premis_validation_event.go. The identified formats, the clock, the generated
-- identifiers and the order of a `range` over a map are parameters, and so is the search for an object
-- by its original name, which is etree's.
pub mod Laws
pub mod Tests
use preprocessing_sfa.Prelude.{ℕ, suc, String, Bool, true, false, Option, none, some, List, [], ◌∷◌}
use preprocessing_sfa.Prelude.Text.{◌==◌, ◌+s◌, if◌then◌else◌}
use preprocessing_sfa.Prelude.Lists.{contains}
use preprocessing_sfa.Prelude.Maps.{Iteration, entries}
use preprocessing_sfa.FilePath
use preprocessing_sfa.FileSystem.{Fs, Result, ok, err, file_exists}
use preprocessing_sfa.Sip.{Sip}
use preprocessing_sfa.Premis.{Agent, EventSummary, original_name_for_subpath}
use preprocessing_sfa.Premis.Xml.{Etree}
use preprocessing_sfa.Premis.Document.{Event, parse_or_initialize, append_agent_xml}
use preprocessing_sfa.Premis.Edits.{add_linked_event}
use preprocessing_sfa.Formats.{FileFormat, identify_formats}

pub record Env (x : Etree) : Type 0 where
  pub fs : Fs
  pub identify : String → Result FileFormat
  pub cancelled : String → Bool
  pub iteration : Iteration FileFormat
  -- The number of the object whose original name is found by an expression.
  pub find_object : x.Doc → String → Option ℕ
  -- The identifier that is generated at a number, and the time.
  pub uuid : ℕ → Result String
  pub now : ℕ → String
  -- The validator's agent and formats.
  pub agent : Agent
  pub format_ids : List String

-- `AddPREMISValidationEventParams`.
pub record Params : Type 0 where
  pub sip : Sip
  pub premis_file_path : String
  pub summary : EventSummary

module _ (x : Etree) (env : Env x) (params : Params) where
  abbrev pub event_for : ℕ → String → Event
  event_for k id = record {
    id_type = "UUID";
    id_value = id;
    summary = params.summary;
    date_time = env.now k;
    agent_id_type = env.agent.id_type;
    agent_id_value = env.agent.id_value;
  }

  abbrev original_name_path : String → String
  original_name_path subpath =
      "/premis:premis/premis:object/premis:originalName[text()='"
      +s original_name_for_subpath params.sip subpath
      +s "']"

  -- The body of the loop for a file whose format the validator checks.
  unfoldable pub add_event : ℕ → String → x.Doc → Result x.Doc
  unfolding original_name_for_subpath
  add_event k path d = elim (FilePath.rel params.sip.content_path path) [
    | none ↦ err ("Rel: can't make " +s path +s " relative to " +s params.sip.content_path)
    | some subpath ↦ elim (env.find_object d (original_name_path subpath)) [
      | none ↦ err "element not found"
      | some n ↦ elim (env.uuid k) [
        | err e ↦ err ("generate UUID: " +s e)
        | ok id ↦ ok (add_linked_event x d n (event_for k id))
      ]
    ]
  ]

  -- The loop, with `addAgent`.
  unfoldable pub add_events : ℕ → Bool → List (String × FileFormat) → x.Doc → Result (x.Doc × Bool)
  unfolding add_event contains
  add_events k add_agent [] d = ok (d, add_agent)
  add_events k add_agent ((path, f) ∷ formats) d =
      let skipped = add_events k add_agent formats d in
      if contains env.format_ids f.id
      then (elim (add_event k path d) [
        | err e ↦ err e
        | ok d' ↦ add_events (suc k) true formats d'
      ])
      else skipped

  -- The agent, if an event was added.
  unfoldable pub add_agent_if : x.Doc × Bool → Result x.Doc
  unfolding append_agent_xml
  add_agent_if (d, false) = ok d
  add_agent_if (d, true) = elim (append_agent_xml x d env.agent) [
    | err e ↦ err ("addAgent: " +s e)
    | ok d' ↦ ok d'
  ]

  unfoldable pub write_indented : Result x.Doc → Result x.Doc
  write_indented (err e) = err e
  write_indented (ok d) = elim (x.write_to_file (x.indent d) params.premis_file_path) [
    | some e ↦ err e
    | none ↦ ok (x.indent d)
  ]

  -- Behind the loop.
  unfoldable pub finish : Result (x.Doc × Bool) → Result x.Doc
  unfolding add_agent_if write_indented
  finish (err e) = err e
  finish (ok found) = write_indented (add_agent_if found)

  unfoldable pub add_all : List (String × FileFormat) → x.Doc → Result x.Doc
  unfolding add_events finish entries
  add_all formats d = finish (add_events 0 false (env.iteration.order (entries formats)) d)

  unfoldable pub add_to : x.Doc → Result x.Doc
  unfolding add_all identify_formats
  add_to d =
      if x.has_root d
      then (elim (identify_formats env.fs env.identify env.cancelled params.sip) [
        | err e ↦ err ("identifyFormats: " +s e)
        | ok formats ↦ add_all formats d
      ])
      else err "no root premis element found in document"

  -- `AddPREMISValidationEventActivity.Execute`.
  unfoldable pub execute : Result x.Doc
  unfolding add_to parse_or_initialize file_exists
  execute =
      if file_exists env.fs params.premis_file_path
      then (elim (parse_or_initialize x env.fs params.premis_file_path) [
        | err e ↦ err e
        | ok d ↦ add_to d
      ])
      else err ("PREMIS file path does not exist: " +s params.premis_file_path)
