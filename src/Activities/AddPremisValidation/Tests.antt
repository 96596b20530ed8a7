-- ===== src/Activities/AddPremisValidation/Tests.antt =====
-- The event for a PDF/A file beside a text file.
use mathlib.Core.List.Perm
use preprocessing_sfa.Prelude.{String, false, none, some, List, [], ◌∷◌, ◌≡◌, refl}
use preprocessing_sfa.Prelude.Text
use preprocessing_sfa.Prelude.Text.{◌==◌, if◌then◌else◌}
use preprocessing_sfa.Prelude.Lists
use preprocessing_sfa.Prelude.Maps
use preprocessing_sfa.FilePath
use preprocessing_sfa.FileSystem
use preprocessing_sfa.FileSystem.{Fs, Visit, Result, ok, err}
use preprocessing_sfa.Sip
use preprocessing_sfa.Sip.{Sip, born_digital_sip_at}
use preprocessing_sfa.Premis
use preprocessing_sfa.Premis.{agent_default}
use preprocessing_sfa.Premis.Document
use preprocessing_sfa.Premis.Document.{parse_or_initialize}
use preprocessing_sfa.Premis.Edits
use preprocessing_sfa.Premis.Edits.{IsPremis}
use preprocessing_sfa.Formats
use preprocessing_sfa.Formats.{FileFormat, identify_formats}
use preprocessing_sfa.Premis.Sample.{tree, file, file-IsPremis, document_of}
use preprocessing_sfa.Activities.AddPremisValidation
use preprocessing_sfa.Activities.AddPremisValidation.{Env, Params, execute}
use preprocessing_sfa.Activities.AddPremisValidation.Laws.{Adds, count_checked, execute-Adds}

abbrev sip : Sip
sip = born_digital_sip_at "/sip"

abbrev identify : String → Result FileFormat
identify path =
    if path == "/sip/content/a.pdf"
    then ok (record { id = "fmt/354"; common_name = "PDF/A 1b" })
    else ok (record { id = "x-fmt/111"; common_name = "Plain Text File" })

abbrev env : Env tree
env = record {
  fs = record {
    stat = λ p. none;
    walk = λ p.
        Visit.entry "/sip/content/a.pdf" "a.pdf" false
        ∷ Visit.entry "/sip/content/b.txt" "b.txt" false
        ∷ [];
  };
  identify = identify;
  cancelled = λ p. false;
  iteration = record { order = λ xs. xs; order-Perm = Perm.refl };
  find_object = λ d path. some 0;
  uuid = λ k. ok "3f2a";
  now = λ k. "2024-06-05T00:00:00Z";
  agent = agent_default;
  format_ids = "fmt/354" ∷ [];
}

abbrev params : Params
params = record {
  sip = sip;
  premis_file_path = "/sip/metadata/premis.xml";
  summary = record {
    event_type = "validation";
    detail = "";
    outcome = "valid";
    outcome_detail = "";
  };
}

abbrev found : List (String × FileFormat)
found =
    ("/sip/content/b.txt", record { id = "x-fmt/111"; common_name = "Plain Text File" })
    ∷ ("/sip/content/a.pdf", record { id = "fmt/354"; common_name = "PDF/A 1b" })
    ∷ []

file_is_read : parse_or_initialize tree env.fs params.premis_file_path ≡ ok file
unfolding parse_or_initialize Document.parse_file Document.new_doc FileSystem.file_exists
file_is_read = refl

formats_are_found : identify_formats env.fs env.identify env.cancelled params.sip ≡ ok found
unfolding identify_formats Formats.identify_from born_digital_sip_at
formats_are_found = refl

written : execute tree env params ≡ ok (document_of (execute tree env params))
unfolding execute AddPremisValidation.add_to AddPremisValidation.add_all AddPremisValidation.finish
    AddPremisValidation.write_indented AddPremisValidation.add_agent_if
    AddPremisValidation.add_events AddPremisValidation.add_event Edits.add_linked_event
    Premis.original_name_for_subpath identify_formats Formats.identify_from parse_or_initialize
    Document.parse_file Document.new_doc Document.add_event_element Document.event_index
    Document.append_agent_xml Document.add_agent_element_if_needed
    Document.check_if_agent_element_exists Document.check_for_duplicate_element_data
    FileSystem.file_exists Maps.entries Lists.contains born_digital_sip_at Sip.name FilePath.rel
    FilePath.clean FilePath.components FilePath.join FilePath.base Text.join_with Text.split_slash
written = refl

execute-Adds_example :
    Adds tree
      (count_checked env.format_ids (Maps.entries found))
      file
      (document_of (execute tree env params))
execute-Adds_example =
    execute-Adds tree env params file (document_of (execute tree env params)) found file_is_read
      formats_are_found file-IsPremis written
