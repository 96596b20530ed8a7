-- ===== src/Apis/Status.antt =====
-- The part of the APIS interface (internal/apis/gen/oas_schemas_gen.go) that the activities read, and
-- internal/apis/problem_details.go. An enumeration is a Go string: `unknown` keeps any other value.
-- An optional field that may also be null is an `Option`.
use preprocessing_sfa.Prelude.{String, Option, none, some}
use preprocessing_sfa.Prelude.Text.{◌==◌, if◌then◌else◌}

pub data AnalysisResult : Type 0 where
  alle_neu alle_gleich konflikte fehler : AnalysisResult
  unknown : String → AnalysisResult

abbrev pub analysis_text : AnalysisResult → String
analysis_text alle_neu = "AlleNeu"
analysis_text alle_gleich = "AlleGleich"
analysis_text konflikte = "Konflikte"
analysis_text fehler = "Fehler"
analysis_text (unknown text) = text

pub data ImportResult : Type 0 where
  erfolgreich fehler : ImportResult
  unknown : String → ImportResult

abbrev pub import_text : ImportResult → String
import_text ImportResult.erfolgreich = "Erfolgreich"
import_text ImportResult.fehler = "Fehler"
import_text (ImportResult.unknown text) = text

pub data ImportTaskStatus : Type 0 where
  neu in_analyse analysiert wird_importiert importiert abgebrochen : ImportTaskStatus
  unknown : String → ImportTaskStatus

abbrev pub status_text : ImportTaskStatus → String
status_text ImportTaskStatus.neu = "Neu"
status_text ImportTaskStatus.in_analyse = "InAnalyse"
status_text ImportTaskStatus.analysiert = "Analysiert"
status_text ImportTaskStatus.wird_importiert = "WirdImportiert"
status_text ImportTaskStatus.importiert = "Importiert"
status_text ImportTaskStatus.abgebrochen = "Abgebrochen"
status_text (ImportTaskStatus.unknown text) = text

pub record ImportTaskStatusResponse : Type 0 where
  pub status : ImportTaskStatus
  pub analysis_result : Option AnalysisResult
  pub import_result : Option ImportResult

-- `APIImporttasksIDStatusGetRes`; `unexpected` is any other type.
pub data StatusAnswer : Type 0 where
  status : ImportTaskStatusResponse → StatusAnswer
  unauthorized : StatusAnswer
  not_found : (detail : Option String) → StatusAnswer
  server_error : (detail : Option String) → StatusAnswer
  unexpected : StatusAnswer

-- `problemDetail`.
unfoldable pub problem_detail : Option String → String
problem_detail (some value) = if value == "" then "no additional details" else value
problem_detail none = "no additional details"
