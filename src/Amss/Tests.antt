-- ===== src/Amss/Tests.antt =====
-- The download of a METS file.
use preprocessing_sfa.Prelude.{String, Option, none, some, ◌≡◌, refl}
use preprocessing_sfa.Prelude.Text.{◌==◌, if◌then◌else◌}
use preprocessing_sfa.FileSystem.{Result, ok, err}
use preprocessing_sfa.Amss.{Files, Env, FetchParams, write, save, fetch, get_aip_path}
use preprocessing_sfa.Amss.Laws.{IsFetched, fetch-IsFetched}

abbrev sent : String → String → Result (Option String)
sent uuid path = if path == "METS.xml" then ok (some "<mets/>") else err "404"

abbrev env : Env String
env = record {
  get = λ uuid. ok (some none);
  download_file = sent;
  mkdir_all = λ path. none;
  open_file = λ path. none;
  copy = λ body. record { written = body; error = none };
  copy-all = λ body e. refl;
}

abbrev params : FetchParams String
params = record { aip_uuid = "a1"; relative_path = "METS.xml"; destination = "/tmp/a1/METS.xml" }

abbrev files : Files
files path = none

no_path_test : get_aip_path env "a1" ≡ err "GetAIPPath: current_path not found in response"
unfolding get_aip_path
no_path_test = refl

missing_test :
    (fetch env (record params { relative_path = "x" }) files).1
    ≡ some "FetchActivity: download file: 404"
unfolding fetch
missing_test = refl

mets_is_fetched : fetch env params files ≡ (write "/tmp/a1/METS.xml" "<mets/>" files, none)
unfolding fetch save
mets_is_fetched = refl

fetch-IsFetched_example :
    (body : String) × IsFetched env params files (write "/tmp/a1/METS.xml" "<mets/>" files) body
fetch-IsFetched_example =
    fetch-IsFetched env params files (write "/tmp/a1/METS.xml" "<mets/>" files) mets_is_fetched
