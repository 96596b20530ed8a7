-- ===== src/Amss.antt =====
-- internal/amss: the path of a stored AIP, and the download of one of its files. The storage service's
-- client is a parameter, as are the calls of the operating system with their errors; the contents of
-- the files are the state. Closing the stream and the file changes no content.
pub mod Laws
pub mod Tests
use preprocessing_sfa.Prelude.{String, Bool, true, false, Option, none, some, ◌≡◌}
use preprocessing_sfa.Prelude.Text.{◌==◌, ◌+s◌, if◌then◌else◌}
use preprocessing_sfa.FilePath
use preprocessing_sfa.FileSystem.{Result, ok, err}

-- The contents of the files.
abbrev pub Files : Type 0
Files = String → Option String

-- What `io.Copy` has written, and its error.
pub record Copied : Type 0 where
  pub written : String
  pub error : Option String

pub record Env (Uuid : Type 0) : Type 0 where
  -- `PackagesService.Get`: the package, if it is not nil, is its current path, if that is not nil.
  pub get : Uuid → Result (Option (Option String))
  -- `PackagesService.DownloadFile`: the body, if there is one.
  pub download_file : Uuid → String → Result (Option String)
  pub mkdir_all : String → Option String
  pub open_file : String → Option String
  pub copy : String → Copied
  -- `io.Copy` copies until the end of the body or an error.
  pub copy-all : (body : String) → (copy body).error ≡ none → (copy body).written ≡ body

-- `FetchActivityParams`.
pub record FetchParams (Uuid : Type 0) : Type 0 where
  pub aip_uuid : Uuid
  pub relative_path : String
  pub destination : String

abbrev pub write : String → String → Files → Files
write path content files p = if p == path then some content else files p

module _ {Uuid : Type 0} (env : Env Uuid) where
  -- `GetAIPPathActivity.Execute`.
  unfoldable pub get_aip_path : Uuid → Result String
  get_aip_path uuid = elim (env.get uuid) [
    | err e ↦ err ("GetAIPPath: get package: " +s e)
    | ok none ↦ err "GetAIPPath: package not found"
    | ok (some none) ↦ err "GetAIPPath: current_path not found in response"
    | ok (some (some path)) ↦ ok path
  ]

  -- The file is emptied when it is opened, and then written.
  unfoldable pub save : String → String → Files → Files × Option String
  save destination body files = elim (env.open_file destination) [
    | some e ↦ (files, some ("FetchActivity: create file: " +s e))
    | none ↦ (
      write destination (env.copy body).written files,
      elim (env.copy body).error [
        | some e ↦ some ("FetchActivity: write file: " +s e)
        | none ↦ none
      ],
    )
  ]

  -- `FetchActivity.Execute`: the files behind it, and its error.
  unfoldable pub fetch : FetchParams Uuid → Files → Files × Option String
  unfolding save
  fetch params files = elim (env.mkdir_all (FilePath.dir params.destination)) [
    | some e ↦ (files, some ("FetchActivity: create directory: " +s e))
    | none ↦ elim (env.download_file params.aip_uuid params.relative_path) [
      | err e ↦ (files, some ("FetchActivity: download file: " +s e))
      | ok none ↦ (files, some "FetchActivity: download file: empty response body")
      | ok (some body) ↦ save params.destination body files
    ]
  ]
