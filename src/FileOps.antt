-- ===== src/FileOps.antt =====
-- What the activities change in the file tree: the calls of Go's `os` and of the fsutil package of
-- go.artefactual.dev/tools. A step sees the calls so far, the oldest first, and goes on with a value,
-- returns an error, or panics.
pub mod Follows
pub mod Succeeds
use preprocessing_sfa.Prelude.{String, Bool, Option, none, some, List, [], ◌∷◌, ◌++◌}
use preprocessing_sfa.Prelude.Text.{◌+s◌}
use preprocessing_sfa.FileSystem.{Fs, Result, ok, err}

pub data Op : Type 0 where
  mkdir_all : (path : String) → Op
  -- `fsutil.Move`.
  move : (source target : String) → Op
  remove_all : (path : String) → Op
  remove : (path : String) → Op
  -- `fsutil.SetFileModes` with 0o700 for directories and 0o600 for files.
  set_file_modes : (path : String) → Op

pub record Env : Type 0 where
  pub fs : Fs
  -- The names of the entries that `os.ReadDir` returns.
  pub read_dir : String → Result (List String)
  -- The error of a call, if there is one, behind the calls before it.
  pub answer : List Op → Op → Option String

pub data Outcome {ℓ} (A : Type ℓ) : Type ℓ where
  done : A → Outcome A
  refused : String → Outcome A
  crashed : Outcome A

abbrev pub Steps : Type 0 → Type 0
Steps A = List Op → Outcome A × List Op

module _ {A B : Type 0} where
  abbrev pub continue : Outcome A → (A → Steps B) → Steps B
  continue (done a) f log = f a log
  continue (refused e) f log = (refused e, log)
  continue crashed f log = (crashed, log)

  infixl 5 ◌>>=◌ ◌>>◌
  unfoldable pub ◌>>=◌ : Steps A → (A → Steps B) → Steps B
  ◌>>=◌ m f log = let (x, log') = m log in continue x f log'

  abbrev pub ◌>>◌ : Steps A → Steps B → Steps B
  m >> n = m >>= λ _. n

module _ {A : Type 0} where
  abbrev pub pure : A → Steps A
  pure a log = (done a, log)

  abbrev pub fail : String → Steps A
  fail e log = (refused e, log)

  abbrev pub crash : Steps A
  crash log = (crashed, log)

-- `if err != nil { return nil, fmt.Errorf("...: %v", err) }`.
abbrev pub or_fail : String → Option String → Steps (Unit {0})
or_fail prefix none = pure tt
or_fail prefix (some e) = fail (prefix +s e)

module _ (env : Env) where
  -- A call, with its error.
  abbrev pub call : Op → Steps (Option String)
  call op log = (done (env.answer log op), log ++ op ∷ [])

  -- A call that has to succeed.
  abbrev pub perform : String → Op → Steps (Unit {0})
  perform prefix op = call op >>= or_fail prefix
