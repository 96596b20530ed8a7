-- ===== src/FilePath.antt =====
-- Go's `path/filepath` on Unix: Clean, Join, Base, Dir and Rel, over "/"-separated components.
pub mod Plain
pub mod Names
use preprocessing_sfa.Prelude.{
  String, Bool, ◌&&◌, ◌||◌, not, Option, none, some, List, [], ◌∷◌, ◌++◌, reverse,
}
use preprocessing_sfa.Prelude.Text.{◌==◌, ◌+s◌, if◌then◌else◌, join_with, split_slash}
use text.Mathlib.Text.{starts_with}

-- One element of `Clean`'s loop; the stack has its top at the head.
clean_step : Bool → List String → String → List String
clean_step rooted stack part =
    if part == "" || part == "."
    then stack
    else if part == ".."
    then (elim stack [
      | [] ↦ if rooted then [] else ".." ∷ []
      | top ∷ rest ↦ if top == ".." then ".." ∷ top ∷ rest else rest
    ])
    else part ∷ stack

pub clean_from : Bool → List String → List String → List String
clean_from rooted stack [] = reverse stack
clean_from rooted stack (part ∷ parts) = clean_from rooted (clean_step rooted stack part) parts

pub is_rooted : String → Bool
is_rooted path = starts_with path "/"

-- The components of the cleaned path.
unfoldable pub components : String → List String
unfolding clean_from clean_step is_rooted split_slash
components path = clean_from (is_rooted path) [] (split_slash path)

-- `filepath.Clean`.
unfoldable pub clean : String → String
unfolding components join_with is_rooted
clean path =
    let body = join_with "/" (components path) in
    if is_rooted path then "/" +s body else if body == "" then "." else body

-- `filepath.Join`: leading empty elements are dropped, and no element at all is "".
unfoldable pub join : List String → String
unfolding clean
join [] = ""
join (s ∷ rest) = let tail = join rest in if s == "" then tail else clean (join_with "/" (s ∷ rest))

last_nonempty : String → List String → String
last_nonempty found [] = found
last_nonempty found (part ∷ parts) = last_nonempty (if part == "" then found else part) parts

-- `filepath.Base`.
unfoldable pub base : String → String
unfolding last_nonempty split_slash
base path = if path == "" then "." else last_nonempty "/" (split_slash path)

-- All parts but the last, each with its slash.
up_to_last_slash : List String → String
up_to_last_slash [] = ""
up_to_last_slash (part ∷ []) = ""
up_to_last_slash (part ∷ next ∷ parts) = part +s "/" +s up_to_last_slash (next ∷ parts)

-- `filepath.Dir`.
unfoldable pub dir : String → String
unfolding clean up_to_last_slash split_slash
dir path = clean (up_to_last_slash (split_slash path))

climb : List String → List String
climb [] = []
climb (part ∷ parts) = ".." ∷ climb parts

-- What is left of the base and of the target behind their common prefix.
rel_from : List String → List String → Option String
rel_from [] ts = some (join_with "/" ts)
rel_from (b ∷ bs) [] = if b == ".." then none else some (join_with "/" (climb (b ∷ bs)))
rel_from (b ∷ bs) (t ∷ ts) =
    let rest = rel_from bs ts in
    if b == t
    then rest
    else if b == ".."
    then none
    else some (join_with "/" (climb (b ∷ bs) ++ t ∷ ts))

-- `filepath.Rel`; `none` is its error.
unfoldable pub rel : String → String → Option String
unfolding rel_from climb clean components is_rooted join_with
rel from to =
    if clean from == clean to
    then some "."
    else if (is_rooted from && not (is_rooted to)) || (not (is_rooted from) && is_rooted to)
    then none
    else rel_from (components from) (components to)
