-- ===== src/Packaging/Closure.antt =====
-- The runtime closure of package_accelerator.py: `merge_candidates`, `is_host_library` and
-- `resolve_dependency_closure`. What an ELF file needs is a parameter, as in the code.
pub mod Sound
pub mod Fuel
pub mod Examples
use Prim.Native.Char.{Char, code}
use kapsl_integrations.Prelude.{
  ℕ, zero, suc, String, Bool, true, false, not, ◌&&◌, ◌||◌, Option, none, some, List, [], ◌∷◌, ◌++◌,
  Result, ok, err, str_eq, ltb, ◌==◌, length, if◌then◌else◌, ◌>>=◌,
}
use kapsl_integrations.Prelude.Texts.{after_prefix}
use kapsl_integrations.Prelude.Sorting.{sorted, contains}

pub record CandidateLibrary : Type 0 where
  pub name : String
  pub origin : String
  pub sha256 : String

-- `exhausted` is the end of the fuel.
pub data PackageError : Type 0 where
  conflicting missing unpackaged : String → PackageError
  exhausted : PackageError

-- Python's order of texts, by code points.
unfoldable pub text_le : String → String → Bool
text_le String.[] t = true
text_le (String.◌∷◌ c s) String.[] = false
text_le (String.◌∷◌ c s) (String.◌∷◌ d t) =
    let rest = text_le s t in
    if ltb (code c) (code d) then true else if code c == code d then rest else false

abbrev pub text_ge : String → String → Bool
text_ge s t = text_le t s

-- `.*` of a regular expression: no line break.
unfoldable pub no_line_break : String → Bool
no_line_break String.[] = true
no_line_break (String.◌∷◌ c s) = not (code c == 10) && no_line_break s

-- `(?:\..*)?`
unfoldable pub is_suffix : String → Bool
unfolding no_line_break
is_suffix String.[] = true
is_suffix (String.◌∷◌ c s) = code c == 46 && no_line_break s

abbrev pub is_so_suffix : Option String → Bool
is_so_suffix none = false
is_so_suffix (some rest) = is_suffix rest

-- `[^/]*\.so(?:\..*)?`
unfoldable pub ends_in_so : String → Bool
unfolding is_suffix
ends_in_so String.[] = false
ends_in_so (String.◌∷◌ c s) =
    is_so_suffix (after_prefix ".so" (String.◌∷◌ c s)) || (not (code c == 47) && ends_in_so s)

-- `[^/]+\.so(?:\..*)?`
unfoldable pub after_one : Option String → Bool
unfolding ends_in_so
after_one none = false
after_one (some String.[]) = false
after_one (some (String.◌∷◌ c s)) = not (code c == 47) && ends_in_so s

unfoldable pub is_driver_library : String → Bool
unfolding is_suffix after_one
is_driver_library name =
    is_so_suffix (after_prefix "libcuda.so" name) || after_one (after_prefix "libnvidia-" name)

abbrev pub allowed_system_libraries : List String
allowed_system_libraries =
    "ld-linux-x86-64.so.2" ∷ "libatomic.so.1" ∷ "libc.so.6" ∷ "libdl.so.2" ∷ "libgcc_s.so.1"
    ∷ "libgomp.so.1" ∷ "libm.so.6" ∷ "libpthread.so.0" ∷ "libresolv.so.2" ∷ "librt.so.1"
    ∷ "libstdc++.so.6" ∷ "libutil.so.1" ∷ []

unfoldable pub is_host_library : String → Bool
is_host_library name = contains str_eq allowed_system_libraries name || is_driver_library name

unfoldable pub find : List CandidateLibrary → String → Option CandidateLibrary
find [] name = none
find (c ∷ cs) name = if str_eq c.name name then some c else find cs name

abbrev pub is_candidate : Option CandidateLibrary → Bool
is_candidate none = false
is_candidate (some c) = true

-- `merge_candidates` of the groups, one after the other, on the result so far, in its order.
unfoldable pub merge_candidates :
    List CandidateLibrary → List CandidateLibrary → Result PackageError (List CandidateLibrary)
unfolding find
merge_candidates merged [] = ok merged
merge_candidates merged (c ∷ cs) = elim (find merged c.name) [
  | none ↦ merge_candidates (merged ++ c ∷ []) cs
  | some existing ↦
      if str_eq existing.sha256 c.sha256
      then merge_candidates merged cs
      else err (conflicting c.name)
]

-- `set(names)`, each once.
unfoldable pub each_once : List String → List String
each_once [] = []
each_once (x ∷ xs) = let rest = each_once xs in if contains str_eq rest x then rest else x ∷ rest

-- The list that `pop` takes from has its last element first here.
module _ (candidates : List CandidateLibrary) (needed : CandidateLibrary → List String) where
  unfoldable pub push : List String → List String → List String → Result PackageError (List String)
  unfolding find
  push selected pending [] = ok pending
  push selected pending (dependency ∷ rest) =
      let skipped = push selected pending rest in
      let pushed = push selected (dependency ∷ pending) rest in
      if is_host_library dependency || contains str_eq selected dependency
      then skipped
      else if not (is_candidate (find candidates dependency))
      then err (unpackaged dependency)
      else pushed

  abbrev pub dependencies : CandidateLibrary → List String
  dependencies c = sorted text_ge (each_once (needed c))

  -- The loop; each library that is selected takes one unit of the fuel.
  unfoldable pub resolve_loop : ℕ → List String → List String → Result PackageError (List String)
  unfolding push sorted each_once
  resolve_loop fuel selected [] = ok selected
  resolve_loop zero selected (name ∷ pending) =
      let rest = resolve_loop zero selected pending in
      if contains str_eq selected name
      then rest
      else elim (find candidates name) [ none ↦ err (missing name) | some c ↦ err exhausted ]
  resolve_loop (suc fuel) selected (name ∷ pending) =
      let rest = resolve_loop (suc fuel) selected pending in
      if contains str_eq selected name then rest else elim (find candidates name) [
        | none ↦ err (missing name)
        | some c ↦ push (name ∷ selected) pending (dependencies c) >>= λ later.
            resolve_loop fuel (name ∷ selected) later
      ]

  unfoldable pub resolve_dependency_closure : List String → Result PackageError (List String)
  unfolding resolve_loop sorted each_once
  resolve_dependency_closure roots =
      resolve_loop (length candidates) [] (sorted text_le (each_once roots))
