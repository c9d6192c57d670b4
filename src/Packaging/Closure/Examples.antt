-- ===== src/Packaging/Closure/Examples.antt =====
-- A closure of four libraries (package_accelerator.py), of which one is not needed.
use kapsl_integrations.Prelude.{
  String, true, List, [], ◌∷◌, ok, err, str_eq, if◌then◌else◌, ◌≡◌, ◌≢◌, refl,
}
use kapsl_integrations.Prelude.Texts.{after_prefix}
use kapsl_integrations.Prelude.Sorting.{sorted, insert}
use kapsl_integrations.Packaging.Closure.{
  CandidateLibrary, conflicting, unpackaged, exhausted, text_le, is_suffix, ends_in_so, after_one,
  no_line_break, is_driver_library, is_host_library, find, merge_candidates, each_once, push,
  resolve_loop, resolve_dependency_closure,
}
use kapsl_integrations.Packaging.Closure.Sound.{IsClosure, resolve_dependency_closure-IsClosure}
use kapsl_integrations.Packaging.Closure.Fuel.{resolve_dependency_closure_ends}

abbrev library : String → CandidateLibrary
library name = record { name = name; origin = "cuda"; sha256 = name }

abbrev candidates : List CandidateLibrary
candidates = library "a" ∷ library "b" ∷ library "c" ∷ library "d" ∷ []

-- `a` needs `b` and the driver, `b` needs `a` and `c`.
abbrev needed : CandidateLibrary → List String
needed c =
    if str_eq c.name "a"
    then "libcuda.so.1" ∷ "b" ∷ []
    else if str_eq c.name "b"
    then "c" ∷ "a" ∷ "libc.so.6" ∷ []
    else []

resolved : resolve_dependency_closure candidates needed ("a" ∷ []) ≡ ok ("c" ∷ "b" ∷ "a" ∷ [])
unfolding resolve_dependency_closure resolve_loop push sorted insert each_once find is_host_library
    is_driver_library is_suffix after_one ends_in_so no_line_break text_le after_prefix
resolved = refl

other_refused :
    resolve_dependency_closure candidates (λ c. "e" ∷ []) ("a" ∷ []) ≡ err (unpackaged "e")
unfolding resolve_dependency_closure resolve_loop push sorted insert each_once find is_host_library
    is_driver_library is_suffix after_one ends_in_so no_line_break text_le after_prefix
other_refused = refl

driver_known : is_driver_library "libnvidia-ml.so.1" ≡ true
unfolding is_driver_library is_suffix after_one ends_in_so no_line_break after_prefix
driver_known = refl

conflict_refused :
    merge_candidates [] (library "a" ∷ record (library "a") { sha256 = "b" } ∷ [])
    ≡ err (conflicting "a")
unfolding merge_candidates find
conflict_refused = refl

resolve_dependency_closure-IsClosure_example :
    IsClosure candidates needed ("a" ∷ []) ("c" ∷ "b" ∷ "a" ∷ [])
resolve_dependency_closure-IsClosure_example =
    resolve_dependency_closure-IsClosure candidates needed ("a" ∷ []) ("c" ∷ "b" ∷ "a" ∷ [])
      resolved

resolve_dependency_closure_ends_example :
    resolve_dependency_closure candidates needed ("a" ∷ []) ≢ err exhausted
resolve_dependency_closure_ends_example =
    resolve_dependency_closure_ends candidates needed ("a" ∷ [])
