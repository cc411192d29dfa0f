-- ===== src/Tests/Packages.antt =====
-- Questions about packages, at concrete ones.
use codasaurus.Registry
use codasaurus.Registry.{Checked, ok, err, Cache, check_package_async}
use codasaurus.Registry.Cached.{check_package_async-again, check_package_async-offline}
use codasaurus.Registry.Sized.{Query, Fits, ask_all, ask_all-Fits}
use codasaurus.Prelude.{
  ℕ, ◌+◌, String, Text, codes, str_eq, text_eq, List, [], ◌∷◌, none, some, Bool, true, false,
  if◌then◌else◌, ◌≡◌, refl, arith,
}

-- A registry that has one package, and one that is down.
abbrev npm_only : String → Text → Checked
npm_only registry pkg =
    if str_eq registry "npm" then ok (some (text_eq pkg (codes "left-pad"))) else err

abbrev down : String → Text → Checked
down registry pkg = err

abbrev asked_at : (String → Text → Checked) → ℕ → Bool → String → String → Query
asked_at f moment offline registry pkg = record {
  fetch = f;
  ttl = 3_600;
  offline = offline;
  now = moment;
  later = moment + 1;
  registry = registry;
  pkg = codes pkg;
}

abbrev questions : List Query
questions =
    asked_at npm_only 5 false "npm" "left-pad"
    ∷ asked_at npm_only 6 false "pypi" "left-pad"
    ∷ asked_at down 9_000 true "npm" "left-pad"
    ∷ asked_at down 9_001 false "npm" "left-pad"
    ∷ []

-- The answer of the first question is forgotten only when a registry fails, later, online.
questions_answered :
    ask_all questions []
    ≡ (codes "npm:left-pad", (Registry.soft_fail, 9_002))
      ∷ (codes "pypi:left-pad", (Registry.soft_fail, 7))
      ∷ []
unfolding ask_all check_package_async Registry.cached Registry.store
questions_answered = refl

ask_all-Fits_example : Fits (ask_all questions [])
ask_all-Fits_example = ask_all-Fits questions

check_package_async-again_example :
    ((check_package_async down 3_600 false 5 6 "npm" (codes "left-pad") []).0 ≡ err)
    × (check_package_async npm_only 3_600 true 100 101 "npm"
          (codes "left-pad")
          (check_package_async down 3_600 false 5 6 "npm" (codes "left-pad") []).1
        ≡ (ok none, (check_package_async down 3_600 false 5 6 "npm" (codes "left-pad") []).1))
unfolding Registry.cached
check_package_async-again_example =
    check_package_async-again down npm_only 3_600 5 6 "npm" (codes "left-pad") [] true 100 101 refl
      refl (omega arith) (omega arith) (omega arith)

check_package_async-offline_example :
    (check_package_async npm_only 3_600 true 5 6 "npm" (codes "left-pad") []
      ≡ check_package_async down 3_600 true 5 6 "npm" (codes "left-pad") [])
    × ((check_package_async npm_only 3_600 true 5 6 "npm" (codes "left-pad") []).1 ≡ [])
check_package_async-offline_example =
    check_package_async-offline npm_only down 3_600 5 6 "npm" (codes "left-pad") []
