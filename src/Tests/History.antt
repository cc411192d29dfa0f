-- ===== src/Tests/History.antt =====
-- The history of changed paths, at concrete ones.
use codasaurus.Related
use codasaurus.Related.{select_paths_for_related, path_signal_score}
use codasaurus.Related.Chosen.{IsSelection, select_paths_for_related-IsSelection}
use codasaurus.Prelude.{Text, codes, List, [], ◌∷◌, map, sort_by, ◌≡◌, refl}

abbrev touched : List Text
touched =
    codes "README.md"
    ∷ codes "src/db.rs"
    ∷ codes "package-lock.json"
    ∷ codes "src/auth/login.rs"
    ∷ codes "web/a.md"
    ∷ codes "src/db.rs"
    ∷ []

scores : map path_signal_score touched ≡ 1 ∷ 40 ∷ 0 ∷ 57 ∷ 4 ∷ 40 ∷ []
unfolding path_signal_score Related.is_low_signal_path Related.is_meta_churn_path
    Related.looks_security_sensitive
scores = refl

-- The best path of each root comes first, and then the rest by score.
chosen_three :
    select_paths_for_related touched 3
    ≡ codes "src/auth/login.rs" ∷ codes "web/a.md" ∷ codes "src/db.rs" ∷ []
unfolding select_paths_for_related path_signal_score Related.is_low_signal_path
    Related.is_meta_churn_path Related.looks_security_sensitive Related.top_level_root sort_by
chosen_three = refl

select_paths_for_related-IsSelection_example :
    IsSelection 6 touched (select_paths_for_related touched 6)
select_paths_for_related-IsSelection_example = select_paths_for_related-IsSelection touched 6
