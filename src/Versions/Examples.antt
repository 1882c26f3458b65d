-- ===== src/Versions/Examples.antt =====
-- Versions that are compared.
use burmilla_os.Base.{◌≡◌, ◌↔◌, codes, refl}
use burmilla_os.Strings.{split}
use burmilla_os.Versions.Atoi.{atoi}
use burmilla_os.Versions.{less, equal, greater, compare}
use burmilla_os.Versions.Order.{compare_less_iff, Below, version_part}

compare_runs :
    (compare (codes "1.9") (codes "1.10") ≡ less)
    × (compare (codes "1.0") (codes "1") ≡ equal)
    × (compare (codes "2.0") (codes "1.12.3") ≡ greater)
unfolding compare split atoi
compare_runs = (refl, refl, refl)

compare_less_iff_example :
    (compare (codes "1.9") (codes "1.10") ≡ less)
    ↔ Below (version_part (codes "1.9")) (version_part (codes "1.10"))
compare_less_iff_example = compare_less_iff (codes "1.9") (codes "1.10")
