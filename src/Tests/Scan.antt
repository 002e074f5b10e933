-- ===== src/Tests/Scan.antt =====
-- The channels of a scan, run.
use u.Common.{◌≡◌, refl, [], ◌∷◌}
use u.Scan.{is_permitted, scanned_channels}

scanned_channels_run : scanned_channels 20 0 ≡ 1 ∷ 2 ∷ 3 ∷ 4 ∷ 5 ∷ 6 ∷ 7 ∷ 8 ∷ 9 ∷ 10 ∷ 11 ∷ []
unfolding scanned_channels is_permitted
scanned_channels_run = refl
