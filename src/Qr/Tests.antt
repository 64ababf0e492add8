-- ===== src/Qr/Tests.antt =====
-- The picture of a code of two by two modules.
use titan_share.Prelude.{◌+◌, ◌*◌, ◌≡◌, refl, true, [], ◌∷◌}
use titan_share.Qr.{QrCode, is_dark}

abbrev code : QrCode
code = record { width = 2; modules = 1 ∷ 0 ∷ 2 ∷ 3 ∷ [] }

last_is_dark : is_dark code (1 * code.width + 1) ≡ true
unfolding is_dark
last_is_dark = refl
