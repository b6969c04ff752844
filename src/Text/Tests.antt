-- ===== src/Text/Tests.antt =====
-- UTF-16 at concrete texts.
use rust_usb.Base.{◌≡◌, refl, [], ◌∷◌}
use rust_usb.Text.{from_utf16_lossy}

-- A letter, a character beyond 0xFFFF, and a letter.
-- Two high surrogates, the second of them the first half of a pair; then a lone low one.
lone_surrogates :
    from_utf16_lossy (0xD83D ∷ 0xD83D ∷ 0xDD0C ∷ 0xDD0C ∷ []) ≡ 0xFFFD ∷ 0x1F50C ∷ 0xFFFD ∷ []
unfolding from_utf16_lossy
lone_surrogates = refl
