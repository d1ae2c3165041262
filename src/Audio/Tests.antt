-- ===== src/Audio/Tests.antt =====
-- A congested queue takes the rate down after five frames.
use conest.Base.{ℕ, ◌≡◌, refl, List, [], ◌∷◌}
use conest.Audio.{default, rates, observe, max_bitrate}
use conest.Audio.Rates.{Steps, rates-default-Steps}

abbrev congested : List ℕ
congested = 9 ∷ 8 ∷ 12 ∷ 8 ∷ 10 ∷ 1 ∷ 8 ∷ 8 ∷ 8 ∷ 8 ∷ 5 ∷ 8 ∷ 8 ∷ 8 ∷ 8 ∷ 8 ∷ []

falls : rates congested default ≡ 24000 ∷ 16000 ∷ []
unfolding rates observe
falls = refl

rates-default-Steps_example : Steps max_bitrate (rates congested default)
rates-default-Steps_example = rates-default-Steps congested
