-- ===== src/Ats/Tests.antt =====
-- The ATS of an emulated card, at load and on air.
use dfc_flipper.Base.{ℕ, ◌≡◌, refl, true, List, [], ◌∷◌, arith}
use dfc_flipper.Ats.{ats_is_radio_supported, set_listener_ats, check_ta, check_tb, check_tc}
use dfc_flipper.Ats.RoundTrip.{IsDeliverable, radio_supported-IsDeliverable}

abbrev default_ats : List ℕ
default_ats = 0x06 ∷ 0x75 ∷ 0x00 ∷ 0x81 ∷ 0x02 ∷ 0x80 ∷ []

default_ats-supported : ats_is_radio_supported default_ats ≡ true
unfolding ats_is_radio_supported check_ta check_tb check_tc
default_ats-supported = refl

radio_supported-IsDeliverable_example : IsDeliverable default_ats (set_listener_ats default_ats)
radio_supported-IsDeliverable_example =
    radio_supported-IsDeliverable default_ats (λ h. omega (arith, h)) default_ats-supported
