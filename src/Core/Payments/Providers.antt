-- ===== src/Core/Payments/Providers.antt =====
-- What the providers remember of a charge.
use campus_os.Common.{Text, same_text, same_text_refl, ◌≡◌, false, some, List, arith}
use campus_os.Core.Payments.{ChargeRequest, Charge, ChargeStatus, fake_provider}

-- A charge of the fake provider can be read back under its reference, settled and with the amount
-- asked, and every other reference reads as before.
pub get_charge-create_charge :
    (req : ChargeRequest) (s s' : List Charge) (c : Charge)
    → fake_provider.create_charge req s ≡ some (c, s')
    → (fake_provider.get_charge req.reference s' ≡ some c)
      × (c.status ≡ ChargeStatus.settled)
      × (c.amount_paisa ≡ req.amount_paisa)
      × ((ref : Text)
          → same_text req.reference ref ≡ false
          → fake_provider.get_charge ref s' ≡ fake_provider.get_charge ref s)
unfolding fake_provider
get_charge-create_charge req s s' c h = ground (arith, same_text_refl req.reference)
