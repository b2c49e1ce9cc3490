-- ===== src/Tenancy/Notices.antt =====
-- The inbox as a log: what `notify_in_tx` adds and keeps.
use campus_os.Common.{◌≡◌, refl, false, List, [], ◌∷◌, ◌==◌, In, In-append_iff, arith, inl, inr}
use campus_os.Tenancy.{NotifyArgs, notify_in_tx}

-- What the inbox holds stays in it.
pub notify_keeps :
    (args : NotifyArgs) (inbox : List NotifyArgs) (n : NotifyArgs)
    → In n inbox
    → In n (notify_in_tx args inbox)
unfolding notify_in_tx
notify_keeps args inbox n h = ground (arith, In-append_iff n inbox (args ∷ []))

-- A notice to another person arrives.
pub notified :
    (args : NotifyArgs) (inbox : List NotifyArgs)
    → (args.actor_id == args.user_id) ≡ false
    → In args (notify_in_tx args inbox)
unfolding notify_in_tx
notified args inbox f = rw f ((In-append_iff args inbox (args ∷ [])).1 (inr (inl refl)))
