-- ===== src/Tenancy.antt =====
-- What every transaction of the modules reads of the tenant around it: packages/db/src/tenant-context.ts
-- (`withActorInTenant`), the memberships, the blocks and the notification seam.
-- Ids, tenants and instants are numbers; an instant is milliseconds.
pub mod Notices
use campus_os.Common.{
  Text, ℕ, Bool, true, false, ◌&&◌, ◌||◌, Option, none, some, List, [], ◌∷◌, ◌++◌, leb, ◌==◌,
  if◌then◌else◌, any,
}

-- The context that `withActorInTenant` sets, with the instant that `now()` gives inside.
pub record Context : Type 0 where
  pub user_id : ℕ
  pub tenant_id : ℕ
  pub now : ℕ

pub data MembershipStatus : Type 0 where
  active restricted suspended : MembershipStatus

pub record Membership : Type 0 where
  pub user_id : ℕ
  pub tenant_id : ℕ
  pub verified_at : Option ℕ
  pub status : MembershipStatus
  pub standing_until : Option ℕ

abbrev pub is_present : Option ℕ → Bool
is_present none = false
is_present (some t) = true

abbrev pub is_active : MembershipStatus → Bool
is_active active = true
is_active restricted = false
is_active suspended = false

abbrev pub has_passed : ℕ → Option ℕ → Bool
has_passed now none = false
has_passed now (some t) = leb t now

-- packages/modules/rides/src/access.ts (and its copies in the other modules).
unfoldable pub is_verified_member : List Membership → ℕ → ℕ → ℕ → Bool
is_verified_member members now user tenant =
    any
      (λ m.
        (m.user_id == user)
        && ((m.tenant_id == tenant)
            && (is_present m.verified_at
                && (is_active m.status || has_passed now m.standing_until))))
      members

pub record Block : Type 0 where
  pub tenant_id : ℕ
  pub blocker_id : ℕ
  pub blocked_id : ℕ

-- The `auth_blocked_between` definer: a block either way, for the acting user.
unfoldable pub blocked_between : List Block → Context → ℕ → Bool
blocked_between blocks ctx other =
    any
      (λ b.
        (b.tenant_id == ctx.tenant_id)
        && (((b.blocker_id == ctx.user_id) && (b.blocked_id == other))
            || ((b.blocker_id == other) && (b.blocked_id == ctx.user_id))))
      blocks

-- The view public_profiles of the people.
pub record Profile : Type 0 where
  pub user_id : ℕ
  pub handle : Option Text
  pub avatar_seed : Option Text

abbrev pub handle_of : Option Profile → Option Text
handle_of none = none
handle_of (some p) = p.handle

abbrev pub seed_of : Option Profile → Option Text
seed_of none = none
seed_of (some p) = p.avatar_seed

pub data Kind : Type 0 where
  seat_requested seat_accepted seat_declined ride_cancelled : Kind
  claim_opened claim_message claim_approved claim_denied item_resolved : Kind
  message_request message_accepted order_update : Kind

-- `payload` holds the texts of the inbox line, `link` the object that it opens, which is
-- 0 for a link to all messages.
pub record NotifyArgs : Type 0 where
  pub user_id : ℕ
  pub kind : Kind
  pub payload : List Text
  pub link : ℕ
  pub actor_id : ℕ

-- packages/modules/notifications/src/notify.ts with its definer: what one does to oneself is not
-- told. The inbox is a log, newest last.
unfoldable pub notify_in_tx : NotifyArgs → List NotifyArgs → List NotifyArgs
notify_in_tx args inbox = if args.actor_id == args.user_id then inbox else inbox ++ args ∷ []
