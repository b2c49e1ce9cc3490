-- ===== src/Communities/RuleSamples.antt =====
-- Blocks, gates and filter rules at concrete states.
use campus_os.Common.{Text, List, [], ◌∷◌, ◌≡◌, refl, true, none, some, [], ◌∷◌, pos}
use campus_os.Core.Result.{ok, is_err}
use campus_os.Tenancy.{Context}
use campus_os.Communities.Access.{can_in_community}
use campus_os.Tenancy.{Block}
use campus_os.Rides.{RidePost, RideKind, RideStatus, Rides}
use campus_os.Rides.Seats.{request_seat}
use campus_os.Communities.Blocks.{new_block, block_user}
use campus_os.Communities.Blocks.Effects.{blocked_seat_requests}
use campus_os.Common.{any, not, ◌&&◌, ◌==◌, ◌↔◌, ◌⊎◌, ◌≤◌}
use campus_os.Core.Rbac.{communities_moderate}
use campus_os.Communities.Gates.{
  GateAction, CommunityGates, GateFloor, KarmaRow, account_age_days, public_karma_of, check_gate,
}
use campus_os.Communities.Gates.Floors.{HasKarma, check_gate_iff}
use campus_os.Communities.Automod.{RuleKind, RuleAction, AutomodRule, removes, hit, screen}
use campus_os.Communities.Automod.Verdicts.{is_removal, passes, screen_outranks}

abbrev voter : Context
voter = record { user_id = 2; tenant_id = 5; now = 1000 }

abbrev neighbour : Context
neighbour = record { user_id = 3; tenant_id = 5; now = 1000 }

abbrev blocked_pair : List Block
blocked_pair = new_block voter 3 ∷ []

blocked : block_user voter 3 (3 ∷ []) [] ≡ ok blocked_pair
unfolding block_user
blocked = refl

abbrev a_ride : RidePost
a_ride = record {
  id = 50;
  tenant_id = 5;
  author_id = 2;
  kind = RideKind.offer;
  origin_text = [];
  dest_text = [];
  seats_total = some 2;
  seats_available = some 2;
  status = RideStatus.active;
  cancelled_at = none;
  hidden_at = none;
  removed_at = none;
  removed_by = none;
  removal_reason = none;
  updated_at = 0;
}

abbrev rides : Rides
rides = record {
  posts = a_ride ∷ [];
  requests = [];
  members = [];
  blocks = blocked_pair;
  inbox = [];
}

blocked_seat_requests_example :
    (2 ≡ voter.user_id → is_err (request_seat neighbour 60 50 rides) ≡ true)
    × (2 ≡ neighbour.user_id → is_err (request_seat voter 60 50 rides) ≡ true)
blocked_seat_requests_example =
    blocked_seat_requests voter neighbour (3 ∷ []) [] 60 50 rides a_ride blocked refl refl

abbrev strict_gates : CommunityGates
strict_gates = record {
  min_karma_to_post = 10;
  min_karma_to_comment = 0;
  min_karma_to_join = 0;
  min_account_age_days = 0;
  require_verified = true;
}

abbrev low_floor : GateFloor
low_floor = record {
  floor_min_karma = 5;
  floor_account_age_days = 0;
  floor_require_verified = true;
}

abbrev karma_rows : List KarmaRow
karma_rows = record { tenant_id = 5; user_id = 2; karma = pos 12 } ∷ []

check_gate_iff_example :
    (check_gate voter 7 strict_gates low_floor GateAction.write_post [] karma_rows [] ≡ none) ↔ (
      (can_in_community [] voter 7 communities_moderate ≡ true)
      ⊎ (HasKarma 10 (public_karma_of karma_rows voter)
          × HasKarma 5 (public_karma_of karma_rows voter)
          × 0 ≤ account_age_days [] voter
          × 0 ≤ account_age_days [] voter))
check_gate_iff_example =
    check_gate_iff voter 7 strict_gates low_floor GateAction.write_post [] karma_rows []

abbrev word_rule : RuleAction → AutomodRule
word_rule action = record {
  community_id = 7;
  kind = RuleKind.keyword;
  pattern = b's' ∷ b'p' ∷ [];
  action = action;
}

abbrev rules : List AutomodRule
rules = word_rule RuleAction.queue ∷ word_rule RuleAction.remove ∷ []

abbrev spam : Text
spam = b's' ∷ b'p' ∷ b'a' ∷ b'm' ∷ []

screen_outranks_example :
    (is_removal (screen (λ t. t) spam none 7 rules)
      ≡ any (λ r. (r.community_id == 7) && (hit (λ t. t) spam none r && removes r.action)) rules)
    × (passes (screen (λ t. t) spam none 7 rules)
        ≡ not (any (λ r. (r.community_id == 7) && hit (λ t. t) spam none r) rules))
screen_outranks_example = screen_outranks (λ t. t) spam none 7 rules
