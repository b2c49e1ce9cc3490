-- ===== src/LostFound/Samples.antt =====
-- The lost and found at concrete states: an open item of reporter 1 with two pending claims.
use campus_os.Common.{
  ℕ, ◌+◌, ◌≤◌, ◌≡◌, refl, true, false, none, some, [], ◌∷◌, any, count, In, inl, ◌==◌, arith,
}
use campus_os.Core.Result.{ok}
use campus_os.Tenancy.{Context, claim_approved, item_resolved, notify_in_tx}
use campus_os.LostFound.{
  LostFoundItem, ItemKind, ItemStatus, LostFoundClaim, ClaimStatus, LostFound,
}
use campus_os.LostFound.Claims.{
  Joined, joined_claim, decide, resolved_item, decision_note, tell_denied, confirm_claim,
}
use campus_os.LostFound.Claims.Resolution.{approved_on, IsSettled}
use campus_os.LostFound.Claims.Settling.{confirm_claim_settles}
use campus_os.LostFound.Claims.Closing.{pending_on, confirm_claim_closes}
use campus_os.LostFound.History.{Move, Reach, never_given_twice}

abbrev reporter : Context
reporter = record { user_id = 1; tenant_id = 5; now = 100 }

abbrev umbrella : LostFoundItem
umbrella = record {
  id = 10;
  tenant_id = 5;
  reporter_id = 1;
  kind = ItemKind.found_item;
  title = b'U' ∷ [];
  status = ItemStatus.opened;
  resolved_via_claim_id = none;
  resolved_at = none;
  expires_at = none;
  expiry_notified_at = none;
  edited_at = none;
  deleted_at = none;
  created_at = 0;
}

abbrev claim_of : ℕ → ℕ → LostFoundClaim
claim_of id claimant = record {
  id = id;
  tenant_id = 5;
  item_id = 10;
  claimant_id = claimant;
  message = [];
  status = ClaimStatus.pending;
  decided_at = none;
  deleted_at = none;
  created_at = 50;
}

abbrev claimed : LostFound
claimed = record {
  items = umbrella ∷ [];
  photos = [];
  claims = claim_of 20 2 ∷ claim_of 21 3 ∷ [];
  messages = [];
  members = [];
  inbox = [];
}

claimed-IsSettled : IsSettled claimed
claimed-IsSettled = record {
  item_ids = (refl, tt);
  claim_ids = (refl, (refl, tt));
  settled = (omega arith, tt);
}

abbrev settled_state : LostFound
settled_state = record claimed {
  items = resolved_item 20 100 umbrella ∷ [];
  claims =
      decide ClaimStatus.approved 100 (claim_of 20 2)
      ∷ decide ClaimStatus.denied 100 (claim_of 21 3)
      ∷ [];
  inbox =
      decision_note reporter claim_approved umbrella 2
      ∷ decision_note reporter item_resolved umbrella 3
      ∷ [];
}

confirmed : confirm_claim reporter 20 claimed ≡ ok settled_state
unfolding confirm_claim joined_claim tell_denied notify_in_tx
confirmed = refl

never_given_twice_example : 1 + 0 ≤ 1
never_given_twice_example =
    never_given_twice claimed settled_state (resolved_item 20 100 umbrella) claimed-IsSettled
      (Reach.then_move claimed claimed settled_state (Reach.start claimed)
        (Move.confirms reporter 20 claimed settled_state confirmed))
      (inl refl)

abbrev claimed_join : Joined
claimed_join = record { claim = claim_of 20 2; item = umbrella }

joined : joined_claim reporter 20 claimed ≡ some claimed_join
unfolding joined_claim
joined = refl

confirm_claim_closes_example :
    (any (pending_on reporter 10) settled_state.claims ≡ false)
    × ((x : LostFoundClaim)
        → In x claimed.claims
        → pending_on reporter 10 x ≡ true
        → (x.id == 20) ≡ false
        → (1 == x.claimant_id) ≡ false
        → In (decision_note reporter item_resolved umbrella x.claimant_id) settled_state.inbox)
confirm_claim_closes_example =
    confirm_claim_closes reporter 20 claimed settled_state claimed_join joined confirmed

confirm_claim_settles_example :
    (s' : LostFound) × (confirm_claim reporter 20 claimed ≡ ok s')
    × (count (approved_on 10) s'.claims ≡ 1)
confirm_claim_settles_example =
    confirm_claim_settles reporter 20 claimed claimed_join claimed-IsSettled joined refl refl refl
