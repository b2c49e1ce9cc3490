-- ===== src/LostFound/History.antt =====
-- Histories of the lost and found: any order of claims, decisions and changes of items, one
-- transaction at a time, by any people.
use campus_os.Common.{
  Text, ℕ, ◌+◌, ◌≤◌, ◌≡◌, refl, Bool, true, false, map, includes, count, any, In, arith, All_In,
  update_where, one_if, All-update_where-In, map-update_where, Bool-cases, inl, inr,
}
use campus_os.Core.Result.{ok}
use campus_os.Tenancy.{Context}
use campus_os.LostFound.{LostFoundItem, LostFound, is_open}
use campus_os.LostFound.Items.{
  own_open, withdrawn_item, delete_item_photo_rows, withdraw_item, extended, extend_item, expires,
  expired_item, expire_open_items,
}
use campus_os.LostFound.Claims.{open_claim, confirm_claim, reject_claim, withdraw_claim}
use campus_os.LostFound.Claims.Resolution.{approved_on, Settled, IsSettled, open_claim-IsSettled}
use campus_os.LostFound.Claims.Confirming.{confirm_claim-IsSettled}
use campus_os.LostFound.Claims.Closing.{reject_claim-IsSettled, withdraw_claim-IsSettled}

-- Items that are changed, and not opened, stay settled.
items_close-IsSettled :
    (s : LostFound) (p : LostFoundItem → Bool) (f : LostFoundItem → LostFoundItem)
    → ((i : LostFoundItem) → (f i).id ≡ i.id)
    → ((i : LostFoundItem) → is_open (f i).status ≡ true → is_open i.status ≡ true)
    → IsSettled s
    → IsSettled (record s { items = update_where p f s.items })
items_close-IsSettled s p f h k v = record {
  item_ids = rw (map-update_where (λ (i : LostFoundItem). i.id) p f s.items h) v.item_ids;
  claim_ids = v.claim_ids;
  settled =
      All-update_where-In (Settled s.claims) p f s.items
        (λ x m t. rw (h x) (ground (arith, k x, All_In (Settled s.claims) s.items x v.settled m)))
        (λ x m t. All_In (Settled s.claims) s.items x v.settled m);
}

withdraw_item-IsSettled :
    (ctx : Context) (item : ℕ) (s : LostFound)
    → IsSettled s
    → IsSettled (withdraw_item ctx item s).2
unfolding withdraw_item delete_item_photo_rows
withdraw_item-IsSettled ctx item s v = elim (Bool-cases (any (own_open ctx item) s.items)) [
  | inr f ↦ rw (f, withdraw_item) v
  | inl t ↦
      rw (t, withdraw_item)
        (let kept =
            items_close-IsSettled s (own_open ctx item) (withdrawn_item ctx.now) (λ i. refl)
              (λ i h. (ground arith)) v in
          record { item_ids = kept.item_ids; claim_ids = kept.claim_ids; settled = kept.settled })
]

extend_item-IsSettled :
    (ctx : Context) (item days : ℕ) (s : LostFound)
    → IsSettled s
    → IsSettled (extend_item ctx item days s).1
unfolding extend_item
extend_item-IsSettled ctx item days s v =
    items_close-IsSettled s (own_open ctx item) (extended ctx.now days) (λ i. refl) (λ i h. h) v

expire_open_items-IsSettled :
    (tenant now : ℕ) (s : LostFound) → IsSettled s → IsSettled (expire_open_items tenant now s).1
unfolding expire_open_items
expire_open_items-IsSettled tenant now s v =
    items_close-IsSettled s (expires tenant now) expired_item (λ i. refl) (λ i h. (ground arith)) v

-- One transaction that commits. The id of a new claim is fresh.
pub data Move : LostFound → LostFound → Type 0 where
  claims :
      (ctx : Context) (fresh item i : ℕ) (message : Text) (s s' : LostFound)
      → includes (map (λ c. c.id) s.claims) fresh ≡ false
      → open_claim ctx fresh item message s ≡ ok (i, s')
      → Move s s'
  confirms : (ctx : Context) (k : ℕ) (s s' : LostFound) → confirm_claim ctx k s ≡ ok s' → Move s s'
  rejects : (ctx : Context) (k : ℕ) (s s' : LostFound) → reject_claim ctx k s ≡ ok s' → Move s s'
  gives_up : (ctx : Context) (k : ℕ) (s s' : LostFound) → withdraw_claim ctx k s ≡ ok s' → Move s s'
  withdraws_item : (ctx : Context) (item : ℕ) (s : LostFound) → Move s (withdraw_item ctx item s).2
  extends_item :
      (ctx : Context) (item days : ℕ) (s : LostFound) → Move s (extend_item ctx item days s).1
  sweeps : (tenant now : ℕ) (s : LostFound) → Move s (expire_open_items tenant now s).1

pub data Reach : LostFound → LostFound → Type 0 where
  start : (s : LostFound) → Reach s s
  then_move : (s t u : LostFound) → Reach s t → Move t u → Reach s u

Move-IsSettled : (s s' : LostFound) → IsSettled s → Move s s' → IsSettled s'
Move-IsSettled _ _ v (claims ctx fresh item i message s s' new e) =
    open_claim-IsSettled ctx fresh item i message s s' v new e
Move-IsSettled _ _ v (confirms ctx k s s' e) = confirm_claim-IsSettled ctx k s s' v e
Move-IsSettled _ _ v (rejects ctx k s s' e) = reject_claim-IsSettled ctx k s s' v e
Move-IsSettled _ _ v (gives_up ctx k s s' e) = withdraw_claim-IsSettled ctx k s s' v e
Move-IsSettled _ _ v (withdraws_item ctx item s) = withdraw_item-IsSettled ctx item s v
Move-IsSettled _ _ v (extends_item ctx item days s) = extend_item-IsSettled ctx item days s v
Move-IsSettled _ _ v (sweeps tenant now s) = expire_open_items-IsSettled tenant now s v

Reach-IsSettled : (s s' : LostFound) → IsSettled s → Reach s s' → IsSettled s'
Reach-IsSettled _ _ v (start s) = v
Reach-IsSettled _ _ v (then_move s t u r m) = Move-IsSettled t u (Reach-IsSettled s t v r) m

-- An item is never given to two people: however the history goes on from a well-formed state, every
-- item has at most one approved claim, and an open item has none.
pub never_given_twice :
    (s s' : LostFound) (i : LostFoundItem)
    → IsSettled s
    → Reach s s'
    → In i s'.items
    → count (approved_on i.id) s'.claims + one_if (is_open i.status) ≤ 1
never_given_twice s s' i v r m =
    All_In (Settled s'.claims) s'.items i (Reach-IsSettled s s' v r).settled m
