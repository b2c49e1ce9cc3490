-- ===== src/Communities/Blocks/Effects.antt =====
-- What a block does: it holds both ways until it is taken back, and no seat is asked across it.
use campus_os.Common.{
  ℕ, ◌≡◌, refl, true, false, not, some, List, [], ◌∷◌, ◌++◌, any, any-append, filter, find, arith,
  Bool-cases, inl, inr,
}
use campus_os.Core.Result.{ok, is_err}
use campus_os.Tenancy.{Context, Block, blocked_between}
use campus_os.Rides.{RidePost, Rides}
use campus_os.Rides.Seats.{request_seat, ride_of}
use campus_os.Communities.Blocks.{same_block, new_block, block_user, unblock_user}

-- A block that is on record holds for the blocker, and for the blocked person in the tenant.
holds_both_ways :
    (ctx other : Context) (user : ℕ) (blocks : List Block)
    → any (same_block ctx user) blocks ≡ true
    → other.user_id ≡ user
    → other.tenant_id ≡ ctx.tenant_id
    → (blocked_between blocks ctx user ≡ true) × (blocked_between blocks other ctx.user_id ≡ true)
unfolding blocked_between
holds_both_ways ctx other user [] h e t = cc
holds_both_ways ctx other user (b ∷ blocks) h e t =
    ground (arith, holds_both_ways ctx other user blocks)

on_record :
    (ctx : Context) (user : ℕ) (profiles : List ℕ) (blocks blocks' : List Block)
    → block_user ctx user profiles blocks ≡ ok blocks'
    → any (same_block ctx user) blocks' ≡ true
unfolding block_user
on_record ctx user profiles blocks blocks' e =
    elim (Bool-cases (any (same_block ctx user) blocks)) [
      | inl t ↦ ground arith
      | inr f ↦
          let left : blocks' ≡ blocks ++ new_block ctx user ∷ [] = ground arith in
          rw left
            (ground (arith, any-append (same_block ctx user) blocks (new_block ctx user ∷ [])))
    ]

-- A seat on the ride of a person who is in a block with the asker is refused.
refuses_blocked :
    (ctx : Context) (fresh ride : ℕ) (s : Rides) (p : RidePost)
    → find (ride_of ctx.tenant_id ride) s.posts ≡ some p
    → blocked_between s.blocks ctx p.author_id ≡ true
    → is_err (request_seat ctx fresh ride s) ≡ true
unfolding request_seat
refuses_blocked ctx fresh ride s p there h = ground arith

-- After somebody blocks a person, that person is refused a seat on every ride that the blocker
-- drives in the tenant, and the blocker is refused one on every ride of that person.
pub blocked_seat_requests :
    (ctx other : Context) (profiles : List ℕ) (blocks : List Block) (fresh ride : ℕ) (s : Rides)
    (p : RidePost)
    → block_user ctx other.user_id profiles blocks ≡ ok s.blocks
    → other.tenant_id ≡ ctx.tenant_id
    → find (ride_of ctx.tenant_id ride) s.posts ≡ some p
    → (p.author_id ≡ ctx.user_id → is_err (request_seat other fresh ride s) ≡ true)
      × (p.author_id ≡ other.user_id → is_err (request_seat ctx fresh ride s) ≡ true)
blocked_seat_requests ctx other profiles blocks fresh ride s p e t there =
    let (here, back) =
      holds_both_ways ctx other other.user_id s.blocks
        (on_record ctx other.user_id profiles blocks s.blocks e) refl t in
    (
      λ a. refuses_blocked other fresh ride s p (rw t there) (rw a back),
      λ a. refuses_blocked ctx fresh ride s p there (rw a here),
    )

-- Taking back a block that was not there before leaves the blocks as they were.
pub unblock_user-block_user :
    (ctx : Context) (user : ℕ) (profiles : List ℕ) (blocks blocks' : List Block)
    → any (same_block ctx user) blocks ≡ false
    → block_user ctx user profiles blocks ≡ ok blocks'
    → unblock_user ctx user blocks' ≡ blocks
unfolding block_user unblock_user
unblock_user-block_user ctx user profiles blocks blocks' h e =
    let left : blocks' ≡ blocks ++ new_block ctx user ∷ [] = ground arith in rw left (kept blocks h)
  where
    kept :
        (bs : List Block)
        → any (same_block ctx user) bs ≡ false
        → filter (λ b. not (same_block ctx user b)) (bs ++ new_block ctx user ∷ []) ≡ bs
    kept [] h = ground arith
    kept (b ∷ bs) h = ground (arith, kept bs)
