-- ===== src/Communities/Votes/Rows.antt =====
-- The table of votes: one row per person and item, and what a vote does to every count of rows.
use campus_os.Common.{
  ℕ, ◌+◌, ◌≤◌, ◌≡◌, refl, Bool, true, false, not, ◌&&◌, Option, none, some, List, [], ◌∷◌, ◌++◌,
  ◌==◌, any, filter, find, find_holds, find-none, count_zero, count, update_where, one_if, arith,
  count-append, Bool-cases, inl, inr,
}
use campus_os.Tenancy.{Context}
use campus_os.Communities.{VoteValue, down, no_vote, up, Vote}
use campus_os.Communities.Votes.{own_vote, previous_value, cast_vote}

-- What an own row, where there is one, adds to a count.
abbrev pub share : (Vote → Bool) → Option Vote → ℕ
share q none = 0
share q (some v) = one_if (q v)

module _ (own : Vote → Bool) (q : Vote → Bool) where
  count-filter_none :
      (vs : List Vote) → count own vs ≡ 0 → count q (filter (λ v. not (own v)) vs) ≡ count q vs
  count-filter_none [] h = refl
  count-filter_none (v ∷ vs) h = ground (arith, count-filter_none vs)

  count-update_none :
      (f : Vote → Vote) (vs : List Vote)
      → count own vs ≡ 0
      → count q (update_where own f vs) ≡ count q vs
  count-update_none f [] h = refl
  count-update_none f (v ∷ vs) h = ground (arith, count-update_none f vs)

  pub count-deleted :
      (vs : List Vote)
      → count own vs ≤ 1
      → count q (filter (λ v. not (own v)) vs) + share q (find own vs) ≡ count q vs
  count-deleted [] h = refl
  count-deleted (v ∷ vs) h = ground (arith, count-deleted vs, count-filter_none vs)

  pub count-updated :
      (f : Vote → Vote) (vs : List Vote)
      → count own vs ≤ 1
      → count q (update_where own f vs) + share q (find own vs)
        ≡ count q vs + share (λ v. q (f v)) (find own vs)
  count-updated f [] h = refl
  count-updated f (v ∷ vs) h = ground (arith, count-updated f vs, count-update_none f vs)

abbrev pub on : ℕ → (VoteValue → Bool) → Vote → Bool
on item side v = (v.item_id == item) && side v.value

share_on :
    (item i user : ℕ) (side : VoteValue → Bool) (vs : List Vote)
    → side no_vote ≡ false
    → share (on i side) (find (own_vote item user) vs)
      ≡ one_if ((item == i) && side (previous_value (find (own_vote item user) vs)))
share_on item i user side [] h = ground arith
share_on item i user side (v ∷ vs) h = ground (arith, share_on item i user side vs h)

share_set :
    (item i user : ℕ) (value : VoteValue) (side : VoteValue → Bool) (vs : List Vote) (v : Vote)
    → find (own_vote item user) vs ≡ some v
    → one_if (on i side (record v { value = value })) ≡ one_if ((item == i) && side value)
share_set item i user value side vs v h = ground (arith, find_holds (own_vote item user) vs h)

-- A vote moves the rows on its own item by what it adds less what it replaces, on either side.
pub count-cast_vote :
    (ctx : Context) (item i : ℕ) (value : VoteValue) (side : VoteValue → Bool) (vs : List Vote)
    → side no_vote ≡ false
    → count (own_vote item ctx.user_id) vs ≤ 1
    → count (on i side) (cast_vote ctx item value (find (own_vote item ctx.user_id) vs) vs)
        + one_if ((item == i) && side (previous_value (find (own_vote item ctx.user_id) vs)))
      ≡ count (on i side) vs + one_if ((item == i) && side value)
unfolding cast_vote
count-cast_vote ctx item i value side vs h one =
    cases value (find (own_vote item ctx.user_id) vs) refl
  where
    set :
        (w : VoteValue) (v : Vote)
        → find (own_vote item ctx.user_id) vs ≡ some v
        → count
              (on i side)
              (update_where (own_vote item ctx.user_id) (λ r. record r { value = w }) vs)
            + one_if ((item == i) && side v.value)
          ≡ count (on i side) vs + one_if ((item == i) && side w)
    set w v e = ground (
      arith,
      e,
      count-updated (own_vote item ctx.user_id) (on i side) (λ r. record r { value = w }) vs one,
      share_on item i ctx.user_id side vs h,
      share_set item i ctx.user_id w side vs v e,
    )

    deleted :
        (o : Option Vote)
        → find (own_vote item ctx.user_id) vs ≡ o
        → count (on i side) (filter (λ v. not (own_vote item ctx.user_id v)) vs)
            + one_if ((item == i) && side (previous_value o))
          ≡ count (on i side) vs + one_if ((item == i) && side no_vote)
    deleted o e =
        rw (← e, ← share_on item i ctx.user_id side vs h)
          (ground (arith, count-deleted (own_vote item ctx.user_id) (on i side) vs one, h))

    added :
        (w : VoteValue)
        → count (on i side) (
              vs
              ++ record {
                tenant_id = ctx.tenant_id;
                item_id = item;
                user_id = ctx.user_id;
                value = w;
                created_at = ctx.now;
              }
                ∷ [])
            + one_if ((item == i) && side no_vote)
          ≡ count (on i side) vs + one_if ((item == i) && side w)
    added w = ground (
      arith,
      h,
      count-append (on i side) vs (
          record {
            tenant_id = ctx.tenant_id;
            item_id = item;
            user_id = ctx.user_id;
            value = w;
            created_at = ctx.now;
          }
          ∷ []),
    )

    cases :
        (w : VoteValue) (o : Option Vote)
        → find (own_vote item ctx.user_id) vs ≡ o
        → count (on i side) (cast_vote ctx item w o vs)
            + one_if ((item == i) && side (previous_value o))
          ≡ count (on i side) vs + one_if ((item == i) && side w)
    cases no_vote o e = deleted o e
    cases up none e = added up
    cases up (some v) e = set up v e
    cases down none e = added down
    cases down (some v) e = set down v e

own_vote_none :
    (item user i u : ℕ) (vs : List Vote) (v : Vote)
    → any (own_vote item user) vs ≡ false
    → own_vote item user v ≡ true
    → count (own_vote i u) vs ≤ 1
    → count (own_vote i u) (vs ++ v ∷ []) ≤ 1
own_vote_none item user i u vs v h k one = elim (Bool-cases (own_vote i u v)) [
  | inl t ↦ ground (
    arith,
    count-append (own_vote i u) vs (v ∷ []),
    count_zero (own_vote i u) vs (absent vs h t),
    t,
  )
  | inr f ↦ ground (arith, count-append (own_vote i u) vs (v ∷ []), f)
]
  where
    absent :
        (xs : List Vote)
        → any (own_vote item user) xs ≡ false
        → own_vote i u v ≡ true
        → any (own_vote i u) xs ≡ false
    absent [] h t = refl
    absent (x ∷ xs) h t = ground (arith, absent xs, k)

-- Everybody has at most one row on each item afterwards.
pub one_row-cast_vote :
    (ctx : Context) (item i u : ℕ) (value : VoteValue) (vs : List Vote)
    → ((j w : ℕ) → count (own_vote j w) vs ≤ 1)
    → count (own_vote i u) (cast_vote ctx item value (find (own_vote item ctx.user_id) vs) vs) ≤ 1
unfolding cast_vote
one_row-cast_vote ctx item i u value vs one = cases value (find (own_vote item ctx.user_id) vs) refl
  where
    set :
        (w : VoteValue)
        → count
            (own_vote i u)
            (update_where (own_vote item ctx.user_id) (λ r. record r { value = w }) vs)
          ≤ 1
    set w = omega (arith, kept vs, one i u)
      where
        kept :
            (xs : List Vote)
            → count
                (own_vote i u)
                (update_where (own_vote item ctx.user_id) (λ r. record r { value = w }) xs)
              ≡ count (own_vote i u) xs
        kept [] = refl
        kept (x ∷ xs) = ground (arith, kept xs)

    added :
        (w : VoteValue)
        → find (own_vote item ctx.user_id) vs ≡ none
        → count (own_vote i u) (
            vs
            ++ record {
              tenant_id = ctx.tenant_id;
              item_id = item;
              user_id = ctx.user_id;
              value = w;
              created_at = ctx.now;
            }
              ∷ [])
          ≤ 1
    added w e =
        own_vote_none item ctx.user_id i u vs _ (find-none (own_vote item ctx.user_id) vs e)
          (ground arith) (one i u)

    cases :
        (w : VoteValue) (o : Option Vote)
        → find (own_vote item ctx.user_id) vs ≡ o
        → count (own_vote i u) (cast_vote ctx item w o vs) ≤ 1
    cases no_vote o e = omega (
      arith,
      count-deleted (own_vote item ctx.user_id) (own_vote i u) vs (one item ctx.user_id),
      one i u,
    )
    cases up none e = added up e
    cases up (some v) e = set up
    cases down none e = added down e
    cases down (some v) e = set down
