-- ===== src/Communities/Votes.antt =====
-- packages/modules/communities/src/votes.ts: one row per person and item, and tallies on the item
-- that move by the difference.
pub mod Rows
pub mod Tallies
pub mod CommentTallies
use campus_os.Common.{
  ℕ, ◌+◌, Bool, true, false, not, ◌&&◌, ◌||◌, Option, none, some, List, [], ◌∷◌, ◌++◌, ltb, leb,
  ◌==◌, if◌then◌else◌, any, filter, find, count, update_where, ℤ, pos, negsuc, ◌+ℤ◌, ◌-ℤ◌,
}
use campus_os.Core.Result.{Result, ok, err, ◌>>=◌, ◌>>◌, require, found}
use campus_os.Core.Rbac.{communities_vote}
use campus_os.Tenancy.{Context, is_present, is_verified_member}
use campus_os.Communities.{
  VoteValue, down, no_vote, up, Tally, Rank, hot_score, controversy_score, wilson_lower_bound, Post,
  Comment, Vote, Communities, KarmaMove, post_karma, comment_karma,
}
use campus_os.Communities.Access.{
  Refusal, not_found, locked, self_vote, not_verified, banned, not_allowed, rate_limited, is_banned,
  can_in_community, votes_per_hour, hour,
}

abbrev pub is_up : VoteValue → Bool
is_up up = true
is_up _ = false

abbrev pub is_down : VoteValue → Bool
is_down down = true
is_down _ = false

abbrev pub same_value : VoteValue → VoteValue → Bool
same_value up up = true
same_value no_vote no_vote = true
same_value down down = true
same_value _ _ = false

-- The rows of either table that the acting user cast within the hour.
abbrev pub cast_last_hour : Context → Vote → Bool
cast_last_hour ctx v =
    (v.tenant_id == ctx.tenant_id)
    && ((v.user_id == ctx.user_id) && ltb ctx.now (v.created_at + hour))

unfoldable pub votes_last_hour : Context → Communities → ℕ
votes_last_hour ctx s =
    count (cast_last_hour ctx) s.post_votes + count (cast_last_hour ctx) s.comment_votes

-- What a change of a vote does to one side of the tally.
abbrev pub step : Bool → Bool → ℤ
step true true = pos 0
step true false = negsuc 0
step false true = pos 1
step false false = pos 0

pub record Deltas : Type 0 where
  pub up : ℤ
  pub down : ℤ

abbrev pub deltas : VoteValue → VoteValue → Deltas
deltas previous next = record {
  up = step (is_up previous) (is_up next);
  down = step (is_down previous) (is_down next);
}

abbrev pub moved : VoteValue → VoteValue → Tally → Tally
moved previous next t = record {
  up_votes = t.up_votes +ℤ (deltas previous next).up;
  down_votes = t.down_votes +ℤ (deltas previous next).down;
  score = t.score +ℤ ((deltas previous next).up -ℤ (deltas previous next).down);
}

abbrev pub own_vote : ℕ → ℕ → Vote → Bool
own_vote item user v = (v.item_id == item) && (v.user_id == user)

abbrev pub previous_value : Option Vote → VoteValue
previous_value none = no_vote
previous_value (some v) = v.value

-- The refusal of one who votes too often; only a first vote on an item counts.
abbrev pub too_many : Option Vote → ℕ → Bool
too_many none n = leb votes_per_hour n
too_many (some v) n = false

-- The table of votes: a vote of 0 deletes the row, any other sets or adds it.
unfoldable pub cast_vote : Context → ℕ → VoteValue → Option Vote → List Vote → List Vote
cast_vote ctx item no_vote existing votes = filter (λ v. not (own_vote item ctx.user_id v)) votes
cast_vote ctx item value (some v) votes =
    update_where (own_vote item ctx.user_id) (λ w. record w { value = value }) votes
cast_vote ctx item value none votes =
    votes
    ++ record {
      tenant_id = ctx.tenant_id;
      item_id = item;
      user_id = ctx.user_id;
      value = value;
      created_at = ctx.now;
    }
      ∷ []

abbrev pub in_tenant : Context → ℕ → Post → Bool
in_tenant ctx post p = (p.id == post) && (p.tenant_id == ctx.tenant_id)

abbrev pub listed_post : Context → ℕ → Post → Bool
listed_post ctx post p =
    in_tenant ctx post p && (not (is_present p.deleted_at) && not (is_present p.removed_at))

abbrev pub recount_post : VoteValue → VoteValue → Post → Post
recount_post previous next p =
    let t = moved previous next p.tally in
    record p {
      tally = t;
      hot = Rank.hot_score t.up_votes t.down_votes p.created_at;
      controversy = Rank.controversy_score t.up_votes t.down_votes;
    }

unfoldable pub vote_post :
    Context → ℕ → VoteValue → Communities → Result (Tally × Communities) Refusal
vote_post ctx post_id value s = do
  post ← found (find (listed_post ctx post_id) s.posts) not_found
  require (not (is_present post.locked_at)) locked
  require (not (post.author_id == ctx.user_id)) self_vote
  require (is_verified_member s.members ctx.now ctx.user_id ctx.tenant_id) not_verified
  require (not (is_banned s.bans ctx post.community_id)) banned
  require (can_in_community s.grants ctx post.community_id communities_vote) not_allowed
  let existing = find (own_vote post_id ctx.user_id) s.post_votes
  let previous = previous_value existing
  if same_value previous value then ok (post.tally, s) else (do
    require (not (too_many existing (votes_last_hour ctx s))) rate_limited
    ok (
      moved previous value post.tally,
      record s {
        post_votes = cast_vote ctx post_id value existing s.post_votes;
        posts = update_where (in_tenant ctx post_id) (recount_post previous value) s.posts;
        karma = s.karma ++ post_karma post_id previous value ∷ [];
      },
    ))

abbrev pub comment_in_tenant : Context → ℕ → Comment → Bool
comment_in_tenant ctx comment c = (c.id == comment) && (c.tenant_id == ctx.tenant_id)

abbrev pub listed_comment : Context → ℕ → Comment → Bool
listed_comment ctx comment c =
    comment_in_tenant ctx comment c
    && (not (is_present c.deleted_at) && not (is_present c.removed_at))

-- The row of the join of a comment and its post.
pub record Joined : Type 0 where
  pub comment : Comment
  pub post : Post

unfoldable pub joined_comment : Context → ℕ → Communities → Option Joined
joined_comment ctx comment_id s = elim (find (listed_comment ctx comment_id) s.comments) [
  | none ↦ none
  | some c ↦ elim (find (in_tenant ctx c.post_id) s.posts) [
    | none ↦ none
    | some p ↦ some (record { comment = c; post = p })
  ]
]

abbrev pub recount_comment : VoteValue → VoteValue → Comment → Comment
recount_comment previous next c =
    let t = moved previous next c.tally in
    record c {
      tally = t;
      best = Rank.wilson_lower_bound t.up_votes t.down_votes;
      controversy = Rank.controversy_score t.up_votes t.down_votes;
    }

unfoldable pub vote_comment :
    Context → ℕ → VoteValue → Communities → Result (Tally × Communities) Refusal
vote_comment ctx comment_id value s = do
  row ← found (joined_comment ctx comment_id s) not_found
  require (not (is_present row.post.locked_at)) locked
  require (not (row.comment.author_id == ctx.user_id)) self_vote
  require (is_verified_member s.members ctx.now ctx.user_id ctx.tenant_id) not_verified
  require (not (is_banned s.bans ctx row.post.community_id)) banned
  require (can_in_community s.grants ctx row.post.community_id communities_vote) not_allowed
  let existing = find (own_vote comment_id ctx.user_id) s.comment_votes
  let previous = previous_value existing
  if same_value previous value then ok (row.comment.tally, s) else (do
    require (not (too_many existing (votes_last_hour ctx s))) rate_limited
    ok (
      moved previous value row.comment.tally,
      record s {
        comment_votes = cast_vote ctx comment_id value existing s.comment_votes;
        comments =
            update_where (comment_in_tenant ctx comment_id) (recount_comment previous value)
              s.comments;
        karma = s.karma ++ comment_karma comment_id previous value ∷ [];
      },
    ))
