-- ===== src/Communities.antt =====
-- packages/modules/communities: posts and comments with their votes and polls, and who may vote.
-- A stored rank is the formula of domain/ranking.ts that it was computed by, with its arguments: the
-- formulas are floating-point, and are kept as they stand. The effective permissions that the
-- database answers are a table. A karma move is a call of the definer `communities_karma_vote`.
pub mod Access
pub mod Votes
pub mod Polls
pub mod Blocks
pub mod Gates
pub mod Automod
mod Samples
mod RuleSamples
use campus_os.Common.{Text, ℕ, Bool, true, false, Option, List, ℤ}
use campus_os.Core.Rbac.{Name}
use campus_os.Tenancy.{Membership}

pub data VoteValue : Type 0 where
  down no_vote up : VoteValue

pub record Tally : Type 0 where
  pub up_votes : ℤ
  pub down_votes : ℤ
  pub score : ℤ

-- The formulas of domain/ranking.ts.
pub data Rank : Type 0 where
  unranked : Rank
  hot_score : ℤ → ℤ → ℕ → Rank
  controversy_score : ℤ → ℤ → Rank
  wilson_lower_bound : ℤ → ℤ → Rank

pub data PostKind : Type 0 where
  written link poll : PostKind

pub record Post : Type 0 where
  pub id : ℕ
  pub tenant_id : ℕ
  pub community_id : ℕ
  pub author_id : ℕ
  pub kind : PostKind
  pub locked_at : Option ℕ
  pub removed_at : Option ℕ
  pub deleted_at : Option ℕ
  pub tally : Tally
  pub hot : Rank
  pub controversy : Rank
  pub poll_closes_at : Option ℕ
  pub created_at : ℕ

pub record Comment : Type 0 where
  pub id : ℕ
  pub tenant_id : ℕ
  pub post_id : ℕ
  pub author_id : ℕ
  pub removed_at : Option ℕ
  pub deleted_at : Option ℕ
  pub tally : Tally
  pub best : Rank
  pub controversy : Rank
  pub created_at : ℕ

-- A row of `post_votes` or of `comment_votes`; its item is the post or the comment.
pub record Vote : Type 0 where
  pub tenant_id : ℕ
  pub item_id : ℕ
  pub user_id : ℕ
  pub value : VoteValue
  pub created_at : ℕ

pub record PollOption : Type 0 where
  pub id : ℕ
  pub tenant_id : ℕ
  pub post_id : ℕ
  pub position : ℕ
  pub text : Text
  pub vote_count : ℕ

pub record PollVote : Type 0 where
  pub tenant_id : ℕ
  pub post_id : ℕ
  pub option_id : ℕ
  pub user_id : ℕ

-- A ban; no community means the whole tenant, no end means for ever.
pub record Ban : Type 0 where
  pub tenant_id : ℕ
  pub community_id : Option ℕ
  pub user_id : ℕ
  pub until : Option ℕ
  pub lifted_at : Option ℕ

-- A row that `auth_effective_community_permissions` answers.
pub record Grant : Type 0 where
  pub user_id : ℕ
  pub tenant_id : ℕ
  pub community_id : ℕ
  pub permission : Name

pub data KarmaMove : Type 0 where
  post_karma comment_karma : ℕ → VoteValue → VoteValue → KarmaMove

pub record Communities : Type 0 where
  pub posts : List Post
  pub comments : List Comment
  pub post_votes : List Vote
  pub comment_votes : List Vote
  pub poll_options : List PollOption
  pub poll_votes : List PollVote
  pub bans : List Ban
  pub grants : List Grant
  pub members : List Membership
  pub karma : List KarmaMove
