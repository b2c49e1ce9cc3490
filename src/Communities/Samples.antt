-- ===== src/Communities/Samples.antt =====
-- Votes at concrete states: a post of author 1 with a comment, and a poll, which voter 2 may vote on.
use campus_os.Common.{
  [], ◌∷◌, ℕ, ◌≡◌, refl, false, Option, none, some, [], ◌∷◌, arith, pos, ◌+ℤ◌, ◌-ℤ◌,
}
use campus_os.Core.Result.{ok}
use campus_os.Core.Rbac.{known, communities_vote, permission_set, to_set}
use campus_os.Tenancy.{Context, MembershipStatus, is_verified_member}
use campus_os.Communities.{
  up, no_vote, Tally, Rank, PostKind, Post, Comment, Vote, PollOption, Communities, KarmaMove,
}
use campus_os.Communities.Access.{community_permissions, can_in_community, is_banned}
use campus_os.Communities.Votes.{
  recount_post, recount_comment, votes_last_hour, cast_vote, vote_post, joined_comment,
  vote_comment,
}
use campus_os.Communities.Votes.Tallies.{IsTallied, vote_post-IsTallied}
use campus_os.Communities.Polls.{PollView, read_poll, vote_poll}
use campus_os.Communities.Polls.Counts.{IsCounted, vote_poll-IsCounted}

abbrev voter : Context
voter = record { user_id = 2; tenant_id = 5; now = 1000 }

abbrev tally_of : ℕ → Tally
tally_of n = record { up_votes = pos n; down_votes = pos 0; score = pos n }

abbrev a_post : ℕ → PostKind → Option ℕ → Post
a_post id kind closes = record {
  id = id;
  tenant_id = 5;
  community_id = 7;
  author_id = 1;
  kind = kind;
  locked_at = none;
  removed_at = none;
  deleted_at = none;
  tally = tally_of 0;
  hot = Rank.unranked;
  controversy = Rank.unranked;
  poll_closes_at = closes;
  created_at = 0;
}

abbrev a_comment : Comment
a_comment = record {
  id = 30;
  tenant_id = 5;
  post_id = 10;
  author_id = 1;
  removed_at = none;
  deleted_at = none;
  tally = tally_of 0;
  best = Rank.unranked;
  controversy = Rank.unranked;
  created_at = 0;
}

abbrev an_option : ℕ → ℕ → ℕ → PollOption
an_option id position votes = record {
  id = id;
  tenant_id = 5;
  post_id = 11;
  position = position;
  text = [];
  vote_count = votes;
}

abbrev board : Communities
board = record {
  posts = a_post 10 PostKind.written none ∷ a_post 11 PostKind.poll (some 5000) ∷ [];
  comments = a_comment ∷ [];
  post_votes = [];
  comment_votes = [];
  poll_options = an_option 40 1 0 ∷ an_option 41 2 0 ∷ [];
  poll_votes = [];
  bans = [];
  grants =
      record { user_id = 2; tenant_id = 5; community_id = 7; permission = known communities_vote }
      ∷ [];
  members =
      record {
        user_id = 2;
        tenant_id = 5;
        verified_at = some 0;
        status = MembershipStatus.active;
        standing_until = none;
      }
      ∷ [];
  karma = [];
}

board-IsTallied : IsTallied board
unfolding ◌-ℤ◌
board-IsTallied = record {
  post_ids = (refl, (refl, tt));
  comment_ids = (refl, tt);
  post_row = λ i u. (omega arith);
  comment_row = λ i u. (omega arith);
  posts = ((refl, refl, refl), ((refl, refl, refl), tt));
  comments = ((refl, refl, refl), tt);
}

abbrev an_up_vote : ℕ → Vote
an_up_vote item = record {
  tenant_id = 5;
  item_id = item;
  user_id = 2;
  value = up;
  created_at = 1000;
}

abbrev post_voted : Communities
post_voted = record board {
  posts =
      recount_post no_vote up (a_post 10 PostKind.written none)
      ∷ a_post 11 PostKind.poll (some 5000)
      ∷ [];
  post_votes = an_up_vote 10 ∷ [];
  karma = KarmaMove.post_karma 10 no_vote up ∷ [];
}

up_voted : vote_post voter 10 up board ≡ ok (tally_of 1, post_voted)
unfolding vote_post is_verified_member is_banned can_in_community community_permissions
    permission_set to_set votes_last_hour cast_vote ◌+ℤ◌ ◌-ℤ◌
up_voted = refl

vote_post-IsTallied_example : IsTallied post_voted
vote_post-IsTallied_example =
    vote_post-IsTallied voter 10 up (tally_of 1) board post_voted board-IsTallied up_voted

abbrev comment_voted : Communities
comment_voted = record board {
  comments = recount_comment no_vote up a_comment ∷ [];
  comment_votes = an_up_vote 30 ∷ [];
  karma = KarmaMove.comment_karma 30 no_vote up ∷ [];
}

comment_up_voted : vote_comment voter 30 up board ≡ ok (tally_of 1, comment_voted)
unfolding vote_comment joined_comment is_verified_member is_banned can_in_community
    community_permissions permission_set to_set votes_last_hour cast_vote ◌+ℤ◌ ◌-ℤ◌
comment_up_voted = refl

board-IsCounted : IsCounted board
board-IsCounted = record {
  option_ids = (refl, (refl, tt));
  one_vote = λ p u. (omega arith);
  counted = (refl, (refl, tt));
}

abbrev poll_voted : Communities
poll_voted = record board {
  poll_options = an_option 40 1 0 ∷ an_option 41 2 1 ∷ [];
  poll_votes = record { tenant_id = 5; post_id = 11; option_id = 41; user_id = 2 } ∷ [];
}

abbrev seen_poll : PollView
seen_poll = record {
  options =
      record { id = 40; text = []; votes = 0 } ∷ record { id = 41; text = []; votes = 1 } ∷ [];
  total = 1;
  closes_at = 5000;
  closed = false;
  my_option_id = some 41;
}

polled : vote_poll voter 11 41 board ≡ ok (seen_poll, poll_voted)
unfolding vote_poll read_poll is_verified_member is_banned can_in_community community_permissions
    permission_set to_set
polled = refl

vote_poll-IsCounted_example : IsCounted poll_voted
vote_poll-IsCounted_example =
    vote_poll-IsCounted voter 11 41 seen_poll board poll_voted board-IsCounted polled
