-- ===== src/Communities/Polls.antt =====
-- packages/modules/communities/src/polls.ts: polls, with one final vote for each person.
-- The whole-number share of an option is a rounded quotient of its votes and the total, and is left
-- as these two numbers.
pub mod Counts
use campus_os.Common.{
  Text, ℕ, zero, suc, ◌+◌, Bool, true, false, not, ◌&&◌, ◌||◌, Option, none, some, List, [], ◌∷◌,
  ◌++◌, map, ltb, leb, ◌==◌, if◌then◌else◌, any, filter, find, count, update_where,
}
use campus_os.Core.Result.{Result, ok, err, ◌>>=◌, ◌>>◌, require, found}
use campus_os.Core.Rbac.{communities_vote}
use campus_os.Tenancy.{Context, is_present, is_verified_member, has_passed}
use campus_os.Communities.{Post, PostKind, PollOption, PollVote, Communities}
use campus_os.Communities.Access.{
  Refusal, not_found, locked, closed, not_verified, banned, not_allowed, invalid, exists, is_banned,
  can_in_community,
}
use campus_os.Communities.Votes.{in_tenant, listed_post}

pub record PollOptionView : Type 0 where
  pub id : ℕ
  pub text : Text
  pub votes : ℕ

pub record PollView : Type 0 where
  pub options : List PollOptionView
  pub total : ℕ
  pub closes_at : ℕ
  pub closed : Bool
  pub my_option_id : Option ℕ

abbrev pub is_poll : PostKind → Bool
is_poll PostKind.poll = true
is_poll _ = false

-- The options that stand before those of a later position.
abbrev pub insert_option : PollOption → List PollOption → List PollOption
insert_option o [] = o ∷ []
insert_option o (p ∷ ps) =
    let rest = insert_option o ps in if leb o.position p.position then o ∷ p ∷ ps else p ∷ rest

abbrev pub by_position : List PollOption → List PollOption
by_position [] = []
by_position (o ∷ os) = insert_option o (by_position os)

abbrev pub option_of : Context → ℕ → PollOption → Bool
option_of ctx post o = (o.tenant_id == ctx.tenant_id) && (o.post_id == post)

-- The viewer's own vote for an option; row-level security shows no other.
abbrev pub mine : Context → List PollVote → PollOption → Bool
mine ctx votes o =
    any
      (λ v. (v.option_id == o.id) && ((v.user_id == ctx.user_id) && (v.tenant_id == ctx.tenant_id)))
      votes

abbrev pub id_of : Option PollOption → Option ℕ
id_of none = none
id_of (some o) = some o.id

abbrev pub total_votes : List PollOption → ℕ
total_votes [] = 0
total_votes (o ∷ os) = o.vote_count + total_votes os

unfoldable pub read_poll : Context → ℕ → Communities → Option PollView
read_poll ctx post_id s =
    let rows = by_position (filter (option_of ctx post_id) s.poll_options) in
    elim (find (in_tenant ctx post_id) s.posts) [
      | none ↦ none
      | some post ↦ elim post.poll_closes_at [
        | none ↦ none
        | some closes ↦
            if is_poll post.kind
            then some (record {
              options = map (λ o. record { id = o.id; text = o.text; votes = o.vote_count }) rows;
              total = total_votes rows;
              closes_at = closes;
              closed = leb closes ctx.now;
              my_option_id = id_of (find (mine ctx s.poll_votes) rows);
            })
            else none
      ]
    ]

-- The primary key of `poll_votes`.
abbrev pub voted : ℕ → ℕ → PollVote → Bool
voted post user v = (v.post_id == post) && (v.user_id == user)

abbrev pub option_id_of : Context → ℕ → ℕ → PollOption → Bool
option_id_of ctx option post o =
    (o.id == option) && ((o.post_id == post) && (o.tenant_id == ctx.tenant_id))

abbrev pub counted_option : Context → ℕ → PollOption → Bool
counted_option ctx option o = (o.id == option) && (o.tenant_id == ctx.tenant_id)

abbrev pub one_more : PollOption → PollOption
one_more o = record o { vote_count = o.vote_count + 1 }

unfoldable pub vote_poll : Context → ℕ → ℕ → Communities → Result (PollView × Communities) Refusal
vote_poll ctx post_id option_id s = do
  post ← found (find (listed_post ctx post_id) s.posts) not_found
  require (is_poll post.kind && is_present post.poll_closes_at) not_found
  require (not (is_present post.locked_at)) locked
  require (not (has_passed ctx.now post.poll_closes_at)) Refusal.closed
  require (is_verified_member s.members ctx.now ctx.user_id ctx.tenant_id) not_verified
  require (not (is_banned s.bans ctx post.community_id)) banned
  require (can_in_community s.grants ctx post.community_id communities_vote) not_allowed
  option ← found (find (option_id_of ctx option_id post_id) s.poll_options) invalid
  require (not (any (voted post_id ctx.user_id) s.poll_votes)) exists
  let after : Communities = record s {
    poll_votes =
        s.poll_votes
        ++ record {
          tenant_id = ctx.tenant_id;
          post_id = post_id;
          option_id = option_id;
          user_id = ctx.user_id;
        }
          ∷ [];
    poll_options = update_where (counted_option ctx option_id) one_more s.poll_options;
  }
  view ← found (read_poll ctx post_id after) not_found
  ok (view, after)
