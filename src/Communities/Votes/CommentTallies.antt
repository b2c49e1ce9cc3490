-- ===== src/Communities/Votes/CommentTallies.antt =====
-- The tallies of every comment after a vote on one.
use campus_os.Common.{
  ℕ, ◌≡◌, refl, ap, false, some, List, map, ◌==◌, find, update_where, In, Distinct, arith,
  Bool-cases, Option-cases, ◌⊎◌, inl, inr, find-In, find_holds, All_In, All-update_where-In,
  map-update_where, row_unique,
}
use campus_os.Core.Result.{ok}
use campus_os.Tenancy.{Context}
use campus_os.Communities.{VoteValue, Tally, Comment, Communities}
use campus_os.Communities.Votes.{
  same_value, own_vote, previous_value, cast_vote, in_tenant, comment_in_tenant, listed_comment,
  joined_comment, recount_comment, vote_comment,
}
use campus_os.Communities.Votes.Rows.{one_row-cast_vote}
use campus_os.Communities.Votes.Tallies.{Counts, moved_item, other_item, IsTallied}

-- What a vote on a comment leaves, where it changes anything.
record VotedComment (ctx : Context) (item : ℕ) (value : VoteValue) (s s' : Communities)
    : Type 0 where
  comment : Comment
  listed : find (listed_comment ctx item) s.comments ≡ some comment
  votes :
      s'.comment_votes
      ≡ cast_vote ctx item value (find (own_vote item ctx.user_id) s.comment_votes) s.comment_votes
  comments :
      s'.comments
      ≡ update_where
          (comment_in_tenant ctx item)
          (recount_comment
            (previous_value (find (own_vote item ctx.user_id) s.comment_votes))
            value)
          s.comments
  kept : s'.posts ≡ s.posts
  kept_votes : s'.post_votes ≡ s.post_votes

vote_comment_facts :
    (ctx : Context) (item : ℕ) (value : VoteValue) (t : Tally) (s s' : Communities)
    → vote_comment ctx item value s ≡ ok (t, s')
    → (s' ≡ s) ⊎ VotedComment ctx item value s s'
unfolding vote_comment joined_comment
vote_comment_facts ctx item value t s s' e =
    elim (Option-cases (find (listed_comment ctx item) s.comments)) [
      | inl missing ↦ ground arith
      | inr (c, there) ↦ elim (Option-cases (find (in_tenant ctx c.post_id) s.posts)) [
        | inl orphan ↦ ground arith
        | inr (p, parent) ↦
            elim (Bool-cases (
              same_value (previous_value (find (own_vote item ctx.user_id) s.comment_votes))
                value)) [
                  | inl u ↦ inl (ground arith)
                  | inr u ↦ inr (record {
                    comment = c;
                    listed = there;
                    votes = ground arith;
                    comments = ground arith;
                    kept = ground arith;
                    kept_votes = ground arith;
                  })
                ]
      ]
    ]

-- The row with the id of a found row of the tenant is that row.
own_comment :
    (ctx : Context) (item : ℕ) (comments : List Comment) (p x : Comment)
    → Distinct (map (λ q. q.id) comments)
    → find (listed_comment ctx item) comments ≡ some p
    → In x comments
    → comment_in_tenant ctx item x ≡ false
    → (item == x.id) ≡ false
own_comment ctx item comments p x d f m h = elim (Bool-cases (item == x.id)) [
  | inr g ↦ g
  | inl g ↦
      let same : x ≡ p =
        row_unique (λ q. q.id) comments x p d m (find-In _ comments f)
          (ground (arith, find_holds (listed_comment ctx item) comments f)) in
      ground (
        arith,
        ap (comment_in_tenant ctx item) same,
        find_holds (listed_comment ctx item) comments f,
      )
]

-- Every tally is the count of the votes on its item after a vote on a comment, whichever way the vote
-- is cast, changed or taken back, and everybody still has one row on each item.
pub vote_comment-IsTallied :
    (ctx : Context) (item : ℕ) (value : VoteValue) (t : Tally) (s s' : Communities)
    → IsTallied s
    → vote_comment ctx item value s ≡ ok (t, s')
    → IsTallied s'
vote_comment-IsTallied ctx item value t s s' v e =
    elim (vote_comment_facts ctx item value t s s' e) [
      | inl same ↦ rw same v
      | inr f ↦ record {
        post_ids = rw f.kept v.post_ids;
        comment_ids =
            rw
              (
                f.comments,
                map-update_where (λ (c : Comment). c.id) (comment_in_tenant ctx item)
                    (recount_comment
                      (previous_value (find (own_vote item ctx.user_id) s.comment_votes)) value)
                    s.comments (λ c. refl),
              )
              v.comment_ids;
        post_row = rw f.kept_votes v.post_row;
        comment_row =
            λ i u. rw f.votes (one_row-cast_vote ctx item i u value s.comment_votes v.comment_row);
        posts = rw (f.kept, f.kept_votes) v.posts;
        comments =
            rw (f.comments, f.votes)
              (All-update_where-In
                (λ c.
                  Counts
                    (cast_vote ctx item value (find (own_vote item ctx.user_id) s.comment_votes)
                      s.comment_votes)
                    c.id c.tally)
                (comment_in_tenant ctx item) _ s.comments
                (λ x m h.
                  moved_item ctx item x.id value s.comment_votes x.tally v.comment_row
                    (ground arith)
                    (All_In (λ c. Counts s.comment_votes c.id c.tally) s.comments x v.comments m))
                (λ x m h.
                  other_item ctx item x.id value s.comment_votes x.tally v.comment_row
                    (own_comment ctx item s.comments f.comment x v.comment_ids f.listed m h)
                    (All_In (λ c. Counts s.comment_votes c.id c.tally) s.comments x v.comments m)));
      }
    ]
