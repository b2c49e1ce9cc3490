-- ===== src/Communities/Votes/Tallies.antt =====
-- The tallies of every post and comment are the counts of its votes.
use campus_os.Common.{
  ℕ, ◌+◌, ◌≤◌, ◌≡◌, refl, ap, ◌∙◌, Bool, true, false, some, List, map, ◌==◌, find, count,
  update_where, All, In, Distinct, one_if, arith, Bool-cases, Option-cases, ◌⊎◌, inl, inr, find-In,
  find_holds, All_In, All-update_where-In, map-update_where, row_unique, pos, ◌+ℤ◌, ◌-ℤ◌,
}
use campus_os.Core.Result.{ok}
use campus_os.Tenancy.{Context}
use campus_os.Communities.{VoteValue, no_vote, Tally, Post, Vote, Communities}
use campus_os.Communities.Votes.{
  is_up, is_down, same_value, step, moved, own_vote, previous_value, cast_vote, in_tenant,
  listed_post, recount_post, vote_post,
}
use campus_os.Communities.Votes.Rows.{on, count-cast_vote, one_row-cast_vote}

-- A tally is right when it counts the votes on its item.
abbrev pub Counts : List Vote → ℕ → Tally → Type 0
Counts vs item t =
    (t.up_votes ≡ pos (count (on item is_up) vs))
    × (t.down_votes ≡ pos (count (on item is_down) vs))
    × (t.score ≡ pos (count (on item is_up) vs) -ℤ pos (count (on item is_down) vs))

step-counts :
    (previous next : Bool) (a b : ℕ)
    → b + one_if previous ≡ a + one_if next
    → pos a +ℤ step previous next ≡ pos b
unfolding ◌+ℤ◌
step-counts true true a b h = ground arith
step-counts true false a b h = ground arith
step-counts false true a b h = ground arith
step-counts false false a b h = ground arith

score-counts :
    (p n q m : Bool) (a b c d : ℕ)
    → b + one_if p ≡ a + one_if n
    → d + one_if q ≡ c + one_if m
    → (pos a -ℤ pos c) +ℤ (step p n -ℤ step q m) ≡ pos b -ℤ pos d
unfolding ◌+ℤ◌ ◌-ℤ◌
score-counts p n q m a b c d h k = ground arith

moved-Counts :
    (vs ws : List Vote) (item : ℕ) (previous next : VoteValue) (t : Tally)
    → count (on item is_up) ws + one_if (is_up previous)
      ≡ count (on item is_up) vs + one_if (is_up next)
    → count (on item is_down) ws + one_if (is_down previous)
      ≡ count (on item is_down) vs + one_if (is_down next)
    → Counts vs item t
    → Counts ws item (moved previous next t)
moved-Counts vs ws item previous next t h k (u, d, s) = (
  ap (λ z. z +ℤ step (is_up previous) (is_up next)) u
      ∙ step-counts (is_up previous) (is_up next) _ _ h,
  ap (λ z. z +ℤ step (is_down previous) (is_down next)) d
      ∙ step-counts (is_down previous) (is_down next) _ _ k,
  ap (λ z. z +ℤ (step (is_up previous) (is_up next) -ℤ step (is_down previous) (is_down next))) s
      ∙ score-counts (is_up previous) (is_up next) (is_down previous) (is_down next) _ _ _ _ h k,
)

pub moved_item :
    (ctx : Context) (item i : ℕ) (value : VoteValue) (vs : List Vote) (t : Tally)
    → ((j u : ℕ) → count (own_vote j u) vs ≤ 1)
    → (item == i) ≡ true
    → Counts vs i t
    → Counts
        (cast_vote ctx item value (find (own_vote item ctx.user_id) vs) vs)
        i
        (moved (previous_value (find (own_vote item ctx.user_id) vs)) value t)
moved_item ctx item i value vs t one e h =
    moved-Counts vs (cast_vote ctx item value (find (own_vote item ctx.user_id) vs) vs) i
      (previous_value (find (own_vote item ctx.user_id) vs)) value t (same is_up refl)
      (same is_down refl) h
  where
    same :
        (side : VoteValue → Bool)
        → side no_vote ≡ false
        → count (on i side) (cast_vote ctx item value (find (own_vote item ctx.user_id) vs) vs)
            + one_if (side (previous_value (find (own_vote item ctx.user_id) vs)))
          ≡ count (on i side) vs + one_if (side value)
    same side n =
        ground (arith, e, count-cast_vote ctx item i value side vs n (one item ctx.user_id))

pub other_item :
    (ctx : Context) (item i : ℕ) (value : VoteValue) (vs : List Vote) (t : Tally)
    → ((j u : ℕ) → count (own_vote j u) vs ≤ 1)
    → (item == i) ≡ false
    → Counts vs i t
    → Counts (cast_vote ctx item value (find (own_vote item ctx.user_id) vs) vs) i t
other_item ctx item i value vs t one e h = rw (same is_up refl, same is_down refl) h
  where
    same :
        (side : VoteValue → Bool)
        → side no_vote ≡ false
        → count (on i side) (cast_vote ctx item value (find (own_vote item ctx.user_id) vs) vs)
          ≡ count (on i side) vs
    same side n =
        ground (arith, e, count-cast_vote ctx item i value side vs n (one item ctx.user_id))

pub record IsTallied (s : Communities) : Type 0 where
  pub post_ids : Distinct (map (λ p. p.id) s.posts)
  pub comment_ids : Distinct (map (λ c. c.id) s.comments)
  pub post_row : (i u : ℕ) → count (own_vote i u) s.post_votes ≤ 1
  pub comment_row : (i u : ℕ) → count (own_vote i u) s.comment_votes ≤ 1
  pub posts : All (λ p. Counts s.post_votes p.id p.tally) s.posts
  pub comments : All (λ c. Counts s.comment_votes c.id c.tally) s.comments

-- What a vote on a post leaves, where it changes anything.
record VotedPost (ctx : Context) (item : ℕ) (value : VoteValue) (s s' : Communities) : Type 0 where
  post : Post
  listed : find (listed_post ctx item) s.posts ≡ some post
  votes :
      s'.post_votes
      ≡ cast_vote ctx item value (find (own_vote item ctx.user_id) s.post_votes) s.post_votes
  posts :
      s'.posts
      ≡ update_where
          (in_tenant ctx item)
          (recount_post (previous_value (find (own_vote item ctx.user_id) s.post_votes)) value)
          s.posts
  comments : s'.comments ≡ s.comments
  comment_votes : s'.comment_votes ≡ s.comment_votes

vote_post_facts :
    (ctx : Context) (item : ℕ) (value : VoteValue) (t : Tally) (s s' : Communities)
    → vote_post ctx item value s ≡ ok (t, s')
    → (s' ≡ s) ⊎ VotedPost ctx item value s s'
unfolding vote_post
vote_post_facts ctx item value t s s' e =
    elim (Option-cases (find (listed_post ctx item) s.posts)) [
      | inl missing ↦ ground arith
      | inr (p, there) ↦
          elim (Bool-cases
            (same_value (previous_value (find (own_vote item ctx.user_id) s.post_votes)) value)) [
              | inl u ↦ inl (ground arith)
              | inr u ↦ inr (record {
                post = p;
                listed = there;
                votes = ground arith;
                posts = ground arith;
                comments = ground arith;
                comment_votes = ground arith;
              })
            ]
    ]

-- The row with the id of a found row of the tenant is that row.
own_post :
    (ctx : Context) (item : ℕ) (posts : List Post) (p x : Post)
    → Distinct (map (λ q. q.id) posts)
    → find (listed_post ctx item) posts ≡ some p
    → In x posts
    → in_tenant ctx item x ≡ false
    → (item == x.id) ≡ false
own_post ctx item posts p x d f m h = elim (Bool-cases (item == x.id)) [
  | inr g ↦ g
  | inl g ↦
      let same : x ≡ p =
        row_unique (λ q. q.id) posts x p d m (find-In _ posts f)
          (ground (arith, find_holds (listed_post ctx item) posts f)) in
      ground (arith, ap (in_tenant ctx item) same, find_holds (listed_post ctx item) posts f)
]

-- A vote on a post, cast, changed or taken back, keeps the tallies: where before it the up, down and
-- score columns of every post and comment are the counts of its vote rows, ids are distinct and nobody
-- has two rows on one item, all of this holds after it.
pub vote_post-IsTallied :
    (ctx : Context) (item : ℕ) (value : VoteValue) (t : Tally) (s s' : Communities)
    → IsTallied s
    → vote_post ctx item value s ≡ ok (t, s')
    → IsTallied s'
vote_post-IsTallied ctx item value t s s' v e = elim (vote_post_facts ctx item value t s s' e) [
  | inl same ↦ rw same v
  | inr f ↦ record {
    post_ids =
        rw
          (
            f.posts,
            map-update_where (λ (p : Post). p.id) (in_tenant ctx item)
                (recount_post (previous_value (find (own_vote item ctx.user_id) s.post_votes))
                  value)
                s.posts (λ p. refl),
          )
          v.post_ids;
    comment_ids = rw f.comments v.comment_ids;
    post_row = λ i u. rw f.votes (one_row-cast_vote ctx item i u value s.post_votes v.post_row);
    comment_row = rw f.comment_votes v.comment_row;
    posts =
        rw (f.posts, f.votes)
          (All-update_where-In
            (λ p.
              Counts
                (cast_vote ctx item value (find (own_vote item ctx.user_id) s.post_votes)
                  s.post_votes)
                p.id p.tally)
            (in_tenant ctx item) _ s.posts
            (λ x m h.
              moved_item ctx item x.id value s.post_votes x.tally v.post_row (ground arith)
                (All_In (λ p. Counts s.post_votes p.id p.tally) s.posts x v.posts m))
            (λ x m h.
              other_item ctx item x.id value s.post_votes x.tally v.post_row
                (own_post ctx item s.posts f.post x v.post_ids f.listed m h)
                (All_In (λ p. Counts s.post_votes p.id p.tally) s.posts x v.posts m)));
    comments = rw (f.comments, f.comment_votes) v.comments;
  }
]
