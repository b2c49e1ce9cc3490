-- ===== src/Communities/Polls/Counts.antt =====
-- The counts on the options are the votes cast, and nobody votes twice.
use campus_os.Common.{
  ℕ, ◌+◌, ◌≤◌, ◌≡◌, refl, ap, Bool, true, false, some, List, [], ◌∷◌, ◌++◌, map, ◌==◌, any, find,
  count, update_where, All, In, Distinct, one_if, arith, Bool-cases, Option-cases, inl, inr,
  find-In, find_holds, All_In, All-update_where-In, map-update_where, row_unique, count-append,
  any-append, count_zero,
}
use campus_os.Core.Result.{Result-cases, ok, is_err}
use campus_os.Tenancy.{Context}
use campus_os.Communities.{PollOption, PollVote, Communities}
use campus_os.Communities.Votes.{listed_post}
use campus_os.Communities.Polls.{
  voted, option_id_of, counted_option, one_more, PollView, read_poll, vote_poll,
}

abbrev pub chose : ℕ → PollVote → Bool
chose option v = v.option_id == option

pub record IsCounted (s : Communities) : Type 0 where
  pub option_ids : Distinct (map (λ o. o.id) s.poll_options)
  pub one_vote : (post user : ℕ) → count (voted post user) s.poll_votes ≤ 1
  pub counted : All (λ o. o.vote_count ≡ count (chose o.id) s.poll_votes) s.poll_options

abbrev ballot : Context → ℕ → ℕ → PollVote
ballot ctx post option = record {
  tenant_id = ctx.tenant_id;
  post_id = post;
  option_id = option;
  user_id = ctx.user_id;
}

-- What a vote that is taken met, and the tables that it leaves.
record Polled (ctx : Context) (post option : ℕ) (s s' : Communities) : Type 0 where
  row : PollOption
  listed : find (option_id_of ctx option post) s.poll_options ≡ some row
  first : any (voted post ctx.user_id) s.poll_votes ≡ false
  options : s'.poll_options ≡ update_where (counted_option ctx option) one_more s.poll_options
  votes : s'.poll_votes ≡ s.poll_votes ++ ballot ctx post option ∷ []

vote_poll_facts :
    (ctx : Context) (post option : ℕ) (view : PollView) (s s' : Communities)
    → vote_poll ctx post option s ≡ ok (view, s')
    → Polled ctx post option s s'
unfolding vote_poll
vote_poll_facts ctx post option view s s' e =
    elim (Option-cases (find (listed_post ctx post) s.posts)) [
      | inl missing ↦ ground arith
      | inr (p, there) ↦ elim (Option-cases (find (option_id_of ctx option post) s.poll_options)) [
        | inl missing ↦ ground arith
        | inr (o, listed) ↦
            elim (Option-cases (
              read_poll ctx post (record s {
                poll_votes = s.poll_votes ++ ballot ctx post option ∷ [];
                poll_options = update_where (counted_option ctx option) one_more s.poll_options;
              }))) [
                | inl missing ↦ ground arith
                | inr (v, read) ↦ record {
                  row = o;
                  listed = listed;
                  first = ground arith;
                  options = ground arith;
                  votes = ground arith;
                }
              ]
      ]
    ]

one_vote_more :
    (post user p u : ℕ) (vs : List PollVote) (b : PollVote)
    → voted post user b ≡ true
    → any (voted post user) vs ≡ false
    → count (voted p u) vs ≤ 1
    → count (voted p u) (vs ++ b ∷ []) ≤ 1
one_vote_more post user p u vs b h k one = elim (Bool-cases (voted p u b)) [
  | inl t ↦
      ground
        (arith, count-append (voted p u) vs (b ∷ []), count_zero (voted p u) vs (absent vs k t), t)
  | inr f ↦ ground (arith, count-append (voted p u) vs (b ∷ []), f)
]
  where
    absent :
        (xs : List PollVote)
        → any (voted post user) xs ≡ false
        → voted p u b ≡ true
        → any (voted p u) xs ≡ false
    absent [] g t = refl
    absent (x ∷ xs) g t = ground (arith, absent xs, h)

module _ (ctx : Context) (post option : ℕ) (s s' : Communities) (v : IsCounted s)
    (f : Polled ctx post option s s') where
  counted_more :
      (x : PollOption)
      → x.vote_count ≡ count (chose x.id) s.poll_votes
      → count (chose x.id) s'.poll_votes ≡ x.vote_count + one_if (option == x.id)
  counted_more x h =
      rw f.votes
        (ground (arith, count-append (chose x.id) s.poll_votes (ballot ctx post option ∷ []), h))

  other_option :
      (x : PollOption)
      → In x s.poll_options
      → counted_option ctx option x ≡ false
      → (option == x.id) ≡ false
  other_option x m h = elim (Bool-cases (option == x.id)) [
    | inr g ↦ g
    | inl g ↦
        let same : x ≡ f.row =
          row_unique (λ o. o.id) s.poll_options x f.row v.option_ids m
            (find-In _ s.poll_options f.listed)
            (ground (arith, find_holds (option_id_of ctx option post) s.poll_options f.listed)) in
        ground (
          arith,
          ap (counted_option ctx option) same,
          find_holds (option_id_of ctx option post) s.poll_options f.listed,
        )
  ]

  polled-IsCounted : IsCounted s'
  polled-IsCounted = record {
    option_ids =
        rw
          (
            f.options,
            map-update_where (λ (o : PollOption). o.id) (counted_option ctx option) one_more
                s.poll_options (λ o. refl),
          )
          v.option_ids;
    one_vote = λ p u. rw f.votes (
        one_vote_more post ctx.user_id p u s.poll_votes (ballot ctx post option) (ground arith)
          f.first (v.one_vote p u));
    counted = rw f.options (
        All-update_where-In (λ o. o.vote_count ≡ count (chose o.id) s'.poll_votes)
          (counted_option ctx option) one_more s.poll_options
          (λ x m h. ground (
            arith,
            counted_more x,
            All_In (λ o. o.vote_count ≡ count (chose o.id) s.poll_votes) s.poll_options x v.counted
                m,
          ))
          (λ x m h. ground (
            arith,
            counted_more x,
            other_option x m h,
            All_In (λ o. o.vote_count ≡ count (chose o.id) s.poll_votes) s.poll_options x v.counted
                m,
          )));
  }

-- A vote that is taken keeps every option's count equal to the votes cast for it, and leaves at most
-- one vote of each person on each poll.
pub vote_poll-IsCounted :
    (ctx : Context) (post option : ℕ) (view : PollView) (s s' : Communities)
    → IsCounted s
    → vote_poll ctx post option s ≡ ok (view, s')
    → IsCounted s'
vote_poll-IsCounted ctx post option view s s' v e =
    polled-IsCounted ctx post option s s' v (vote_poll_facts ctx post option view s s' e)

refuses_second :
    (ctx : Context) (post option : ℕ) (s : Communities)
    → any (voted post ctx.user_id) s.poll_votes ≡ true
    → is_err (vote_poll ctx post option s) ≡ true
refuses_second ctx post option s h = elim (Result-cases (vote_poll ctx post option s)) [
  | inl (e, r) ↦ rw r refl
  | inr ((view, s'), r) ↦ ground (arith, (vote_poll_facts ctx post option view s s' r).first)
]

-- A vote is final: after a vote that was taken, the same person is refused on the same poll,
-- whatever the option and the time.
pub vote_poll_final :
    (ctx later : Context) (post option other : ℕ) (view : PollView) (s s' : Communities)
    → vote_poll ctx post option s ≡ ok (view, s')
    → later.user_id ≡ ctx.user_id
    → is_err (vote_poll later post other s') ≡ true
vote_poll_final ctx later post option other view s s' e same =
    let f = vote_poll_facts ctx post option view s s' e in
    refuses_second later post other s' (
      rw (f.votes, same)
        (ground
          (arith, any-append (voted post ctx.user_id) s.poll_votes (ballot ctx post option ∷ []))))
