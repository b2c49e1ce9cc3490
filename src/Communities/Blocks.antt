-- ===== src/Communities/Blocks.antt =====
-- packages/modules/communities/src/blocks.ts: a person's blocks. The listing is left out; the view
-- `public_profiles` is the list of the people it shows.
pub mod Effects
use campus_os.Common.{
  ℕ, Bool, true, false, not, ◌&&◌, List, [], ◌∷◌, ◌++◌, ◌==◌, if◌then◌else◌, any, filter, includes,
}
use campus_os.Core.Result.{Result, ok, err, ◌>>=◌, ◌>>◌, require}
use campus_os.Tenancy.{Context, Block, blocked_between}
use campus_os.Communities.Access.{Refusal, self, not_found}

-- The primary key of `user_blocks`.
abbrev pub same_block : Context → ℕ → Block → Bool
same_block ctx user b =
    (b.tenant_id == ctx.tenant_id) && ((b.blocker_id == ctx.user_id) && (b.blocked_id == user))

abbrev pub new_block : Context → ℕ → Block
new_block ctx user = record {
  tenant_id = ctx.tenant_id;
  blocker_id = ctx.user_id;
  blocked_id = user;
}

unfoldable pub block_user : Context → ℕ → List ℕ → List Block → Result (List Block) Refusal
block_user ctx user profiles blocks = do
  require (not (user == ctx.user_id)) self
  require (includes profiles user) not_found
  ok (if any (same_block ctx user) blocks then blocks else blocks ++ new_block ctx user ∷ [])

unfoldable pub unblock_user : Context → ℕ → List Block → List Block
unblock_user ctx user blocks = filter (λ b. not (same_block ctx user b)) blocks

-- The exported `blockedBetween`: never with oneself.
unfoldable pub is_blocked_between : Context → ℕ → List Block → Bool
is_blocked_between ctx other blocks =
    if other == ctx.user_id then false else blocked_between blocks ctx other
