-- ===== src/Messages/Carrying.antt =====
-- A request carries its first message: what the changes of the tables leave true of every
-- conversation.
use campus_os.Common.{
  ℕ, ◌≤◌, ◌<◌, ◌≡◌, refl, ap, Bool, true, false, not, ◌&&◌, ◌||◌, some, List, [], ◌∷◌, ◌++◌, map,
  ◌==◌, any, find, count, includes, update_where, All, In, Distinct, arith, Bool-cases, inl, inr,
  any-append, count-append, count_zero, find-In, All-map_In, All-append, All_In, All-update_where,
  All-update_where-In, map-update_where, count-update_same, Distinct-snoc, row_unique,
}
use campus_os.Tenancy.{Context, is_present}
use campus_os.Messages.{
  Ephemerality, active, declined, is_pending, is_active, Conversation, Message, conversation_by_id,
}
use campus_os.Messages.Sending.{in_request, set_status, touched}
use campus_os.Messages.Requests.{pair_of, reopened, new_conversation, inbound}

-- A message of the request of a conversation, in its tenant.
abbrev pub carries : Conversation → Message → Bool
carries c m = in_request c m && (m.tenant_id == c.tenant_id)

abbrev pub expiring : ℕ → Message → Bool
expiring conversation m = (m.conversation_id == conversation) && is_present m.expires_at

-- A pending request has a message, and nothing expires before the chat is open.
abbrev pub Carried : List Message → Conversation → Type 0
Carried ms c =
    ((not (is_pending c.status) || any (carries c) ms) ≡ true)
    × ((is_active c.status || not (any (expiring c.id) ms)) ≡ true)

-- The tables of the conversations: one row for a pair, its participants in order.
pub record IsCarried (cs : List Conversation) (ms : List Message) : Type 0 where
  pub ids : Distinct (map (λ c. c.id) cs)
  pub pairs : (tenant : ℕ) (pair : ℕ × ℕ) → count (pair_of tenant pair) cs ≤ 1
  pub ordered : All (λ c. c.participant_a < c.participant_b) cs
  pub carried : All (Carried ms) cs

pair_absent :
    (c : Conversation) (tenant t : ℕ) (pair p : ℕ × ℕ) (cs : List Conversation)
    → pair_of tenant pair c ≡ true
    → pair_of t p c ≡ true
    → any (pair_of tenant pair) cs ≡ false
    → any (pair_of t p) cs ≡ false
pair_absent c tenant t pair p [] h k e = refl
pair_absent c tenant t pair p (d ∷ cs) h k e = ground (arith, pair_absent c tenant t pair p cs h k)

quiet_lem :
    (conversation : ℕ) (ms : List Message)
    → any (λ m. m.conversation_id == conversation) ms ≡ false
    → any (expiring conversation) ms ≡ false
quiet_lem conversation [] h = refl
quiet_lem conversation (m ∷ ms) h = ground (arith, quiet_lem conversation ms)

module _ (cs : List Conversation) (ms : List Message) (v : IsCarried cs ms) where
  -- An update of conversations that keeps who they are, from what it leaves of each row.
  pub update-IsCarried :
      (p : Conversation → Bool) (f : Conversation → Conversation)
      → ((c : Conversation)
          → f c ≡ record c {
            ephemerality = (f c).ephemerality;
            status = (f c).status;
            requested_by = (f c).requested_by;
            status_changed_at = (f c).status_changed_at;
            last_message_at = (f c).last_message_at;
          })
      → ((c : Conversation) → In c cs → p c ≡ true → Carried ms c → Carried ms (f c))
      → IsCarried (update_where p f cs) ms
  update-IsCarried p f same keep = record {
    ids =
        rw (map-update_where (λ (c : Conversation). c.id) p f cs (λ c. ap (λ d. d.id) (same c)))
          v.ids;
    pairs = λ tenant pair.
        rw
          (count-update_same (pair_of tenant pair) p f cs
            (λ c h. ap (pair_of tenant pair) (same c)))
          (v.pairs tenant pair);
    ordered =
        All-update_where (λ c. c.participant_a < c.participant_b) p f cs (λ c h k. rw (same c) k)
          v.ordered;
    carried =
        All-update_where-In (Carried ms) p f cs
          (λ c i h. keep c i h (All_In (Carried ms) cs c v.carried i))
          (λ c i h. All_In (Carried ms) cs c v.carried i);
  }

  pub touched-IsCarried :
      (p : Conversation → Bool) (now : ℕ) → IsCarried (update_where p (touched now) cs) ms
  touched-IsCarried p now = update-IsCarried p (touched now) (λ c. refl) (λ c i h k. k)

  pub opened-IsCarried :
      (p : Conversation → Bool) (now : ℕ) → IsCarried (update_where p (set_status active now) cs) ms
  opened-IsCarried p now =
      update-IsCarried p (set_status active now) (λ c. refl) (λ c i h k. (refl, refl))

  pub declined-IsCarried :
      (ctx : Context) (conversation now : ℕ)
      → IsCarried (update_where (inbound ctx conversation) (set_status declined now) cs) ms
  declined-IsCarried ctx conversation now =
      update-IsCarried (inbound ctx conversation) (set_status declined now) (λ c. refl)
        (λ c i h k. ground arith)

  -- Other messages, as long as each conversation is still carried.
  pub messages-IsCarried :
      (ms' : List Message)
      → ((c : Conversation) → In c cs → Carried ms c → Carried ms' c)
      → IsCarried cs ms'
  messages-IsCarried ms' keep = record {
    ids = v.ids;
    pairs = v.pairs;
    ordered = v.ordered;
    carried = All-map_In (Carried ms) (Carried ms') cs keep v.carried;
  }

  -- One message more, that does not expire unless its chat is open.
  pub sent-IsCarried :
      (m : Message)
      → ((c : Conversation) → In c cs → (is_active c.status || not (expiring c.id m)) ≡ true)
      → IsCarried cs (ms ++ m ∷ [])
  sent-IsCarried m h = messages-IsCarried (ms ++ m ∷ []) (λ c i k.
      ground
        (arith, h c i, any-append (carries c) ms (m ∷ []), any-append (expiring c.id) ms (m ∷ [])))

  -- A row that a conversation's id finds is the only row with that id.
  pub only_row :
      (p : Conversation → Bool) (c d : Conversation)
      → find p cs ≡ some c
      → In d cs
      → (d.id == c.id) ≡ true
      → d ≡ c
  only_row p c d there i e = row_unique (λ x. x.id) cs d c v.ids i (find-In p cs there) e

  -- After the update by id the conversation is open.
  pub opened_row :
      (ctx : Context) (c : Conversation) (now : ℕ) (p : Conversation → Bool)
      → find p cs ≡ some c
      → conversation_by_id ctx c.id c ≡ true
      → All
          (λ d. (is_active d.status || not (d.id == c.id)) ≡ true)
          (update_where (conversation_by_id ctx c.id) (set_status active now) cs)
  opened_row ctx c now p there seen =
      All-update_where-In (λ d. (is_active d.status || not (d.id == c.id)) ≡ true)
        (conversation_by_id ctx c.id) (set_status active now) cs (λ d i h. refl)
        (λ d i h. elim (Bool-cases (d.id == c.id)) [
          | inr other ↦ ground arith
          | inl same ↦
              let row : d ≡ c = only_row p c d there i same in
              ground (arith, ap (conversation_by_id ctx c.id) row)
        ])

  -- A request under a new id and for a new pair, with its message.
  pub asked-IsCarried :
      (ctx : Context) (fresh : ℕ) (pair : ℕ × ℕ) (kept : Ephemerality) (m : Message)
      → includes (map (λ c. c.id) cs) fresh ≡ false
      → any (λ m. m.conversation_id == fresh) ms ≡ false
      → any (pair_of ctx.tenant_id pair) cs ≡ false
      → pair.0 < pair.1
      → carries (new_conversation ctx fresh pair kept) m ≡ true
      → is_present m.expires_at ≡ false
      → IsCarried (cs ++ new_conversation ctx fresh pair kept ∷ []) (ms ++ m ∷ [])
  asked-IsCarried ctx fresh pair kept m new quiet single order speaks lasting =
      let more = sent-IsCarried m (λ c i. ground arith) in
      record {
        ids = Distinct-snoc (λ c. c.id) cs (new_conversation ctx fresh pair kept) v.ids new;
        pairs = λ tenant other.
            elim (Bool-cases (pair_of tenant other (new_conversation ctx fresh pair kept))) [
              | inr f ↦ ground (
                arith,
                count-append (pair_of tenant other) cs (new_conversation ctx fresh pair kept ∷ []),
                v.pairs tenant other,
                f,
              )
              | inl t ↦ ground (
                arith,
                count-append (pair_of tenant other) cs (new_conversation ctx fresh pair kept ∷ []),
                count_zero (pair_of tenant other) cs (
                    pair_absent (new_conversation ctx fresh pair kept) ctx.tenant_id tenant pair
                      other cs (ground arith) t single),
                t,
              )
            ];
        ordered =
            All-append (λ c. c.participant_a < c.participant_b) cs
              (new_conversation ctx fresh pair kept ∷ []) v.ordered (order, tt);
        carried =
            All-append (Carried (ms ++ m ∷ [])) cs (new_conversation ctx fresh pair kept ∷ [])
              more.carried
              (
                ground (
                  arith,
                  any-append (carries (new_conversation ctx fresh pair kept)) ms (m ∷ []),
                  any-append (expiring fresh) ms (m ∷ []),
                  quiet_lem fresh ms quiet,
                ),
                tt,
              );
      }

module _ (cs : List Conversation) (ms : List Message) (v : IsCarried cs ms) where
  -- A request that opens again, with its message.
  pub reasked-IsCarried :
      (ctx : Context) (c : Conversation) (kept : Ephemerality) (m : Message)
      → In c cs
      → is_active c.status ≡ false
      → carries (reopened ctx kept c) m ≡ true
      → is_present m.expires_at ≡ false
      → IsCarried (update_where (conversation_by_id ctx c.id) (reopened ctx kept) cs) (ms ++ m ∷ [])
  reasked-IsCarried ctx c kept m there shut speaks lasting =
      update-IsCarried cs (ms ++ m ∷ []) (sent-IsCarried cs ms v m (λ d i. ground arith))
        (conversation_by_id ctx c.id) (reopened ctx kept) (λ d. refl)
        (λ d i h k.
          let same : d ≡ c = row_unique (λ x. x.id) cs d c v.ids i there (ground arith) in
          (
            ground (
              arith,
              any-append (carries (reopened ctx kept d)) ms (m ∷ []),
              ap (λ x. carries (reopened ctx kept x) m) same,
              speaks,
            ),
            ground (arith, k, ap (λ (x : Conversation). is_active x.status) same),
          ))
