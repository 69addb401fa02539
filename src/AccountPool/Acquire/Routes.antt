-- ===== src/AccountPool/Acquire/Routes.antt =====
-- The two ends of `acquire`: it refuses and leaves the store as the expiry made it, or it takes
-- an account that fits.
use turtle_chat.Prelude.{
  ℕ, ◌<◌, ◌≡◌, refl, sym, ◌∙◌, String, true, false, not, Option, none, some, string_eq, List, arith,
  inl, inr, Option-cases, ap, if_holds,
}
use mathlib.Core.Path.{subst}
use turtle_chat.Dict.{get, put, values}
use turtle_chat.Quota.Lookup.{selection_keys}
use turtle_chat.AccountPool.Types.{Account, AccountGroup, AccountStore, PoolLease}
use turtle_chat.AccountPool.Choose.{Candidate}
use turtle_chat.AccountPool.Select.{capacity_of, choose_account}
use turtle_chat.AccountPool.Select.Choices.{All, choose_account-Ready}
use turtle_chat.AccountPool.Store.{
  AcquireArgs, candidates, base_eligible, active_on, expire, Outcome, Refusal, chat_is_busy, truthy,
  is_member,
}
use turtle_chat.AccountPool.Acquire.{
  bind_chat, new_lease, commit, commit_selected, refuse, route, choose_and_route, acquire_in,
  acquire_from, acquire,
}
use turtle_chat.AccountPool.Acquire.Candidates.{
  IsKeyed, IsDrawn, values-Found, candidates-IsDrawn, expire-IsKeyed,
}

-- An account that `acquire` may take, in the store after the expiry.
pub record Fits (s : AccountStore) (a : AcquireArgs) (now : ℕ) (source : Account) : Type 0 where
  pub stored : get s.accounts source.id ≡ some source
  pub pooled : source.pool_id ≡ a.pool_id
  pub eligible : base_eligible a now source ≡ true
  pub room : active_on source.id s.leases < capacity_of source
  pub fresh : get s.leases a.request_id ≡ none
  pub quiet : chat_is_busy a.pool_id (truthy a.chat_id) now s.leases ≡ false

pub data Ends (s : AccountStore) (a : AcquireArgs) (now : ℕ) (r : AccountStore × Outcome)
    : Type 0 where
  refuses : (why : Refusal) → r ≡ (s, Outcome.refused why) → Ends s a now r
  takes :
      (source : Account) (reason : Option String)
      → Fits s a now source
      → r ≡ commit s a now source reason
      → Ends s a now r

module _ (tiebreak : String → Option String → String → ℕ) (s : AccountStore) (a : AcquireArgs)
    (now : ℕ) where
  module _ (fresh : get s.leases a.request_id ≡ none)
      (quiet : chat_is_busy a.pool_id (truthy a.chat_id) now s.leases ≡ false) where
    selected-Ends :
        (x : Candidate) (reason : Option String)
        → IsDrawn s a now x
        → x.base_eligible ≡ true
        → x.active < capacity_of x.account
        → Ends s a now (commit_selected s a now reason (get s.accounts x.account.id))
    unfolding commit_selected
    selected-Ends x reason d e h =
        takes d.source reason
          (record {
            stored = ap (get s.accounts) d.keyed ∙ d.found;
            pooled = d.pooled;
            eligible = sym d.eligibility ∙ e;
            room =
                omega (arith, ap (λ i. active_on i s.leases) d.keyed, d.load, d.same_capacity, h);
            fresh = fresh;
            quiet = quiet;
          })
          (ap (commit_selected s a now reason) d.found)

    route-Ends :
        (preferred : Option String) (items : List Candidate)
        → All (IsDrawn s a now) items
        → Ends s a now (
            route tiebreak s a now preferred
              (choose_account tiebreak a.pool_id a.chat_id preferred items))
    route-Ends preferred items d =
        elim (Option-cases (choose_account tiebreak a.pool_id a.chat_id preferred items)) [
          | inl n ↦
              subst (λ o. Ends s a now (route tiebreak s a now preferred o)) (sym n)
                (unfold route refuse in refuses Refusal.no_account refl)
          | inr ((x, reason), e) ↦
              let (drawn, eligible, room, _) =
                choose_account-Ready tiebreak a.pool_id a.chat_id (IsDrawn s a now) preferred items
                  x reason d e in
              subst (λ o. Ends s a now (route tiebreak s a now preferred o)) (sym e)
                (unfold route in selected-Ends x _ drawn eligible room)
        ]

    choose-Ends :
        (preferred : Option String) (o : Option (List Candidate))
        → ((items : List Candidate) → o ≡ some items → All (IsDrawn s a now) items)
        → Ends s a now (choose_and_route tiebreak s a now preferred o)
    unfolding choose_and_route refuse
    choose-Ends preferred none h = refuses Refusal.invalid_profile refl
    choose-Ends preferred (some items) h = route-Ends preferred items (h items refl)

  acquire_in-Ends :
      (pool : Option AccountGroup)
      → IsKeyed s.accounts
      → get s.leases a.request_id ≡ none
      → Ends s a now (acquire_in tiebreak s a now pool)
  unfolding acquire_in refuse
  acquire_in-Ends none k fresh = refuses Refusal.pool_disabled refl
  acquire_in-Ends (some pool) k fresh =
      if_holds (Ends s a now) (not pool.enabled) (λ _. refuses Refusal.pool_disabled refl)
        λ _.
          if_holds (Ends s a now) (not (is_member a.selection_key (selection_keys pool.provider)))
            (λ _. refuses Refusal.invalid_selection refl)
            λ _.
              if_holds (Ends s a now) (chat_is_busy a.pool_id (truthy a.chat_id) now s.leases)
                (λ _. refuses Refusal.chat_busy refl)
                λ quiet.
                  choose-Ends fresh quiet _ (candidates s a now pool.provider (values s.accounts))
                    (λ items.
                      candidates-IsDrawn s a now pool.provider (values s.accounts) items
                        (values-Found s k))

  acquire_from-Ends :
      (o : Option PoolLease)
      → IsKeyed s.accounts
      → get s.leases a.request_id ≡ o
      → Ends s a now (acquire_from tiebreak s a now o)
  unfolding acquire_from refuse
  acquire_from-Ends (some used) k f = refuses Refusal.request_used refl
  acquire_from-Ends none k f = acquire_in-Ends (get s.pools a.pool_id) k f

pub acquire-Ends :
    (tiebreak : String → Option String → String → ℕ) (s : AccountStore) (a : AcquireArgs) (now : ℕ)
    → IsKeyed s.accounts
    → Ends (expire s now) a now (acquire tiebreak s a now)
unfolding acquire
acquire-Ends tiebreak s a now k =
    acquire_from-Ends tiebreak (expire s now) a now (get (expire s now).leases a.request_id)
      (expire-IsKeyed s now k) refl

-- What the tail of `acquire` writes.
bind_chat-same :
    (s : AccountStore) (a : AcquireArgs) (selected : String) (now : ℕ) (reason chat : Option String)
    → ((bind_chat s a selected now reason chat).leases ≡ s.leases)
      × ((bind_chat s a selected now reason chat).accounts ≡ s.accounts)
unfolding bind_chat
bind_chat-same s a selected now reason none = (refl, refl)
bind_chat-same s a selected now reason (some chat) = (refl, refl)

pub commit-leases :
    (s : AccountStore) (a : AcquireArgs) (now : ℕ) (source : Account) (reason : Option String)
    → (commit s a now source reason).0.leases
      ≡ put s.leases a.request_id (new_lease a source.id now)
unfolding commit
commit-leases s a now source reason = (bind_chat-same _ a source.id now reason (truthy a.chat_id)).0

pub commit-accounts :
    (s : AccountStore) (a : AcquireArgs) (now : ℕ) (source : Account) (reason : Option String)
    → (commit s a now source reason).0.accounts
      ≡ put s.accounts source.id (record source { last_used_at = some now })
unfolding commit
commit-accounts s a now source reason =
    (bind_chat-same _ a source.id now reason (truthy a.chat_id)).1
