-- ===== src/AccountPool/Acquire/Routed.antt =====
-- What a call of `acquire` gives and what it leaves
-- (src/chatgpt_web_gateway/account_pool.py).
use turtle_chat.Prelude.{
  ℕ, ◌<◌, ◌≡◌, refl, sym, ap, ◌∙◌, String, true, false, Option, none, some, string_eq, ==_refl,
  some_inj,
}
use mathlib.Core.Path.{subst}
use turtle_chat.Dict.{Dict, get, put}
use turtle_chat.Dict.Laws.{get-put}
use turtle_chat.AccountPool.Types.{Account, AccountStore, Affinity}
use turtle_chat.Prelude.{pair_eq}
use turtle_chat.AccountPool.Select.{capacity_of}
use turtle_chat.AccountPool.Health.{admission_eligible}
use turtle_chat.AccountPool.Store.{
  AcquireArgs, expire, Outcome, Refusal, routed, refused, base_eligible, active_on, chat_is_busy,
  truthy, preferred_of, route_affinity,
}
use turtle_chat.AccountPool.Acquire.{acquire, commit, bind_chat, new_lease}
use turtle_chat.AccountPool.Acquire.Candidates.{IsKeyed}
use turtle_chat.AccountPool.Acquire.Routes.{Fits, Ends, refuses, takes, acquire-Ends, commit-leases}

-- The account that a routed request has, the store before the choice and the store after it.
pub record IsRouted (before : AccountStore) (a : AcquireArgs) (now : ℕ) (account : Account)
    (after : AccountStore) : Type 0 where
  pub pooled : account.pool_id ≡ a.pool_id
  pub eligible : base_eligible a now account ≡ true
  pub room : active_on account.id before.leases < capacity_of account
  pub fresh : get before.leases a.request_id ≡ none
  pub quiet : chat_is_busy a.pool_id (truthy a.chat_id) now before.leases ≡ false
  pub leased : get after.leases a.request_id ≡ some (new_lease a account.id now)
  pub bound :
      (chat_id : String)
      → truthy a.chat_id ≡ some chat_id
      → preferred_of (get after.affinity (a.pool_id, chat_id)) ≡ some account.id

get-put-same : {V : Type 0} (d : Dict String V) (k : String) (v : V) → get (put d k v) k ≡ some v
get-put-same d k v = rw (get-put d k k v) (rw (==_refl k) refl)

route_affinity-preferred :
    (a : AcquireArgs) (chat_id selected : String) (now : ℕ) (reason : Option String)
    (o : Option Affinity)
    → (route_affinity a chat_id selected now reason o).preferred_account_id ≡ selected
unfolding route_affinity
route_affinity-preferred a chat_id selected now reason none = refl
route_affinity-preferred a chat_id selected now reason (some x) = refl

bind_chat-preferred :
    (s : AccountStore) (a : AcquireArgs) (selected : String) (now : ℕ) (reason o : Option String)
    (chat_id : String)
    → o ≡ some chat_id
    → preferred_of (get (bind_chat s a selected now reason o).affinity (a.pool_id, chat_id))
      ≡ some selected
unfolding bind_chat
bind_chat-preferred s a selected now reason none chat_id h = cc
bind_chat-preferred s a selected now reason (some c) chat_id h =
    subst
      (λ j.
        preferred_of (get (bind_chat s a selected now reason (some c)).affinity (a.pool_id, j))
        ≡ some selected)
      (some_inj h)
      (rw
        (get-put s.affinity (a.pool_id, c) (a.pool_id, c)
          (route_affinity a c selected now reason (get s.affinity (a.pool_id, c))))
        (rw (==_refl {A = String × String} (a.pool_id, c)) (
          ap some
            (route_affinity-preferred a c selected now reason (get s.affinity (a.pool_id, c))))))

commit-IsRouted :
    (s : AccountStore) (a : AcquireArgs) (now : ℕ) (source : Account) (reason : Option String)
    → Fits s a now source
    → IsRouted s a now (record source { last_used_at = some now }) (commit s a now source reason).0
unfolding commit base_eligible admission_eligible
commit-IsRouted s a now source reason f = record {
  pooled = f.pooled;
  eligible = f.eligible;
  room = f.room;
  fresh = f.fresh;
  quiet = f.quiet;
  leased =
      rw (commit-leases s a now source reason)
        (get-put-same s.leases a.request_id (new_lease a source.id now));
  bound = λ chat_id h. bind_chat-preferred _ a source.id now reason (truthy a.chat_id) chat_id h;
}

commit-outcome :
    (s : AccountStore) (a : AcquireArgs) (now : ℕ) (source : Account) (reason : Option String)
    → (commit s a now source reason).1 ≡ routed (record source { last_used_at = some now })
unfolding commit
commit-outcome s a now source reason = refl

abbrev account_of : Outcome → Option Account
account_of (routed account) = some account
account_of (refused why) = none

Ends-IsRouted :
    (s : AccountStore) (a : AcquireArgs) (now : ℕ) (r : AccountStore × Outcome) (account : Account)
    → Ends s a now r
    → r.1 ≡ routed account
    → IsRouted s a now account r.0
Ends-IsRouted s a now r account (refuses why e) h =
    cc (ap account_of (sym (ap (λ (x : AccountStore × Outcome). x.1) e) ∙ h))
Ends-IsRouted s a now r account (takes source reason f e) h = rw e (
    subst (λ x. IsRouted s a now x (commit s a now source reason).0)
      (some_inj (
        ap account_of (
          sym (commit-outcome s a now source reason)
          ∙ sym (ap (λ (x : AccountStore × Outcome). x.1) e)
          ∙ h)))
      (commit-IsRouted s a now source reason f))

-- In a store whose accounts stand under their own identifiers, each once: an account to which
-- `acquire` routes a request is of the pool that the request names, passes the request's
-- exclusions and required account and profiles and is admissible; before the call, once what had
-- expired was closed, it ran fewer leases than its capacity, the identifier of the request had no
-- lease and its chat was not being served. After it the request holds a lease on that account,
-- and the chat, if it has one, is bound to that account.
pub acquire-IsRouted :
    (tiebreak : String → Option String → String → ℕ) (s : AccountStore) (a : AcquireArgs) (now : ℕ)
    (account : Account)
    → IsKeyed s.accounts
    → (acquire tiebreak s a now).1 ≡ routed account
    → IsRouted (expire s now) a now account (acquire tiebreak s a now).0
acquire-IsRouted tiebreak s a now account k h =
    Ends-IsRouted (expire s now) a now _ account (acquire-Ends tiebreak s a now k) h

abbrev refusal_of : Outcome → Option Refusal
refusal_of (routed account) = none
refusal_of (refused why) = some why

Ends-refused :
    (s : AccountStore) (a : AcquireArgs) (now : ℕ) (r : AccountStore × Outcome) (why : Refusal)
    → Ends s a now r
    → r.1 ≡ refused why
    → r.0 ≡ s
unfolding commit
Ends-refused s a now r why (refuses _ e) h = ap (λ (x : AccountStore × Outcome). x.0) e
Ends-refused s a now r why (takes source reason f e) h = cc (
    ap refusal_of (
      sym (commit-outcome s a now source reason)
      ∙ sym (ap (λ (x : AccountStore × Outcome). x.1) e)
      ∙ h))

-- In a store whose accounts stand under their own identifiers, each once: a call of `acquire` that
-- refuses, for whatever reason, closes what has expired and writes nothing else.
pub acquire-refused :
    (tiebreak : String → Option String → String → ℕ) (s : AccountStore) (a : AcquireArgs) (now : ℕ)
    (why : Refusal)
    → IsKeyed s.accounts
    → (acquire tiebreak s a now).1 ≡ refused why
    → (acquire tiebreak s a now).0 ≡ expire s now
acquire-refused tiebreak s a now why k h =
    Ends-refused (expire s now) a now _ why (acquire-Ends tiebreak s a now k) h
