-- ===== src/RemoteBrowser/Revoked.antt =====
-- Accounts whose sessions were revoked (src/chatgpt_web_gateway/remote_browser_sessions.py).
use turtle_chat.Prelude.{
  ℕ, ◌+◌, ◌≡◌, ◌≢◌, refl, ap, String, false, not, Option, none, some, string_eq, ==_refl, List,
  any_of, arith, leb, if_holds, to_nat, some_inj,
}
use mathlib.Core.Path.{subst}
use turtle_chat.Dict.{Dict, get, pop, count}
use turtle_chat.Dict.Counts.{weight-le-count, weight}
use turtle_chat.RemoteBrowser.Sessions.{
  Entry, session, malformed, Payload, empty_store, File, missing, invalid, stored, Texts, is_of,
  prune, is_token, exchanged, exchange_body, consumed, consume_body, exchange_pending_session,
  consume_connection, revoke_account_sessions,
}
use turtle_chat.RemoteBrowser.Trace.{Call, run}
use turtle_chat.RemoteBrowser.Trace.Counts.{
  links, cookies, issues_for, drop_account-none, keep_both-Shrinks,
}
use turtle_chat.RemoteBrowser.Trace.Holds.{Holds, IsLasting, locked_store-returns}
use turtle_chat.RemoteBrowser.Trace.Stages.{run-closed}

-- The account that a call leads to.
abbrev pub linked_account : Option (String × String × ℕ) → Option String
linked_account none = none
linked_account (some r) = some r.1

abbrev pub connected_account : Option (String × ℕ) → Option String
connected_account none = none
connected_account (some r) = some r.0

revoke-closed :
    (file : File) (a : String) (clock : ℕ)
    → links a (revoke_account_sessions file a clock).0
        + cookies a (revoke_account_sessions file a clock).0
      ≡ 0
unfolding revoke_account_sessions
revoke-closed missing a clock =
    let z = drop_account-none a (prune empty_store clock) in omega (arith, z.0, z.1)
revoke-closed invalid a clock = refl
revoke-closed (stored payload) a clock =
    let z = drop_account-none a (prune payload clock) in omega (arith, z.0, z.1)

own-count :
    (a : String) (d : Dict String Entry) (k : String) (e : ℕ)
    → get d k ≡ some (session a e)
    → count (is_of a) d ≢ 0
own-count a d k e g z =
    let w = weight-le-count (is_of a) d k in
    omega (arith, w, ap (weight (is_of a)) g, ap to_nat (==_refl a), z)

-- The state of a file in which an account has nothing.
abbrev IsShut : String → Payload → Type 0
IsShut a payload = links a (stored payload) + cookies a (stored payload) ≡ 0

IsShut-lasts : (a : String) → IsLasting (IsShut a)
IsShut-lasts a p payload h = let k = keep_both-Shrinks a p payload in omega (arith, k.1, h)

Holds-IsShut :
    (a : String) (file : File) → links a file + cookies a file ≡ 0 → Holds (IsShut a) file
unfolding count
Holds-IsShut a missing h = refl
Holds-IsShut a invalid h = tt
Holds-IsShut a (stored payload) h = h

module _ (texts : Texts) (a : String) where
  exchange-shut :
      (file : File) (token connection : String) (now clock : ℕ)
      → Holds (IsShut a) file
      → linked_account (exchange_pending_session texts file token connection now clock).1 ≢ some a
  unfolding exchange_pending_session
  exchange-shut file token connection now clock h =
      if_holds (λ (r : File × Option (String × String × ℕ)). linked_account r.1 ≢ some a)
        (not (is_token texts token)) (λ _ e. cc)
        (λ _.
          locked_store-returns (IsShut a) (λ o. linked_account o ≢ some a) file clock
            (exchange_body texts token connection now) (IsShut-lasts a) (λ e. cc)
            (λ payload k. found payload (get payload.pending (texts.digest token)) refl k) h)
    where
      found :
          (payload : Payload) (o : Option Entry)
          → get payload.pending (texts.digest token) ≡ o
          → IsShut a payload
          → linked_account
              (exchanged texts
                (record payload { pending = pop payload.pending (texts.digest token) })
                connection
                now
                o).1
            ≢ some a
      found payload none g k = λ e. cc
      found payload (some malformed) g k = λ e. cc
      found payload (some (session owner x)) g k =
          if_holds (λ (r : Payload × Option (String × String × ℕ)). linked_account r.1 ≢ some a)
            (leb x now) (λ _ e. cc)
            (λ _ e.
              own-count a payload.pending (texts.digest token) x
                (subst (λ v. get payload.pending (texts.digest token) ≡ some (session v x))
                  (some_inj e) g)
                (omega (arith, k)))

  consume-shut :
      (file : File) (cookie : String) (now clock : ℕ)
      → Holds (IsShut a) file
      → connected_account (consume_connection texts file cookie now clock).1 ≢ some a
  unfolding consume_connection
  consume-shut file cookie now clock h =
      if_holds (λ (r : File × Option (String × ℕ)). connected_account r.1 ≢ some a)
        (not (is_token texts cookie)) (λ _ e. cc)
        (λ _.
          locked_store-returns (IsShut a) (λ o. connected_account o ≢ some a) file clock
            (consume_body texts cookie now) (IsShut-lasts a) (λ e. cc)
            (λ payload k. found payload (get payload.connections (texts.digest cookie)) refl k) h)
    where
      found :
          (payload : Payload) (o : Option Entry)
          → get payload.connections (texts.digest cookie) ≡ o
          → IsShut a payload
          → connected_account
              (consumed
                (record payload { connections = pop payload.connections (texts.digest cookie) })
                now
                o).1
            ≢ some a
      found payload none g k = λ e. cc
      found payload (some malformed) g k = λ e. cc
      found payload (some (session owner x)) g k =
          if_holds (λ (r : Payload × Option (String × ℕ)). connected_account r.1 ≢ some a)
            (leb x now) (λ _ e. cc)
            (λ _ e.
              own-count a payload.connections (texts.digest cookie) x
                (subst (λ v. get payload.connections (texts.digest cookie) ≡ some (session v x))
                  (some_inj e) g)
                (omega (arith, k)))

-- After a call that revokes the sessions of an account, and until a call that issues a link for
-- it, no link and no cookie leads to it.
pub revoke_shuts :
    (texts : Texts) (file : File) (a : String) (clock : ℕ) (calls : List Call)
    (token connection cookie : String) (now clock' : ℕ)
    → any_of (issues_for a) calls ≡ false
    → (linked_account
          (exchange_pending_session texts
            (run texts (revoke_account_sessions file a clock).0 calls)
            token
            connection
            now
            clock').1
        ≢ some a)
      × (connected_account
            (consume_connection texts
              (run texts (revoke_account_sessions file a clock).0 calls)
              cookie
              now
              clock').1
          ≢ some a)
revoke_shuts texts file a clock calls token connection cookie now clock' n =
    let later = run texts (revoke_account_sessions file a clock).0 calls in
    let shut = Holds-IsShut a later (
      run-closed texts a (revoke_account_sessions file a clock).0 calls n
        (revoke-closed file a clock)) in
    (
      exchange-shut texts a later token connection now clock' shut,
      consume-shut texts a later cookie now clock' shut,
    )
