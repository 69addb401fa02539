-- ===== src/RemoteBrowser/Trace/Counts.antt =====
-- How calls change the numbers of links and cookies of an account
-- (src/chatgpt_web_gateway/remote_browser_sessions.py).
use turtle_chat.Prelude.{
  ℕ, ◌+◌, ◌≤◌, ◌≡◌, refl, String, Bool, false, not, Option, none, some, ◌==◌, string_eq, leb,
  if_holds, arith, ℤ, to_nat, ap, Bool-cases, inl, inr,
}
use turtle_chat.Dict.{get, pop, sweep, count}
use turtle_chat.Dict.Counts.{
  count-put, count-pop, count-pop-get, count-sweep, count-sweep-none, weight,
}
use turtle_chat.RemoteBrowser.Sessions.{
  Entry, session, malformed, Payload, empty_store, File, missing, invalid, stored, Texts, is_of,
  kept, keep_both, prune, drop_account, exchanged, consumed, issue_body, exchange_body,
  consume_body, revoke_body, write_back, locked_store, is_token, expiry, issue_pending_session,
  exchange_pending_session, consume_connection, revoke_account_sessions, is_live,
}
use turtle_chat.RemoteBrowser.Trace.{Call, issues, exchanges, consumes, revokes, step}

-- The links and the cookies of an account in a file.
abbrev pub links : String → File → ℕ
links account_id (stored payload) = count (is_of account_id) payload.pending
links account_id _ = 0

abbrev pub cookies : String → File → ℕ
cookies account_id (stored payload) = count (is_of account_id) payload.connections
cookies account_id _ = 0

-- What a call that issues no link of the account does to its numbers.
abbrev pub Shrinks : String → File → File → Type 0
Shrinks account_id before after =
    (links account_id after ≤ links account_id before)
    × (links account_id after + cookies account_id after
        ≤ links account_id before + cookies account_id before)

kept-le :
    (a : String) (p : Entry → Bool) (v : Entry) → weight (is_of a) (kept p v) ≤ to_nat (is_of a v)
kept-le a p v = elim (Bool-cases (p v)) [ inl y ↦ rw y (omega arith) | inr n ↦ rw n (omega arith) ]

kept_none : (a : String) (v : Entry) → weight (is_of a) (kept (λ entry. not (is_of a entry)) v) ≡ 0
kept_none a v = ground arith

pub keep_both-Shrinks :
    (a : String) (p : Entry → Bool) (payload : Payload)
    → Shrinks a (stored payload) (stored (keep_both p payload))
keep_both-Shrinks a p payload =
    let l = count-sweep (is_of a) (kept p) payload.pending (kept-le a p) in
    let c = count-sweep (is_of a) (kept p) payload.connections (kept-le a p) in
    (l, omega (arith, l, c))

pub drop_account-none :
    (a : String) (payload : Payload)
    → (links a (stored (drop_account payload a)) ≡ 0)
      × (cookies a (stored (drop_account payload a)) ≡ 0)
drop_account-none a payload = (
  count-sweep-none (is_of a) (kept (λ entry. not (is_of a entry))) payload.pending (kept_none a),
  count-sweep-none (is_of a) (kept (λ entry. not (is_of a entry))) payload.connections
      (kept_none a),
)

Shrinks-trans : (a : String) (f g h : File) → Shrinks a f g → Shrinks a g h → Shrinks a f h
Shrinks-trans a f g h x y = (omega (arith, x.0, y.0), omega (arith, x.1, y.1))

write_back-Shrinks :
    {A : Type 0} (a : String) (file : File) (payload : Payload) (r : Payload × Option A)
    → Shrinks a file (stored payload)
    → Shrinks a (stored payload) (stored r.0)
    → Shrinks a file (write_back file r).0
write_back-Shrinks a file payload (p, none) x y = (omega arith, omega arith)
write_back-Shrinks a file payload (p, some v) x y =
    Shrinks-trans a file (stored payload) (stored p) x y

-- A call under the lock whose body adds nothing.
pub locked_store-Shrinks :
    {A : Type 0} (a : String) (file : File) (clock : ℕ) (body : Payload → Payload × Option A)
    → ((payload : Payload) → Shrinks a (stored payload) (stored (body payload).0))
    → Shrinks a file (locked_store file clock body).0
unfolding count sweep
locked_store-Shrinks a invalid clock body h = (omega arith, omega arith)
locked_store-Shrinks a missing clock body h =
    write_back-Shrinks a missing empty_store (body empty_store) (omega arith, omega arith)
      (h empty_store)
locked_store-Shrinks a (stored payload) clock body h =
    write_back-Shrinks a (stored payload) (prune payload clock) (body (prune payload clock))
      (keep_both-Shrinks a (is_live clock) payload) (h (prune payload clock))

module _ (texts : Texts) where
  exchanged-Shrinks :
      (a : String) (payload : Payload) (k connection : String) (now : ℕ) (o : Option Entry)
      → get payload.pending k ≡ o
      → Shrinks a (stored payload) (
          stored
            (exchanged texts
              (record payload { pending = pop payload.pending k })
              connection
              now
              o).0)
  exchanged-Shrinks a payload k connection now none e =
      let l = count-pop (is_of a) payload.pending k in (l, omega (arith, l))
  exchanged-Shrinks a payload k connection now (some malformed) e =
      let l = count-pop (is_of a) payload.pending k in (l, omega (arith, l))
  exchanged-Shrinks a payload k connection now (some (session owner expires_at)) e =
      let l = count-pop-get (is_of a) payload.pending k in
      let w = ap (weight (is_of a)) e in
      let c =
        count-put (is_of a) payload.connections (texts.digest connection)
          (session owner expires_at) in
      if_holds
        (λ (r : Payload × Option (String × String × ℕ)). Shrinks a (stored payload) (stored r.0))
        (leb expires_at now) (λ _. (omega (arith, l), omega (arith, l)))
        (λ _. (omega (arith, l), omega (arith, l, w, c)))

  exchange-Shrinks :
      (a : String) (file : File) (token connection : String) (now clock : ℕ)
      → Shrinks a file (exchange_pending_session texts file token connection now clock).0
  unfolding exchange_pending_session
  exchange-Shrinks a file token connection now clock =
      if_holds (λ (r : File × Option (String × String × ℕ)). Shrinks a file r.0)
        (not (is_token texts token)) (λ _. (omega arith, omega arith))
        (λ _.
          locked_store-Shrinks a file clock (exchange_body texts token connection now)
            (λ payload. exchanged-Shrinks a payload (texts.digest token) connection now _ refl))

  consume-Shrinks :
      (a : String) (file : File) (cookie : String) (now clock : ℕ)
      → Shrinks a file (consume_connection texts file cookie now clock).0
  unfolding consume_connection
  consume-Shrinks a file cookie now clock =
      if_holds (λ (r : File × Option (String × ℕ)). Shrinks a file r.0)
        (not (is_token texts cookie)) (λ _. (omega arith, omega arith))
        (λ _.
          locked_store-Shrinks a file clock (consume_body texts cookie now)
            (λ payload. popped payload (get payload.connections (texts.digest cookie))))
    where
      popped :
          (payload : Payload) (o : Option Entry)
          → Shrinks a (stored payload) (
              stored
                (consumed
                  (record payload { connections = pop payload.connections (texts.digest cookie) })
                  now
                  o).0)
      popped payload none =
          let l = count-pop (is_of a) payload.connections (texts.digest cookie) in
          (omega arith, omega (arith, l))
      popped payload (some malformed) =
          let l = count-pop (is_of a) payload.connections (texts.digest cookie) in
          (omega arith, omega (arith, l))
      popped payload (some (session owner expires_at)) =
          let l = count-pop (is_of a) payload.connections (texts.digest cookie) in
          if_holds (λ (r : Payload × Option (String × ℕ)). Shrinks a (stored payload) (stored r.0))
            (leb expires_at now) (λ _. (omega arith, omega (arith, l)))
            (λ _. (omega arith, omega (arith, l)))

revoke-Shrinks :
    (a account : String) (file : File) (clock : ℕ)
    → Shrinks a file (revoke_account_sessions file account clock).0
unfolding revoke_account_sessions
revoke-Shrinks a account file clock =
    locked_store-Shrinks a file clock (revoke_body account)
      (λ payload. keep_both-Shrinks a (λ entry. not (is_of account entry)) payload)

-- A link of another account, which can only take the place of a link.
issue-Shrinks :
    (texts : Texts) (a : String) (file : File) (account : String) (ttl : ℤ) (raw : String)
    (now clock : ℕ)
    → (account == a) ≡ false
    → Shrinks a file (issue_pending_session texts file account ttl raw now clock).0
unfolding issue_pending_session
issue-Shrinks texts a file account ttl raw now clock n =
    locked_store-Shrinks a file clock (issue_body texts account (expiry now ttl) raw) λ payload.
      let k = keep_both-Shrinks a (λ entry. not (is_of account entry)) payload in
      let c =
        count-put (is_of a) (drop_account payload account).pending (texts.digest raw)
          (session account (expiry now ttl)) in
      let z = ap to_nat n in (omega (arith, k.0, c, z), omega (arith, k.1, c, z))

abbrev pub issues_for : String → Call → Bool
issues_for a (issues account ttl raw now clock) = account == a
issues_for a _ = false

pub step-Shrinks :
    (texts : Texts) (a : String) (file : File) (call : Call)
    → issues_for a call ≡ false
    → Shrinks a file (step texts file call)
unfolding step
step-Shrinks texts a file (issues account ttl raw now clock) n =
    issue-Shrinks texts a file account ttl raw now clock n
step-Shrinks texts a file (exchanges token connection now clock) n =
    exchange-Shrinks texts a file token connection now clock
step-Shrinks texts a file (consumes cookie now clock) n =
    consume-Shrinks texts a file cookie now clock
step-Shrinks texts a file (revokes account clock) n = revoke-Shrinks a account file clock
