-- ===== src/RemoteBrowser/Trace/Spent.antt =====
-- Links and cookies that were used (src/chatgpt_web_gateway/remote_browser_sessions.py).
use turtle_chat.Prelude.{
  ℕ, ◌≡◌, refl, String, Bool, false, not, Option, none, some, ◌==◌, string_eq, List, [], ◌∷◌,
  any_of, arith, if_holds, leb, Bool-cases, inl, inr,
}
use turtle_chat.Dict.{get, pop}
use turtle_chat.Dict.Laws.{get-pop_self, get-pop-none, get-put-none, get-sweep-none}
use turtle_chat.RemoteBrowser.Sessions.{
  Entry, session, malformed, Payload, File, Texts, is_of, kept, drop_account, locked_store,
  is_token, issue_body, exchanged, exchange_body, consumed, consume_body, revoke_body, expiry,
  issue_pending_session, exchange_pending_session, consume_connection, revoke_account_sessions,
}
use turtle_chat.RemoteBrowser.Trace.{Call, issues, exchanges, consumes, revokes, step, run}
use turtle_chat.RemoteBrowser.Trace.Holds.{
  Holds, IsLasting, locked_store-Holds, locked_store-written, locked_store-raises,
}

abbrev LacksLink : String → Payload → Type 0
LacksLink k payload = get payload.pending k ≡ none

abbrev LacksCookie : String → Payload → Type 0
LacksCookie k payload = get payload.connections k ≡ none

LacksLink-lasts : (k : String) → IsLasting (LacksLink k)
LacksLink-lasts k p payload h = get-sweep-none (kept p) payload.pending k h

LacksCookie-lasts : (k : String) → IsLasting (LacksCookie k)
LacksCookie-lasts k p payload h = get-sweep-none (kept p) payload.connections k h

module _ (texts : Texts) (k : String) where
  -- Calls that draw no secret with the digest k.
  abbrev pub draws : Call → Bool
  draws (issues account ttl raw now clock) = texts.digest raw == k
  draws (exchanges token connection now clock) = texts.digest connection == k
  draws _ = false

  exchanged-LacksLink :
      (payload : Payload) (connection : String) (now : ℕ) (o : Option Entry)
      → LacksLink k payload
      → LacksLink k (exchanged texts payload connection now o).0
  exchanged-LacksLink payload connection now none h = h
  exchanged-LacksLink payload connection now (some malformed) h = h
  exchanged-LacksLink payload connection now (some (session owner e)) h =
      if_holds (λ (r : Payload × Option (String × String × ℕ)). LacksLink k r.0) (leb e now)
        (λ _. h) (λ _. h)

  exchanged-LacksCookie :
      (payload : Payload) (connection : String) (now : ℕ) (o : Option Entry)
      → (texts.digest connection == k) ≡ false
      → LacksCookie k payload
      → LacksCookie k (exchanged texts payload connection now o).0
  exchanged-LacksCookie payload connection now none n h = h
  exchanged-LacksCookie payload connection now (some malformed) n h = h
  exchanged-LacksCookie payload connection now (some (session owner e)) n h =
      if_holds (λ (r : Payload × Option (String × String × ℕ)). LacksCookie k r.0) (leb e now)
        (λ _. h)
        (λ _. get-put-none payload.connections (texts.digest connection) k (session owner e) n h)

  consumed_kept :
      (P : Payload → Type 0) (payload : Payload) (now : ℕ) (o : Option Entry)
      → P payload
      → P (consumed payload now o).0
  consumed_kept P payload now none h = h
  consumed_kept P payload now (some malformed) h = h
  consumed_kept P payload now (some (session owner e)) h =
      if_holds (λ (r : Payload × Option (String × ℕ)). P r.0) (leb e now) (λ _. h) (λ _. h)

  step-LacksLink :
      (file : File) (call : Call)
      → draws call ≡ false
      → Holds (LacksLink k) file
      → Holds (LacksLink k) (step texts file call)
  unfolding step issue_pending_session exchange_pending_session consume_connection
      revoke_account_sessions
  step-LacksLink file (issues account ttl raw now clock) n h =
      locked_store-Holds (LacksLink k) file clock (issue_body texts account (expiry now ttl) raw)
        (LacksLink-lasts k)
        (λ p g.
          get-put-none (drop_account p account).pending (texts.digest raw) k
            (session account (expiry now ttl)) n
            (LacksLink-lasts k (λ entry. not (is_of account entry)) p g))
        h
  step-LacksLink file (exchanges token connection now clock) n h =
      if_holds (λ (r : File × Option (String × String × ℕ)). Holds (LacksLink k) r.0)
        (not (is_token texts token)) (λ _. h)
        (λ _.
          locked_store-Holds (LacksLink k) file clock (exchange_body texts token connection now)
            (LacksLink-lasts k)
            (λ p g.
              exchanged-LacksLink (record p { pending = pop p.pending (texts.digest token) })
                connection now (get p.pending (texts.digest token))
                (get-pop-none p.pending (texts.digest token) k g))
            h)
  step-LacksLink file (consumes cookie now clock) n h =
      if_holds (λ (r : File × Option (String × ℕ)). Holds (LacksLink k) r.0)
        (not (is_token texts cookie)) (λ _. h)
        (λ _.
          locked_store-Holds (LacksLink k) file clock (consume_body texts cookie now)
            (LacksLink-lasts k)
            (λ p g.
              consumed_kept (LacksLink k)
                (record p { connections = pop p.connections (texts.digest cookie) }) now
                (get p.connections (texts.digest cookie)) g)
            h)
  step-LacksLink file (revokes account clock) n h =
      locked_store-Holds (LacksLink k) file clock (revoke_body account) (LacksLink-lasts k)
        (λ p g. LacksLink-lasts k (λ entry. not (is_of account entry)) p g) h

  step-LacksCookie :
      (file : File) (call : Call)
      → draws call ≡ false
      → Holds (LacksCookie k) file
      → Holds (LacksCookie k) (step texts file call)
  unfolding step issue_pending_session exchange_pending_session consume_connection
      revoke_account_sessions
  step-LacksCookie file (issues account ttl raw now clock) n h =
      locked_store-Holds (LacksCookie k) file clock (issue_body texts account (expiry now ttl) raw)
        (LacksCookie-lasts k) (λ p g. LacksCookie-lasts k (λ entry. not (is_of account entry)) p g)
        h
  step-LacksCookie file (exchanges token connection now clock) n h =
      if_holds (λ (r : File × Option (String × String × ℕ)). Holds (LacksCookie k) r.0)
        (not (is_token texts token)) (λ _. h)
        (λ _.
          locked_store-Holds (LacksCookie k) file clock (exchange_body texts token connection now)
            (LacksCookie-lasts k)
            (λ p g.
              exchanged-LacksCookie (record p { pending = pop p.pending (texts.digest token) })
                connection now (get p.pending (texts.digest token)) n g)
            h)
  step-LacksCookie file (consumes cookie now clock) n h =
      if_holds (λ (r : File × Option (String × ℕ)). Holds (LacksCookie k) r.0)
        (not (is_token texts cookie)) (λ _. h)
        (λ _.
          locked_store-Holds (LacksCookie k) file clock (consume_body texts cookie now)
            (LacksCookie-lasts k)
            (λ p g.
              consumed_kept (LacksCookie k)
                (record p { connections = pop p.connections (texts.digest cookie) }) now
                (get p.connections (texts.digest cookie))
                (get-pop-none p.connections (texts.digest cookie) k g))
            h)
  step-LacksCookie file (revokes account clock) n h =
      locked_store-Holds (LacksCookie k) file clock (revoke_body account) (LacksCookie-lasts k)
        (λ p g. LacksCookie-lasts k (λ entry. not (is_of account entry)) p g) h

  run-Lacks :
      (file : File) (calls : List Call)
      → any_of draws calls ≡ false
      → (Holds (LacksLink k) file → Holds (LacksLink k) (run texts file calls))
        × (Holds (LacksCookie k) file → Holds (LacksCookie k) (run texts file calls))
  unfolding run any_of
  run-Lacks file [] n = (λ h. h, λ h. h)
  run-Lacks file (call ∷ calls) n =
      let later = run-Lacks (step texts file call) calls (ground (arith, n)) in
      (
        λ h. later.0 (step-LacksLink file call (ground (arith, n)) h),
        λ h. later.1 (step-LacksCookie file call (ground (arith, n)) h),
      )

-- A link that was exchanged is refused ever after, unless a later call draws a secret with the
-- same digest.
pub exchange_once :
    (texts : Texts) (file : File) (token connection connection' : String)
    (now clock now' clock' : ℕ) (r : String × String × ℕ) (calls : List Call)
    → (exchange_pending_session texts file token connection now clock).1 ≡ some r
    → any_of (draws texts (texts.digest token)) calls ≡ false
    → (exchange_pending_session texts
        (run texts (exchange_pending_session texts file token connection now clock).0 calls)
        token
        connection'
        now'
        clock').1
      ≡ none
unfolding exchange_pending_session
exchange_once texts file token connection connection' now clock now' clock' r calls e n =
    elim (Bool-cases (not (is_token texts token))) [
      | inl y ↦ rw y refl
      | inr b ↦
          let k = texts.digest token in
          let e' = rw b at e in
          rw b (
            locked_store-raises (LacksLink k) _ clock' (exchange_body texts token connection' now')
              (LacksLink-lasts k) (λ p g. rw g refl)
              ((run-Lacks texts k
                  (locked_store file clock (exchange_body texts token connection now)).0 calls n).0
                (locked_store-written (LacksLink k) file clock
                  (exchange_body texts token connection now) r
                  (λ p.
                    exchanged-LacksLink texts k (record p { pending = pop p.pending k }) connection
                      now (get p.pending k) (get-pop_self p.pending k))
                  e')))
    ]

-- A cookie that was consumed is refused ever after, unless a later call draws a secret with the
-- same digest.
pub consume_once :
    (texts : Texts) (file : File) (cookie : String) (now clock now' clock' : ℕ) (r : String × ℕ)
    (calls : List Call)
    → (consume_connection texts file cookie now clock).1 ≡ some r
    → any_of (draws texts (texts.digest cookie)) calls ≡ false
    → (consume_connection texts
        (run texts (consume_connection texts file cookie now clock).0 calls)
        cookie
        now'
        clock').1
      ≡ none
unfolding consume_connection
consume_once texts file cookie now clock now' clock' r calls e n =
    elim (Bool-cases (not (is_token texts cookie))) [
      | inl y ↦ rw y refl
      | inr b ↦
          let k = texts.digest cookie in
          let e' = rw b at e in
          rw b (
            locked_store-raises (LacksCookie k) _ clock' (consume_body texts cookie now')
              (LacksCookie-lasts k) (λ p g. rw g refl)
              ((run-Lacks texts k (locked_store file clock (consume_body texts cookie now)).0 calls
                  n).1
                (locked_store-written (LacksCookie k) file clock (consume_body texts cookie now) r
                  (λ p.
                    consumed_kept texts k (LacksCookie k)
                      (record p { connections = pop p.connections k }) now (get p.connections k)
                      (get-pop_self p.connections k))
                  e')))
    ]
