-- ===== src/RemoteBrowser/Login.antt =====
-- A login from its link to its connection (src/chatgpt_web_gateway/remote_browser_sessions.py).
use turtle_chat.Prelude.{
  ℕ, ◌<◌, ◌≡◌, refl, String, true, false, some, string_eq, ==_refl, ℤ, arith, leb,
}
use turtle_chat.Dict.{Dict, get, put}
use turtle_chat.Dict.Laws.{get-put, get-sweep}
use turtle_chat.RemoteBrowser.Sessions.{
  Entry, session, Payload, File, stored, Texts, is_live, kept, prune, drop_account, load_store,
  is_token, issued, expiry, issue_pending_session, exchange_pending_session, consume_connection,
}

live_kept :
    (a : String) (e clock : ℕ) → clock < e → kept (is_live clock) (session a e) ≡ some (session a e)
live_kept a e clock h = ground (arith, h)

late_not : (e now : ℕ) → now < e → leb e now ≡ false
late_not e now h = ground (arith, h)

get-put_self : (d : Dict String Entry) (k : String) (v : Entry) → get (put d k v) k ≡ some v
get-put_self d k v = rw (get-put d k k v) (rw (==_refl k) refl)

module _ (texts : Texts) where
  -- A store in which a link, or a cookie, leads to an entry.
  abbrev HasLink : Payload → String → Entry → Type 0
  HasLink payload raw entry = get payload.pending (texts.digest raw) ≡ some entry

  abbrev HasCookie : File → String → Entry → Type 0
  HasCookie file cookie entry =
      (payload : Payload) × (file ≡ stored payload)
      × (get payload.connections (texts.digest cookie) ≡ some entry)

  exchange-HasCookie :
      (payload : Payload) (raw connection a : String) (e now clock : ℕ)
      → HasLink payload raw (session a e)
      → is_token texts raw ≡ true
      → clock < e
      → now < e
      → ((exchange_pending_session texts (stored payload) raw connection now clock).1
          ≡ some (connection, a, e))
        × HasCookie
            (exchange_pending_session texts (stored payload) raw connection now clock).0
            connection
            (session a e)
  unfolding exchange_pending_session
  exchange-HasCookie payload raw connection a e now clock g t c n =
      let found =
        get-sweep (kept (is_live clock)) payload.pending (texts.digest raw) (session a e)
          (session a e) g (live_kept a e clock c) in
      rw (t, found, late_not e now n)
        (refl, (_, refl, get-put_self _ (texts.digest connection) (session a e)))

  consume-HasCookie :
      (file : File) (cookie a : String) (e now clock : ℕ)
      → HasCookie file cookie (session a e)
      → is_token texts cookie ≡ true
      → clock < e
      → now < e
      → (consume_connection texts file cookie now clock).1 ≡ some (a, e)
  unfolding consume_connection
  consume-HasCookie file cookie a e now clock (payload, s, g) t c n =
      let found =
        get-sweep (kept (is_live clock)) payload.connections (texts.digest cookie) (session a e)
          (session a e) g (live_kept a e clock c) in
      rw (s, t, found, late_not e now n) refl

-- A link that is issued, exchanged and whose cookie is consumed, each before it expires, leads to
-- its account, if the store is readable and the secrets have the form of a token.
pub login_roundtrip :
    (texts : Texts) (file : File) (payload : Payload) (a raw connection : String) (ttl : ℤ)
    (now clock now' clock' now'' clock'' : ℕ)
    → load_store file ≡ some payload
    → is_token texts raw ≡ true
    → is_token texts connection ≡ true
    → now' < expiry now ttl
    → clock' < expiry now ttl
    → now'' < expiry now ttl
    → clock'' < expiry now ttl
    → ((exchange_pending_session texts
          (issue_pending_session texts file a ttl raw now clock).0
          raw
          connection
          now'
          clock').1
        ≡ some (connection, a, expiry now ttl))
      × ((consume_connection texts
            (exchange_pending_session texts
              (issue_pending_session texts file a ttl raw now clock).0
              raw
              connection
              now'
              clock').0
            connection
            now''
            clock'').1
          ≡ some (a, expiry now ttl))
unfolding issue_pending_session
login_roundtrip texts file payload a raw connection ttl now clock now' clock' now'' clock'' l t u n
      c m d =
    rw l (
      let e = expiry now ttl in
      let first =
        exchange-HasCookie texts (issued texts (prune payload clock) a e raw) raw connection a e
          now' clock'
          (get-put_self (drop_account (prune payload clock) a).pending (texts.digest raw)
            (session a e))
          t c n in
      (first.0, consume-HasCookie texts _ connection a e now'' clock'' first.1 u d m))
