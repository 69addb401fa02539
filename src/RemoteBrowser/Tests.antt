-- ===== src/RemoteBrowser/Tests.antt =====
-- A login of one account, and the calls around it.
use turtle_chat.Prelude.{
  ◌≡◌, ◌≢◌, refl, false, none, some, string_eq, List, [], ◌∷◌, arith, any_of, pos,
}
use turtle_chat.Dict.{get, sweep}
use turtle_chat.RemoteBrowser.Sessions.{
  Texts, File, missing, stored, session, issue_pending_session, exchange_pending_session,
  consume_connection, revoke_account_sessions,
}
use turtle_chat.RemoteBrowser.Login.{login_roundtrip}
use turtle_chat.RemoteBrowser.Revoked.{linked_account, connected_account, revoke_shuts}
use turtle_chat.RemoteBrowser.Trace.{Call, issues, exchanges, step, run}
use turtle_chat.RemoteBrowser.Trace.Counts.{issues_for}
use turtle_chat.RemoteBrowser.Trace.Stages.{Moves, stage_of, step-Moves, IsSingle, run-IsSingle}
use turtle_chat.RemoteBrowser.Trace.Spent.{exchange_once, consume_once}

abbrev plain_texts : Texts
plain_texts = record { digest = λ x. x; size = λ x. 64; has_space = λ x. false }

-- One open link, of account a, and one cookie, of account b.
abbrev open_file : File
open_file = stored (record {
  pending = ("link", session "a" 900) ∷ [];
  connections = ("cookie", session "b" 900) ∷ [];
})

abbrev later_calls : List Call
later_calls = issues "b" (pos 60) "link_b" 100 100 ∷ exchanges "link_b" "cookie_b" 110 110 ∷ []

step-Moves_example :
    Moves
      (issues_for "a" (exchanges "link" "cookie_a" 50 50))
      (stage_of "a" open_file)
      (stage_of "a" (step plain_texts open_file (exchanges "link" "cookie_a" 50 50)))
step-Moves_example = step-Moves plain_texts open_file (exchanges "link" "cookie_a" 50 50) "a"

run-IsSingle_example : IsSingle (run plain_texts missing later_calls)
run-IsSingle_example = run-IsSingle plain_texts missing later_calls (λ a. omega arith)

exchange_once_example :
    (exchange_pending_session plain_texts
      (run plain_texts
        (exchange_pending_session plain_texts open_file "link" "cookie_a" 50 50).0
        later_calls)
      "link"
      "cookie_c"
      120
      120).1
    ≡ none
unfolding exchange_pending_session get sweep any_of
exchange_once_example =
    exchange_once plain_texts open_file "link" "cookie_a" "cookie_c" 50 50 120 120
      ("cookie_a", "a", 900) later_calls refl refl

consume_once_example :
    (consume_connection plain_texts
      (run plain_texts (consume_connection plain_texts open_file "cookie" 50 50).0 later_calls)
      "cookie"
      120
      120).1
    ≡ none
unfolding consume_connection get sweep any_of
consume_once_example =
    consume_once plain_texts open_file "cookie" 50 50 120 120 ("b", 900) later_calls refl refl

login_roundtrip_example :
    ((exchange_pending_session plain_texts
        (issue_pending_session plain_texts missing "a" (pos 300) "link" 10 10).0
        "link"
        "cookie"
        20
        20).1
      ≡ some ("cookie", "a", 310))
    × ((consume_connection plain_texts
          (exchange_pending_session plain_texts
            (issue_pending_session plain_texts missing "a" (pos 300) "link" 10 10).0
            "link"
            "cookie"
            20
            20).0
          "cookie"
          30
          30).1
        ≡ some ("a", 310))
login_roundtrip_example =
    login_roundtrip plain_texts missing (record { pending = []; connections = [] }) "a" "link"
      "cookie" (pos 300) 10 10 20 20 30 30 refl refl refl (omega arith) (omega arith) (omega arith)
      (omega arith)

revoke_shuts_example :
    (linked_account
        (exchange_pending_session plain_texts
          (run plain_texts (revoke_account_sessions open_file "a" 50).0 later_calls)
          "link"
          "cookie_c"
          120
          120).1
      ≢ some "a")
    × (connected_account
          (consume_connection plain_texts
            (run plain_texts (revoke_account_sessions open_file "a" 50).0 later_calls)
            "cookie"
            120
            120).1
        ≢ some "a")
unfolding any_of
revoke_shuts_example =
    revoke_shuts plain_texts open_file "a" 50 later_calls "link" "cookie_c" "cookie" 120 120 refl
