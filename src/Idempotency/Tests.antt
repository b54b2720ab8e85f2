-- ===== src/Idempotency/Tests.antt =====
-- A response kept in an empty table.
use general_agent_platform.Base.{
  ℕ, ◌≡◌, refl, String, false, Option, some, [], ◌==◌, ◌&&◌, str_eq, ok, err,
  idempotency_key_reused,
}
use general_agent_platform.Json.{Fields, text, end, field}
use general_agent_platform.Idempotency.{given, replay_or_reject, persist_response}
use general_agent_platform.Idempotency.Replay.{replay-persist_response}

abbrev response : Fields
response = field "id" (text "agent") end

replay-persist_response_example :
    let after = persist_response 1 (some "key") "abc" 201 response "agent" 5 [] in
    (replay_or_reject 1 (some "key") "abc" after ≡ ok (some response))
    × ((other : String)
        → str_eq "abc" other ≡ false
        → replay_or_reject 1 (some "key") other after ≡ err idempotency_key_reused)
    × ((tenant2 : ℕ) (key2 : Option String) (fingerprint2 : String)
        → ((k : String) → given key2 ≡ some k → (1 == tenant2 && str_eq "key" k) ≡ false)
        → replay_or_reject tenant2 key2 fingerprint2 after
          ≡ replay_or_reject tenant2 key2 fingerprint2 [])
replay-persist_response_example =
    replay-persist_response 1 "key" "abc" 201 response "agent" 5 [] refl refl
