-- ===== src/Tracker/Tests.antt =====
-- Runs of privaite/pii/tracker.py, and its theorem at a concrete input.
use priv_ai_te.Prelude.{ℕ, suc, ◌+◌, ◌≡◌, refl, [], ◌∷◌, some, if◌then◌else◌, codes, text_eq}
use priv_ai_te.Prelude.Dicts.{Dict, Distinct, insert}
use priv_ai_te.Tracker.{
  SessionStats, total, total_pii, PiiTracker, stale_keys, delete_sessions, evict_expired,
  add_counts, stats_or_new, record_session, get_session,
}
use priv_ai_te.Tracker.Laws

run : Unit {0}
unfolding insert stale_keys delete_sessions evict_expired add_counts record_session
run = tt

abbrev seen : ℕ → SessionStats
seen at_tick = record {
  pii_count = (codes "PERSON", 2) ∷ [];
  request_count = 1;
  first_seen = 0;
  last_seen = at_tick;
}

-- The second session has been silent for too long.
abbrev tracker : PiiTracker
tracker = record { sessions = (codes "a", seen 90) ∷ (codes "b", seen 10) ∷ []; ttl = 60 }

abbrev found : Dict ℕ
found = (codes "PERSON", 1) ∷ (codes "EMAIL_ADDRESS", 3) ∷ []

recorded : total_pii (record_session 100 (codes "a") found tracker).1 ≡ 6
unfolding run
recorded = refl

tracker-Distinct : Distinct tracker.sessions
tracker-Distinct = (refl, (refl, tt))

record_session-get_session_example :
    ((record_session 100 (codes "a") found tracker).1.request_count
      ≡ suc
          (stats_or_new 100
            (Laws.unless_stale 60 100 (get_session (codes "a") tracker))).request_count)
    × (total_pii (record_session 100 (codes "a") found tracker).1
        ≡ total_pii (stats_or_new 100 (Laws.unless_stale 60 100 (get_session (codes "a") tracker)))
          + total found)
    × (get_session (codes "b") (record_session 100 (codes "a") found tracker).0 ≡ (
        if text_eq (codes "a") (codes "b")
        then some (record_session 100 (codes "a") found tracker).1
        else Laws.unless_stale 60 100 (get_session (codes "b") tracker)))
record_session-get_session_example =
    Laws.record_session-get_session 100 (codes "a") (codes "b") found tracker tracker-Distinct
