-- ===== src/Tracker.antt =====
-- privaite/pii/tracker.py: the statistics of each session. A key is the digest of the session's id, which
-- is computed with the library hashlib; times are counted in ticks of the clock.
pub mod Laws
mod Tests
use priv_ai_te.Prelude.{
  ℕ, ◌+◌, ◌-◌, suc, Bool, true, false, Option, none, some, List, [], ◌∷◌, ltb, if◌then◌else◌, Text,
}
use priv_ai_te.Prelude.Dicts.{Dict, lookup, lookup_or, insert, delete}

pub record SessionStats : Type 0 where
  pub pii_count : Dict ℕ
  pub request_count : ℕ
  pub first_seen : ℕ
  pub last_seen : ℕ

abbrev pub total : Dict ℕ → ℕ
total [] = 0
total ((t, n) ∷ counts) = n + total counts

abbrev pub total_pii : SessionStats → ℕ
total_pii s = total s.pii_count

pub record PiiTracker : Type 0 where
  pub sessions : Dict SessionStats
  pub ttl : ℕ

-- `now - s.last_seen > self._ttl`: on ℕ the difference stops at 0, which is not above a bound either.
abbrev pub is_stale : ℕ → ℕ → SessionStats → Bool
is_stale ttl now s = ltb ttl (now - s.last_seen)

unfoldable pub stale_keys : ℕ → ℕ → Dict SessionStats → List Text
stale_keys ttl now [] = []
stale_keys ttl now ((k, s) ∷ d) =
    let rest = stale_keys ttl now d in if is_stale ttl now s then k ∷ rest else rest

unfoldable pub delete_sessions : List Text → Dict SessionStats → Dict SessionStats
unfolding delete
delete_sessions [] d = d
delete_sessions (k ∷ ks) d = delete_sessions ks (delete k d)

-- `_evict_expired`.
unfoldable pub evict_expired : ℕ → PiiTracker → PiiTracker
evict_expired now t = record t {
  sessions = delete_sessions (stale_keys t.ttl now t.sessions) t.sessions;
}

-- `stats.pii_count[entity_type] += count`, for each item.
unfoldable pub add_counts : Dict ℕ → Dict ℕ → Dict ℕ
unfolding insert
add_counts [] counts = counts
add_counts ((t, n) ∷ more) counts = add_counts more (insert t (lookup_or 0 t counts + n) counts)

abbrev pub stats_or_new : ℕ → Option SessionStats → SessionStats
stats_or_new now none = record {
  pii_count = [];
  request_count = 0;
  first_seen = now;
  last_seen = now;
}
stats_or_new now (some s) = s

-- `record`, under the digest of the session's id.
unfoldable pub record_session : ℕ → Text → Dict ℕ → PiiTracker → PiiTracker × SessionStats
unfolding evict_expired add_counts insert
record_session now key entity_types t =
    let live = evict_expired now t in
    let old = stats_or_new now (lookup key live.sessions) in
    let stats = record old {
      pii_count = add_counts entity_types old.pii_count;
      request_count = suc old.request_count;
      last_seen = now;
    } in
    (record live { sessions = insert key stats live.sessions }, stats)

abbrev pub get_session : Text → PiiTracker → Option SessionStats
get_session key t = lookup key t.sessions
