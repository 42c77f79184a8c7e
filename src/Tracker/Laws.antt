-- ===== src/Tracker/Laws.antt =====
-- What privaite/pii/tracker.py keeps of a session.
use priv_ai_te.Prelude.{
  ℕ, suc, ◌+◌, ◌≡◌, refl, ◌∙◌, ap, Bool, true, false, Option, none, some, List, [], ◌∷◌,
  if◌then◌else◌, arith, Text, text_eq, text_eq_iff, any, Bool-cases, inl, inr,
}
use priv_ai_te.Prelude.Dicts.{
  Dict, Distinct, lookup, lookup_or, insert, delete, lookup-insert, lookup-delete,
}
use priv_ai_te.Tracker.{
  SessionStats, total, total_pii, PiiTracker, is_stale, stale_keys, delete_sessions, evict_expired,
  add_counts, stats_or_new, record_session, get_session,
}

lookup_or-cons :
    (t k : Text) (v : ℕ) (d : Dict ℕ)
    → lookup_or 0 t ((k, v) ∷ d) ≡ (if text_eq k t then v else lookup_or 0 t d)
lookup_or-cons t k v d = by_test (text_eq k t) (lookup t d)
  where
    by_test :
        (b : Bool) (o : Option ℕ)
        → elim (if b then some v else o) [ none ↦ 0 | some w ↦ w ]
          ≡ (if b then v else elim o [ none ↦ 0 | some w ↦ w ])
    by_test true o = refl
    by_test false o = refl

total-put_cons :
    (b : Bool) (k : Text) (v x old : ℕ) (d rest : Dict ℕ)
    → total rest + old ≡ total d + x
    → total (if b then (k, x) ∷ d else (k, v) ∷ rest) + (if b then v else old)
      ≡ total ((k, v) ∷ d) + x
total-put_cons true k v x old d rest h = omega arith
total-put_cons false k v x old d rest h = omega (arith, h)

total-put : (t : Text) (x : ℕ) (d : Dict ℕ) → total (insert t x d) + lookup_or 0 t d ≡ total d + x
unfolding insert
total-put t x [] = omega arith
total-put t x ((k, v) ∷ d) =
    rw (lookup_or-cons t k v d)
      (total-put_cons (text_eq k t) k v x (lookup_or 0 t d) d _ (total-put t x d))

total-insert :
    (t : Text) (n : ℕ) (d : Dict ℕ) → total (insert t (lookup_or 0 t d + n) d) ≡ total d + n
total-insert t n d = omega (arith, total-put t (lookup_or 0 t d + n) d)

total-add_counts :
    (more counts : Dict ℕ) → total (add_counts more counts) ≡ total counts + total more
unfolding add_counts
total-add_counts [] counts = omega arith
total-add_counts ((t, n) ∷ more) counts = omega (
  arith,
  total-add_counts more (insert t (lookup_or 0 t counts + n) counts),
  total-insert t n counts,
)

abbrev listed : Text → List Text → Bool
listed k ks = any (λ j. text_eq j k) ks

lookup-delete_sessions :
    (k : Text) (ks : List Text) (d : Dict SessionStats)
    → lookup k (delete_sessions ks d) ≡ (if listed k ks then none else lookup k d)
unfolding delete_sessions
lookup-delete_sessions k [] d = refl
lookup-delete_sessions k (j ∷ ks) d =
    ground (arith, lookup-delete_sessions k ks (delete j d), lookup-delete j k d)

-- What is left of a session after a sweep.
abbrev pub unless_stale : ℕ → ℕ → Option SessionStats → Option SessionStats
unless_stale ttl now none = none
unless_stale ttl now (some s) = if is_stale ttl now s then none else some s

absent-stale_keys :
    (ttl now : ℕ) (k : Text) (d : Dict SessionStats)
    → lookup k d ≡ none
    → listed k (stale_keys ttl now d) ≡ false
unfolding stale_keys
absent-stale_keys ttl now k [] h = refl
absent-stale_keys ttl now k ((j, s) ∷ d) h = ground (arith, absent-stale_keys ttl now k d)

listed-stale_keys :
    (ttl now : ℕ) (k : Text) (d : Dict SessionStats)
    → Distinct d
    → (if listed k (stale_keys ttl now d) then none else lookup k d)
      ≡ unless_stale ttl now (lookup k d)
unfolding stale_keys
listed-stale_keys ttl now k [] u = refl
listed-stale_keys ttl now k ((j, s) ∷ d) u = elim (Bool-cases (text_eq j k)) [
  | inl e ↦
      let q : j ≡ k = (text_eq_iff j k).0 e in
      let gone : lookup k d ≡ none = rw q at (u.0) in
      ground (arith, absent-stale_keys ttl now k d gone, e)
  | inr e ↦ ground (arith, listed-stale_keys ttl now k d u.1, e)
]

evict_expired-lookup :
    (now : ℕ) (k : Text) (t : PiiTracker)
    → Distinct t.sessions
    → lookup k (evict_expired now t).sessions ≡ unless_stale t.ttl now (lookup k t.sessions)
unfolding evict_expired
evict_expired-lookup now k t u =
    lookup-delete_sessions k (stale_keys t.ttl now t.sessions) t.sessions
    ∙ listed-stale_keys t.ttl now k t.sessions u

-- After a request is recorded, its session counts one request more and the total of the request's
-- detections more than it did, from nothing if it was unknown or had been silent for longer than its time
-- to live; and every other session stands as it was, unless it had been silent for so long: then it is
-- gone. Each session is stored under one key.
pub record_session-get_session :
    (now : ℕ) (key other : Text) (entity_types : Dict ℕ) (t : PiiTracker)
    → Distinct t.sessions
    → let old = stats_or_new now (unless_stale t.ttl now (get_session key t)) in
      let (after, stats) = record_session now key entity_types t in
      (stats.request_count ≡ suc old.request_count)
      × (total_pii stats ≡ total_pii old + total entity_types)
      × (get_session other after ≡ (
          if text_eq key other then some stats else unless_stale t.ttl now (get_session other t)))
unfolding record_session
record_session-get_session now key other entity_types t u =
    let live = (evict_expired now t).sessions in
    let stats = (record_session now key entity_types t).1 in
    let found = evict_expired-lookup now key t u in
    (
      ap (λ (o : Option SessionStats). suc (stats_or_new now o).request_count) found,
      total-add_counts entity_types (stats_or_new now (lookup key live)).pii_count
          ∙ ap (λ (o : Option SessionStats). total_pii (stats_or_new now o) + total entity_types)
              found,
      lookup-insert key other stats live
          ∙ ap (λ (o : Option SessionStats). if text_eq key other then some stats else o)
              (evict_expired-lookup now other t u),
    )
