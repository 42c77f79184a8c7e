-- ===== src/Cache.antt =====
-- privaite/pii/cache.py: the cache of detections. A key is the digest that the source computes with
-- BLAKE2b, a list of bytes; times are counted in ticks of the monotonic clock.
pub mod Laws
mod Tests
use priv_ai_te.Prelude.{
  ℕ, zero, suc, ◌+◌, ◌-◌, Bool, true, false, Option, none, some, List, [], ◌∷◌, map, ltb,
  if◌then◌else◌, Text, slice,
}
use priv_ai_te.Prelude.Dicts.{Dict, lookup, delete}
use priv_ai_te.Entity.{PiiEntity}
use priv_ai_te.Ordered.{move_to_end, store}

pub record CachedSpan (S : Type 0) : Type 0 where
  pub start : ℕ
  pub end : ℕ
  pub entity_type : Text
  pub score : S
  pub source : Text

pub record CachedDetection (S : Type 0) : Type 0 where
  pub redacted : List (CachedSpan S)
  pub allowed : List (CachedSpan S)
  pub not_allowed : List (CachedSpan S)

module _ {S : Type 0} where
  abbrev pub spans_from_entities : List (PiiEntity S) → List (CachedSpan S)
  spans_from_entities [] = []
  spans_from_entities (e ∷ entities) =
      record {
        start = e.start;
        end = e.end;
        entity_type = e.entity_type;
        score = e.score;
        source = e.source;
      }
      ∷ spans_from_entities entities

  abbrev pub entities_from_spans : List (CachedSpan S) → Text → List (PiiEntity S)
  entities_from_spans [] text = []
  entities_from_spans (s ∷ spans) text =
      record {
        entity_type = s.entity_type;
        text = slice text s.start s.end;
        start = s.start;
        end = s.end;
        score = s.score;
        source = s.source;
      }
      ∷ entities_from_spans spans text

pub record DetectionCache (D : Type 0) : Type 0 where
  pub max_entries : ℕ
  pub ttl : ℕ
  pub entries : Dict (ℕ × D)
  pub hits : ℕ
  pub misses : ℕ

module _ {D : Type 0} where
  -- `now - stored_at > self._ttl`: on ℕ the difference stops at 0, which is not above a bound either.
  abbrev pub is_expired : ℕ → ℕ → ℕ × D → Bool
  is_expired ttl now entry = ltb ttl (now - entry.0)

  unfoldable pub get : ℕ → Text → DetectionCache D → Option D × DetectionCache D
  unfolding move_to_end delete
  get now key c = elim (lookup key c.entries) [
    | none ↦ (none, record c { misses = suc c.misses })
    | some entry ↦
        if is_expired c.ttl now entry
        then (none, record c { entries = delete key c.entries; misses = suc c.misses })
        else (some entry.1, record c { entries = move_to_end key c.entries; hits = suc c.hits })
  ]

  -- The keys of `_purge_expired`.
  unfoldable pub expired_keys : ℕ → ℕ → Dict (ℕ × D) → List Text
  expired_keys ttl now [] = []
  expired_keys ttl now ((k, entry) ∷ d) =
      let rest = expired_keys ttl now d in if is_expired ttl now entry then k ∷ rest else rest

  unfoldable pub delete_keys : List Text → Dict (ℕ × D) → Dict (ℕ × D)
  unfolding delete
  delete_keys [] d = d
  delete_keys (k ∷ ks) d = delete_keys ks (delete k d)

  unfoldable pub purge_expired : ℕ → DetectionCache D → DetectionCache D
  unfolding expired_keys delete_keys
  purge_expired now c = record c {
    entries = delete_keys (expired_keys c.ttl now c.entries) c.entries;
  }

  unfoldable pub put : ℕ → Text → D → DetectionCache D → DetectionCache D
  unfolding purge_expired store
  put now key detection c =
      let p = purge_expired now c in
      record p { entries = store p.max_entries key (now, detection) p.entries }

  unfoldable pub clear : DetectionCache D → DetectionCache D
  clear c = record c { entries = [] }
