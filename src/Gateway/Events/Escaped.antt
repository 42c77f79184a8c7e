-- ===== src/Gateway/Events/Escaped.antt =====
-- privaite/streaming/buffer.py, `json_escaped_mapping`: the mapping for text that is JSON source.
use priv_ai_te.Prelude.{
  ◌≡◌, refl, ◌∙◌, Bool, true, false, Option, none, some, [], ◌∷◌, arith, Text, text_eq, text_eq_iff,
  Bool-cases, inl, inr,
}
use priv_ai_te.Prelude.Dicts.{
  Dict, Distinct, lookup, lookup_or, insert, lookup-insert, insert-Distinct,
}
use priv_ai_te.Mapping.{PiiMapping, empty, add, get_original}
use priv_ai_te.Messages.{JsonText}
use priv_ai_te.Restore.Markers.{AllMarkers}
use priv_ai_te.Gateway.Events.{Host, json_escape, escape_all, json_escaped_mapping, fakes_for}

insert-AllMarkers :
    (f o v : Text) (d e : Dict Text)
    → AllMarkers ((f, o) ∷ d)
    → AllMarkers e
    → AllMarkers (insert f v e)
unfolding insert
insert-AllMarkers f o v d [] h k = (h.0, tt)
insert-AllMarkers f o v d ((g, w) ∷ e) h k = ground (arith, insert-AllMarkers f o v d e h k.1)

module _ (json : JsonText) (m : PiiMapping) where
  escape_all-Distinct :
      (d : Dict Text) (escaped : PiiMapping)
      → Distinct escaped.fake_to_original
      → Distinct (escape_all json m d escaped).fake_to_original
  unfolding escape_all add
  escape_all-Distinct [] escaped h = h
  escape_all-Distinct ((f, o) ∷ d) escaped h =
      escape_all-Distinct d _ (insert-Distinct f (json_escape json o) escaped.fake_to_original h)

  escape_all-AllMarkers :
      (d : Dict Text) (escaped : PiiMapping)
      → AllMarkers d
      → AllMarkers escaped.fake_to_original
      → AllMarkers (escape_all json m d escaped).fake_to_original
  unfolding escape_all add
  escape_all-AllMarkers [] escaped h k = k
  escape_all-AllMarkers ((f, o) ∷ d) escaped h k =
      escape_all-AllMarkers d _ h.1
        (insert-AllMarkers f o (json_escape json o) d escaped.fake_to_original h k)

  abbrev escaped_or : Option Text → Option Text → Option Text
  escaped_or none otherwise = otherwise
  escaped_or (some o) otherwise = some (json_escape json o)

  escape_all-lookup :
      (f : Text) (d : Dict Text) (escaped : PiiMapping)
      → Distinct d
      → lookup f (escape_all json m d escaped).fake_to_original
        ≡ escaped_or (lookup f d) (lookup f escaped.fake_to_original)
  unfolding escape_all add
  escape_all-lookup f [] escaped u = refl
  escape_all-lookup f ((g, o) ∷ d) escaped u =
      let next = add (json_escape json o) g (lookup_or [] o m.entity_types) escaped in
      let inserted = lookup-insert g f (json_escape json o) escaped.fake_to_original in
      elim (Bool-cases (text_eq g f)) [
        | inl e ↦
            let q : g ≡ f = (text_eq_iff g f).0 e in
            let gone : lookup f d ≡ none = rw q at (u.0) in
            escape_all-lookup f d next u.1 ∙ rw (gone, inserted, e) refl
        | inr e ↦ escape_all-lookup f d next u.1 ∙ rw (inserted, e) refl
      ]

  -- The mapping for JSON source knows the same placeholders, and has for each the original as it is
  -- written within a JSON string.
  pub json_escaped_mapping-get_original :
      (f : Text)
      → Distinct m.fake_to_original
      → get_original (json_escaped_mapping json m) f ≡ escaped_or (get_original m f) none
  unfolding json_escaped_mapping
  json_escaped_mapping-get_original f u = escape_all-lookup f m.fake_to_original empty u

module _ (host : Host) (m : PiiMapping) where
  pub fakes_for-Distinct : (j : Bool) → Distinct m.fake_to_original → Distinct (fakes_for host m j)
  unfolding json_escaped_mapping
  fakes_for-Distinct false u = u
  fakes_for-Distinct true u = escape_all-Distinct host.json m m.fake_to_original empty tt

  pub fakes_for-AllMarkers :
      (j : Bool) → AllMarkers m.fake_to_original → AllMarkers (fakes_for host m j)
  unfolding json_escaped_mapping
  fakes_for-AllMarkers false h = h
  fakes_for-AllMarkers true h = escape_all-AllMarkers host.json m m.fake_to_original empty h tt
