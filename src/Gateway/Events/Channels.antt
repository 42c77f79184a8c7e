-- ===== src/Gateway/Events/Channels.antt =====
-- The buffers of the restorer (privaite/gateway/restore.py, `_feed` and `flush`), one for each text
-- stream: whatever the order in which the streams of a reply are mixed, each is restored by itself.
use priv_ai_te.Prelude.{
  ◌≡◌, refl, sym, ◌∙◌, ap, inl, inr, Bool, true, false, ◌||◌, Option, none, some, List, [], ◌∷◌,
  ◌++◌, append_assoc, append-nil, map, if◌then◌else◌, arith, Text, any, text_eq_iff, null,
  Bool-cases, Option-cases,
}
use priv_ai_te.Stream.{StreamingDeAnonymizer, flush}
use priv_ai_te.Gateway.Protocols.{Channel}
use priv_ai_te.Gateway.Events.{
  Host, Buffers, same, get_buffer, set_buffer, flush_keys, flush_channels,
}

module _ (host : Host) where
  same_kind :
      (a b : Channel) → same host a b ≡ true → (a.kind ≡ b.kind) × (host.key a.id ≡ host.key b.id)
  same_kind a b h = (
    (text_eq_iff a.kind b.kind).0 (ground (arith, h)),
    (text_eq_iff (host.key a.id) (host.key b.id)).0 (ground (arith, h)),
  )

  pub same_left : (a b c : Channel) → same host a b ≡ true → same host a c ≡ same host b c
  same_left a b c h = let (p, q) = same_kind a b h in rw (p, q) refl

  pub same_right : (a b c : Channel) → same host a b ≡ true → same host c a ≡ same host c b
  same_right a b c h = let (p, q) = same_kind a b h in rw (p, q) refl

  pub get_buffer-same :
      (a b : Channel) (buffers : Buffers)
      → same host a b ≡ true
      → get_buffer host a buffers ≡ get_buffer host b buffers
  unfolding get_buffer
  get_buffer-same a b [] h = refl
  get_buffer-same a b ((d, s) ∷ buffers) h =
      rw (same_right a b d h, get_buffer-same a b buffers h) refl

  pub get_buffer-set_buffer :
      (c d : Channel) (s : StreamingDeAnonymizer) (buffers : Buffers)
      → get_buffer host c (set_buffer host d s buffers)
        ≡ (if same host d c then some s else get_buffer host c buffers)
  unfolding get_buffer set_buffer
  get_buffer-set_buffer c d s [] = refl
  get_buffer-set_buffer c d s ((e, t) ∷ buffers) =
      ground (arith, get_buffer-set_buffer c d s buffers, same_left e d c, same_right d c e)

  pub get_buffer-keys :
      (c : Channel) (buffers : Buffers)
      → any (λ k. same host k c) (map (λ b. b.0) buffers) ≡ false
      → get_buffer host c buffers ≡ none
  unfolding get_buffer
  get_buffer-keys c [] h = refl
  get_buffer-keys c ((d, s) ∷ buffers) h = ground (arith, get_buffer-keys c buffers)

  -- What was emitted on one channel.
  abbrev pub on_channel : Channel → List (Channel × Text) → Text
  on_channel c [] = []
  on_channel c ((d, t) ∷ outputs) =
      let rest = on_channel c outputs in if same host d c then t ++ rest else rest

  pub on_channel-append :
      (c : Channel) (xs ys : List (Channel × Text))
      → on_channel c (xs ++ ys) ≡ on_channel c xs ++ on_channel c ys
  on_channel-append c [] ys = refl
  on_channel-append c ((d, t) ∷ xs) ys =
      ground (arith, on_channel-append c xs ys, append_assoc t (on_channel c xs) (on_channel c ys))

  abbrev pub emptied : Option StreamingDeAnonymizer → Option StreamingDeAnonymizer
  emptied none = none
  emptied (some s) = some (record s { buffer = [] })

  abbrev pub held_by : Option StreamingDeAnonymizer → Text
  held_by none = []
  held_by (some s) = s.buffer

  emptied_twice : (o : Option StreamingDeAnonymizer) → emptied (emptied o) ≡ emptied o
  emptied_twice none = refl
  emptied_twice (some s) = refl

  held_by-emptied : (o : Option StreamingDeAnonymizer) → held_by (emptied o) ≡ []
  held_by-emptied none = refl
  held_by-emptied (some s) = refl

  either_way : {A : Type 0} (b : Bool) (x : A) → (if b then x else x) ≡ x
  either_way b x = ground arith

  unless_null :
      (c k : Channel) (t : Text) (outputs : List (Channel × Text))
      → on_channel c (if null t then outputs else (k, t) ∷ outputs)
        ≡ (if same host k c then t ++ on_channel c outputs else on_channel c outputs)
  unless_null c k [] outputs = ground arith
  unless_null c k (x ∷ t) outputs = refl

  module _ (c : Channel) where
    abbrev named : List Channel → Bool
    named = any (λ k. same host k c)

    -- One channel through a flush.
    abbrev pub IsFlushed : Bool → Buffers → Buffers × List (Channel × Text) → Type 0
    IsFlushed flushed before r =
        (get_buffer host c r.0
          ≡ (if flushed then emptied (get_buffer host c before) else get_buffer host c before))
        × (on_channel c r.1 ≡ (if flushed then held_by (get_buffer host c before) else []))

    flush_step :
        (k : Channel) (s : StreamingDeAnonymizer) (rest : Bool) (buffers : Buffers)
        (r : Buffers × List (Channel × Text))
        → get_buffer host k buffers ≡ some s
        → IsFlushed rest (set_buffer host k (record s { buffer = [] }) buffers) r
        → IsFlushed
            (same host k c || rest)
            buffers
            (r.0, if null s.buffer then r.1 else (k, s.buffer) ∷ r.1)
    flush_step k s rest buffers r there h =
        let s' = record s { buffer = [] } in
        let found = get_buffer-set_buffer c k s' buffers in
        elim (Bool-cases (same host k c)) [
          | inl e ↦
              let here = sym (get_buffer-same k c buffers e) ∙ there in
              let (a, b) = rw (found, e) at h in
              (
                rw (e, here) (a ∙ either_way rest (some s')),
                unless_null c k s.buffer r.1
                    ∙ rw (e, here)
                        (ap (λ (x : Text). s.buffer ++ x) (b ∙ either_way rest [])
                          ∙ append-nil s.buffer),
              )
          | inr e ↦
              let (a, b) = rw (found, e) at h in (rw e a, unless_null c k s.buffer r.1 ∙ rw e b)
        ]

    skip_step :
        (k : Channel) (rest : Bool) (buffers : Buffers) (r : Buffers × List (Channel × Text))
        → get_buffer host k buffers ≡ none
        → IsFlushed rest buffers r
        → IsFlushed (same host k c || rest) buffers r
    skip_step k rest buffers r there h = elim (Bool-cases (same host k c)) [
      | inl e ↦
          let here = sym (get_buffer-same k c buffers e) ∙ there in
          let (a, b) = rw here at h in
          (rw (e, here) (a ∙ either_way rest none), rw (e, here) (b ∙ either_way rest []))
      | inr e ↦ rw e h
    ]

    flush_keys-IsFlushed :
        (keys : List Channel) (buffers : Buffers)
        → IsFlushed (named keys) buffers (flush_keys host keys buffers)
    unfolding flush_keys flush
    flush_keys-IsFlushed [] buffers = (refl, refl)
    flush_keys-IsFlushed (k ∷ keys) buffers = elim (Option-cases (get_buffer host k buffers)) [
      | inl e ↦
          rw (flush_keys, e)
            (skip_step k (named keys) buffers _ e (flush_keys-IsFlushed keys buffers))
      | inr (s, e) ↦
          rw (flush_keys, e)
            (flush_step k s (named keys) buffers _ e
              (flush_keys-IsFlushed keys (set_buffer host k (record s { buffer = [] }) buffers)))
    ]

    -- Which channels a call of `flush` names.
    abbrev pub is_named : List Channel → Bool → Bool
    is_named channels flush_all = flush_all || any (λ k. same host k c) channels

    pub flush_channels-IsFlushed :
        (channels : List Channel) (flush_all : Bool) (buffers : Buffers)
        → IsFlushed
            (is_named channels flush_all)
            buffers
            (flush_channels host channels flush_all buffers)
    unfolding flush_channels
    flush_channels-IsFlushed channels false buffers = flush_keys-IsFlushed channels buffers
    flush_channels-IsFlushed channels true buffers =
        let keys = map (λ b. b.0) buffers in
        let (a, b) = flush_keys-IsFlushed keys buffers in
        elim (Bool-cases (named keys)) [
          | inl e ↦ (rw e at a, rw e at b)
          | inr e ↦
              let none_here = get_buffer-keys c buffers e in
              (rw none_here (rw (e, none_here) at a), rw none_here (rw e at b))
        ]
