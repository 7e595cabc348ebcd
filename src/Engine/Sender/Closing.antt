-- ===== src/Engine/Sender/Closing.antt =====
-- singlesender.go: Close where no call fails.
use tp_lavado_dinero.Prelude.{
  ◌≡◌, refl, ◌∙◌, Option, none, List, [], ◌∷◌, ◌++◌, append-nil, append_assoc, sym, arith, Bytes,
  bytes_eq, bytes_beq_iff, if◌then◌else◌, contains, ok,
}
use tp_lavado_dinero.GoMap.{get, keys, remove, get-remove, is_some-get}
use tp_lavado_dinero.Engine.Sender.Defs.{
  OutMessage, cleanup_of, SingleSender, wire_call, publish, serialize_and_publish, cleanup_client,
  cleanup_clients, close_sender,
}

-- The clean-ups of some clients, as they are published
abbrev pub cleanups :
    {V : Type 0} → (Bytes → Option Bytes) → List Bytes → List (Option Bytes × OutMessage V)
cleanups key [] = []
cleanups key (id ∷ ids) = (key id, cleanup_of id) ∷ cleanups key ids

module _ {T V : Type 0} where
  -- A sender whose calls go well, as it was but for its batchers and what is published.
  record Cleaned (ids : List Bytes) (s t : SingleSender T V) : Type 0 where
    pub outcomes : t.output.outcomes ≡ []
    pub key : t.key_resolver ≡ s.key_resolver
    pub published : t.output.published ≡ s.output.published ++ cleanups s.key_resolver ids
    pub batchers :
        (j : Bytes) → get t.batchers j ≡ (if contains ids j then none else get s.batchers j)

  cleaned : Bytes → SingleSender T V → SingleSender T V
  cleaned id s = record s {
    batchers = remove s.batchers id;
    output = record s.output {
      published = s.output.published ++ (s.key_resolver id, cleanup_of id) ∷ [];
    };
  }

  cleanup_client-cleaned :
      (id : Bytes) (s : SingleSender T V)
      → s.output.outcomes ≡ []
      → cleanup_client id s ≡ (ok tt, cleaned id s)
  unfolding cleanup_client serialize_and_publish publish wire_call cleaned
  cleanup_client-cleaned id s e = rw e refl

  cleanup_clients-Cleaned :
      (ids : List Bytes) (s : SingleSender T V)
      → s.output.outcomes ≡ []
      → Cleaned ids s (cleanup_clients ids s)
  unfolding cleanup_clients cleaned
  cleanup_clients-Cleaned [] s e = record {
    outcomes = e;
    key = refl;
    published = sym (append-nil s.output.published);
    batchers = λ j. refl;
  }
  cleanup_clients-Cleaned (id ∷ ids) s e =
      let t = cleaned id s in
      let h = cleanup_clients-Cleaned ids t e in
      let more : Cleaned (id ∷ ids) s (cleanup_clients ids t) = record {
        outcomes = h.outcomes;
        key = h.key;
        published = h.published ∙ append_assoc s.output.published _ _;
        batchers = λ j. ground (
          arith,
          h.batchers j,
          get-remove s.batchers id j,
          bytes_beq_iff id j,
          bytes_beq_iff j id,
        );
      } in
      rw (cleanup_clients, cleanup_client-cleaned id s e) more

  -- Where no call fails, `Close` publishes a clean-up for each client that has a batcher, in the order of
  -- the map and behind all else, and no client has a batcher any more.
  close_sender-Cleaned :
      (s : SingleSender T V)
      → s.output.outcomes ≡ []
      → let (r, t) = close_sender s in
        (r ≡ ok tt)
        × (t.output.published ≡ s.output.published ++ cleanups s.key_resolver (keys s.batchers))
        × ((j : Bytes) → get t.batchers j ≡ none)
  unfolding close_sender wire_call
  close_sender-Cleaned s e =
      let h = cleanup_clients-Cleaned (keys s.batchers) s e in
      rw (h.outcomes, close_sender)
        (refl, h.published, λ j. ground (arith, h.batchers j, is_some-get s.batchers j))
