-- ===== src/Gossipsub/Responses/Resent.antt =====
-- packages/gossipsub/src/gossipsub.ts: how often handleIWant sends a message again
use Prim.Native.String.{String}
use js_libp2p.Base.{
  ℕ, suc, ◌+◌, ◌-◌, ◌≤◌, ◌<◌, ◌≡◌, ◌⊎◌, refl, ap, sym, ◌∙◌, Bool, true, false, Option, none, some,
  List, [], ◌∷◌, if◌then◌else◌, ltb, leb, nat_beq, length, arith, ◌==◌, string_eq, Bool-cases, inl,
  inr, if_both,
}
use js_libp2p.Base.Map
use js_libp2p.Base.Map.{Map}
use js_libp2p.Gossipsub.MessageCache.{
  MessageCache, MessageCacheEntry, get_with_iwant_count, asked, or_zero,
}
use js_libp2p.Gossipsub.Requests.{max_ihave_length}
use js_libp2p.Gossipsub.Responses.{
  gossip_retransmission, max_iwant_messages, Wish, Sender, Found, keep, find_id, find_ids,
  find_some, find, handle_iwant, run, times_sent,
}

module _ {M : Type 0} (peer key : String) where
  abbrev pub count_at : Option (MessageCacheEntry M) → ℕ
  count_at none = 0
  count_at (some e) = or_zero (Map.get e.iwant_counts peer)

  -- How often the peer has asked for the message.
  abbrev pub count_for : MessageCache M → ℕ
  count_for c = count_at (Map.get c.msgs key)

  -- While a call of `id` is handled, from a count of `n` on: a message that is to be sent had not been asked
  -- for too often by the peer, and has been once more.
  record IsFair (id : String) (n : ℕ) (ihave : Map String M) (cache : MessageCache M) : Type 0 where
    grows : n ≤ count_for cache
    fair :
        Map.has ihave key ≡ true → id ≡ peer → (n < gossip_retransmission) × (n < count_for cache)

  count_for-set :
      (c : MessageCache M) (k : String) (e : MessageCacheEntry M)
      → count_for (record c { msgs = Map.set c.msgs k e })
        ≡ (if k == key then count_at (some e) else count_for c)
  count_for-set c k e = ap count_at (Map.get-set c.msgs k key e) ∙ chosen (k == key)
    where
      chosen :
          (b : Bool)
          → count_at (if b then some e else Map.get c.msgs key)
            ≡ (if b then count_at (some e) else count_at (Map.get c.msgs key))
      chosen true = refl
      chosen false = refl

  count_at-asked :
      (e : MessageCacheEntry M) (id : String)
      → count_at (some (asked e id))
        ≡ (if id == peer then count_at (some e) + 1 else count_at (some e))
  count_at-asked e id = elim (Bool-cases (id == peer)) [
    | inl q ↦
        let same : id ≡ peer = (string_eq.same_iff id peer).0 q in
        ap or_zero (Map.get-set e.iwant_counts id peer (or_zero (Map.get e.iwant_counts id) + 1))
        ∙ ap
            (λ b. or_zero (
              if b
              then some (or_zero (Map.get e.iwant_counts id) + 1)
              else Map.get e.iwant_counts peer))
            q
        ∙ ap (λ i. or_zero (Map.get e.iwant_counts i) + 1) same
        ∙ sym (ap (λ b. if b then count_at (some e) + 1 else count_at (some e)) q)
    | inr q ↦
        ap or_zero (Map.get-set e.iwant_counts id peer (or_zero (Map.get e.iwant_counts id) + 1))
        ∙ ap
            (λ b. or_zero (
              if b
              then some (or_zero (Map.get e.iwant_counts id) + 1)
              else Map.get e.iwant_counts peer))
            q
        ∙ sym (ap (λ b. if b then count_at (some e) + 1 else count_at (some e)) q)
  ]

  keep-has :
      (k : String) (ihave : Map String M) (message : M) (count : ℕ)
      → Map.has (keep k ihave (some (message, count))) key ≡ true
      → (Map.has ihave key ≡ true) ⊎ (((k == key) ≡ true) × (count ≤ gossip_retransmission))
  keep-has k ihave message count h = elim (Bool-cases (ltb gossip_retransmission count)) [
    | inl e ↦ inl (sym (ap (λ b. Map.has (if b then ihave else Map.set ihave k message) key) e) ∙ h)
    | inr e ↦ elim (Bool-cases (k == key)) [
      | inl f ↦ inr (f, ground (arith, e))
      | inr f ↦ inl (
          sym (ap (λ b. if b then true else Map.has ihave key) f)
          ∙ sym (Map.has-set ihave k key message)
          ∙ sym (ap (λ b. Map.has (if b then ihave else Map.set ihave k message) key) e)
          ∙ h)
    ]
  ]

  -- One message is asked for.
  asked-IsFair :
      (id k : String) (n : ℕ) (ihave : Map String M) (c : MessageCache M) (e : MessageCacheEntry M)
      → Map.get c.msgs k ≡ some e
      → IsFair id n ihave c
      → IsFair id n
          (keep k ihave (some (e.message, or_zero (Map.get e.iwant_counts id) + 1)))
          (record c { msgs = Map.set c.msgs k (asked e id) })
  asked-IsFair id k n ihave c e g h = elim (Bool-cases (k == key)) [
    | inl f ↦
        let same : k ≡ key = (string_eq.same_iff k key).0 f in
        let before : count_for c ≡ count_at (some e) =
          ap count_at (ap (Map.get c.msgs) (sym same) ∙ g) in
        let after : count_for (record c { msgs = Map.set c.msgs k (asked e id) })
            ≡ (if id == peer then count_at (some e) + 1 else count_at (some e)) =
          count_for-set c k (asked e id)
          ∙ ap (λ b. if b then count_at (some (asked e id)) else count_for c) f
          ∙ count_at-asked e id in
        record {
          grows = ground (arith, before, after, h.grows);
          fair = λ q p.
              let own : (id == peer) ≡ true = (string_eq.same_iff id peer).1 p in
              let more : count_for (record c { msgs = Map.set c.msgs k (asked e id) })
                  ≡ count_at (some e) + 1 =
                after ∙ ap (λ b. if b then count_at (some e) + 1 else count_at (some e)) own in
              elim (keep-has k ihave e.message (or_zero (Map.get e.iwant_counts id) + 1) q) [
                | inl o ↦ let (a, b) = h.fair o p in (a, omega (arith, b, before, more))
                | inr (o, l) ↦
                    let count : or_zero (Map.get e.iwant_counts id) ≡ count_at (some e) =
                      ap (λ i. or_zero (Map.get e.iwant_counts i)) p in
                    (omega (arith, h.grows, l, count, before), omega (arith, h.grows, before, more))
              ];
        }
    | inr f ↦
        let after : count_for (record c { msgs = Map.set c.msgs k (asked e id) }) ≡ count_for c =
          count_for-set c k (asked e id)
          ∙ ap (λ b. if b then count_at (some (asked e id)) else count_for c) f in
        record {
          grows = omega (arith, after, h.grows);
          fair = λ q p.
              elim (keep-has k ihave e.message (or_zero (Map.get e.iwant_counts id) + 1) q) [
                | inl o ↦ let (a, b) = h.fair o p in (a, omega (arith, b, after))
                | inr (o, l) ↦ cc (o, f)
              ];
        }
  ]

module _ {M : Type 0} (id_str : List ℕ → String) (peer key : String) where
  abbrev IsFairFor : String → ℕ → Found M → Type 0
  IsFairFor id n f = IsFair peer key id n f.ihave f.cache

  find_id-IsFair :
      (id : String) (m : List ℕ) (n : ℕ) (f : Found M)
      → IsFairFor id n f
      → IsFairFor id n (find_id id_str id m f)
  unfolding get_with_iwant_count
  find_id-IsFair id m n f h = looked_up (Map.get f.cache.msgs (id_str m)) refl
    where
      looked_up :
          (o : Option (MessageCacheEntry M))
          → Map.get f.cache.msgs (id_str m) ≡ o
          → IsFair peer key id n
              (keep
                (id_str m)
                f.ihave
                (elim o as (λ o. MessageCache M × Option (M × ℕ)) [
                  | none ↦ (f.cache, none)
                  | some e ↦ (
                    record f.cache { msgs = Map.set f.cache.msgs (id_str m) (asked e id) },
                    some (e.message, or_zero (Map.get e.iwant_counts id) + 1),
                  )
                ]).1)
              (elim o as (λ o. MessageCache M × Option (M × ℕ)) [
                | none ↦ (f.cache, none)
                | some e ↦ (
                  record f.cache { msgs = Map.set f.cache.msgs (id_str m) (asked e id) },
                  some (e.message, or_zero (Map.get e.iwant_counts id) + 1),
                )
              ]).0
      looked_up none e = h
      looked_up (some e) g = asked-IsFair peer key id (id_str m) n f.ihave f.cache e g h

  find_ids-IsFair :
      (id : String) (ms : List (List ℕ)) (n : ℕ) (f : Found M)
      → IsFairFor id n f
      → IsFairFor id n (find_ids id_str id ms f)
  unfolding find_ids
  find_ids-IsFair id [] n f h = h
  find_ids-IsFair id (m ∷ ms) n f h =
      if_both (IsFairFor id n) (leb max_ihave_length f.processed) h
        (find_ids-IsFair id ms n (find_id id_str id m f) (find_id-IsFair id m n f h))

  find_some-IsFair :
      (id : String) (w : Option (List (List ℕ))) (n : ℕ) (f : Found M)
      → IsFairFor id n f
      → IsFairFor id n (find_some id_str id w f)
  find_some-IsFair id none n f h = h
  find_some-IsFair id (some ms) n f h = find_ids-IsFair id ms n f h

  find-IsFair :
      (id : String) (ws : List (Option (List (List ℕ)))) (n : ℕ) (f : Found M)
      → IsFairFor id n f
      → IsFairFor id n (find id_str id ws f)
  unfolding find
  find-IsFair id [] n f h = h
  find-IsFair id (w ∷ ws) n f h =
      let next = find_some id_str id w f in
      let fair = find_some-IsFair id w n f h in
      if_both (IsFairFor id n) next.is_over fair (find-IsFair id ws n next fair)

  handle_iwant-IsFair :
      (w : Wish) (s : Sender M)
      → IsFair peer key w.id
          (count_for peer key s.cache)
          (handle_iwant id_str w s).0
          (handle_iwant id_str w s).1.cache
  unfolding handle_iwant Map.has
  handle_iwant-IsFair w s = if_both AnswersFair (nat_beq (length w.iwant) 0) nothing (
      if_both AnswersFair w.is_low nothing (
        if_both AnswersFair (ltb max_iwant_messages (or_zero (Map.get s.iwant_counts w.id) + 1))
          nothing
          (find-IsFair w.id w.iwant (count_for peer key s.cache)
            (record { processed = 0; ihave = []; cache = s.cache; is_over = false }) nothing)))
    where
      nothing : IsFair peer key w.id (count_for peer key s.cache) [] s.cache
      nothing = record { grows = omega arith; fair = λ q p. cc q }

      AnswersFair : Map String M × Sender M → Type 0
      AnswersFair r = IsFair peer key w.id (count_for peer key s.cache) r.0 r.1.cache

  -- Whatever is asked for, how often and by whomsoever, a message goes to a peer at most
  -- GossipsubGossipRetransmission times, and less often where the peer has asked for it before, while nothing
  -- else is done to the cache.
  pub run-times_sent :
      (s : Sender M) (ws : List Wish)
      → times_sent peer key (run id_str s ws) ≤ gossip_retransmission - count_for peer key s.cache
  unfolding run
  run-times_sent s [] = omega arith
  run-times_sent s (w ∷ ws) =
      let (sent, s') = handle_iwant id_str w s in
      let fair = handle_iwant-IsFair w s in
      counted (w.id == peer) (Map.has sent key) (times_sent peer key (run id_str s' ws))
        (count_for peer key s.cache) (count_for peer key s'.cache) fair.grows
        (λ own has. fair.fair has ((string_eq.same_iff w.id peer).0 own)) (run-times_sent s' ws)
    where
      counted :
          (own has : Bool) (n before after : ℕ)
          → before ≤ after
          → (own ≡ true → has ≡ true → (before < gossip_retransmission) × (before < after))
          → n ≤ gossip_retransmission - after
          → (if own then (if has then suc n else n) else n) ≤ gossip_retransmission - before
      counted true true n before after g f l = let (a, b) = f refl refl in omega (arith, a, b, l)
      counted true false n before after g f l = omega (arith, g, l)
      counted false has n before after g f l = omega (arith, g, l)
