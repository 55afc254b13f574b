-- ===== src/Gossipsub/Requests/Offered.antt =====
-- packages/gossipsub/src/gossipsub.ts: which messages handleIHave asks for
use Prim.Native.String.{String}
use js_libp2p.Base.{
  ℕ, ◌+◌, ◌≡◌, sym, subst, Bool, true, false, not, ◌||◌, Option, none, some, List, [], ◌∷◌, ◌⊎◌,
  if◌then◌else◌, ltb, leb, nat_beq, length, arith, ◌==◌, string_eq, Bool-cases, inl, inr, if_both,
  All, All-take,
}
use js_libp2p.Base.Map
use js_libp2p.Base.Map.{Map}
use js_libp2p.Gossipsub.Shuffle.{shuffle, shuffle-All}
use js_libp2p.Gossipsub.Requests.{
  max_ihave_length, max_ihave_messages, ControlIHave, Call, Counters, Examined, count_in, values,
  examine_id, examine_ids, examine_topic, examine, iask, handle_ihave,
}

abbrev pub ids_of : Option (List (List ℕ)) → List (List ℕ)
ids_of none = []
ids_of (some ids) = ids

abbrev pub is_known : Call → Option String → Bool
is_known c none = false
is_known c (some topic) = c.in_mesh topic

set-All :
    (P : List ℕ → Type 0) (m : Map String (List ℕ)) (k : String) (v : List ℕ)
    → P v
    → All P (values m)
    → All P (values (Map.set m k v))
unfolding Map.set
set-All P [] k v p h = (p, tt)
set-All P ((j, w) ∷ m) k v p h =
    if_both (λ (n : Map String (List ℕ)). All P (values n)) (j == k) (p, h.1)
      (h.0, set-All P m k v p h.1)

module _ (id_str : List ℕ → String) (c : Call) (p : List ℕ → Bool) where
  -- `p` holds of the id, if its message has not been seen.
  abbrev IsOffered : List ℕ → Type 0
  IsOffered m = (c.has_seen (id_str m) || p m) ≡ true

  abbrev IsFine : Examined → Type 0
  IsFine e = All (λ m. p m ≡ true) (values e.iwant)

  examine_ids-IsFine :
      (ms : List (List ℕ)) (e : Examined)
      → All IsOffered ms
      → IsFine e
      → IsFine (examine_ids id_str c ms e)
  unfolding examine_ids
  examine_ids-IsFine [] e h f = f
  examine_ids-IsFine (m ∷ ms) e h f = if_both IsFine (leb max_ihave_length e.processed) f (
      examine_ids-IsFine ms (examine_id id_str c m e) h.1
        (added (Bool-cases (c.has_seen (id_str m)))))
    where
      added :
          (c.has_seen (id_str m) ≡ true) ⊎ (c.has_seen (id_str m) ≡ false)
          → IsFine (examine_id id_str c m e)
      added (inl s) =
          subst
            (λ b.
              All (λ m. p m ≡ true) (values (if b then e.iwant else Map.set e.iwant (id_str m) m)))
            (sym s) f
      added (inr s) =
          subst
            (λ b.
              All (λ m. p m ≡ true) (values (if b then e.iwant else Map.set e.iwant (id_str m) m)))
            (sym s) (set-All (λ m. p m ≡ true) e.iwant (id_str m) m (ground (arith, h.0, s)) f)

  examine_topic-IsFine :
      (t : Option String) (ids : Option (List (List ℕ))) (e : Examined)
      → All (λ m. (not (is_known c t) || (c.has_seen (id_str m) || p m)) ≡ true) (ids_of ids)
      → IsFine e
      → IsFine (examine_topic id_str c t ids e)
  examine_topic-IsFine none ids e h f = f
  examine_topic-IsFine (some topic) none e h f = f
  examine_topic-IsFine (some topic) (some ids) e h f = elim (Bool-cases (c.in_mesh topic)) [
    | inl k ↦
        subst (λ b. IsFine (if not b then e else examine_ids id_str c ids e)) (sym k)
          (examine_ids-IsFine ids e
            (subst (λ b. All (λ m. (not b || (c.has_seen (id_str m) || p m)) ≡ true) ids) k h) f)
    | inr k ↦ subst (λ b. IsFine (if not b then e else examine_ids id_str c ids e)) (sym k) f
  ]

  abbrev IsOfferedBy : ControlIHave → Type 0
  IsOfferedBy h =
      All (λ m. (not (is_known c h.topic_id) || (c.has_seen (id_str m) || p m)) ≡ true)
        (ids_of h.message_ids)

  examine-IsFine :
      (hs : List ControlIHave) (e : Examined)
      → All IsOfferedBy hs
      → IsFine e
      → IsFine (examine id_str c hs e)
  unfolding examine
  examine-IsFine [] e h f = f
  examine-IsFine (i ∷ hs) e h f =
      let next = examine_topic id_str c i.topic_id i.message_ids e in
      let fine = examine_topic-IsFine i.topic_id i.message_ids e h.0 f in
      if_both IsFine next.is_over fine (examine-IsFine hs next h.1 fine)

  -- What holds of every id that the IHAVEs announce for a topic of the mesh, unless the message has been
  -- seen, holds of every id that is asked for.
  pub handle_ihave-offered :
      (g : Counters)
      → All
          (λ h.
            All
              (λ m. (not (is_known c h.topic_id) || (c.has_seen (id_str m) || p m)) ≡ true)
              (ids_of h.message_ids))
          c.ihave
      → All (λ ids. All (λ m. p m ≡ true) ids) (handle_ihave id_str c g).0
  unfolding handle_ihave
  handle_ihave-offered g h =
      let have = count_in g.peerhave c.id + 1 in
      let g' : Counters = record g { peerhave = Map.set g.peerhave c.id have } in
      let asked = count_in g.iasked c.id in
      let iwant =
        (examine id_str c c.ihave (record { processed = 0; iwant = []; is_over = false })).iwant in
      if_both AreFine (nat_beq (length c.ihave) 0) tt (
        if_both AreFine c.is_low tt (
          if_both AreFine (ltb max_ihave_messages have) tt (
            if_both AreFine (leb max_ihave_length asked) tt (
              if_both AreFine (nat_beq (length iwant) 0) tt (
                All-take (λ m. p m ≡ true) (iask (length iwant) asked)
                    (shuffle c.pick (values iwant))
                    (shuffle-All (λ m. p m ≡ true) c.pick (values iwant)
                      (examine-IsFine c.ihave
                        (record { processed = 0; iwant = []; is_over = false }) h tt)),
                tt,
              )))))
    where
      AreFine : List (List (List ℕ)) × Counters → Type 0
      AreFine r = All (λ ids. All (λ m. p m ≡ true) ids) r.0
