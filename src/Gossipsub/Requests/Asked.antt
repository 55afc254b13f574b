-- ===== src/Gossipsub/Requests/Asked.antt =====
-- packages/gossipsub/src/gossipsub.ts: how much handleIHave asks for
use Prim.Native.String.{String}
use js_libp2p.Base.{
  ℕ, suc, ◌+◌, ◌≤◌, ◌≡◌, refl, ap, sym, subst, ◌∙◌, Bool, true, false, some, List, [], ◌∷◌, ◌⊎◌,
  if◌then◌else◌, ltb, leb, nat_beq, length, take, arith, length-take, ◌==◌, string_eq, Bool-cases,
  inl, inr, if_both,
}
use js_libp2p.Base.Map
use js_libp2p.Base.Map.{Map}
use js_libp2p.Gossipsub.Shuffle.{shuffle, length-shuffle}
use js_libp2p.Gossipsub.Requests.{
  max_ihave_length, max_ihave_messages, Call, Counters, count_of, count_in, values, examine, iask,
  ask, handle_ihave,
}

length-values : (m : Map String (List ℕ)) → length (values m) ≡ length m
length-values [] = refl
length-values ((k, v) ∷ m) = ap suc (length-values m)

-- The calls of a heartbeat interval, one after the other.
unfoldable pub run :
    (List ℕ → String) → Counters → List Call → List (String × List (List (List ℕ))) × Counters
run id_str g [] = ([], g)
run id_str g (c ∷ cs) =
    let (asks, g') = handle_ihave id_str c g in
    let (rest, g'') = run id_str g' cs in ((c.id, asks) ∷ rest, g'')

abbrev pub cleared : Counters
cleared = record { peerhave = []; iasked = [] }

abbrev pub total_of : List (List (List ℕ)) → ℕ
total_of [] = 0
total_of (ids ∷ rest) = length ids + total_of rest

-- The ids that a peer is asked for, in all IWANTs together.
abbrev pub asked_of : String → List (String × List (List (List ℕ))) → ℕ
asked_of p [] = 0
asked_of p ((id, asks) ∷ rest) = let n = asked_of p rest in if id == p then total_of asks + n else n

count_in-set :
    (m : Map String ℕ) (k p : String) (n : ℕ)
    → count_in (Map.set m k n) p ≡ (if k == p then n else count_in m p)
count_in-set m k p n = ap count_of (Map.get-set m k p n) ∙ chosen (k == p)
  where
    chosen :
        (b : Bool)
        → count_of (if b then some n else Map.get m p) ≡ (if b then n else count_of (Map.get m p))
    chosen true = refl
    chosen false = refl

iask-le : (wanted asked : ℕ) → iask wanted asked ≤ wanted
iask-le wanted asked = ground arith

iask-room :
    (wanted asked : ℕ)
    → leb max_ihave_length asked ≡ false
    → asked + iask wanted asked ≤ max_ihave_length
iask-room wanted asked h = ground (arith, h)

module _ (id_str : List ℕ → String) (p : String) where
  -- What one call asks the peer for is counted, and stays within the limit.
  abbrev IsCounted : Call → Counters → List (List (List ℕ)) × Counters → Type 0
  IsCounted c g r =
      ((if c.id == p then total_of r.0 else 0) + count_in g.iasked p ≡ count_in r.1.iasked p)
      × (count_in g.iasked p ≤ max_ihave_length → count_in r.1.iasked p ≤ max_ihave_length)

  nothing-IsCounted :
      (c : Call) (g : Counters) (m : Map String ℕ)
      → IsCounted c g ([], record { peerhave = m; iasked = g.iasked })
  nothing-IsCounted c g m = (none_more (c.id == p), λ h. h)
    where
      none_more : (b : Bool) → (if b then 0 else 0) + count_in g.iasked p ≡ count_in g.iasked p
      none_more true = omega arith
      none_more false = omega arith

  ask-IsCounted :
      (c : Call) (g : Counters) (m : Map String ℕ) (iwant : Map String (List ℕ))
      → leb max_ihave_length (count_in g.iasked c.id) ≡ false
      → IsCounted c g
          (ask id_str c (count_in g.iasked c.id) iwant (record { peerhave = m; iasked = g.iasked }))
  ask-IsCounted c g m iwant h =
      if_both (IsCounted c g) (nat_beq (length iwant) 0) (nothing-IsCounted c g m)
        (asks (Bool-cases (c.id == p)))
    where
      n : ℕ
      n = iask (length iwant) (count_in g.iasked c.id)

      ids : List (List ℕ)
      ids = take n (shuffle c.pick (values iwant))

      length-ids : length ids ≡ n
      length-ids =
          let size : length (shuffle c.pick (values iwant)) ≡ length iwant =
            length-shuffle c.pick (values iwant) ∙ length-values iwant in
          length-take n (shuffle c.pick (values iwant))
            (omega (arith, size, iask-le (length iwant) (count_in g.iasked c.id)))

      asks :
          (c.id == p ≡ true) ⊎ (c.id == p ≡ false)
          → IsCounted c g (
            ids ∷ [],
            record { peerhave = m; iasked = Map.set g.iasked c.id (count_in g.iasked c.id + n) },
          )
      asks (inl e) =
          let own : count_in g.iasked c.id ≡ count_in g.iasked p =
            ap (count_in g.iasked) ((string_eq.same_iff c.id p).0 e) in
          let after : count_in (Map.set g.iasked c.id (count_in g.iasked c.id + n)) p
              ≡ count_in g.iasked c.id + n =
            count_in-set g.iasked c.id p (count_in g.iasked c.id + n)
            ∙ ap (λ b. if b then count_in g.iasked c.id + n else count_in g.iasked p) e in
          (
            ap (λ b. (if b then length ids + 0 else 0) + count_in g.iasked p) e
                ∙ omega (arith, own, after, length-ids),
            λ k. omega (arith, after, iask-room (length iwant) (count_in g.iasked c.id) h),
          )
      asks (inr e) =
          let after : count_in (Map.set g.iasked c.id (count_in g.iasked c.id + n)) p
              ≡ count_in g.iasked p =
            count_in-set g.iasked c.id p (count_in g.iasked c.id + n)
            ∙ ap (λ b. if b then count_in g.iasked c.id + n else count_in g.iasked p) e in
          (
            ap (λ b. (if b then length ids + 0 else 0) + count_in g.iasked p) e
                ∙ omega (arith, after),
            λ k. omega (arith, k, after),
          )

  handle_ihave-IsCounted : (c : Call) (g : Counters) → IsCounted c g (handle_ihave id_str c g)
  unfolding handle_ihave
  handle_ihave-IsCounted c g =
      let have = count_in g.peerhave c.id + 1 in
      let g' : Counters = record g { peerhave = Map.set g.peerhave c.id have } in
      let iwant =
        (examine id_str c c.ihave (record { processed = 0; iwant = []; is_over = false })).iwant in
      if_both (IsCounted c g) (nat_beq (length c.ihave) 0) (nothing-IsCounted c g g.peerhave) (
        if_both (IsCounted c g) c.is_low (nothing-IsCounted c g g.peerhave) (
          if_both (IsCounted c g) (ltb max_ihave_messages have) (nothing-IsCounted c g g'.peerhave)
            (elim (Bool-cases (leb max_ihave_length (count_in g.iasked c.id))) [
              | inl e ↦
                  subst
                    (λ b.
                      IsCounted c g
                        (if b then ([], g') else ask id_str c (count_in g.iasked c.id) iwant g'))
                    (sym e) (nothing-IsCounted c g g'.peerhave)
              | inr e ↦
                  subst
                    (λ b.
                      IsCounted c g
                        (if b then ([], g') else ask id_str c (count_in g.iasked c.id) iwant g'))
                    (sym e) (ask-IsCounted c g g'.peerhave iwant e)
            ])))

  run-IsCounted :
      (g : Counters) (cs : List Call)
      → count_in g.iasked p ≤ max_ihave_length
      → asked_of p (run id_str g cs).0 + count_in g.iasked p ≤ max_ihave_length
  unfolding run
  run-IsCounted g [] h = omega (arith, h)
  run-IsCounted g (c ∷ cs) h =
      let (one, within) = handle_ihave-IsCounted c g in
      let g' = (handle_ihave id_str c g).1 in
      let rest = asked_of p (run id_str g' cs).0 in
      let more : rest + count_in g'.iasked p ≤ max_ihave_length = run-IsCounted g' cs (within h) in
      added (c.id == p) (total_of (handle_ihave id_str c g).0) rest (count_in g.iasked p)
        (count_in g'.iasked p) one more
    where
      added :
          (b : Bool) (n rest before after : ℕ)
          → (if b then n else 0) + before ≡ after
          → rest + after ≤ max_ihave_length
          → (if b then n + rest else rest) + before ≤ max_ihave_length
      added true n rest before after e l = omega (arith, e, l)
      added false n rest before after e l = omega (arith, e, l)

  -- In a heartbeat interval, whatever IHAVEs come from whichever peers, no peer is asked for more ids in all
  -- than GossipsubMaxIHaveLength.
  pub run-asked : (cs : List Call) → asked_of p (run id_str cleared cs).0 ≤ max_ihave_length
  unfolding Map.get
  run-asked cs = omega (arith, run-IsCounted cleared cs (omega arith))
