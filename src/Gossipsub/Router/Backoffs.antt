-- ===== src/Gossipsub/Router/Backoffs.antt =====
-- packages/gossipsub/src/gossipsub.ts, clearBackoff
use Prim.Native.String.{String}
use js_libp2p.Base.{
  ℕ, ◌+◌, ◌*◌, ◌%◌, ◌≤◌, ◌≡◌, sym, subst, Option, some, [], ◌∷◌, if◌then◌else◌, ltb, nat_beq,
  length, ◌==◌, string_eq, arith, inl, inr, Bool-cases, if_both,
}
use js_libp2p.Base.Map
use js_libp2p.Base.Map.{Map}
use js_libp2p.Gossipsub.Router.{
  Options, Router, or_zero, or_empty, prune_backoff_ticks, backoff_slack,
}
use js_libp2p.Gossipsub.Router.Subscriptions.{unexpired, unexpired_topics, clear_backoff}
use js_libp2p.Gossipsub.Router.Lookups.{IsSafe, smaller-IsSafe}

abbrev expiry_in : Map String ℕ → String → ℕ
expiry_in m x = or_zero (Map.get m x)

expiry_in-delete :
    (m : Map String ℕ) (id x : String) → expiry_in (Map.delete m id) x ≤ expiry_in m x
expiry_in-delete m id x = ground (arith, Map.get-delete m id x)

expiry_in-unexpired :
    (now slack : ℕ) (entries m : Map String ℕ) (x : String)
    → expiry_in (unexpired now slack entries m) x ≤ expiry_in m x
unfolding unexpired
expiry_in-unexpired now slack [] m x = omega arith
expiry_in-unexpired now slack ((id, expire) ∷ entries) m x =
    let rest =
      expiry_in-unexpired now slack entries
        (if ltb (expire + slack) now then Map.delete m id else m) x in
    let first =
      if_both {y = m} (λ (n : Map String ℕ). expiry_in n x ≤ expiry_in m x)
        (ltb (expire + slack) now) (expiry_in-delete m id x) (omega arith) in
    omega (arith, rest, first)

abbrev expiry_of : Map String (Map String ℕ) → String → String → ℕ
expiry_of m topic x = expiry_in (or_empty (Map.get m topic)) x

expiry_of-delete :
    (m : Map String (Map String ℕ)) (t topic x : String)
    → expiry_of (Map.delete m t) topic x ≤ expiry_of m topic x
unfolding Map.get
expiry_of-delete m t topic x =
    subst (λ y. expiry_in (or_empty y) x ≤ expiry_of m topic x) (sym (Map.get-delete m t topic))
      (if_both {y = Map.get m topic}
        (λ (y : Option (Map String ℕ)). expiry_in (or_empty y) x ≤ expiry_of m topic x) (t == topic)
        (omega arith) (omega arith))

expiry_of-set :
    (m : Map String (Map String ℕ)) (t : String) (kept : Map String ℕ) (topic x : String)
    → expiry_in kept x ≤ expiry_of m t x
    → expiry_of (Map.set m t kept) topic x ≤ expiry_of m topic x
expiry_of-set m t kept topic x h = elim (Bool-cases (t == topic)) [
  | inl e ↦
      let same : t ≡ topic = (string_eq.same_iff t topic).0 e in
      let there : Map.get (Map.set m t kept) topic ≡ some kept =
        ground (arith, Map.get-set m t topic kept) in
      subst (λ y. expiry_in (or_empty y) x ≤ expiry_of m topic x) (sym there)
        (subst (λ y. expiry_in kept x ≤ expiry_of m y x) same h)
  | inr e ↦
      let there : Map.get (Map.set m t kept) topic ≡ Map.get m topic =
        ground (arith, Map.get-set m t topic kept) in
      subst (λ y. expiry_in (or_empty y) x ≤ expiry_of m topic x) (sym there) (omega arith)
]

expiry_of-unexpired_topics :
    (now slack : ℕ) (entries m : Map String (Map String ℕ)) (topic x : String)
    → expiry_of (unexpired_topics now slack entries m) topic x ≤ expiry_of m topic x
unfolding unexpired_topics
expiry_of-unexpired_topics now slack [] m topic x = omega arith
expiry_of-unexpired_topics now slack ((t, b) ∷ entries) m topic x =
    let backoff = or_empty (Map.get m t) in
    let kept = unexpired now slack backoff backoff in
    let rest =
      expiry_of-unexpired_topics now slack entries
        (if nat_beq (length kept) 0 then Map.delete m t else Map.set m t kept) topic x in
    let first =
      if_both (λ (n : Map String (Map String ℕ)). expiry_of n topic x ≤ expiry_of m topic x)
        (nat_beq (length kept) 0) (expiry_of-delete m t topic x)
        (expiry_of-set m t kept topic x (expiry_in-unexpired now slack backoff backoff x)) in
    omega (arith, rest, first)

pub clear_backoff-IsSafe :
    (o : Options) (now at_time : ℕ) (r : Router)
    → IsSafe now r
    → IsSafe now (clear_backoff o at_time r)
unfolding clear_backoff
clear_backoff-IsSafe o now at_time r s =
    let slack = backoff_slack * o.heartbeat_interval in
    let cleared : Router = record r {
      backoff = unexpired_topics at_time slack r.backoff r.backoff;
    } in
    if_both (IsSafe now) (nat_beq (r.heartbeat_ticks % prune_backoff_ticks) 0)
      (smaller-IsSafe now now r cleared (omega arith) (λ t x h. h)
        (λ t x. expiry_of-unexpired_topics at_time slack r.backoff r.backoff t x) s)
      s
