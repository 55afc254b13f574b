-- ===== src/CircuitRelay/Server/Effects.antt =====
-- packages/transport-circuit-relay-v2/src/server/reservation-store.ts: what requests, removals and timers do
use mathlib.Core.Option.{some_inj}
use Prim.Native.String.{String}
use js_libp2p.Base.{
  ℕ, suc, ◌+◌, ◌≤◌, ◌<◌, ◌≡◌, refl, ap, sym, ◌∙◌, false, Option, none, some, leb, arith, ◌==◌,
  ==_refl, string_eq, nat_eq, Bool-cases, inl, inr, if_both,
}
use js_libp2p.Base.Map
use js_libp2p.Base.Map.{Map}
use js_libp2p.CircuitRelay.ReservationStore.{
  RelayReservation, ReservationStore, StoreInit, Timer, refresh, remove_reservation, on_abort,
}
use js_libp2p.CircuitRelay.Server.Timers.{
  same_text, timer_for, same_peer, IsStore, IsOwned, IsHeld, written, IsOwn,
}

module _ {A : Type 0} where
  -- What is written when a request of `q` is granted.
  pub record IsGrant (s : ReservationStore A) (q : String) (r : RelayReservation A) (next : ℕ)
      : Type 0 where
    pub own : IsOwn s q r
    pub below : r.signal < next
    pub above : s.next_signal ≤ next
    pub mine : (n d : ℕ) → Map.get s.signals n ≡ some (timer_for q d) → IsOwned s q → n ≡ r.signal

  known-below :
      (s : ReservationStore A) (n : ℕ) (t : Timer)
      → IsStore s
      → Map.get s.signals n ≡ some t
      → n < s.next_signal
  known-below s n t h g = elim (Bool-cases (leb s.next_signal n)) [
    | inl e ↦ cc (h.fresh n (ground (arith, e)), g)
    | inr e ↦ ground (arith, e)
  ]

  refresh-IsGrant :
      (s : ReservationStore A) (q : String) (r : RelayReservation A)
      → IsStore s
      → Map.get s.reservations q ≡ some r
      → IsGrant s q r s.next_signal
  refresh-IsGrant s q r h g =
      let timed = h.linked q r g in
      record {
        own = λ p t f e.
            let other = h.linked p t f in
            same_peer q p timed.ends other.ends (Map.get s.signals r.signal) timed.runs
              (ap (Map.get s.signals) (sym e) ∙ other.runs);
        below = known-below s r.signal (timer_for q timed.ends) h timed.runs;
        above = omega arith;
        mine = λ n d f o.
            let it = o n d f in
            sym it.own ∙ ap (λ (u : RelayReservation A). u.signal) (some_inj.0 (sym it.found ∙ g));
      }

  new-IsGrant :
      (s : ReservationStore A) (q : String) (r : RelayReservation A)
      → IsStore s
      → Map.get s.reservations q ≡ none
      → r.signal ≡ s.next_signal
      → IsGrant s q r (suc s.next_signal)
  new-IsGrant s q r h g e = record {
    own = λ p t f k.
        let timed = h.linked p t f in
        let below : t.signal < s.next_signal =
          known-below s t.signal (timer_for p timed.ends) h timed.runs in
        absurd (omega (arith, below, k, e));
    below = omega (arith, e);
    above = omega arith;
    mine = λ n d f o. let it = o n d f in cc (it.found, g);
  }

  -- What a request does to the reservations.
  pub reserve_with-granted :
      (P : ReservationStore A → Type 0) (init : StoreInit) (q : String) (addr : A) (now : ℕ)
      (s : ReservationStore A)
      → IsStore s
      → ((r : RelayReservation A) (next : ℕ)
          → IsGrant s q r next
          → P (written q r (now + init.reservation_ttl) next s))
      → (o : Option (RelayReservation A)) → Map.get s.reservations q ≡ o
      → P (refresh init q addr none now s o)
  reserve_with-granted P init q addr now s h f none e =
      f _ (suc s.next_signal) (new-IsGrant s q _ h e refl)
  reserve_with-granted P init q addr now s h f (some r) e =
      f r s.next_signal (refresh-IsGrant s q r h e)

  -- A reservation is removed.
  pub removed-IsStore :
      (q : String) (s : ReservationStore A) → IsStore s → IsStore (remove_reservation q s)
  unfolding remove_reservation
  removed-IsStore q s h = record {
    fresh = h.fresh;
    linked = λ p t g.
        let timed = h.linked p t (Map.get-delete-found s.reservations q p t g).1 in
        record { ends = timed.ends; runs = timed.runs; late = timed.late };
  }

  pub removed-IsOwned :
      (q p : String) (s : ReservationStore A)
      → (q == p) ≡ false
      → IsOwned s p
      → IsOwned (remove_reservation q s) p
  unfolding remove_reservation
  removed-IsOwned q p s e h n d g =
      let it = h n d g in
      record {
        reservation = it.reservation;
        found = Map.get-delete-other s.reservations q p e ∙ it.found;
        own = it.own;
      }

  pub removed-IsHeld :
      (q p : String) (d : ℕ) (s : ReservationStore A)
      → (q == p) ≡ false
      → IsHeld s p d
      → IsHeld (remove_reservation q s) p d
  unfolding remove_reservation
  removed-IsHeld q p d s e h = record {
    reservation = h.reservation;
    found = Map.get-delete-other s.reservations q p e ∙ h.found;
    timed = record { ends = h.timed.ends; runs = h.timed.runs; late = h.timed.late };
  }

  -- A timer that runs for another peer is another one.
  other_signal :
      (s : ReservationStore A) (n m : ℕ) (t : Timer) (p : String) (d : ℕ)
      → Map.get s.signals n ≡ some t
      → Map.get s.signals m ≡ some (timer_for p d)
      → (t.peer == p) ≡ false
      → (n == m) ≡ false
  other_signal s n m t p d g k e = elim (Bool-cases (n == m)) [
    | inl f ↦
        let same : n ≡ m = (nat_eq.same_iff n m).0 f in
        let peer : t.peer ≡ p =
          ap (λ (u : Timer). u.peer) (some_inj.0 (sym g ∙ ap (Map.get s.signals) same ∙ k)) in
        cc (peer, e, ==_refl p)
    | inr f ↦ f
  ]

  pub fired-IsStore :
      (n : ℕ) (t : Timer) (s : ReservationStore A)
      → Map.get s.signals n ≡ some t
      → IsStore s
      → IsStore (on_abort n s (some t))
  fired-IsStore n t s g h = record {
    fresh = λ m k.
        Map.get-delete s.signals n m
        ∙ if_both {x = none} {y = Map.get s.signals m} (λ (o : Option Timer). o ≡ none) (n == m)
            refl (h.fresh m k);
    linked = λ p r k.
        let (other, found) = Map.get-delete-found s.reservations t.peer p r k in
        let timed = h.linked p r found in
        record {
          ends = timed.ends;
          runs =
              Map.get-delete-other s.signals n r.signal
                (other_signal s n r.signal t p timed.ends g timed.runs other)
              ∙ timed.runs;
          late = timed.late;
        };
  }

  pub fired-IsOwned :
      (n : ℕ) (t : Timer) (p : String) (s : ReservationStore A)
      → Map.get s.signals n ≡ some t
      → IsOwned s p
      → IsOwned (on_abort n s (some t)) p
  fired-IsOwned n t p s g h m d k =
      let (other, before) = Map.get-delete-found s.signals n m (timer_for p d) k in
      let it = h m d before in
      elim (Bool-cases (t.peer == p)) [
        | inl e ↦
            let same : t ≡ timer_for p t.deadline =
              ap (λ x. timer_for x t.deadline) (same_text t.peer p e) in
            let fired = h n t.deadline (g ∙ ap some same) in
            let equal : n ≡ m =
              sym fired.own
              ∙ ap (λ (u : RelayReservation A). u.signal) (some_inj.0 (sym fired.found ∙ it.found))
              ∙ it.own in
            cc (equal, other, ==_refl n)
        | inr e ↦ record {
          reservation = it.reservation;
          found = Map.get-delete-other s.reservations t.peer p e ∙ it.found;
          own = it.own;
        }
      ]

  pub fired-IsHeld :
      (n now : ℕ) (t : Timer) (p : String) (d : ℕ) (s : ReservationStore A)
      → Map.get s.signals n ≡ some t
      → t.deadline ≤ now
      → now < d
      → IsOwned s p
      → IsHeld s p d
      → IsHeld (on_abort n s (some t)) p d
  fired-IsHeld n now t p d s g l m o h = elim (Bool-cases (t.peer == p)) [
    | inl e ↦
        let same : t ≡ timer_for p t.deadline =
          ap (λ x. timer_for x t.deadline) (same_text t.peer p e) in
        let fired = o n t.deadline (g ∙ ap some same) in
        let signal : h.reservation.signal ≡ n =
          ap (λ (u : RelayReservation A). u.signal) (some_inj.0 (sym h.found ∙ fired.found))
          ∙ fired.own in
        let ends : h.timed.ends ≡ t.deadline =
          ap (λ (u : Timer). u.deadline)
            (some_inj.0 (sym h.timed.runs ∙ ap (Map.get s.signals) signal ∙ g)) in
        absurd (omega (arith, ends, l, m, h.timed.late))
    | inr e ↦ record {
      reservation = h.reservation;
      found = Map.get-delete-other s.reservations t.peer p e ∙ h.found;
      timed = record {
        ends = h.timed.ends;
        runs =
            Map.get-delete-other s.signals n h.reservation.signal
              (other_signal s n h.reservation.signal t p h.timed.ends g h.timed.runs e)
            ∙ h.timed.runs;
        late = h.timed.late;
      };
    }
  ]
