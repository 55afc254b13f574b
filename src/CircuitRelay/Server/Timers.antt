-- ===== src/CircuitRelay/Server/Timers.antt =====
-- packages/transport-circuit-relay-v2/src/server/reservation-store.ts: the reservations and their timers
use mathlib.Core.Option.{some_inj}
use Prim.Native.String.{String}
use js_libp2p.Base.{
  ℕ, ◌≤◌, ◌<◌, ◌≡◌, ap, sym, subst, ◌∙◌, true, false, Option, none, some, ◌⊎◌, nat_beq, arith, ◌==◌,
  ==_refl, string_eq, nat_eq, Bool-cases, inl, inr,
}
use js_libp2p.Base.Map
use js_libp2p.Base.Map.{Map}
use js_libp2p.CircuitRelay.ReservationStore.{RelayReservation, ReservationStore, Timer}

pub same_text : (a b : String) → (a == b) ≡ true → a ≡ b
same_text a b = (string_eq.same_iff a b).0

abbrev pub timer_for : String → ℕ → Timer
timer_for p d = record { deadline = d; peer = p }

pub same_peer :
    (p q : String) (d e : ℕ) (o : Option Timer)
    → o ≡ some (timer_for p d)
    → o ≡ some (timer_for q e)
    → p ≡ q
same_peer p q d e o h k = ap (λ (t : Timer). t.peer) (some_inj.0 (sym h ∙ k))

module _ {A : Type 0} where
  -- The timer of a reservation of `p` runs, and does not end before `d`.
  pub record IsTimed (s : ReservationStore A) (p : String) (n d : ℕ) : Type 0 where
    pub ends : ℕ
    pub runs : Map.get s.signals n ≡ some (timer_for p ends)
    pub late : d ≤ ends

  pub record IsStore (s : ReservationStore A) : Type 0 where
    pub fresh : (n : ℕ) → s.next_signal ≤ n → Map.get s.signals n ≡ none
    pub linked :
        (p : String) (r : RelayReservation A)
        → Map.get s.reservations p ≡ some r
        → IsTimed s p r.signal 0

  pub record IsOf (s : ReservationStore A) (p : String) (n : ℕ) : Type 0 where
    pub reservation : RelayReservation A
    pub found : Map.get s.reservations p ≡ some reservation
    pub own : reservation.signal ≡ n

  -- Every signal of `p` that can still fire is the one of its reservation.
  abbrev pub IsOwned : ReservationStore A → String → Type 0
  IsOwned s p = (n d : ℕ) → Map.get s.signals n ≡ some (timer_for p d) → IsOf s p n

  pub record IsHeld (s : ReservationStore A) (p : String) (d : ℕ) : Type 0 where
    pub reservation : RelayReservation A
    pub found : Map.get s.reservations p ≡ some reservation
    pub timed : IsTimed s p reservation.signal d

  -- The two writes of a request that is granted.
  abbrev pub written : String → RelayReservation A → ℕ → ℕ → ReservationStore A → ReservationStore A
  written q r ends next s = record {
    reservations = Map.set s.reservations q r;
    signals = Map.set s.signals r.signal (timer_for q ends);
    next_signal = next;
  }

  -- The signal is of no other peer's reservation.
  abbrev pub IsOwn : ReservationStore A → String → RelayReservation A → Type 0
  IsOwn s q r =
      (p : String) (t : RelayReservation A)
      → Map.get s.reservations p ≡ some t
      → t.signal ≡ r.signal
      → q ≡ p

  pub written-IsTimed :
      (q p : String) (r t : RelayReservation A) (ends next d : ℕ) (s : ReservationStore A)
      → IsOwn s q r
      → (q == p) ≡ false
      → Map.get s.reservations p ≡ some t
      → IsTimed s p t.signal d
      → IsTimed (written q r ends next s) p t.signal d
  written-IsTimed q p r t ends next d s own other found timed = record {
    ends = timed.ends;
    runs =
        Map.get-set-other s.signals r.signal t.signal (timer_for q ends)
          (differs (Bool-cases (nat_beq r.signal t.signal)))
        ∙ timed.runs;
    late = timed.late;
  }
    where
      differs :
          (nat_beq r.signal t.signal ≡ true) ⊎ (nat_beq r.signal t.signal ≡ false)
          → nat_beq r.signal t.signal ≡ false
      differs (inl e) = cc (own p t found (ground (arith, e)), other, ==_refl q)
      differs (inr e) = e

  pub written-IsStore :
      (q : String) (r : RelayReservation A) (ends next : ℕ) (s : ReservationStore A)
      → IsOwn s q r
      → r.signal < next
      → s.next_signal ≤ next
      → IsStore s
      → IsStore (written q r ends next s)
  written-IsStore q r ends next s own l m h = record {
    fresh = λ n k.
        let other : nat_beq r.signal n ≡ false = ground (arith, l, k) in
        Map.get-set-other s.signals r.signal n (timer_for q ends) other
        ∙ h.fresh n (omega (arith, m, k));
    linked = λ p t g. elim (Bool-cases (q == p)) [
      | inl e ↦
          let same : q ≡ p = same_text q p e in
          let it : some r ≡ some t =
            sym (Map.get-set-own s.reservations q r)
            ∙ ap (Map.get (Map.set s.reservations q r)) same
            ∙ g in
          record {
            ends = ends;
            runs =
                ap
                  (λ (u : RelayReservation A).
                    Map.get (Map.set s.signals r.signal (timer_for q ends)) u.signal)
                  (sym (some_inj.0 it))
                ∙ Map.get-set-own s.signals r.signal (timer_for q ends)
                ∙ ap (λ u. some (timer_for u ends)) same;
            late = omega arith;
          }
      | inr e ↦
          let found : Map.get s.reservations p ≡ some t =
            sym (Map.get-set-other s.reservations q p r e) ∙ g in
          written-IsTimed q p r t ends next 0 s own e found (h.linked p t found)
    ];
  }

  pub written-IsOwned :
      (q p : String) (r : RelayReservation A) (ends next : ℕ) (s : ReservationStore A)
      → ((n d : ℕ) → Map.get s.signals n ≡ some (timer_for q d) → IsOwned s q → n ≡ r.signal)
      → IsOwned s p
      → IsOwned (written q r ends next s) p
  written-IsOwned q p r ends next s mine h n d g = elim (Bool-cases (nat_beq r.signal n)) [
    | inl e ↦
        let same : r.signal ≡ n = ground (arith, e) in
        let peer : q ≡ p =
          same_peer q p ends d (Map.get (Map.set s.signals r.signal (timer_for q ends)) n)
            (sym (ap (Map.get (Map.set s.signals r.signal (timer_for q ends))) same)
              ∙ Map.get-set-own s.signals r.signal (timer_for q ends))
            g in
        record {
          reservation = r;
          found =
              ap (Map.get (Map.set s.reservations q r)) (sym peer)
              ∙ Map.get-set-own s.reservations q r;
          own = same;
        }
    | inr e ↦
        let before : Map.get s.signals n ≡ some (timer_for p d) =
          sym (Map.get-set-other s.signals r.signal n (timer_for q ends) e) ∙ g in
        elim (Bool-cases (q == p)) [
          | inl f ↦
              let same : p ≡ q = sym (same_text q p f) in
              absurd (
                differs n e (
                  mine n d (subst (λ x. Map.get s.signals n ≡ some (timer_for x d)) same before)
                    (subst (IsOwned s) same h)))
          | inr f ↦
              let old = h n d before in
              record {
                reservation = old.reservation;
                found = Map.get-set-other s.reservations q p r f ∙ old.found;
                own = old.own;
              }
        ]
  ]
    where
      differs : (n : ℕ) → nat_beq r.signal n ≡ false → n ≡ r.signal → ⊥
      differs n e f = ground (arith, e, f)

  pub written_own-IsHeld :
      (q : String) (r : RelayReservation A) (ends next d : ℕ) (s : ReservationStore A)
      → d ≤ ends
      → IsHeld (written q r ends next s) q d
  written_own-IsHeld q r ends next d s l = record {
    reservation = r;
    found = Map.get-set-own s.reservations q r;
    timed = record {
      ends = ends;
      runs = Map.get-set-own s.signals r.signal (timer_for q ends);
      late = l;
    };
  }

  pub written-IsHeld :
      (q p : String) (r : RelayReservation A) (ends next d : ℕ) (s : ReservationStore A)
      → IsOwn s q r
      → d ≤ ends
      → IsHeld s p d
      → IsHeld (written q r ends next s) p d
  written-IsHeld q p r ends next d s own l h = elim (Bool-cases (q == p)) [
    | inl e ↦
        subst (λ x. IsHeld (written q r ends next s) x d) (same_text q p e)
          (written_own-IsHeld q r ends next d s l)
    | inr e ↦ record {
      reservation = h.reservation;
      found = Map.get-set-other s.reservations q p r e ∙ h.found;
      timed = written-IsTimed q p r h.reservation ends next d s own e h.found h.timed;
    }
  ]
