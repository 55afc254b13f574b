-- ===== src/Mplex/Stream/Slices.antt =====
-- The loop of `sendData` of stream.ts, and its slices.
use mathlib.Core.List.{flatten}
use js_libp2p.Base.{
  ℕ, zero, suc, ◌<◌, ◌≤◌, ◌≡◌, refl, some, List, [], ◌∷◌, map, arith, length, take, drop, All,
  length-take, length-drop, take-append_drop,
}
use js_libp2p.Mplex.Stream.{slices, to_send, MplexStream, send_data, data_message}

abbrev pub IsSlice : ℕ → List ℕ → Type 0
IsSlice max s = (0 < length s) × (length s ≤ max)

to_send_bounds :
    (max : ℕ) (bytes : List ℕ)
    → 0 < max
    → 0 < length bytes
    → (0 < to_send max bytes) × (to_send max bytes ≤ length bytes) × (to_send max bytes ≤ max)
to_send_bounds max bytes h k = ground arith

slices_total :
    (fuel max : ℕ) (bytes : List ℕ)
    → 0 < max
    → length bytes ≤ fuel
    → (ss : List (List ℕ)) × (slices fuel max bytes ≡ some ss)
      × (flatten ss ≡ bytes)
      × All (IsSlice max) ss
unfolding slices flatten
slices_total fuel max [] h k = ([], refl, refl, tt)
slices_total zero max (b ∷ bs) h k = absurd (omega arith)
slices_total (suc fuel) max (b ∷ bs) h k =
    let n = to_send max (b ∷ bs) in
    let (lo, hi, top) = to_send_bounds max (b ∷ bs) h (omega arith) in
    let (ss, e, f, a) =
      slices_total fuel max (drop n (b ∷ bs)) h (omega (arith, length-drop n (b ∷ bs))) in
    (
      take n (b ∷ bs) ∷ ss,
      rw e,
      rw f (take-append_drop n (b ∷ bs)),
      ((omega (arith, length-take n (b ∷ bs) hi), omega (arith, length-take n (b ∷ bs) hi)), a),
    )

-- With a positive `maxDataSize` the loop ends, and sends the data in order in non-empty messages of
-- at most that size.
pub send_data_total :
    (s : MplexStream) (bytes : List ℕ)
    → 0 < s.max_data_size
    → (ss : List (List ℕ)) × (send_data s bytes ≡ some (map (data_message s) ss))
      × (flatten ss ≡ bytes)
      × All (IsSlice s.max_data_size) ss
unfolding send_data
send_data_total s bytes h =
    let (ss, e, f, a) = slices_total (length bytes) s.max_data_size bytes h (omega arith) in
    (ss, rw e, f, a)
