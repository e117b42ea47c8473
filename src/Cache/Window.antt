-- ===== src/Cache/Window.antt =====
-- The frames in the k blocks from a place on, round the ring.
use ksg_canbus_rpi_sniffer.Prelude.{
  ℕ, zero, suc, ◌+◌, ◌%◌, ◌<◌, ◌≡◌, ◌≢◌, refl, ap, List, [], ◌∷◌, ◌++◌, length, get_or, set,
  get_or-set_self, get_or-set_ne, arith,
}
use mathlib.Core.Path.{ap₂}
use ksg_canbus_rpi_sniffer.Cache.Ring.{Frame}
use ksg_canbus_rpi_sniffer.Cache.Modular.{mod_once}

module _ (n : ℕ) where
  abbrev pub window : List Frame → ℕ → ℕ → List Frame
  window blocks t zero = []
  window blocks t (suc k) = get_or blocks t [] ∷ window blocks ((t + 1) % n) k

  pub length-window : (blocks : List Frame) (t k : ℕ) → length (window blocks t k) ≡ k
  length-window blocks t zero = refl
  length-window blocks t (suc k) = ap suc (length-window blocks ((t + 1) % n) k)

  -- A frame written behind a window extends it.
  pub window-set :
      (blocks : List Frame) (frame : Frame) (k t h : ℕ)
      → length blocks ≡ n
      → t < n
      → k < n
      → h ≡ (t + k) % n
      → window (set blocks h frame) t (suc k) ≡ window blocks t k ++ (frame ∷ [])
  window-set blocks frame zero t h hl ht hk e =
      let here : h ≡ t = ground (arith, mod_once n t 0) in
      ap (λ f. f ∷ []) (rw here (get_or-set_self blocks t frame [] (omega arith)))
  window-set blocks frame (suc k) t h hl ht hk e =
      let ne : h ≢ t = ground (arith, mod_once n t (suc k)) in
      let inside : (t + 1) % n < n = ground (arith, mod_once n t 1) in
      let on : h ≡ ((t + 1) % n + k) % n =
        ground (arith, mod_once n t 1, mod_once n t (suc k), mod_once n ((t + 1) % n) k) in
      ap₂ ◌∷◌ (get_or-set_ne blocks frame [] ne)
        (window-set blocks frame k ((t + 1) % n) h hl inside (omega arith) on)
