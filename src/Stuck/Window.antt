-- ===== src/Stuck/Window.antt =====
-- The window against the history of all calls.
use kinetic_sdk_agents.Prelude.{
  ℕ, zero, suc, ◌-◌, ◌≤◌, ◌<◌, ◌≡◌, refl, sym, ap, ◌∙◌, inl, inr, false, Bool-cases, List, [], ◌∷◌,
  ◌++◌, append-nil, append_assoc, length, drop, length-append, length-drop, arith, ltb, leb,
}
use kinetic_sdk_agents.Stuck.{Call, StuckDetector, push, occurrences, observe_call, observe_all}

-- The latest `n` calls of a history.
abbrev pub latest : ℕ → List Call → List Call
latest n h = drop (length h - n) h

drop-append_le : (n : ℕ) (xs ys : List Call) → n ≤ length xs → drop n (xs ++ ys) ≡ drop n xs ++ ys
drop-append_le zero xs ys h = refl
drop-append_le (suc n) [] ys h = elim h [ ]
drop-append_le (suc n) (x ∷ xs) ys h = drop-append_le n xs ys (omega arith)

drop-drop : (n : ℕ) (xs : List Call) → drop 1 (drop n xs) ≡ drop (suc n) xs
drop-drop zero [] = refl
drop-drop zero (x ∷ xs) = refl
drop-drop (suc n) [] = refl
drop-drop (suc n) (x ∷ xs) = drop-drop n xs

-- A push takes the latest calls of a history to the latest calls of the extended one.
push-latest :
    (n : ℕ) (c : Call) (h : List Call) → 1 ≤ n → push n c (latest n h) ≡ latest n (h ++ c ∷ [])
unfolding push
push-latest n c h pos = elim (Bool-cases (ltb (length (latest n h)) n)) [
  | inl room ↦
      let short : length h - n ≡ 0 = ground (arith, length-drop (length h - n) h) in
      let short' : length (h ++ c ∷ []) - n ≡ 0 =
        ground (arith, length-drop (length h - n) h, length-append h (c ∷ [])) in
      rw (room, short') (rw short refl)
  | inr full ↦
      let long : length (h ++ c ∷ []) - n ≡ suc (length h - n) =
        ground (arith, length-drop (length h - n) h, length-append h (c ∷ [])) in
      rw (full, long)
        (ap (drop 1) (sym (drop-append_le (length h - n) h (c ∷ []) (omega arith)))
          ∙ drop-drop (length h - n) (h ++ c ∷ []))
]

observe_all-latest :
    (cs h : List Call) (s : StuckDetector)
    → 1 ≤ s.window_size
    → s.calls ≡ latest s.window_size h
    → ((observe_all cs s).calls ≡ latest s.window_size (h ++ cs))
      × ((observe_all cs s).window_size ≡ s.window_size)
      × ((observe_all cs s).repeat_threshold ≡ s.repeat_threshold)
unfolding observe_all
observe_all-latest [] h s pos e = (rw (append-nil h) e, refl, refl)
observe_all-latest (c ∷ cs) h s pos e =
    let step : (observe_call c s).0.calls ≡ latest s.window_size (h ++ c ∷ []) =
      rw e (push-latest s.window_size c h pos) in
    let (calls, size, threshold) =
      observe_all-latest cs (h ++ c ∷ []) (observe_call c s).0 pos step in
    (calls ∙ rw (append_assoc h (c ∷ []) cs) refl, size, threshold)

pub observe_all-window :
    (h : List Call) (c : Call) (s : StuckDetector)
    → 1 ≤ s.window_size
    → s.calls ≡ []
    → ((observe_all h s).calls ≡ latest s.window_size h)
      × ((observe_call c (observe_all h s)).1
          ≡ leb s.repeat_threshold (occurrences c (latest s.window_size (h ++ c ∷ []))))
unfolding observe_call
observe_all-window h c s pos e =
    let short : 0 - s.window_size ≡ 0 = omega arith in
    let (calls, size, threshold) = observe_all-latest h [] s pos (rw short e) in
    (calls, rw (threshold, size, calls, push-latest s.window_size c h pos) refl)

occurrences-le : (c : Call) (ds : List Call) → occurrences c ds ≤ length ds
unfolding occurrences
occurrences-le c [] = omega arith
occurrences-le c (d ∷ ds) = ground (arith, occurrences-le c ds)

-- A threshold above the window size, which the constructor accepts, is never met.
observe_all-silent :
    (h : List Call) (c : Call) (s : StuckDetector)
    → 1 ≤ s.window_size
    → s.calls ≡ []
    → s.window_size < s.repeat_threshold
    → (observe_call c (observe_all h s)).1 ≡ false
observe_all-silent h c s pos e high =
    (observe_all-window h c s pos e).1
    ∙ ground (
      arith,
      occurrences-le c (latest s.window_size (h ++ c ∷ [])),
      length-drop (length (h ++ c ∷ []) - s.window_size) (h ++ c ∷ []),
    )
