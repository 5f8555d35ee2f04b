-- ===== src/Budget/Repetition/Laws.antt =====
-- The breaker trips exactly on a run of identical calls that is longer than its limit.
use kinetic_sdk_agents.Prelude.{
  ℕ, suc, ◌<◌, ◌≡◌, refl, ◌↔◌, inl, inr, true, Bool-cases, Option, none, some, List, [], ◌∷◌, arith,
  if◌then◌else◌, err, eq_iff,
}
use kinetic_sdk_agents.Budget.Repetition.{
  Key, same_key, Breaker, repetition_limit, count_key, record_key, reset, after,
}

-- How many calls at the newest end of a history are the same as the newest.
abbrev pub run_length : List Key → ℕ
run_length [] = 0
run_length (k ∷ []) = 1
run_length (k ∷ j ∷ older) = if same_key k j then suc (run_length (j ∷ older)) else 1

abbrev newest : List Key → Option Key
newest [] = none
newest (k ∷ older) = some k

-- What the fields hold after a history, counted from a reset.
record Tracks (h : List Key) (limit : ℕ) (b : Breaker) : Type 0 where
  counted : b.count ≡ run_length h
  kept : b.max_repeats ≡ limit
  last : b.last_key ≡ newest h

same_key→eq : (k j : Key) → same_key k j ≡ true → k ≡ j
same_key→eq k j h = ground (arith, eq_iff k.tool_name j.tool_name, eq_iff k.arguments j.arguments)

count_key-Tracks :
    (k : Key) (h : List Key) (limit : ℕ) (b : Breaker)
    → Tracks h limit b
    → Tracks (k ∷ h) limit (count_key k b)
unfolding count_key
count_key-Tracks k [] limit b t = rw t.last (record { counted = refl; kept = t.kept; last = refl })
count_key-Tracks k (j ∷ older) limit b t = elim (Bool-cases (same_key k j)) [
  | inl same ↦
      rw (t.last, same)
        (record {
          counted = rw same (omega (arith, t.counted));
          kept = t.kept;
          last = cc (same_key→eq k j same);
        })
  | inr new ↦ rw (t.last, new) (record { counted = rw new refl; kept = t.kept; last = refl })
]

after-Tracks : (h : List Key) (b : Breaker) → Tracks h b.max_repeats (after h (reset b))
unfolding after reset
after-Tracks [] b = record { counted = refl; kept = refl; last = refl }
after-Tracks (k ∷ older) b = count_key-Tracks k older b.max_repeats _ (after-Tracks older b)

-- After any history of calls since a reset, recording a call counts the length of the run of
-- identical calls that it ends, and raises exactly if that run is longer than the limit.
pub record_key-run :
    (k : Key) (h : List Key) (b : Breaker)
    → let r = record_key k (after h (reset b)) in
      (r.0.count ≡ run_length (k ∷ h))
      × ((r.1 ≡ err repetition_limit) ↔ (b.max_repeats < run_length (k ∷ h)))
unfolding record_key
record_key-run k h b =
    let t = count_key-Tracks k h b.max_repeats _ (after-Tracks h b) in
    (t.counted, ground (arith, t.counted, t.kept))
