-- ===== src/Conversation/Cap.antt =====
-- The cap on the history against a closed form: the suffix that the loop leaves.
use kinetic_sdk_agents.Prelude.{
  ℕ, zero, suc, ◌-◌, max, ◌≡◌, refl, Option, none, some, List, [], ◌∷◌, ◌++◌, length, drop,
  length-append, Bool-cases, inl, inr, ltb, arith, ◌∙◌, sym, ltb→lt,
}
use kinetic_sdk_agents.Conversation.{Message, ConversationState, drop_oldest, capped, append}

drop-nil : (n : ℕ) → drop {A = Message} n [] ≡ []
drop-nil zero = refl
drop-nil (suc n) = refl

pub drop_oldest-drop :
    (cap : ℕ) (ms : List Message) → drop_oldest cap ms ≡ drop (length ms - max 1 cap) ms
unfolding drop_oldest
drop_oldest-drop cap [] = sym (drop-nil (0 - max 1 cap))
drop_oldest-drop cap (x ∷ []) = let e : 1 - max 1 cap ≡ 0 = omega arith in rw e
drop_oldest-drop cap (x ∷ y ∷ ms) = elim (Bool-cases (ltb cap (suc (suc (length ms))))) [
  | inl over ↦
      let e : suc (suc (length ms)) - max 1 cap ≡ suc (suc (length ms) - max 1 cap) =
        omega (arith, ltb→lt cap (suc (suc (length ms))) over) in
      rw (over, e) (drop_oldest-drop cap (y ∷ ms))
  | inr fits ↦ let e : suc (suc (length ms)) - max 1 cap ≡ 0 = ground arith in rw (fits, e)
]

-- The newest `max 1 cap` messages; all of them without a cap.
abbrev pub newest : Option ℕ → List Message → List Message
newest none ms = ms
newest (some cap) ms = drop (length ms - max 1 cap) ms

capped-newest : (cap : Option ℕ) (ms : List Message) → capped cap ms ≡ newest cap ms
unfolding capped
capped-newest none ms = refl
capped-newest (some cap) ms = drop_oldest-drop cap ms

-- Appending a message to a state keeps exactly the newest `max 1 cap` messages of the extended
-- history, in order (all of it without a cap), and touches no other field.
pub append-newest :
    (msg : Message) (s : ConversationState)
    → ((append msg s).messages ≡ newest s.max_messages (s.messages ++ msg ∷ []))
      × ((append msg s).system_prompt ≡ s.system_prompt)
      × ((append msg s).max_messages ≡ s.max_messages)
      × ((append msg s).metadata ≡ s.metadata)
unfolding append
append-newest msg s = (capped-newest s.max_messages (s.messages ++ msg ∷ []), refl, refl, refl)

-- Under a cap, a state whose history is within the cap loses its first message as soon as an
-- append passes the cap: the first user turn is not preserved.
append_drops_first :
    (msg first : Message) (rest : List Message) (s : ConversationState) (cap : ℕ)
    → s.max_messages ≡ some cap
    → s.messages ≡ first ∷ rest
    → suc (length rest) ≡ cap
    → (append msg s).messages ≡ rest ++ msg ∷ []
append_drops_first msg first rest s cap hc hm hl = (append-newest msg s).0 ∙ rw (hc, hm) (rw e refl)
  where
    e : length (first ∷ rest ++ msg ∷ []) - max 1 cap ≡ 1
    e = omega (arith, length-append rest (msg ∷ []))
