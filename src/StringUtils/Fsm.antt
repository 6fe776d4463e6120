-- ===== src/StringUtils/Fsm.antt =====
-- `SplitStringwithFSM` of src/base/StringUtils.cpp advances its position twice a round.
use tmms.Common.{ℕ, ◌≡◌, ◌≢◌, refl, ap, ◌∙◌, List, [], ◌∷◌, ◌++◌, ◌==◌, append_assoc, append-nil}
use tmms.StringUtils.{split_string_with_fsm, fsm_loop, normal}
use tmms.StringUtils.Paths.{Lacks}

-- Every other byte of a text, from the first on.
abbrev pub every_other : List ℕ → List ℕ
every_other [] = []
every_other (c ∷ []) = c ∷ []
every_other (c ∷ next ∷ cs) = c ∷ every_other cs

fsm_loop-Lacks :
    (s : List ℕ) (d : ℕ) (tmp : List ℕ) (result : List (List ℕ))
    → Lacks (λ c. c == d) s
    → fsm_loop normal s d tmp result ≡ (result, tmp ++ every_other s)
unfolding fsm_loop
fsm_loop-Lacks [] d tmp result h = rw append-nil
fsm_loop-Lacks (c ∷ []) d tmp result h = rw h.0
fsm_loop-Lacks (c ∷ next ∷ cs) d tmp result h = rw h.0 (
    fsm_loop-Lacks cs d (tmp ++ (c ∷ [])) result h.1.1
    ∙ ap (λ xs. (result, xs)) (append_assoc tmp (c ∷ []) (every_other cs)))

-- A text with no delimiter comes back as one part that has lost every second byte.
pub split_string_with_fsm_drops :
    (s : List ℕ) (d : ℕ)
    → s ≢ []
    → Lacks (λ c. c == d) s
    → split_string_with_fsm s d ≡ every_other s ∷ []
unfolding split_string_with_fsm
split_string_with_fsm_drops [] d ne h = absurd (ne refl)
split_string_with_fsm_drops (c ∷ []) d ne h = rw (fsm_loop-Lacks (c ∷ []) d [] [] h)
split_string_with_fsm_drops (c ∷ next ∷ cs) d ne h = rw (fsm_loop-Lacks (c ∷ next ∷ cs) d [] [] h)
