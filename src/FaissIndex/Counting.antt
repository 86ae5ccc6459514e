-- ===== src/FaissIndex/Counting.antt =====
-- Distinct positions among the erased ones are at most as many as those (pigeonhole).
use vecodex.Prelude.{
  ℕ, suc, ◌≢◌, ◌≤◌, ◌≡◌, refl, true, false, List, [], ◌∷◌, nat_key, member, length, if◌then◌else◌,
  arith, ite, ℕ_discrete,
}

abbrev pub IsDistinct : List ℕ → Type 0
IsDistinct [] = Unit
IsDistinct (p ∷ ps) = (member p ps ≡ false) × IsDistinct ps

-- How many of `ps` are in `er`.
unfoldable pub hidden : List ℕ → List ℕ → ℕ
hidden er [] = 0
hidden er (p ∷ ps) = let n = hidden er ps in if member p er then suc n else n

drop_one : ℕ → List ℕ → List ℕ
drop_one p [] = []
drop_one p (q ∷ qs) = ite (ℕ_discrete q p) qs (q ∷ drop_one p qs)

length-drop_one :
    (p : ℕ) (qs : List ℕ) → member p qs ≡ true → suc (length (drop_one p qs)) ≡ length qs
unfolding drop_one member
length-drop_one p [] h = cc
length-drop_one p (q ∷ qs) h = ground (arith, length-drop_one p qs)

member-drop_one : (p r : ℕ) (qs : List ℕ) → p ≢ r → member r (drop_one p qs) ≡ member r qs
unfolding drop_one member
member-drop_one p r [] h = refl
member-drop_one p r (q ∷ qs) h = ground (arith, member-drop_one p r qs h)

hidden-drop_one :
    (er : List ℕ) (p : ℕ) (ps : List ℕ)
    → member p ps ≡ false
    → hidden (drop_one p er) ps ≡ hidden er ps
unfolding hidden member
hidden-drop_one er p [] h = refl
hidden-drop_one er p (r ∷ ps) h = ground (arith, hidden-drop_one er p ps, member-drop_one p r er)

pub hidden-le : (er ps : List ℕ) → IsDistinct ps → hidden er ps ≤ length er
unfolding hidden
hidden-le er [] h = omega arith
hidden-le er (p ∷ ps) h = ground (
  arith,
  hidden-le er ps h.1,
  hidden-le (drop_one p er) ps h.1,
  hidden-drop_one er p ps h.0,
  length-drop_one p er,
)
