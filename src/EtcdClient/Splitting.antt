-- ===== src/EtcdClient/Splitting.antt =====
-- Building a key from its parts and splitting it.
use vecodex.Prelude.{◌≡◌, refl, ap, ◌∙◌, false, List, [], ◌∷◌, ◌++◌, ◌==◌}
use vecodex.EtcdClient.{Text, slash, path, split}

abbrev pub HasNoSlash : Text → Type 0
HasNoSlash [] = Unit {0}
HasNoSlash (c ∷ cs) = ((c == slash) ≡ false) × HasNoSlash cs

split-word : (s : Text) → HasNoSlash s → split s ≡ s ∷ []
unfolding split
split-word [] h = refl
split-word (c ∷ cs) h = rw (split, h.0, split-word cs h.1) refl

split-append : (s r : Text) → HasNoSlash s → split (s ++ slash ∷ r) ≡ s ∷ split r
unfolding split
split-append [] r h = refl
split-append (c ∷ cs) r h = rw (split, h.0, split-append cs r h.1) refl

abbrev pub HaveNoSlash : List Text → Type 0
HaveNoSlash [] = Unit {0}
HaveNoSlash (s ∷ parts) = HasNoSlash s × HaveNoSlash parts

-- The parts of a key, none of which has a "/", are found again by splitting it.
pub split-path :
    (s : Text) (parts : List Text) → HaveNoSlash (s ∷ parts) → split (path (s ∷ parts)) ≡ s ∷ parts
unfolding path
split-path s [] h = split-word s h.0
split-path s (t ∷ parts) h =
    split-append s (path (t ∷ parts)) h.0 ∙ ap (λ l. s ∷ l) (split-path t parts h.1)
