-- ===== src/Tasks/Inputs/Walk/Stack.antt =====
-- What a scan still enters and leaves, and what it has seen.
use kolyan.Prelude.{
  ◌≡◌, refl, String-Eq, ℕ-Eq, Bool, false, ◌||◌, List, [], ◌∷◌, ◌++◌, map, ◌==◌, contains, arith,
}
use kolyan.Ledger.{FactRef, FactRef-Eq}
use kolyan.Tasks.Inputs.Walk.{CausalKey, Walk, Scan, left}

-- A reference that the stack still enters, and a key that it still leaves.
abbrev pub due : List Walk → FactRef → Bool
due [] key = false
due (Walk.enter reference ∷ stack) key = reference == key || due stack key
due (Walk.exit _ ∷ stack) key = due stack key

abbrev pub leaves : List Walk → CausalKey → Bool
leaves [] key = false
leaves (Walk.enter _ ∷ stack) key = leaves stack key
leaves (Walk.exit left ∷ stack) key = left == key || leaves stack key

abbrev pub seen : Scan → CausalKey → Bool
seen scan key = contains scan.black key || contains scan.gray key

abbrev pub known : Scan → FactRef → Bool
known scan key = seen scan key || due scan.stack key

pub due-map :
    (causes : List FactRef) (key : FactRef) → due (map Walk.enter causes) key ≡ contains causes key
unfolding contains
due-map [] key = refl
due-map (cause ∷ causes) key = ground (arith, due-map causes key)

pub leaves-map :
    (causes : List FactRef) (key : FactRef) → leaves (map Walk.enter causes) key ≡ false
leaves-map [] key = refl
leaves-map (cause ∷ causes) key = leaves-map causes key

pub due-append :
    (causes : List FactRef) (stack : List Walk) (key : FactRef)
    → due (map Walk.enter causes ++ stack) key ≡ (contains causes key || due stack key)
unfolding contains
due-append [] stack key = refl
due-append (cause ∷ causes) stack key = ground (arith, due-append causes stack key)

pub leaves-append :
    (causes : List FactRef) (stack : List Walk) (key : FactRef)
    → leaves (map Walk.enter causes ++ stack) key ≡ leaves stack key
leaves-append [] stack key = refl
leaves-append (cause ∷ causes) stack key = leaves-append causes stack key
