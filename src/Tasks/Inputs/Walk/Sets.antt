-- ===== src/Tasks/Inputs/Walk/Sets.antt =====
-- The sets of the walk as lists without repetition.
use kolyan.Prelude.{
  ◌+◌, ◌≡◌, ◌≤◌, refl, Bool, true, false, not, ◌&&◌, ◌||◌, List, [], ◌∷◌, ◌==◌, length, contains,
  filter, if◌then◌else◌, arith,
}
use kolyan.Ledger.{FactRef-Eq}
use kolyan.Tasks.Inputs.Walk.{CausalKey, insert_key, remove_key}

abbrev pub is_distinct : List CausalKey → Bool
is_distinct [] = true
is_distinct (k ∷ ks) = not (contains ks k) && is_distinct ks

pub contains-insert_key :
    (key k : CausalKey) (keys : List CausalKey)
    → contains (insert_key key keys) k ≡ (key == k || contains keys k)
unfolding insert_key contains
contains-insert_key key k keys = ground arith

pub length-insert_key :
    (key : CausalKey) (keys : List CausalKey)
    → contains keys key ≡ false
    → length (insert_key key keys) ≡ length keys + 1
unfolding insert_key
length-insert_key key keys h = ground arith

pub is_distinct-insert_key :
    (key : CausalKey) (keys : List CausalKey)
    → is_distinct keys ≡ true
    → is_distinct (insert_key key keys) ≡ true
unfolding insert_key
is_distinct-insert_key key keys h = ground arith

pub contains-remove_key :
    (key k : CausalKey) (keys : List CausalKey)
    → contains (remove_key key keys) k ≡ (not (key == k) && contains keys k)
unfolding remove_key contains filter
contains-remove_key key k [] = ground arith
contains-remove_key key k (j ∷ keys) = ground (arith, contains-remove_key key k keys)

-- No more than the key itself goes.
length-remove_absent :
    (key : CausalKey) (keys : List CausalKey)
    → contains keys key ≡ false
    → length (remove_key key keys) ≡ length keys
unfolding remove_key contains filter
length-remove_absent key [] h = refl
length-remove_absent key (j ∷ keys) h = ground (arith, length-remove_absent key keys)

pub length-remove_key :
    (key : CausalKey) (keys : List CausalKey)
    → is_distinct keys ≡ true
    → length keys ≤ length (remove_key key keys) + (if contains keys key then 1 else 0)
unfolding remove_key contains filter
length-remove_key key [] h = omega arith
length-remove_key key (j ∷ keys) h =
    ground (arith, length-remove_key key keys, length-remove_absent key keys)

pub is_distinct-remove_key :
    (key : CausalKey) (keys : List CausalKey)
    → is_distinct keys ≡ true
    → is_distinct (remove_key key keys) ≡ true
unfolding remove_key filter
is_distinct-remove_key key [] h = refl
is_distinct-remove_key key (j ∷ keys) h =
    ground (arith, is_distinct-remove_key key keys, contains-remove_key key j keys)
