-- ===== src/Tasks/Completion/Reached.antt =====
-- What the loops of `cancel` do to the invocations and to the attempts.
use kolyan.Prelude.{
  ◌≡◌, refl, String, String-Eq, Bool, true, false, none, some, List, [], ◌∷◌, contains, is_some_and,
  ok, >>=-eq-ok, unwrap, unwrap-eq-ok, if◌then◌else◌, arith,
}
use kolyan.Prelude.Map
use kolyan.Prelude.Map.{Map, get-update}
use kolyan.Prelude.Sorted.{is_sorted, get-below}
use kolyan.Tasks.Types.{CancellationPolicy, AttemptSnapshot, InvocationSnapshot}
use kolyan.Tasks.Completion.{
  cancel_attempts, cancel_selected, cancelled_invocation, cancel_invocations,
}

-- The attempt is there and is to be cancelled.
abbrev pub is_requested : Map AttemptSnapshot → String → Bool
is_requested m a = is_some_and (Map.get a m) (λ attempt. attempt.cancellation_requested)

module _ (a : String) where
  cancel_attempts_keeps :
      (ids : List String) (m m' : Map AttemptSnapshot)
      → cancel_attempts ids m ≡ ok m'
      → is_requested m a ≡ true
      → is_requested m' a ≡ true
  unfolding cancel_attempts
  cancel_attempts_keeps [] m m' h r = ground arith
  cancel_attempts_keeps (id ∷ ids) m m' h r =
      let (attempt, found, rest) = >>=-eq-ok (unwrap (Map.get id m)) _ h in
      let next : AttemptSnapshot = record attempt { cancellation_requested = true } in
      cancel_attempts_keeps ids (Map.update id next m) m' rest
        (ground (arith, get-update id a next m))

  cancel_attempts_requests :
      (ids : List String) (m m' : Map AttemptSnapshot)
      → cancel_attempts ids m ≡ ok m'
      → contains ids a ≡ true
      → is_requested m' a ≡ true
  unfolding cancel_attempts contains
  cancel_attempts_requests [] m m' h c = cc
  cancel_attempts_requests (id ∷ ids) m m' h c =
      let (attempt, found, rest) = >>=-eq-ok (unwrap (Map.get id m)) _ h in
      let next : AttemptSnapshot = record attempt { cancellation_requested = true } in
      ground (
        arith,
        unwrap-eq-ok _ found,
        get-update id a next m,
        cancel_attempts_keeps ids (Map.update id next m) m' rest,
        cancel_attempts_requests ids (Map.update id next m) m' rest,
      )

  cancel_attempts_leaves :
      (ids : List String) (m m' : Map AttemptSnapshot)
      → cancel_attempts ids m ≡ ok m'
      → contains ids a ≡ false
      → Map.get a m' ≡ Map.get a m
  unfolding cancel_attempts contains
  cancel_attempts_leaves [] m m' h c = ground arith
  cancel_attempts_leaves (id ∷ ids) m m' h c =
      let (attempt, found, rest) = >>=-eq-ok (unwrap (Map.get id m)) _ h in
      let next : AttemptSnapshot = record attempt { cancellation_requested = true } in
      ground
        (arith, get-update id a next m, cancel_attempts_leaves ids (Map.update id next m) m' rest)

  first_keeps :
      (b : Bool) (ids : List String) (m m' : Map AttemptSnapshot)
      → (if b then cancel_attempts ids m else ok m) ≡ ok m'
      → is_requested m a ≡ true
      → is_requested m' a ≡ true
  first_keeps true ids m m' h r = cancel_attempts_keeps ids m m' h r
  first_keeps false ids m m' h r = ground arith

  first_requests :
      (b : Bool) (ids : List String) (m m' : Map AttemptSnapshot)
      → (if b then cancel_attempts ids m else ok m) ≡ ok m'
      → b ≡ true
      → contains ids a ≡ true
      → is_requested m' a ≡ true
  first_requests true ids m m' h t c = cancel_attempts_requests ids m m' h c
  first_requests false ids m m' h t c = cc

  first_leaves :
      (b : Bool) (ids : List String) (m m' : Map AttemptSnapshot)
      → (if b then cancel_attempts ids m else ok m) ≡ ok m'
      → (b ≡ true → contains ids a ≡ false)
      → Map.get a m' ≡ Map.get a m
  first_leaves true ids m m' h c = cancel_attempts_leaves ids m m' h (c refl)
  first_leaves false ids m m' h c = ground arith

  cancel_invocations_keeps :
      (policy : CancellationPolicy) (invs : Map InvocationSnapshot) (m : Map AttemptSnapshot)
      (found : Map InvocationSnapshot × Map AttemptSnapshot)
      → cancel_invocations policy invs m ≡ ok found
      → is_requested m a ≡ true
      → is_requested found.1 a ≡ true
  unfolding cancel_invocations
  cancel_invocations_keeps policy [] m found h r = ground arith
  cancel_invocations_keeps policy ((id, inv) ∷ invs) m found h r =
      let (m', first, then1) =
        >>=-eq-ok (if cancel_selected policy inv then cancel_attempts inv.attempts m else ok m) _
          h in
      let (rest, second, last) = >>=-eq-ok (cancel_invocations policy invs m') _ then1 in
      ground (
        arith,
        first_keeps (cancel_selected policy inv) inv.attempts m m' first,
        cancel_invocations_keeps policy invs m' rest second,
      )

  pub cancel_invocations_requests :
      (policy : CancellationPolicy) (id : String) (inv : InvocationSnapshot)
      (invs : Map InvocationSnapshot) (m : Map AttemptSnapshot)
      (found : Map InvocationSnapshot × Map AttemptSnapshot)
      → cancel_invocations policy invs m ≡ ok found
      → Map.get id invs ≡ some inv
      → cancel_selected policy inv ≡ true
      → contains inv.attempts a ≡ true
      → is_requested found.1 a ≡ true
  unfolding cancel_invocations Map.get
  cancel_invocations_requests policy id inv [] m found h f t c = cc
  cancel_invocations_requests policy id inv ((j, own) ∷ invs) m found h f t c =
      let (m', first, then1) =
        >>=-eq-ok (if cancel_selected policy own then cancel_attempts own.attempts m else ok m) _
          h in
      let (rest, second, last) = >>=-eq-ok (cancel_invocations policy invs m') _ then1 in
      ground (
        arith,
        first_requests (cancel_selected policy own) own.attempts m m' first,
        cancel_invocations_keeps policy invs m' rest second,
        cancel_invocations_requests policy id inv invs m' rest second,
      )

pub cancel_invocations_states :
    (policy : CancellationPolicy) (id : String) (invs : Map InvocationSnapshot)
    (m : Map AttemptSnapshot) (found : Map InvocationSnapshot × Map AttemptSnapshot)
    (inv : InvocationSnapshot)
    → cancel_invocations policy invs m ≡ ok found
    → Map.get id invs ≡ some inv
    → Map.get id found.0
      ≡ some (if cancel_selected policy inv then cancelled_invocation inv else inv)
unfolding cancel_invocations Map.get
cancel_invocations_states policy id [] m found inv h f = cc
cancel_invocations_states policy id ((j, own) ∷ invs) m found inv h f =
    let (m', first, then1) =
      >>=-eq-ok (if cancel_selected policy own then cancel_attempts own.attempts m else ok m) _ h in
    let (rest, second, last) = >>=-eq-ok (cancel_invocations policy invs m') _ then1 in
    ground (arith, cancel_invocations_states policy id invs m' rest inv second)

pub cancel_invocations_leaves :
    (policy : CancellationPolicy) (a : String) (invs : Map InvocationSnapshot)
    (m : Map AttemptSnapshot) (found : Map InvocationSnapshot × Map AttemptSnapshot)
    → cancel_invocations policy invs m ≡ ok found
    → is_sorted invs ≡ true
    → ((id : String) (inv : InvocationSnapshot)
        → Map.get id invs ≡ some inv
        → cancel_selected policy inv ≡ true
        → contains inv.attempts a ≡ false)
    → Map.get a found.1 ≡ Map.get a m
unfolding cancel_invocations is_sorted Map.get
cancel_invocations_leaves policy a [] m found h o other = ground arith
cancel_invocations_leaves policy a ((id, inv) ∷ invs) m found h o other =
    let (m', first, then1) =
      >>=-eq-ok (if cancel_selected policy inv then cancel_attempts inv.attempts m else ok m) _ h in
    let (rest, second, last) = >>=-eq-ok (cancel_invocations policy invs m') _ then1 in
    let below : Map.get id invs ≡ none = ground (arith, get-below id invs) in
    let head =
      first_leaves a (cancel_selected policy inv) inv.attempts m m' first
        (λ t. other id inv (ground arith) t) in
    let tail =
      cancel_invocations_leaves policy a invs m' rest second (ground arith)
        (λ j next f t. ground (arith, other j next)) in
    ground arith
