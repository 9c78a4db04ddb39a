-- ===== src/NpCoordinator/Laws.antt =====
-- What protocol/tracker/tracker_np_manager.cpp promises: which peer is found, and which peers
-- another one is sent to.
use rabbitstreamer.Prelude.{
  ◌⊎◌, fault, no_fuel, ℕ, zero, suc, refl, ◌+◌, ◌-◌, ◌*◌, ◌/◌, ◌≤◌, ◌<◌, ◌≡◌, Bool-cases, inl, inr,
  ◌||◌, ◌==◌, if◌then◌else◌, List, [], ◌∷◌, ◌++◌, Option, none, some, Result, ok, length,
  length-append, drop, All, arith,
}
use rabbitstreamer.CoreStruct.{PeerInfoWithAddr}
use rabbitstreamer.StdMap.{find, insert, update}
use rabbitstreamer.StdMap.Laws.{
  find_same, IsSorted, find-insert, find-update, insert-IsSorted, update-IsSorted,
}
use rabbitstreamer.StreamManager.{str_rank}
use rabbitstreamer.NpCoordinator.{
  NpNode, NpCoordinator, assign, get_node, insert_node, scan, pick, group_ids, rounds,
  get_np_address,
}
use rabbitstreamer.NpCoordinator.Rounds.{
  unused_groups, pick-le, pick-uses, Offers, All-drop, scan_lem,
}

All-append : {A : Type 0} (P : A → Type 0) (xs ys : List A) → All P xs → All P ys → All P (xs ++ ys)
All-append P [] ys a b = b
All-append P (x ∷ xs) ys a b = (a.0, All-append P xs ys a.1 b)

module _ (hash uuid : List ℕ) (block : ℕ) (m : NpCoordinator) where
  -- A list of at most `room` peers that can serve.
  abbrev Listed : ℕ → Result (List PeerInfoWithAddr) → Type 0
  Listed room r =
      (l : List PeerInfoWithAddr) × (r ≡ ok l)
      × All (Offers hash uuid block m) l
      × (length l ≤ room)

  module _ (rand : ℕ → ℕ) (nonzero : (i : ℕ) → 0 < rand i) where
    rounds-Listed :
        (fuel i : ℕ) (gs : List (Option ℕ)) (room : ℕ)
        → 0 < length gs
        → unused_groups gs < fuel
        → Listed room (rounds hash uuid block rand fuel i gs room m)
    unfolding rounds
    rounds-Listed zero i gs room some_group enough = absurd (omega arith)
    rounds-Listed (suc fuel) i gs room some_group enough =
        by_pick (pick rand i (length gs) gs (some 0)).0 refl
          (λ gs' room' h k. rounds-Listed fuel (i + length gs) gs' room' h k)
      where
        by_pick :
            (pos : Option ℕ)
            → (pick rand i (length gs) gs (some 0)).0 ≡ pos
            → ((gs' : List (Option ℕ)) (room' : ℕ)
                → 0 < length gs'
                → unused_groups gs' < fuel
                → Listed room' (rounds hash uuid block rand fuel (i + length gs) gs' room' m))
            → Listed room (rounds hash uuid block rand (suc fuel) i gs room m)
        by_pick none e ih = ([], ground (arith, e), tt, omega arith)
        by_pick (some p) e ih =
            let gs' = (pick rand i (length gs) gs (some 0)).1 in
            let found = (scan hash uuid block room (drop (p * 30) m)).0 in
            let early = (scan hash uuid block room (drop (p * 30) m)).1 in
            let (a, l) = scan_lem hash uuid block room (drop (p * 30) m) in
            let here = All-drop hash uuid block (p * 30) m found a in
            let used = pick-uses rand nonzero i (length gs) gs (some 0) p some_group e in
            let same = (pick-le rand nonzero i (length gs) gs (some 0)).1 in
            let (l', e', a', le') = ih gs' (room - length found) (omega arith) (omega arith) in
            elim (Bool-cases (early || (room - length found == 0))) [
              | inl stop ↦ (found, ground (arith, e, stop), here, l)
              | inr go ↦ (
                found ++ l',
                ground (arith, e, go, e'),
                All-append (Offers hash uuid block m) found l' here a',
                omega (arith, length-append found l'),
              )
            ]

  -- Whatever `rand` returns, what a bounded number of rounds lists is right.
  rounds_sound :
      (rand : ℕ → ℕ) (fuel i : ℕ) (gs : List (Option ℕ)) (room : ℕ)
      → Listed room (rounds hash uuid block rand fuel i gs room m)
        ⊎ (rounds hash uuid block rand fuel i gs room m ≡ fault no_fuel)
  unfolding rounds
  rounds_sound rand zero i gs room = inr refl
  rounds_sound rand (suc fuel) i gs room =
      by_pick (pick rand i (length gs) gs (some 0)).0 refl
        (λ gs' room'. rounds_sound rand fuel (i + length gs) gs' room')
    where
      by_pick :
          (pos : Option ℕ)
          → (pick rand i (length gs) gs (some 0)).0 ≡ pos
          → ((gs' : List (Option ℕ)) (room' : ℕ)
              → Listed room' (rounds hash uuid block rand fuel (i + length gs) gs' room' m)
                ⊎ (rounds hash uuid block rand fuel (i + length gs) gs' room' m ≡ fault no_fuel))
          → Listed room (rounds hash uuid block rand (suc fuel) i gs room m)
            ⊎ (rounds hash uuid block rand (suc fuel) i gs room m ≡ fault no_fuel)
      by_pick none e ih = inl ([], ground (arith, e), tt, omega arith)
      by_pick (some p) e ih =
          let gs' = (pick rand i (length gs) gs (some 0)).1 in
          let found = (scan hash uuid block room (drop (p * 30) m)).0 in
          let early = (scan hash uuid block room (drop (p * 30) m)).1 in
          let (a, l) = scan_lem hash uuid block room (drop (p * 30) m) in
          let here = All-drop hash uuid block (p * 30) m found a in
          elim (Bool-cases (early || (room - length found == 0))) [
            | inl stop ↦ inl (found, ground (arith, e, stop), here, l)
            | inr go ↦ elim (ih gs' (room - length found)) [
              | inl more ↦ inl (
                found ++ more.0,
                ground (arith, e, go, more.1),
                All-append (Offers hash uuid block m) found more.0 here more.2,
                omega (arith, length-append found more.0),
              )
              | inr out ↦ inr (ground (arith, e, go, out))
            ]
          ]

all_unused : (i n : ℕ) → unused_groups (group_ids i n) ≡ n
unfolding unused_groups group_ids
all_unused i zero = refl
all_unused i (suc n) = omega (arith, all_unused (suc i) n)

length-group_ids : (i n : ℕ) → length (group_ids i n) ≡ n
unfolding group_ids
length-group_ids i zero = refl
length-group_ids i (suc n) = omega (arith, length-group_ids (suc i) n)

-- Where no call of `rand` returns 0, one round more than there are groups is enough.
pub get_np_address-ends :
    (rand : ℕ → ℕ) (hash uuid : List ℕ) (count block : ℕ) (m : NpCoordinator)
    → ((i : ℕ) → 0 < rand i)
    → (l : List PeerInfoWithAddr) × (get_np_address rand hash uuid count block m ≡ ok l)
      × All (Offers hash uuid block m) l
      × (length l ≤ count)
unfolding get_np_address
get_np_address-ends rand hash uuid count block m nonzero =
    let n = length m / 30 + 1 in
    rounds-Listed hash uuid block m rand nonzero (suc n) 1 (group_ids 0 n) count
      (omega (arith, length-group_ids 0 n)) (omega (arith, all_unused 0 n))

get_np_address_sound :
    (rand : ℕ → ℕ) (hash uuid : List ℕ) (count block : ℕ) (m : NpCoordinator)
    → Listed hash uuid block m count (get_np_address rand hash uuid count block m)
      ⊎ (get_np_address rand hash uuid count block m ≡ fault no_fuel)
unfolding get_np_address
get_np_address_sound rand hash uuid count block m =
    let n = length m / 30 + 1 in rounds_sound hash uuid block m rand (suc n) 1 (group_ids 0 n) count

-- Whatever `rand` returns, one of two things happens. Either `get_np_address` ends, after at most
-- one round more than there are groups: its list has at most as many entries as asked for, and each
-- of them is the core information and the address of a known peer whose UUID differs from the asking
-- one's not only in capitals, whose channel has the hash, and whose blocks include the one asked
-- for. Or it goes on for more rounds than that, and then not every call of `rand` returns more than
-- 0: a call that returns 0 picks no group, so a round in which all do starts at the first group
-- again.
pub get_np_address_lem :
    (rand : ℕ → ℕ) (hash uuid : List ℕ) (count block : ℕ) (m : NpCoordinator)
    → ((l : List PeerInfoWithAddr) × (get_np_address rand hash uuid count block m ≡ ok l)
        × All (Offers hash uuid block m) l
        × (length l ≤ count))
      ⊎ ((get_np_address rand hash uuid count block m ≡ fault no_fuel) × (¬ ((i : ℕ) → 0 < rand i)))
get_np_address_lem rand hash uuid count block m =
    elim (get_np_address_sound rand hash uuid count block m) [
      | inl listed ↦ inl listed
      | inr on ↦ inr (
        on,
        λ nonzero.
            let ends = get_np_address-ends rand hash uuid count block m nonzero in
            ground (arith, on, ends.1),
      )
    ]

module _ (digits : List ℕ) (node : NpNode) (m : NpCoordinator) where
  insert_node-new :
      get_node digits m ≡ none
      → insert_node digits node m ≡ (insert str_rank digits (assign node) m).0
  unfolding insert_node
  insert_node-new e = ground (arith, e)

  insert_node-known :
      (old : NpNode)
      → get_node digits m ≡ some old
      → insert_node digits node m ≡ update str_rank digits (λ o. assign node) m
  unfolding insert_node
  insert_node-known old e = ground (arith, e)

-- A peer that is inserted is afterwards found under every UUID that equals its own up to capitals,
-- as the copy that `NPNode::operator=` makes, in which the number of incoming connections is the
-- average time of these; under every other UUID nothing changes, and the map stays in order.
pub get_node-insert_node :
    (digits other : List ℕ) (node : NpNode) (m : NpCoordinator)
    → IsSorted str_rank 0 m
    → IsSorted str_rank 0 (insert_node digits node m)
      × (get_node other (insert_node digits node m) ≡ (
          if str_rank other == str_rank digits
          then some (record node {
            incoming_connection_count = node.avg_incoming_connection_elapsed_time;
          })
          else get_node other m))
unfolding get_node assign
get_node-insert_node digits other node m s = by_case (find str_rank digits m) refl
  where
    by_case :
        (found : Option NpNode)
        → find str_rank digits m ≡ found
        → IsSorted str_rank 0 (insert_node digits node m)
          × (get_node other (insert_node digits node m) ≡ (
              if str_rank other == str_rank digits
              then some (record node {
                incoming_connection_count = node.avg_incoming_connection_elapsed_time;
              })
              else get_node other m))
    by_case none e = rw (insert_node-new digits node m e) (
      insert-IsSorted str_rank 0 digits (assign node) m s (omega arith),
      find-insert str_rank 0 digits other (assign node) m s e,
    )
    by_case (some old) e = rw (insert_node-known digits node m old e) (
      update-IsSorted str_rank 0 digits (λ o. assign node) m s,
      ground (
        arith,
        find-update str_rank 0 digits other (λ o. assign node) m s,
        find_same str_rank digits other m,
      ),
    )
